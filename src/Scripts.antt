-- ===== src/Scripts.antt =====
-- What scripts find, in src/script.c: the functions and methods that the extension adds, the names of
-- types, the callback of the chat, and the errors that are kept. `Scr_GetFunction`, `Scr_GetMethod`
-- and the running of scripts are code of the game binary: their answers are arguments.
use codextended.Prelude.{
  ℕ, ltb, Bool, true, false, not, ◌||◌, if◌then◌else◌, Option, none, some, List, [], ◌∷◌, ◌++◌,
  length, take, ℤ, Bytes, codes, Outcome, ok, err, err_drop,
}
use codextended.Net.{bytes_eq}
use codextended.Strings.Search.{starts_with}

-- `SCRIPTFUNCTION`: `call` stands for the function's address.
pub record ScriptFunction : Type 0 where
  pub name : Bytes
  pub call : ℕ
  pub developer : ℤ

-- The loop over `scriptFunctions` or `scriptMethods`.
unfoldable pub custom_loop : List ScriptFunction → Bytes → Option ScriptFunction
custom_loop [] fname = none
custom_loop (f ∷ fs) fname =
    let rest = custom_loop fs fname in if bytes_eq fname f.name then some f else rest

-- A function of the game goes before one of the extension with its name.
unfoldable pub scr_get_custom :
    List ScriptFunction → Option ScriptFunction → Bytes → Option ScriptFunction
scr_get_custom table (some m) fname = some m
scr_get_custom table none fname = custom_loop table fname

-- The numbers of the types that have a name of their own.
pub data VariableType : Type 0 where
  vt_undefined vt_string vt_localized_string vt_vector vt_float vt_int vt_object vt_array vt_other :
      VariableType

unfoldable pub scr_get_variable_type : VariableType → Bytes
scr_get_variable_type vt_undefined = codes "undefined"
scr_get_variable_type vt_int = codes "integer"
scr_get_variable_type vt_float = codes "float"
scr_get_variable_type vt_string = codes "string"
scr_get_variable_type vt_vector = codes "vector"
scr_get_variable_type vt_localized_string = codes "localized-string"
scr_get_variable_type vt_object = codes "object"
scr_get_variable_type vt_array = codes "array"
scr_get_variable_type vt_other = codes "undefined"

-- `scr_return`, which a script sets to keep the game from going on: the answer, and the flag after.
unfoldable pub scr_continue : Bool → Bool × Bool
scr_continue scr_return = (not scr_return, false)

abbrev pub max_error_buffer : ℕ
max_error_buffer = 64

-- `scr_error_t`; the two texts are cut to their arrays.
pub record ScriptError : Type 0 where
  pub internal_function : Bytes
  pub message : Bytes

-- What happens: the callback is run with the two texts, the error is kept, or nothing.
pub record Reported : Type 0 where
  pub errors : List ScriptError
  pub called : Bool

-- `active` is the test that there is a callback, that scripts run, and that no error is being
-- handled.
unfoldable pub scr_code_callback_error :
    Bool → Bool → Bool → Bytes → Bytes → List ScriptError → Outcome Reported
scr_code_callback_error active terminal emit internal_function message errors =
    let kept : ScriptError = record {
      internal_function = take 64 internal_function;
      message = take 1024 message;
    } in
    if not active
    then ok (record { errors = errors; called = false })
    else if starts_with (codes "exceeded maximum number of script variables") message
    then err err_drop
    else if terminal || emit
    then ok (record { errors = errors; called = true })
    else if ltb (length errors) max_error_buffer
    then ok (record { errors = errors ++ kept ∷ []; called = false })
    else ok (record { errors = errors; called = false })

-- `text` is what `vsnprintf` makes of the arguments, here cut to the 1022 bytes that it writes.
unfoldable pub stack_error : Bool → Bytes → List ScriptError → Outcome Reported
stack_error active text errors =
    scr_code_callback_error active false false (codes "stackError") (take 1022 text ++ b'\n' ∷ [])
      errors
