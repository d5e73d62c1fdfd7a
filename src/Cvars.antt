-- ===== src/Cvars.antt =====
-- Reading variables: src/cvar.c, and `SV_IsLegacyMap` of src/sv_client.c. `Cvar_FindVar` is code of
-- the game binary, and a parameter. `Cvar_VariableValue`, which gives a `float`, is left out.
use codextended.Prelude.{
  ℕ, Bool, true, false, ◌||◌, ◌==◌, Option, none, some, List, [], ◌∷◌, ℤ, pos, eqb_ℤ, if◌then◌else◌,
  Bytes, codes, Outcome, ok,
}
use codextended.Strings.{q_strncpyz, stricmp}

-- `cvar_t`; the value that waits for a restart may be missing.
pub record Cvar : Type 0 where
  pub string : Bytes
  pub latched_string : Option Bytes
  pub integer : ℤ

abbrev pub legacy_maps : List Bytes
legacy_maps =
    codes "mp_harbor"
    ∷ codes "mp_carentan"
    ∷ codes "mp_brecourt"
    ∷ codes "mp_bocage"
    ∷ codes "mp_chateau"
    ∷ codes "mp_hurtgen"
    ∷ codes "mp_neuville"
    ∷ codes "mp_pavlov"
    ∷ codes "mp_powcamp"
    ∷ codes "mp_railyard"
    ∷ codes "mp_stalingrad"
    ∷ codes "mp_tigertown"
    ∷ []

-- `strcasecmp` against each name.
unfoldable pub is_among : Bytes → List Bytes → Bool
is_among map [] = false
is_among map (name ∷ names) =
    let rest = is_among map names in if eqb_ℤ (stricmp map name) (pos 0) then true else rest

module _ (find_var : Bytes → Option Cvar) where
  unfoldable pub cvar_variable_integer_value : Bytes → ℤ
  cvar_variable_integer_value name = elim (find_var name) [ none ↦ pos 0 | some v ↦ v.integer ]

  unfoldable pub cvar_variable_string : Bytes → Bytes
  cvar_variable_string name = elim (find_var name) [ none ↦ [] | some v ↦ v.string ]

  -- What the buffer of `bufsize` bytes holds after.
  unfoldable pub cvar_variable_string_buffer : Bytes → ℕ → Outcome Bytes
  cvar_variable_string_buffer name bufsize = elim (find_var name) [
    | none ↦ ok []
    | some v ↦ q_strncpyz v.string bufsize
  ]

  unfoldable pub cvar_latched_variable_string_buffer : Bytes → ℕ → Outcome Bytes
  cvar_latched_variable_string_buffer name bufsize = elim (find_var name) [
    | none ↦ ok []
    | some v ↦ elim v.latched_string [
      | none ↦ q_strncpyz v.string bufsize
      | some latched ↦ q_strncpyz latched bufsize
    ]
  ]

  unfoldable pub sv_is_legacy_map : Bool
  sv_is_legacy_map = is_among (cvar_variable_string (codes "mapname")) legacy_maps

-- The bytes of `annoy`.
unfoldable pub is_in_set : ℕ → Bool
is_in_set c = c == b'.' || c == b',' || c == b'_' || c == b'-' || c == b' '
