-- ===== src/Examples.antt =====
-- Tests of the model on small inputs, and each theorem at an input where its hypotheses hold.
mod StringsAt
mod BansAt
mod AdminAt
mod PacketsAt
mod TextAt
mod BotsAt
mod InfoAt
mod RateLimitAt
mod DownloadAt
mod ClientAt
mod ChallengeAt
mod ConnectAt
mod TransmitAt
mod StatusAt
