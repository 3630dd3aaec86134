-- ===== src/Accounts/Throttle.antt =====
-- The throttling of logins in retrobridge/auth/routes.py.
pub mod Bound
use retro_bridge.Prelude.{
  ℕ, ◌+◌, ◌*◌, Bool, true, false, not, ◌&&◌, List, [], ◌∷◌, ◌++◌, leb, if◌then◌else◌, Text, text_eq,
  second,
}
use retro_bridge.Model.{count, delete_where}

-- `LoginAttempt`
pub record Attempt : Type 0 where
  pub ip_address : Text
  pub username : Text
  pub success : Bool
  pub attempted_at : ℕ

abbrev pub max_failed_attempts : ℕ
max_failed_attempts = 5

abbrev pub throttle_window : ℕ
throttle_window = 15 * 60 * second

-- `_record_attempt`
abbrev pub record_attempt : Text → Text → Bool → ℕ → List Attempt → List Attempt
record_attempt ip username success now attempts =
    attempts
    ++ record { ip_address = ip; username = username; success = success; attempted_at = now } ∷ []

-- A failure of the user name that is not older than the window.
abbrev pub is_failure : Text → ℕ → Attempt → Bool
is_failure username now a =
    text_eq username a.username && (not a.success && leb now (a.attempted_at + throttle_window))

abbrev pub is_failure_from : Text → Text → ℕ → Attempt → Bool
is_failure_from ip username now a = text_eq ip a.ip_address && is_failure username now a

-- `_clear_failed_attempts`
unfoldable pub clear_failed_attempts : Text → Text → ℕ → List Attempt → List Attempt
clear_failed_attempts username ip now = delete_where (is_failure_from ip username now)

-- `_is_throttled`
unfoldable pub is_throttled : Text → Text → ℕ → List Attempt → Bool
is_throttled ip username now attempts =
    if leb max_failed_attempts (count (is_failure_from ip username now) attempts)
    then true
    else leb max_failed_attempts (count (is_failure username now) attempts)
