-- ===== src/Accounts/Throttle/Bound.antt =====
-- How many failed logins the table ever holds for one user name.
use retro_bridge.Prelude.{
  ℕ, suc, ◌≤◌, ◌≡◌, inl, inr, Bool, true, false, ◌&&◌, List, [], ◌∷◌, leb, arith, Bool-cases, Text,
  text_eq→eq,
}
use retro_bridge.Model.{count, count-append, count-le, delete_where}
use retro_bridge.Accounts.Throttle.{
  Attempt, record_attempt, max_failed_attempts, is_failure, is_failure_from, clear_failed_attempts,
  is_throttled,
}

-- A failure of the user name in the window up to `t`.
abbrev pub in_window : Text → ℕ → Attempt → Bool
in_window u t a = leb a.attempted_at t && is_failure u t a

abbrev pub IsBounded : List Attempt → Type 0
IsBounded attempts = (u : Text) (t : ℕ) → count (in_window u t) attempts ≤ max_failed_attempts

count-clear :
    (q p : Attempt → Bool) (attempts : List Attempt)
    → count q (delete_where p attempts) ≤ count q attempts
count-clear q p [] = omega arith
count-clear q p (a ∷ attempts) = ground (arith, count-clear q p attempts)

pub clear_failed_attempts-IsBounded :
    (username ip : Text) (now : ℕ) (attempts : List Attempt)
    → IsBounded attempts
    → IsBounded (clear_failed_attempts username ip now attempts)
unfolding clear_failed_attempts
clear_failed_attempts-IsBounded username ip now attempts b u t =
    omega (arith, b u t, count-clear (in_window u t) (is_failure_from ip username now) attempts)

pub record_attempt-IsBounded_success :
    (ip username : Text) (now : ℕ) (attempts : List Attempt)
    → IsBounded attempts
    → IsBounded (record_attempt ip username true now attempts)
record_attempt-IsBounded_success ip username now attempts b u t =
    let row : Attempt = record {
      ip_address = ip;
      username = username;
      success = true;
      attempted_at = now;
    } in
    let none_more : count (in_window u t) (row ∷ []) ≡ 0 = ground arith in
    omega (arith, b u t, none_more, count-append (in_window u t) attempts (row ∷ []))

pub is_throttled-less :
    (ip username : Text) (now : ℕ) (attempts : List Attempt)
    → is_throttled ip username now attempts ≡ false
    → suc (count (is_failure username now) attempts) ≤ max_failed_attempts
unfolding is_throttled
is_throttled-less ip username now attempts h = ground arith

pub record_attempt-IsBounded_failure :
    (ip username : Text) (now : ℕ) (attempts : List Attempt)
    → is_throttled ip username now attempts ≡ false
    → IsBounded attempts
    → IsBounded (record_attempt ip username false now attempts)
record_attempt-IsBounded_failure ip username now attempts free b u t =
    elim (Bool-cases (in_window u t row)) [
      | inr out ↦ ground (arith, b u t, count-append (in_window u t) attempts (row ∷ []))
      | inl in_ ↦
          let same : u ≡ username = text_eq→eq u username (ground arith) in
          let less = is_throttled-less ip username now attempts free in
          let before =
            count-le (in_window username t) (is_failure username now) attempts
              (λ a h. ground arith) in
          let more = count-append (in_window username t) attempts (row ∷ []) in
          rw same (ground arith)
    ]
  where
    row : Attempt
    row = record { ip_address = ip; username = username; success = false; attempted_at = now }
