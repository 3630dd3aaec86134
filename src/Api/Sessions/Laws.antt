-- ===== src/Api/Sessions/Laws.antt =====
-- What the routes of the sessions and of the user names promise.
use retro_bridge.Prelude.{
  ℕ, ◌+◌, ◌≡◌, refl, Bool, true, false, not, Option, none, some, List, [], ◌∷◌, ltb, arith,
  if◌then◌else◌, Text, strip, length, Bool-cases, inl, inr, ◌==◌, ap, ◌∙◌,
}
use retro_bridge.Model.{Account, count}
use retro_bridge.Terminal.Leases.{get_session}
use retro_bridge.Terminal.Bridges.{State, Env}
use retro_bridge.Accounts.Users.{
  RegisterRequest, exists_row, has_username, register, saved, new_account, has_email,
}
use retro_bridge.Api.Sessions.{
  active_session, disconnect_session, bulk_disconnect_one, bulk_disconnect, Availability, available,
  too_short, registration_is_closed, taken, check_username,
}

abbrev pub succeeded : ℕ → ℕ
succeeded status = if status == 200 then 1 else 0

-- The sessions one by one, over the API.
abbrev pub disconnect_each : Env → List ℕ → ℕ × State → ℕ × State
disconnect_each e [] r = r
disconnect_each e (id ∷ ids) (count, w) =
    let r = disconnect_session e true id w in disconnect_each e ids (count + succeeded r.0, r.1)

-- The ids that are numbers.
abbrev pub numbers : List (Option ℕ) → List ℕ
numbers [] = []
numbers (none ∷ ids) = numbers ids
numbers (some id ∷ ids) = id ∷ numbers ids

one_by_one :
    (e : Env) (id n : ℕ) (w : State)
    → bulk_disconnect_one e (some id) (n, w)
      ≡ (n + succeeded (disconnect_session e true id w).0, (disconnect_session e true id w).1)
unfolding disconnect_session
one_by_one e id n w = elim (Bool-cases (active_session (get_session id w.db.sessions))) [
  | inl y ↦ rw y refl
  | inr x ↦ let same : n ≡ n + 0 = omega arith in rw x (ap (λ k. (k, w)) same)
]

-- Disconnecting many sessions at once does what disconnecting them one by one over the API does, in the
-- same order and with the same count, and passes over what is not a number.
pub bulk_disconnect-eq-disconnect_each :
    (e : Env) (ids : List (Option ℕ)) (r : ℕ × State)
    → bulk_disconnect e ids r ≡ disconnect_each e (numbers ids) r
unfolding bulk_disconnect
bulk_disconnect-eq-disconnect_each e [] r = refl
bulk_disconnect-eq-disconnect_each e (none ∷ ids) (n, w) =
    bulk_disconnect-eq-disconnect_each e ids (n, w)
bulk_disconnect-eq-disconnect_each e (some id ∷ ids) (n, w) =
    ap (bulk_disconnect e ids) (one_by_one e id n w)
    ∙ bulk_disconnect-eq-disconnect_each e ids
        (n + succeeded (disconnect_session e true id w).0, (disconnect_session e true id w).1)

free_name :
    (registration_open : Bool) (raw : Text) (accounts : List Account)
    → check_username registration_open raw accounts ≡ available
    → (registration_open ≡ true) × (exists_row (has_username (strip raw)) accounts ≡ false)
unfolding check_username
free_name registration_open raw accounts h =
    by_tests (ltb (length (strip raw)) 2) registration_open
      (exists_row (has_username (strip raw)) accounts) h
  where
    by_tests :
        (short opened exists : Bool)
        → (if◌then◌else◌ {A = Availability} short too_short (
            if◌then◌else◌ {A = Availability}
              (not opened)
              registration_is_closed
              (if◌then◌else◌ {A = Availability} exists taken available)))
          ≡ available
        → (opened ≡ true) × (exists ≡ false)
    by_tests true opened exists g = absurd cc
    by_tests false false exists g = absurd cc
    by_tests false true true g = absurd cc
    by_tests false true false g = (refl, refl)

-- A user name that is said to be available is: while the accounts and the setting stay, a valid
-- registration with it creates the account, unless the address is taken.
pub check_username-register :
    (hash : Text → Text) (check : Text → Text → Bool) (raw : Text) (r : RegisterRequest)
    (accounts : List Account)
    → check_username r.registration_open raw accounts ≡ available
    → r.username ≡ strip raw
    → r.is_authenticated ≡ false
    → r.is_valid_form ≡ true
    → exists_row (has_email r.email) accounts ≡ false
    → (register hash check r accounts).0
      ≡ saved (new_account r.new_id r.now r.username r.email (hash r.password) r.full_name)
unfolding register
check_username-register hash check raw r accounts h name new valid email =
    let (opened, free) = free_name r.registration_open raw accounts h in
    let free' : exists_row (has_username r.username) accounts ≡ false =
      ap (λ n. exists_row (has_username n) accounts) name ∙ free in
    rw (new, opened, valid, free', email) refl
