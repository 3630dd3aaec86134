-- ===== src/Accounts/Login/Laws.antt =====
-- Who is logged in, and how often a password can be guessed.
use retro_bridge.Prelude.{
  ℕ, suc, ◌≤◌, ◌≡◌, refl, inl, inr, Bool, true, false, not, Option, none, some, List, [], ◌∷◌,
  if◌then◌else◌, Bool-cases, Text, codes, text_or,
}
use retro_bridge.Model.{Account, count, find}
use retro_bridge.Accounts.Throttle.{
  clear_failed_attempts, is_throttled, is_failure, max_failed_attempts,
}
use retro_bridge.Accounts.Throttle.Bound.{
  IsBounded, clear_failed_attempts-IsBounded, record_attempt-IsBounded_success,
  record_attempt-IsBounded_failure, is_throttled-less,
}
use retro_bridge.Accounts.Login.{
  Request, State, Reply, Target, logged_in, already_logged_in, form_shown, throttled, account_named,
  try_account, login,
}

module _ (parse : Text → Text × Text) (join : Text → Text → Text) (host_url : Text)
    (check : Text → Text → Bool) (sync : Account → Account) where
  abbrev pub log_in : Request → State → Reply × State
  log_in = login parse join host_url check sync

  abbrev pub log_in_all : List Request → State → State
  log_in_all [] s = s
  log_in_all (r ∷ rs) s = log_in_all rs (log_in r s).1

  try_account-IsBounded :
      (ip : Text) (r : Request) (o : Option Account) (s : State)
      → is_throttled ip r.username r.now s.attempts ≡ false
      → IsBounded s.attempts
      → IsBounded (try_account parse join host_url check sync ip r o s).1.attempts
  try_account-IsBounded ip r none s free b =
      record_attempt-IsBounded_failure ip r.username r.now s.attempts free b
  try_account-IsBounded ip r (some a) s free b =
      elim (Bool-cases (check a.password_hash r.password)) [
        | inl y ↦ rw y (
            record_attempt-IsBounded_success ip r.username r.now
              (clear_failed_attempts r.username ip r.now s.attempts)
              (clear_failed_attempts-IsBounded r.username ip r.now s.attempts b))
        | inr n ↦ rw n (record_attempt-IsBounded_failure ip r.username r.now s.attempts free b)
      ]

  login-IsBounded :
      (r : Request) (s : State) → IsBounded s.attempts → IsBounded (log_in r s).1.attempts
  unfolding login
  login-IsBounded r s b =
      by_tests r.is_authenticated r.is_valid_form (is_throttled ip r.username r.now s.attempts) refl
    where
      ip : Text
      ip = text_or r.client_ip (codes "127.0.0.1")

      by_tests :
          (known valid full : Bool)
          → is_throttled ip r.username r.now s.attempts ≡ full
          → IsBounded
              (if known
                then (already_logged_in, s)
                else if not valid
                then (form_shown, s)
                else if full
                then (throttled, s)
                else try_account parse join host_url check sync ip r
                    (find (account_named r.username) s.accounts)
                    s).1.attempts
      by_tests true valid full e = b
      by_tests false false full e = b
      by_tests false true true e = b
      by_tests false true false e =
          try_account-IsBounded ip r (find (account_named r.username) s.accounts) s e b

  -- Whoever tries to log in, from whatever addresses and in whatever order: for no user name does the
  -- table ever hold more than five failures from any fifteen minutes.
  pub log_in_all-IsBounded :
      (rs : List Request) (s : State) → IsBounded s.attempts → IsBounded (log_in_all rs s).attempts
  log_in_all-IsBounded [] s b = b
  log_in_all-IsBounded (r ∷ rs) s b = log_in_all-IsBounded rs (log_in r s).1 (login-IsBounded r s b)

  -- What a login that is granted says about the request and the tables.
  pub record IsGranted (r : Request) (s : State) (k : ℕ) (a : Account) : Type 0 where
    pub new : r.is_authenticated ≡ false
    pub found : find (account_named r.username) s.accounts ≡ some a
    pub same_id : k ≡ a.id
    pub fits : check a.password_hash r.password ≡ true
    pub few_failures : suc (count (is_failure r.username r.now) s.attempts) ≤ max_failed_attempts

  try_account-granted :
      (ip : Text) (r : Request) (o : Option Account) (s : State) {k : ℕ} {mails : Bool} {t : Target}
      → (try_account parse join host_url check sync ip r o s).0 ≡ logged_in k mails t
      → (a : Account) × (o ≡ some a) × (k ≡ a.id) × (check a.password_hash r.password ≡ true)
  try_account-granted ip r none s h = cc
  try_account-granted ip r (some a) s h = elim (Bool-cases (check a.password_hash r.password)) [
    | inl y ↦ (a, refl, cc (rw y at h), y)
    | inr n ↦ cc (rw n at h)
  ]

  -- A login is granted only to an account of the user name whose password fits, and only while the user
  -- name has had fewer than five failures in the last fifteen minutes.
  pub login-IsGranted :
      (r : Request) (s : State) {k : ℕ} {mails : Bool} {t : Target}
      → (log_in r s).0 ≡ logged_in k mails t
      → (a : Account) × IsGranted r s k a
  unfolding login
  login-IsGranted r s {k} {mails} {t} h =
      by_tests r.is_authenticated r.is_valid_form (is_throttled ip r.username r.now s.attempts) refl
        refl h
    where
      ip : Text
      ip = text_or r.client_ip (codes "127.0.0.1")

      tried : Reply × State
      tried =
          try_account parse join host_url check sync ip r
            (find (account_named r.username) s.accounts) s

      by_tests :
          (known valid full : Bool)
          → r.is_authenticated ≡ known
          → is_throttled ip r.username r.now s.attempts ≡ full
          → (if known
              then (already_logged_in, s)
              else if not valid
              then (form_shown, s)
              else if full
              then (throttled, s)
              else tried).0
            ≡ logged_in k mails t
          → (a : Account) × IsGranted r s k a
      by_tests true valid full n e g = cc
      by_tests false false full n e g = cc
      by_tests false true true n e g = cc
      by_tests false true false n e g =
          let (a, found, id, fits) =
            try_account-granted ip r (find (account_named r.username) s.accounts) s g in
          (
            a,
            record {
              new = n;
              found = found;
              same_id = id;
              fits = fits;
              few_failures = is_throttled-less ip r.username r.now s.attempts e;
            },
          )
