-- ===== src/Accounts/Login.antt =====
-- `login` of retrobridge/auth/routes.py.
pub mod Laws
use retro_bridge.Prelude.{
  ℕ, ◌+◌, Bool, true, false, not, ◌&&◌, ◌||◌, Option, none, some, List, [], ◌∷◌, ◌++◌, ◌==◌, leb,
  if◌then◌else◌, Text, codes, text_eq, text_or, starts_with, has_char, or_none,
}
use retro_bridge.Model.{Account, count, find, update_where}
use retro_bridge.Accounts.Throttle.{Attempt, record_attempt, clear_failed_attempts, is_throttled}

pub record Request : Type 0 where
  pub is_authenticated : Bool
  pub client_ip : Option Text
  pub is_valid_form : Bool
  pub username : Text
  pub password : Text
  pub next_page : Option Text
  pub now : ℕ

pub record State : Type 0 where
  pub accounts : List Account
  pub attempts : List Attempt

-- Where the browser is sent.
pub data Target : Type 0 where
  dashboard : Target
  page : Text → Target

-- `logged_in` carries the user's id, whether the new-login mail is sent, and the target.
pub data Reply : Type 0 where
  already_logged_in form_shown throttled invalid : Reply
  logged_in : ℕ → Bool → Target → Reply

abbrev pub account_named : Text → Account → Bool
account_named name a = text_eq a.username name

abbrev pub has_account_id : ℕ → Account → Bool
has_account_id k a = a.id == k

abbrev is_success_from : Text → Text → Attempt → Bool
is_success_from ip username a =
    text_eq username a.username && (a.success && text_eq ip a.ip_address)

-- What `urlparse` answers: the scheme and the netloc.
module _ (parse : Text → Text × Text) (join : Text → Text → Text) (host_url : Text) where
  -- `_is_safe_redirect_url`
  unfoldable pub is_safe_redirect_url : Text → Bool
  is_safe_redirect_url [] = false
  is_safe_redirect_url (c ∷ rest) =
      let target = c ∷ rest in
      if has_char b'\\' target
      then false
      else if starts_with (codes "/") target && not (starts_with (codes "//") target)
      then true
      else let (scheme, netloc) = parse (join host_url target) in
        (text_eq scheme (codes "http") || text_eq scheme (codes "https"))
        && text_eq netloc (parse host_url).1

  abbrev target_of : Option Text → Target
  target_of none = dashboard
  target_of (some url) = if is_safe_redirect_url url then page url else dashboard

  -- `check` is werkzeug's `check_password_hash`. `sync` is what the call of `sync_user_tier` makes of the
  -- row, whether it raises or not, and nothing where Patreon is not configured.
  module _ (check : Text → Text → Bool) (sync : Account → Account) where
    -- A password that fits.
    abbrev pub admit : Text → Request → Account → State → Reply × State
    admit ip r a s =
        let attempts' =
          record_attempt ip r.username true r.now
            (clear_failed_attempts r.username ip r.now s.attempts) in
        let prior = count (is_success_from ip a.username) attempts' in
        (
          logged_in a.id (a.email_notify_security && leb prior 1) (target_of (or_none r.next_page)),
          record {
            accounts =
                update_where (has_account_id a.id)
                  (λ x. sync (record x { last_login = some r.now })) s.accounts;
            attempts = attempts';
          },
        )

    abbrev pub refuse : Text → Request → State → Reply × State
    refuse ip r s =
        (invalid, record s { attempts = record_attempt ip r.username false r.now s.attempts })

    abbrev pub try_account : Text → Request → Option Account → State → Reply × State
    try_account ip r none s = refuse ip r s
    try_account ip r (some a) s =
        if check a.password_hash r.password then admit ip r a s else refuse ip r s

    unfoldable pub login : Request → State → Reply × State
    login r s =
        let ip = text_or r.client_ip (codes "127.0.0.1") in
        if r.is_authenticated
        then (already_logged_in, s)
        else if not r.is_valid_form
        then (form_shown, s)
        else if is_throttled ip r.username r.now s.attempts
        then (throttled, s)
        else try_account ip r (find (account_named r.username) s.accounts) s
