-- ===== src/Accounts/Users.antt =====
-- Creating and changing accounts: `register` and `profile` of retrobridge/auth/routes.py, `create_user`
-- and `edit_user` of retrobridge/admin/routes.py. A form stands here as its data and whether wtforms
-- finds it valid. A commit that breaks a unique constraint raises, and then nothing is saved.
pub mod Unique
use retro_bridge.Prelude.{
  ℕ, Bool, true, false, not, ◌&&◌, Option, none, some, List, [], ◌∷◌, ◌++◌, ◌==◌, if◌then◌else◌,
  Text, text_eq,
}
use retro_bridge.Model.{Account, count, find, update_where}

pub data Reply : Type 0 where
  redirected registration_closed form_shown not_found username_taken email_taken : Reply
  wrong_password integrity_error : Reply
  saved : Account → Reply

pub record RegisterRequest : Type 0 where
  pub is_authenticated : Bool
  pub registration_open : Bool
  pub is_valid_form : Bool
  pub username : Text
  pub email : Text
  pub password : Text
  pub full_name : Option Text
  pub new_id : ℕ
  pub now : ℕ

-- The admin's form.
pub record UserForm : Type 0 where
  pub is_valid : Bool
  pub username : Text
  pub email : Text
  pub full_name : Option Text
  pub password : Text
  pub is_admin : Bool
  pub max_queued_jobs : ℕ
  pub max_terminal_sessions : ℕ

pub record ProfileForm : Type 0 where
  pub is_valid : Bool
  pub email : Text
  pub full_name : Option Text
  pub bio : Option Text
  pub email_notify_jobs : Bool
  pub email_notify_security : Bool
  pub preferences : Text
  pub current_password : Text
  pub new_password : Text

abbrev pub has_id : ℕ → Account → Bool
has_id k a = a.id == k

abbrev pub has_username : Text → Account → Bool
has_username name a = text_eq name a.username

abbrev pub has_email : Text → Account → Bool
has_email email a = text_eq email a.email

abbrev pub other_than : ℕ → (Account → Bool) → Account → Bool
other_than k p a = p a && not (a.id == k)

-- `.first()` finds a row.
abbrev pub exists_row : (Account → Bool) → List Account → Bool
exists_row p accounts = not (count p accounts == 0)

-- The row with the table's defaults.
abbrev pub new_account : ℕ → ℕ → Text → Text → Text → Option Text → Account
new_account id now username email hash full_name = record {
  id = id;
  username = username;
  email = email;
  password_hash = hash;
  full_name = full_name;
  bio = none;
  preferences = none;
  is_admin = false;
  max_queued_jobs = 3;
  max_terminal_sessions = 1;
  created_at = now;
  last_login = none;
  email_notify_jobs = false;
  email_notify_security = true;
  patreon_id = none;
  patreon_tier = none;
  patreon_access_token = none;
  patreon_refresh_token = none;
  patreon_expires_at = none;
}

-- Two of the checks of both ways to create an account, and the insertion.
abbrev pub insert_new : Account → List Account → Reply × List Account
insert_new a accounts =
    if exists_row (has_username a.username) accounts
    then (username_taken, accounts)
    else if exists_row (has_email a.email) accounts
    then (email_taken, accounts)
    else (saved a, accounts ++ a ∷ [])

abbrev pub is_empty_text : Text → Bool
is_empty_text [] = true
is_empty_text (_ ∷ _) = false

-- `hash` is werkzeug's `generate_password_hash`, and `check` its `check_password_hash`.
module _ (hash : Text → Text) (check : Text → Text → Bool) where
  unfoldable pub register : RegisterRequest → List Account → Reply × List Account
  register r accounts =
      if r.is_authenticated
      then (redirected, accounts)
      else if not r.registration_open
      then (registration_closed, accounts)
      else if not r.is_valid_form
      then (form_shown, accounts)
      else insert_new (new_account r.new_id r.now r.username r.email (hash r.password) r.full_name)
          accounts

  unfoldable pub create_user : ℕ → ℕ → UserForm → List Account → Reply × List Account
  create_user new_id now f accounts =
      if not f.is_valid
      then (form_shown, accounts)
      else insert_new
          (record (new_account new_id now f.username f.email (hash f.password) f.full_name) {
            is_admin = f.is_admin;
            max_queued_jobs = f.max_queued_jobs;
            max_terminal_sessions = f.max_terminal_sessions;
          })
          accounts

  abbrev pub edited : UserForm → Account → Account
  edited f a = record a {
    username = f.username;
    email = f.email;
    full_name = f.full_name;
    is_admin = f.is_admin;
    max_queued_jobs = f.max_queued_jobs;
    max_terminal_sessions = f.max_terminal_sessions;
    password_hash = if is_empty_text f.password then a.password_hash else hash f.password;
  }

  abbrev pub edit_found : UserForm → Option Account → List Account → Reply × List Account
  edit_found f none accounts = (not_found, accounts)
  edit_found f (some a) accounts =
      if not f.is_valid
      then (form_shown, accounts)
      else if exists_row (other_than a.id (has_username f.username)) accounts
      then (username_taken, accounts)
      else if exists_row (other_than a.id (has_email f.email)) accounts
      then (email_taken, accounts)
      else (saved (edited f a), update_where (has_id a.id) (edited f) accounts)

  unfoldable pub edit_user : ℕ → UserForm → List Account → Reply × List Account
  edit_user user_id f accounts = edit_found f (find (has_id user_id) accounts) accounts

  abbrev pub profiled : ProfileForm → Account → Account
  profiled f a = record a {
    email = f.email;
    full_name = f.full_name;
    bio = f.bio;
    email_notify_jobs = f.email_notify_jobs;
    email_notify_security = f.email_notify_security;
    preferences = some f.preferences;
    password_hash = if is_empty_text f.new_password then a.password_hash else hash f.new_password;
  }

  abbrev pub profile_found : ProfileForm → Option Account → List Account → Reply × List Account
  profile_found f none accounts = (not_found, accounts)
  profile_found f (some a) accounts =
      if not f.is_valid
      then (form_shown, accounts)
      else if not (is_empty_text f.new_password) && not (check a.password_hash f.current_password)
      then (wrong_password, accounts)
      else if exists_row (other_than a.id (has_email f.email)) accounts
      then (integrity_error, accounts)
      else (saved (profiled f a), update_where (has_id a.id) (profiled f) accounts)

  -- `profile`, of the user who is logged in. No test is made that the address is free: the commit raises
  -- where another account has it.
  unfoldable pub profile : ℕ → ProfileForm → List Account → Reply × List Account
  profile user_id f accounts = profile_found f (find (has_id user_id) accounts) accounts
