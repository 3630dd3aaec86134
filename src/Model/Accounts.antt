-- ===== src/Model/Accounts.antt =====
-- The table `users` in full. A token of Patreon is encrypted in the table; here it is the plain text.
use retro_bridge.Prelude.{ℕ, Bool, Option, Text}

pub record Account : Type 0 where
  pub id : ℕ
  pub username : Text
  pub email : Text
  pub password_hash : Text
  pub full_name : Option Text
  pub bio : Option Text
  pub preferences : Option Text
  pub is_admin : Bool
  pub max_queued_jobs : ℕ
  pub max_terminal_sessions : ℕ
  pub created_at : ℕ
  pub last_login : Option ℕ
  pub email_notify_jobs : Bool
  pub email_notify_security : Bool
  pub patreon_id : Option Text
  pub patreon_tier : Option Text
  pub patreon_access_token : Option Text
  pub patreon_refresh_token : Option Text
  pub patreon_expires_at : Option ℕ
