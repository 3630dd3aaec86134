-- ===== src/Accounts/Patreon.antt =====
-- The link of an account with Patreon: `patreon_link`, `patreon_callback` and `patreon_unlink` of
-- retrobridge/auth/routes.py, with `get_valid_token`, `sync_user_tier` and `unlink_user` of
-- retrobridge/integrations/patreon.py. What Patreon answers comes in as an argument.
pub mod Laws
use retro_bridge.Prelude.{
  ℕ, ◌+◌, ◌*◌, Bool, true, false, not, ◌&&◌, ◌||◌, Option, none, some, List, [], ◌∷◌, ltb,
  if◌then◌else◌, Text, text_eq, or_none, second,
}
use retro_bridge.Model.{Account}

-- What the token endpoint answers.
pub record Tokens : Type 0 where
  pub access_token : Text
  pub refresh_token : Text
  pub expires_in : ℕ

-- The user's account, and `patreon_oauth_state` in the browser's session.
pub record State : Type 0 where
  pub account : Account
  pub oauth_state : Option Text

pub data Reply : Type 0 where
  not_configured sent_to_patreon patreon_error invalid_parameters invalid_state : Reply
  exchange_failed profile_failed integrity_error linked : Reply

-- `patreon_link`, with a token that `secrets` has made.
unfoldable pub patreon_link : Bool → Text → State → Reply × State
patreon_link is_enabled token s =
    if is_enabled
    then (sent_to_patreon, record s { oauth_state = some token })
    else (not_configured, s)

-- What the browser brings and what Patreon answers. `is_taken` says that another account has the
-- identity, which is unique in the table: then the commit raises.
pub record Callback : Type 0 where
  pub code : Option Text
  pub state : Option Text
  pub error : Option Text
  pub tokens : Option Tokens
  pub identity : Option Text
  pub is_taken : Bool
  pub tier : Option Text
  pub now : ℕ

abbrev pub with_tokens : Tokens → ℕ → Account → Account
with_tokens t now a = record a {
  patreon_access_token = some t.access_token;
  patreon_refresh_token = some t.refresh_token;
  patreon_expires_at = some (now + t.expires_in * second);
}

abbrev pub identified : Callback → Tokens → Option Text → State → Reply × State
identified c t none s = (profile_failed, s)
identified c t (some id) s = if c.is_taken then (integrity_error, s) else (
  linked,
  record s {
    account =
        with_tokens t c.now (record s.account { patreon_id = some id; patreon_tier = c.tier });
  },
)

abbrev pub exchanged : Callback → Option Tokens → State → Reply × State
exchanged c none s = (exchange_failed, s)
exchanged c (some t) s = identified c t c.identity s

-- Code, state and the state that is expected, where each is there and not empty.
abbrev pub checked : Callback → Option Text → Option Text → Option Text → State → Reply × State
checked c none state expected s = (invalid_parameters, s)
checked c (some code) none expected s = (invalid_parameters, s)
checked c (some code) (some state) none s = (invalid_parameters, s)
checked c (some code) (some state) (some expected) s =
    if text_eq state expected then exchanged c c.tokens s else (invalid_state, s)

abbrev pub no_error : Callback → Option Text → State → Reply × State
no_error c (some e) s = (patreon_error, s)
no_error c none s =
    checked c (or_none c.code) (or_none c.state) (or_none s.oauth_state)
      (record s { oauth_state = none })

unfoldable pub patreon_callback : Callback → State → Reply × State
patreon_callback c s = no_error c (or_none c.error) s

-- `unlink_user`
abbrev pub unlink_user : Account → Account
unlink_user a = record a {
  patreon_id = none;
  patreon_tier = none;
  patreon_access_token = none;
  patreon_refresh_token = none;
  patreon_expires_at = none;
}

-- `patreon_unlink`
unfoldable pub patreon_unlink : State → State
patreon_unlink s = record s { account = unlink_user s.account }

-- More than five minutes are left.
abbrev pub is_fresh : ℕ → Option ℕ → Bool
is_fresh now none = false
is_fresh now (some expires) = ltb (now + 5 * 60 * second) expires

abbrev pub refreshed : ℕ → Option Tokens → Account → Option Text × Account
refreshed now none a = (none, a)
refreshed now (some t) a = (some t.access_token, with_tokens t now a)

abbrev pub refresh : ℕ → Option Tokens → Option Text → Account → Option Text × Account
refresh now answer none a = (none, a)
refresh now answer (some token) a = refreshed now answer a

abbrev pub valid_token : ℕ → Option Tokens → Option Text → Account → Option Text × Account
valid_token now answer none a = (none, a)
valid_token now answer (some token) a =
    if is_fresh now a.patreon_expires_at
    then (some token, a)
    else refresh now answer (or_none a.patreon_refresh_token) a

-- `get_valid_token`, where a refresh would be answered with `answer`.
unfoldable pub get_valid_token : ℕ → Option Tokens → Account → Option Text × Account
get_valid_token now answer a = valid_token now answer (or_none a.patreon_access_token) a

abbrev pub tier_with : (Text → Option Text) → Option Text → Option Text
tier_with fetch none = none
tier_with fetch (some []) = none
tier_with fetch (some (c ∷ token)) = fetch (c ∷ token)

-- `sync_user_tier`, where `fetch` is what `fetch_membership_tier` answers.
unfoldable pub sync_user_tier : ℕ → Option Tokens → (Text → Option Text) → Account → Account
sync_user_tier now answer fetch a =
    let r = get_valid_token now answer a in record r.1 { patreon_tier = tier_with fetch r.0 }
