-- ===== src/Api/Sessions.antt =====
-- Ending sessions, in retrobridge/api/routes.py and retrobridge/admin/routes.py, and the test whether
-- a user name is free.
pub mod Laws
use retro_bridge.Prelude.{
  ℕ, ◌+◌, Bool, true, false, not, Option, none, some, List, [], ◌∷◌, ltb, if◌then◌else◌, Text,
  strip, length,
}
use retro_bridge.Model.{Account}
use retro_bridge.Terminal.Leases.{TerminalSession, is_active, get_session}
use retro_bridge.Terminal.Bridges.{State, Env}
use retro_bridge.Terminal.Monitors.{force_disconnect_session}
use retro_bridge.Accounts.Users.{exists_row, has_username}

abbrev pub active_session : Option TerminalSession → Bool
active_session none = false
active_session (some s) = is_active s.status

-- `disconnect_session`: the HTTP status, and what becomes of the terminal.
unfoldable pub disconnect_session : Env → Bool → ℕ → State → ℕ × State
disconnect_session e is_admin session_id w =
    if not is_admin
    then (403, w)
    else if not (active_session (get_session session_id w.db.sessions))
    then (404, w)
    else (200, force_disconnect_session e session_id w)

-- One id of `bulk_disconnect`: `none` where `_safe_int` reads no number, or one that no session has.
abbrev pub bulk_disconnect_one : Env → Option ℕ → ℕ × State → ℕ × State
bulk_disconnect_one e none (count, w) = (count, w)
bulk_disconnect_one e (some session_id) (count, w) =
    if active_session (get_session session_id w.db.sessions)
    then (count + 1, force_disconnect_session e session_id w)
    else (count, w)

-- `bulk_disconnect` of the admin's pages: how many sessions were disconnected.
unfoldable pub bulk_disconnect : Env → List (Option ℕ) → ℕ × State → ℕ × State
bulk_disconnect e [] r = r
bulk_disconnect e (id ∷ ids) r = bulk_disconnect e ids (bulk_disconnect_one e id r)

pub data Availability : Type 0 where
  too_short registration_is_closed taken available : Availability

unfoldable pub check_username : Bool → Text → List Account → Availability
check_username registration_open raw accounts =
    let username = strip raw in
    if ltb (length username) 2
    then too_short
    else if not registration_open
    then registration_is_closed
    else if exists_row (has_username username) accounts
    then taken
    else available
