-- ===== src/Terminal/Leases.antt =====
-- Port leases, sessions and the bridge registry of retrobridge/terminal/utils.py. A duration is the
-- whole seconds from connecting to the clock, which is not behind it.
pub mod Exclusive
pub mod Recovery
use retro_bridge.Prelude.{
  ℕ, ◌+◌, ◌-◌, ◌*◌, ◌/◌, Bool, true, false, not, ◌&&◌, ◌||◌, Option, none, some, List, [], ◌∷◌,
  ◌++◌, ◌==◌, ltb, if◌then◌else◌, Text, text_eq, or_none, second,
}
use retro_bridge.Model.{count, find, update_where, delete_where}

-- `ck_terminal_sessions_status`
pub data SessionStatus : Type 0 where
  active suspended disconnected : SessionStatus

-- `ck_terminal_sessions_bridge_status`
pub data BridgeStatus : Type 0 where
  bridge_active bridge_suspended : BridgeStatus

pub data Reason : Type 0 where
  user_disconnect timeout idle_timeout admin_force error lease_expired : Reason

-- The byte counters, which nothing here writes, are left out.
pub record TerminalSession : Type 0 where
  pub id : ℕ
  pub user_id : ℕ
  pub device_id : ℕ
  pub port_id : ℕ
  pub status : SessionStatus
  pub connected_at : Option ℕ
  pub disconnected_at : Option ℕ
  pub duration_seconds : Option ℕ
  pub disconnect_reason : Option Reason
  pub bridge_worker_id : Option Text
  pub bridge_heartbeat_at : Option ℕ
  pub bridge_status : Option BridgeStatus

-- A row of `port_leases`, without its own key.
pub record PortLease : Type 0 where
  pub port_id : ℕ
  pub session_id : ℕ
  pub claimed_by : Text
  pub claimed_at : ℕ
  pub lease_expires_at : ℕ
  pub heartbeat_at : ℕ

pub record Db : Type 0 where
  pub sessions : List TerminalSession
  pub leases : List PortLease

abbrev pub terminal_lease : ℕ
terminal_lease = 300 * second

abbrev pub bridge_heartbeat_stale : ℕ
bridge_heartbeat_stale = 30 * second

abbrev pub is_active : SessionStatus → Bool
is_active active = true
is_active _ = false

abbrev pub has_session_id : ℕ → TerminalSession → Bool
has_session_id k s = s.id == k

abbrev pub get_session : ℕ → List TerminalSession → Option TerminalSession
get_session k = find (has_session_id k)

abbrev pub is_for_session : ℕ → PortLease → Bool
is_for_session k l = l.session_id == k

abbrev pub is_for_port : ℕ → PortLease → Bool
is_for_port k l = l.port_id == k

abbrev pub is_expired : ℕ → PortLease → Bool
is_expired now l = ltb l.lease_expires_at now

abbrev duration_at : ℕ → Option ℕ → Option ℕ → Option ℕ
duration_at now none old = old
duration_at now (some connected) old = some ((now - connected) / second)

abbrev pub disconnect : ℕ → Reason → TerminalSession → TerminalSession
disconnect now reason s = record s {
  status = disconnected;
  disconnect_reason = some reason;
  disconnected_at = some now;
  duration_seconds = duration_at now s.connected_at s.duration_seconds;
}

-- What the loop of `recover_stale_leases` makes of the sessions. `is_local` is `_has_local_bridge`.
unfoldable pub recover_sessions :
    (ℕ → Bool) → ℕ → List PortLease → List TerminalSession → List TerminalSession
recover_sessions is_local now [] sessions = sessions
recover_sessions is_local now (l ∷ ls) sessions =
    let gone = λ (s : TerminalSession). has_session_id l.session_id s && is_active s.status in
    if not (is_expired now l) || is_local l.session_id
    then recover_sessions is_local now ls sessions
    else recover_sessions is_local now ls
        (update_where gone (disconnect now lease_expired) sessions)

-- `recover_stale_leases`
unfoldable pub recover_stale_leases : (ℕ → Bool) → ℕ → Db → Db
unfolding recover_sessions
recover_stale_leases is_local now db = record {
  sessions = recover_sessions is_local now db.leases db.sessions;
  leases = delete_where (is_expired now) db.leases;
}

abbrev new_lease : Text → ℕ → ℕ → ℕ → PortLease
new_lease worker now port_id session_id = record {
  port_id = port_id;
  session_id = session_id;
  claimed_by = worker;
  claimed_at = now;
  lease_expires_at = now + terminal_lease;
  heartbeat_at = now;
}

-- `acquire_port_lease`. The INSERT raises where the port has a lease, since `port_id` is unique, and
-- where the database fails; then it is rolled back.
unfoldable pub acquire_port_lease : (ℕ → Bool) → Bool → Text → ℕ → ℕ → ℕ → Db → Bool × Db
acquire_port_lease is_local fails worker now port_id session_id db =
    let db' = recover_stale_leases is_local now db in
    if fails || not (count (is_for_port port_id) db'.leases == 0)
    then (false, db')
    else (true, record db' { leases = db'.leases ++ new_lease worker now port_id session_id ∷ [] })

-- `heartbeat_port_lease`
unfoldable pub heartbeat_port_lease : Bool → ℕ → ℕ → Db → Db
heartbeat_port_lease fails now session_id db = if fails then db else record db {
  leases =
      update_where (is_for_session session_id)
        (λ l. record l { heartbeat_at = now; lease_expires_at = now + terminal_lease }) db.leases;
}

-- `release_port_lease`
unfoldable pub release_port_lease : Bool → ℕ → Db → Db
release_port_lease fails session_id db =
    if fails then db else record db { leases = delete_where (is_for_session session_id) db.leases }

-- `create_session`; the row's id is the database's.
abbrev pub create_session : ℕ → ℕ → ℕ → ℕ → ℕ → Db → Db
create_session id now user_id device_id port_id db = record db {
  sessions =
      db.sessions
      ++ record {
        id = id;
        user_id = user_id;
        device_id = device_id;
        port_id = port_id;
        status = active;
        connected_at = some now;
        disconnected_at = none;
        duration_seconds = none;
        disconnect_reason = none;
        bridge_worker_id = none;
        bridge_heartbeat_at = none;
        bridge_status = none;
      }
        ∷ [];
}

abbrev pub unregistered : TerminalSession → TerminalSession
unregistered s = record s {
  bridge_worker_id = none;
  bridge_heartbeat_at = none;
  bridge_status = none;
}

-- `end_session`
unfoldable pub end_session : ℕ → ℕ → Reason → Db → Db
end_session now session_id reason db = record {
  sessions =
      update_where (has_session_id session_id) (λ s. unregistered (disconnect now reason s))
        db.sessions;
  leases = delete_where (is_for_session session_id) db.leases;
}

-- `_update_bridge_registry`
unfoldable pub update_bridge_registry :
    Bool → Text → ℕ → ℕ → Option BridgeStatus → List TerminalSession → List TerminalSession
update_bridge_registry fails worker now session_id status sessions =
    if fails
    then sessions
    else update_where (has_session_id session_id)
        (λ s. record s {
          bridge_worker_id = some worker;
          bridge_heartbeat_at = some now;
          bridge_status = status;
        })
        sessions

-- `_clear_bridge_registry`
unfoldable pub clear_bridge_registry : Bool → ℕ → List TerminalSession → List TerminalSession
clear_bridge_registry fails session_id sessions =
    if fails then sessions else update_where (has_session_id session_id) unregistered sessions

-- `reg["status"] in ("active", "suspended")`
abbrev has_status : Option BridgeStatus → Bool
has_status none = false
has_status (some _) = true

-- The heartbeat is younger than BRIDGE_HEARTBEAT_STALE_SECONDS.
abbrev is_fresh : ℕ → Option ℕ → Bool
is_fresh now none = false
is_fresh now (some t) = ltb now (t + bridge_heartbeat_stale)

abbrev pub owned_elsewhere : Text → ℕ → TerminalSession → Option Text → Bool
owned_elsewhere worker now s none = false
owned_elsewhere worker now s (some owner) =
    not (text_eq owner worker) && (has_status s.bridge_status && is_fresh now s.bridge_heartbeat_at)

abbrev pub found_elsewhere : Text → ℕ → Option TerminalSession → Bool
found_elsewhere worker now none = false
found_elsewhere worker now (some s) = owned_elsewhere worker now s (or_none s.bridge_worker_id)

-- `is_bridge_active_remotely`, with `get_bridge_registry`
unfoldable pub is_bridge_active_remotely : Text → ℕ → ℕ → List TerminalSession → Bool
is_bridge_active_remotely worker now session_id sessions =
    found_elsewhere worker now (get_session session_id sessions)
