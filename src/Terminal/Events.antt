-- ===== src/Terminal/Events.antt =====
-- The handlers of retrobridge/terminal/events.py. A handler that answers is a function to its answer and
-- the state of its worker; `new_id` are the row ids that the database gives, by attempt.
mod Held
pub mod Quota
mod Tests
use retro_bridge.Prelude.{
  ℕ, zero, suc, Bool, true, false, not, ◌&&◌, Option, none, some, List, [], ◌∷◌, ◌==◌, ltb, leb,
  if◌then◌else◌, Text, text_eq, or_none,
}
use retro_bridge.Model.{User, Device, DevicePort, is_job_queue, count, filter, find, delete_where}
use retro_bridge.Jobs.Quota.{get_tier_limits, raised}
use retro_bridge.Terminal.Leases.{
  TerminalSession, Db, error, user_disconnect, is_active, has_session_id, get_session,
  create_session, acquire_port_lease, heartbeat_port_lease,
}
use retro_bridge.Terminal.Bridges.{
  Bridge, State, Env, get_active, dict_set, has_local_bridge, ended, suspend_bridge, resume_bridge,
  stop_bridge, start_bridge, write_to_serial,
}

-- The reasons of `session_denied`, in the order of the tests.
pub data Denial : Type 0 where
  not_authenticated maintenance_mode device_not_available : Denial
  active_on_this_connection session_already_active maximum_reached : Denial
  all_ports_in_use could_not_open : Denial

pub data Answer : Type 0 where
  granted : ℕ → Answer
  denied : Denial → Answer

-- `current_user` is none where no user is logged in.
pub record Request : Type 0 where
  pub sid : Text
  pub user : Option User
  pub maintenance : Bool
  pub device_id : ℕ
  pub devices : List Device
  pub ports : List DevicePort
  pub new_id : ℕ → ℕ
  pub lease_fails : ℕ → Bool
  pub opens : ℕ → Bool
  pub flushed : ℕ

abbrev pub is_active_of : ℕ → TerminalSession → Bool
is_active_of user_id s = s.user_id == user_id && is_active s.status

abbrev pub is_existing : ℕ → ℕ → TerminalSession → Bool
is_existing user_id device_id s = s.device_id == device_id && is_active_of user_id s

abbrev second_of_pair : Option (ℕ × ℕ) → Option ℕ
second_of_pair none = none
second_of_pair (some (a, b)) = some b

abbrev session_limit : (Text → ℕ) → Option Text → ℕ → ℕ
session_limit setting none own = own
session_limit setting (some tier) own =
    raised (second_of_pair (get_tier_limits setting (some tier))) own

-- The limit on a user's active sessions, which a tier can only raise.
unfoldable pub max_sessions : (Text → ℕ) → User → ℕ
max_sessions setting user =
    session_limit setting (or_none user.patreon_tier) user.max_terminal_sessions

abbrev pub is_interactive_on : ℕ → DevicePort → Bool
is_interactive_on device_id p =
    p.device_id == device_id && (not (is_job_queue p.purpose) && p.is_enabled)

-- The loop over the ports, from the number of the attempt: the port that was acquired, with its session.
unfoldable pub find_port :
    Env → Request → ℕ → ℕ → List DevicePort → State → Option (DevicePort × ℕ) × State
find_port e r user_id n [] w = (none, w)
find_port e r user_id n (p ∷ ps) w =
    let id = r.new_id n in
    let made = create_session id e.now user_id r.device_id p.id w.db in
    let (ok, db) =
      acquire_port_lease (has_local_bridge w) (r.lease_fails n) e.worker e.now p.id id made in
    elim ok [
      | true ↦ (some (p, id), record w { db = db })
      | false ↦
          find_port e r user_id (suc n) ps (record w {
            db = record db { sessions = delete_where (has_session_id id) db.sessions };
          })
    ]

abbrev pub bridged : Env → ℕ → Bool × State → Answer × State
bridged e id (true, w) = (granted id, w)
bridged e id (false, w) = (denied could_not_open, ended e id error w)

abbrev pub open_found : Env → Request → Option (DevicePort × ℕ) × State → Answer × State
open_found e r (none, w) = (denied all_ports_in_use, w)
open_found e r (some (p, id), w) = bridged e id (start_bridge e (r.opens p.id) r.sid id p w)

-- From the quota on.
abbrev pub new_session : (Text → ℕ) → Env → Request → User → State → Answer × State
new_session setting e r user w =
    if leb (max_sessions setting user) (count (is_active_of user.id) w.db.sessions)
    then (denied maximum_reached, w)
    else open_found e r (find_port e r user.id 0 (filter (is_interactive_on r.device_id) r.ports) w)

abbrev pub is_still_active : Option TerminalSession → Bool
is_still_active none = false
is_still_active (some s) = is_active s.status

abbrev pub after_resume :
    (Text → ℕ) → Env → Request → User → TerminalSession → Option Bridge × State → Answer × State
after_resume setting e r user s (some b, w) = (granted s.id, w)
after_resume setting e r user s (none, w) =
    if is_still_active (get_session s.id w.db.sessions)
    then (denied session_already_active, w)
    else new_session setting e r user w

abbrev pub resume_or_new :
    (Text → ℕ) → Env → Request → User → Option TerminalSession → State → Answer × State
resume_or_new setting e r user none w = new_session setting e r user w
resume_or_new setting e r user (some s) w =
    after_resume setting e r user s (resume_bridge e r.sid s.id r.flushed w)

abbrev pub is_running_bridge : Option Bridge → Bool
is_running_bridge none = false
is_running_bridge (some b) = b.running

abbrev pub is_enabled_device : Option Device → Bool
is_enabled_device none = false
is_enabled_device (some d) = d.is_enabled

abbrev pub request_by : (Text → ℕ) → Env → Request → Option User → State → Answer × State
request_by setting e r none w = (denied not_authenticated, w)
request_by setting e r (some user) w =
    if r.maintenance && not user.is_admin
    then (denied maintenance_mode, w)
    else if not (is_enabled_device (find (λ d. d.id == r.device_id) r.devices))
    then (denied device_not_available, w)
    else if is_running_bridge (get_active r.sid w)
    then (denied active_on_this_connection, w)
    else resume_or_new setting e r user (find (is_existing user.id r.device_id) w.db.sessions) w

-- `handle_request_session`; of the answer the session's id is kept, not what is only displayed.
unfoldable pub request_session : (Text → ℕ) → Env → Request → State → Answer × State
request_session setting e r w = request_by setting e r r.user w

-- `handle_disconnect`
abbrev pub handle_disconnect : Env → Text → State → State
handle_disconnect e sid w = (suspend_bridge e sid w).1

-- `handle_client_disconnect`
abbrev pub handle_client_disconnect : Env → Text → State → State
handle_client_disconnect e sid w = stop_bridge e sid user_disconnect w

abbrev beat_found : Env → Text → State → Option Bridge → Option (ℕ × ℕ) × State
beat_found e sid w none = (none, w)
beat_found e sid w (some b) = if not b.running then (none, w) else (
  some (b.bytes_sent, b.bytes_received),
  record w {
    active = dict_set text_eq sid (record b { last_activity = e.now }) w.active;
    db = heartbeat_port_lease e.fails e.now b.session_id w.db;
  },
)

-- `handle_heartbeat`: the two counters that are acknowledged, if there is a bridge.
unfoldable pub handle_heartbeat : Env → Text → State → Option (ℕ × ℕ) × State
handle_heartbeat e sid w = beat_found e sid w (get_active sid w)
