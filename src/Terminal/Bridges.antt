-- ===== src/Terminal/Bridges.antt =====
-- The bridges of retrobridge/terminal/utils.py that one web worker keeps in memory, between a browser
-- connection (its sid) and a serial port. Each call reads the clock once. The threads, the log
-- files and what is emitted to the browser are left out.
pub mod Resume
use retro_bridge.Prelude.{
  ℕ, ◌+◌, ◌-◌, ◌*◌, Bool, true, false, not, ◌&&◌, ◌||◌, Option, none, some, List, [], ◌∷◌, ◌++◌,
  ◌==◌, ltb, if◌then◌else◌, Text, text_eq, second,
}
use retro_bridge.Model.{DevicePort, delete_where}
use retro_bridge.Terminal.Leases.{
  Db, Reason, user_disconnect, timeout, idle_timeout, admin_force, bridge_active, bridge_suspended,
  end_session, update_bridge_registry, is_bridge_active_remotely,
}

-- `is_open` is that of the serial object.
pub record Bridge : Type 0 where
  pub sid : Option Text
  pub session_id : ℕ
  pub port_id : ℕ
  pub device_id : ℕ
  pub running : Bool
  pub bytes_sent : ℕ
  pub bytes_received : ℕ
  pub output_buffer : Text
  pub last_activity : ℕ
  pub start_time : ℕ
  pub max_runtime : ℕ
  pub idle_limit : ℕ
  pub suspended_at : Option ℕ
  pub is_open : Bool

-- A dictionary as its items in order.
module _ {K V : Type 0} (eq : K → K → Bool) where
  abbrev pub dict_get : K → List (K × V) → Option V
  dict_get k [] = none
  dict_get k ((x, v) ∷ d) = if eq x k then some v else dict_get k d

  abbrev pub dict_remove : K → List (K × V) → List (K × V)
  dict_remove k [] = []
  dict_remove k ((x, v) ∷ d) = if eq x k then dict_remove k d else (x, v) ∷ dict_remove k d

  abbrev pub dict_set : K → V → List (K × V) → List (K × V)
  dict_set k v [] = (k, v) ∷ []
  dict_set k v ((x, w) ∷ d) = if eq x k then (x, v) ∷ d else (x, w) ∷ dict_set k v d

abbrev pub nat_eq : ℕ → ℕ → Bool
nat_eq a b = a == b

-- `_active_bridges`, by sid, and `_suspended_bridges`, by session id; and the tables.
pub record State : Type 0 where
  pub active : List (Text × Bridge)
  pub suspended : List (ℕ × Bridge)
  pub db : Db

abbrev pub get_active : Text → State → Option Bridge
get_active sid w = dict_get text_eq sid w.active

abbrev pub get_suspended : ℕ → State → Option Bridge
get_suspended k w = dict_get nat_eq k w.suspended

abbrev pub grace_period : ℕ
grace_period = 600 * second

-- Whether the database fails in the registry's update, this process's name, and the clock.
pub record Env : Type 0 where
  pub fails : Bool
  pub worker : Text
  pub now : ℕ

abbrev pub ended : Env → ℕ → Reason → State → State
ended e session_id reason w = record w { db = end_session e.now session_id reason w.db }

abbrev any_running : {K : Type 0} → (Bridge → Bool) → List (K × Bridge) → Bool
any_running p [] = false
any_running p ((_, b) ∷ d) = p b && b.running || any_running p d

-- `_has_local_bridge`
unfoldable pub has_local_bridge : State → ℕ → Bool
has_local_bridge w session_id =
    any_running (λ b. b.session_id == session_id) w.active
    || any_running (λ b. b.session_id == session_id) w.suspended

-- `allocate_port`
unfoldable pub allocate_port : State → ℕ → Bool
allocate_port w port_id = not (
    any_running (λ b. b.port_id == port_id) w.active
    || any_running (λ b. b.port_id == port_id) w.suspended)

abbrev pub with_registry : Env → ℕ → Bool → State → State
with_registry e session_id is_suspended w = record w {
  db = record w.db {
    sessions =
        update_bridge_registry e.fails e.worker e.now session_id
          (some (if is_suspended then bridge_suspended else bridge_active)) w.db.sessions;
  };
}

abbrev pub suspend_found : Env → Text → State → Option Bridge → Bool × State
suspend_found e sid w none = (false, w)
suspend_found e sid w (some b) =
    let b' = record b { running = true; suspended_at = some e.now; sid = none } in
    (
      true,
      with_registry e b.session_id true (record w {
        active = dict_remove text_eq sid w.active;
        suspended = dict_set nat_eq b.session_id b' w.suspended;
      }),
    )

-- `suspend_bridge`
unfoldable pub suspend_bridge : Env → Text → State → Bool × State
suspend_bridge e sid w = suspend_found e sid w (get_active sid w)

-- The bridge was suspended longer ago than GRACE_PERIOD.
abbrev pub is_over : ℕ → Option ℕ → Bool
is_over now none = false
is_over now (some t) = ltb (t + grace_period) now

-- The time that a bridge was suspended does not count against its runtime.
abbrev pub shifted : ℕ → Option ℕ → ℕ → ℕ
shifted now none start = start
shifted now (some t) start = start + (now - t)

-- The bridge that goes on, with the `flushed` bytes that the port had ready.
abbrev pub resumed : Env → Text → ℕ → Bridge → Bridge
resumed e new_sid flushed b = record b {
  sid = some new_sid;
  last_activity = e.now;
  start_time = shifted e.now b.suspended_at b.start_time;
  suspended_at = none;
  bytes_received = b.bytes_received + (if b.is_open then flushed else 0);
}

abbrev pub resume_found : Env → Text → ℕ → ℕ → State → Option Bridge → Option Bridge × State
resume_found e new_sid session_id flushed w none = (none, w)
resume_found e new_sid session_id flushed w (some b) =
    let popped = record w { suspended = dict_remove nat_eq session_id w.suspended } in
    if is_bridge_active_remotely e.worker e.now session_id w.db.sessions
    then (none, record w { suspended = dict_set nat_eq session_id b popped.suspended })
    else if is_over e.now b.suspended_at
    then (none, ended e session_id user_disconnect popped)
    else let b' = resumed e new_sid flushed b in
      (
        some b',
        with_registry e session_id false
            (record popped { active = dict_set text_eq new_sid b' w.active }),
      )

-- `resume_bridge`
unfoldable pub resume_bridge : Env → Text → ℕ → ℕ → State → Option Bridge × State
resume_bridge e new_sid session_id flushed w =
    resume_found e new_sid session_id flushed w (get_suspended session_id w)

abbrev pub stop_found : Env → Text → Reason → State → Option Bridge → State
stop_found e sid reason w none = w
stop_found e sid reason w (some b) =
    ended e b.session_id reason (record w { active = dict_remove text_eq sid w.active })

-- `stop_bridge`. No suspended bridge is found by a sid: their keys are session ids.
unfoldable pub stop_bridge : Env → Text → Reason → State → State
stop_bridge e sid reason w = stop_found e sid reason w (get_active sid w)

-- `max_runtime_seconds or 3600` and the like
abbrev or_else : Option ℕ → ℕ → ℕ
or_else none d = d
or_else (some n) d = if n == 0 then d else n

abbrev pub new_bridge : Env → Text → ℕ → DevicePort → Bridge
new_bridge e sid session_id port = record {
  sid = some sid;
  session_id = session_id;
  port_id = port.id;
  device_id = port.device_id;
  running = true;
  bytes_sent = 0;
  bytes_received = 0;
  output_buffer = [];
  last_activity = e.now;
  start_time = e.now;
  max_runtime = or_else port.max_runtime_seconds 3600;
  idle_limit = or_else port.idle_timeout_seconds 300;
  suspended_at = none;
  is_open = true;
}

abbrev pub is_some {ℓ} : {A : Type ℓ} → Option A → Bool
is_some none = false
is_some (some _) = true

-- `start_bridge`; `opens` says whether `open_transport` gives a port.
unfoldable pub start_bridge : Env → Bool → Text → ℕ → DevicePort → State → Bool × State
start_bridge e opens sid session_id port w =
    if is_some (get_active sid w)
    then (false, w)
    else if is_bridge_active_remotely e.worker e.now session_id w.db.sessions
    then (false, w)
    else if not opens
    then (false, w)
    else (
      true,
      with_registry e session_id false
          (record w { active = dict_set text_eq sid (new_bridge e sid session_id port) w.active }),
    )

abbrev write_found : Bool → Text → ℕ → ℕ → State → Option Bridge → Bool × State
write_found writes sid n now w none = (false, w)
write_found writes sid n now w (some b) =
    if not b.running
    then (false, w)
    else if not b.is_open
    then (false, w)
    else if not writes
    then (false, w)
    else (
      true,
      record w {
        active =
            dict_set text_eq sid (record b { bytes_sent = b.bytes_sent + n; last_activity = now })
              w.active;
      },
    )

-- `write_to_serial` of `n` encoded bytes; `writes` says whether the port takes them.
unfoldable pub write_to_serial : Bool → Text → ℕ → ℕ → State → Bool × State
write_to_serial writes sid n now w = write_found writes sid n now w (get_active sid w)
