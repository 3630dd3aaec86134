-- ===== src/Terminal/Monitors.antt =====
-- The monitors of retrobridge/terminal/utils.py, which end bridges past their limits, and
-- `force_disconnect_session`.
pub mod Timeouts
use retro_bridge.Prelude.{
  ℕ, ◌+◌, ◌*◌, Bool, true, false, not, ◌&&◌, Option, none, some, List, [], ◌∷◌, ◌==◌, ltb,
  if◌then◌else◌, Text, text_eq, second,
}
use retro_bridge.Terminal.Leases.{Reason, user_disconnect, timeout, idle_timeout, admin_force}
use retro_bridge.Terminal.Bridges.{
  Bridge, State, Env, dict_remove, nat_eq, get_suspended, is_over, ended, stop_bridge,
}

abbrev pub with_key : Bool → ℕ → List ℕ → List ℕ
with_key true k ks = k ∷ ks
with_key false k ks = ks

-- The keys of the suspended bridges whose grace period is over.
abbrev pub over_keys : ℕ → List (ℕ × Bridge) → List ℕ
over_keys now [] = []
over_keys now ((k, b) ∷ d) = with_key (is_over now b.suspended_at) k (over_keys now d)

abbrev pub drop_suspended : Env → ℕ → State → Option Bridge → State
drop_suspended e k w none = w
drop_suspended e k w (some b) =
    ended e k user_disconnect (record w { suspended = dict_remove nat_eq k w.suspended })

abbrev pub drop_all : Env → List ℕ → State → State
drop_all e [] w = w
drop_all e (k ∷ ks) w = drop_all e ks (drop_suspended e k w (get_suspended k w))

-- `cleanup_suspended`
unfoldable pub cleanup_suspended : Env → State → State
cleanup_suspended e w = drop_all e (over_keys e.now w.suspended) w

-- Why a running bridge is to end, if it is.
abbrev pub overdue : ℕ → Bridge → Option Reason
overdue now b =
    if not b.running
    then none
    else if ltb (b.start_time + b.max_runtime * second) now
    then some timeout
    else if ltb (b.last_activity + b.idle_limit * second) now
    then some idle_timeout
    else none

abbrev pub with_reason : Text → Option Reason → List (Text × Reason) → List (Text × Reason)
with_reason sid none rest = rest
with_reason sid (some reason) rest = (sid, reason) ∷ rest

abbrev pub overdue_sids : ℕ → List (Text × Bridge) → List (Text × Reason)
overdue_sids now [] = []
overdue_sids now ((sid, b) ∷ d) = with_reason sid (overdue now b) (overdue_sids now d)

-- A call of `stop_bridge` whose `end_session` raises: the bridge is gone, and the session is as it was.
abbrev pub stop_raised : Text → State → State
stop_raised sid w = record w { active = dict_remove text_eq sid w.active }

-- The loop, which an exception of `stop_bridge` leaves.
abbrev pub stop_all : Env → (Text → Bool) → List (Text × Reason) → State → State
stop_all e raises [] w = w
stop_all e raises ((sid, reason) ∷ expired) w =
    let rest = stop_all e raises expired (stop_bridge e sid reason w) in
    if raises sid then stop_raised sid w else rest

-- `check_timeouts`; `raises` says for which connections `stop_bridge` does.
unfoldable pub check_timeouts : Env → (Text → Bool) → State → State
check_timeouts e raises w = stop_all e raises (overdue_sids e.now w.active) w

-- `find_bridge_sid`
abbrev pub find_bridge_sid : ℕ → List (Text × Bridge) → Option Text
find_bridge_sid session_id [] = none
find_bridge_sid session_id ((sid, b) ∷ d) =
    if b.session_id == session_id && b.running then some sid else find_bridge_sid session_id d

-- The first key whose bridge is the session's.
abbrev key_of_session : {K : Type 0} → ℕ → List (K × Bridge) → Option K
key_of_session session_id [] = none
key_of_session session_id ((k, b) ∷ d) =
    if b.session_id == session_id then some k else key_of_session session_id d

abbrev remove_suspended : Option ℕ → State → State
remove_suspended none w = w
remove_suspended (some k) w = record w { suspended = dict_remove nat_eq k w.suspended }

abbrev remove_either : Option Text → Option ℕ → State → State
remove_either (some sid) k w = record w { active = dict_remove text_eq sid w.active }
remove_either none k w = remove_suspended k w

-- `_remove_bridge_by_session`
abbrev pub remove_bridge_by_session : ℕ → State → State
remove_bridge_by_session session_id w =
    remove_either (key_of_session session_id w.active) (key_of_session session_id w.suspended) w

abbrev pub force_found : Env → ℕ → State → Option Text → Option Bridge → State
force_found e session_id w (some sid) b = stop_bridge e sid admin_force w
force_found e session_id w none (some b) =
    ended e session_id admin_force (remove_bridge_by_session session_id w)
force_found e session_id w none none = ended e session_id admin_force w

-- `force_disconnect_session`
unfoldable pub force_disconnect_session : Env → ℕ → State → State
force_disconnect_session e session_id w =
    force_found e session_id w (find_bridge_sid session_id w.active) (get_suspended session_id w)
