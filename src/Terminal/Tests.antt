-- ===== src/Terminal/Tests.antt =====
-- The terminal of one worker with a session on one port.
use retro_bridge.Prelude.{
  ℕ, ◌*◌, ◌≡◌, refl, Bool, true, false, none, some, List, [], ◌∷◌, arith, All, codes, second,
}
use retro_bridge.Model.{count}
use retro_bridge.Terminal.Leases.{
  TerminalSession, PortLease, Db, active, get_session, is_expired, recover_stale_leases,
  acquire_port_lease,
}
use retro_bridge.Terminal.Leases.Exclusive.{
  Call, acquires, beats, recovers, releases, run_calls, OnePerPort, acquire_port_lease-excludes,
}
use retro_bridge.Terminal.Leases.Recovery.{settled, recover_stale_leases-settled}
use retro_bridge.Terminal.Bridges.{
  Bridge, State, Env, is_some, get_active, get_suspended, suspend_bridge, resume_bridge,
  stop_bridge,
}
use retro_bridge.Terminal.Bridges.Resume.{IsBack, suspend_bridge-resume_bridge}
use retro_bridge.Terminal.Monitors.{overdue, check_timeouts}
use retro_bridge.Terminal.Monitors.Timeouts.{check_timeouts-overdue}

abbrev session : ℕ → ℕ → TerminalSession
session i port = record {
  id = i;
  user_id = 7;
  device_id = 1;
  port_id = port;
  status = active;
  connected_at = some (100 * second);
  disconnected_at = none;
  duration_seconds = none;
  disconnect_reason = none;
  bridge_worker_id = none;
  bridge_heartbeat_at = none;
  bridge_status = none;
}

abbrev lease : ℕ → ℕ → PortLease
lease port i = record {
  port_id = port;
  session_id = i;
  claimed_by = codes "host:1";
  claimed_at = 100 * second;
  lease_expires_at = 400 * second;
  heartbeat_at = 100 * second;
}

abbrev tables : Db
tables = record { sessions = session 1 5 ∷ session 2 6 ∷ []; leases = lease 5 1 ∷ [] }

abbrev nowhere : ℕ → Bool
nowhere k = false

acquires_six :
    (acquire_port_lease nowhere false (codes "host:1") (200 * second) 6 2 tables).0 ≡ true
unfolding acquire_port_lease recover_stale_leases
acquires_six = refl

abbrev meanwhile : List Call
meanwhile =
    beats false (300 * second) 2
    ∷ releases false 1
    ∷ recovers nowhere (450 * second)
    ∷ acquires nowhere false (codes "host:2") (460 * second) 5 3
    ∷ []

abbrev acquired : Db
acquired = (acquire_port_lease nowhere false (codes "host:1") (200 * second) 6 2 tables).1

acquire_port_lease-excludes_example :
    (acquire_port_lease nowhere false
      (codes "host:2")
      (500 * second)
      6
      4
      (run_calls meanwhile acquired)).0
    ≡ false
acquire_port_lease-excludes_example =
    acquire_port_lease-excludes 6 2 (200 * second) nowhere false (codes "host:1") tables meanwhile
      nowhere false (codes "host:2") (500 * second) 4 acquires_six
      (omega arith, ((λ e. ground arith), (omega arith, (omega arith, tt)))) (omega arith)

tables-OnePerPort : OnePerPort tables
tables-OnePerPort p = ground arith

recover_stale_leases-settled_example :
    (count (is_expired (500 * second)) (recover_stale_leases nowhere (500 * second) tables).leases
      ≡ 0)
    × (get_session 1 (recover_stale_leases nowhere (500 * second) tables).sessions
        ≡ some (settled nowhere (500 * second) tables.leases (session 1 5)))
recover_stale_leases-settled_example =
    recover_stale_leases-settled nowhere (500 * second) 1 tables {s = session 1 5} refl

abbrev bridge : Bridge
bridge = record {
  sid = some (codes "a");
  session_id = 1;
  port_id = 5;
  device_id = 1;
  running = true;
  bytes_sent = 3;
  bytes_received = 4;
  output_buffer = codes "OK";
  last_activity = 150 * second;
  start_time = 100 * second;
  max_runtime = 3600;
  idle_limit = 300;
  suspended_at = none;
  is_open = true;
}

abbrev state : State
state = record { active = (codes "a", bridge) ∷ []; suspended = []; db = tables }

abbrev at : ℕ → Env
at t = record { fails = false; worker = codes "host:1"; now = t * second }

suspend_bridge-resume_bridge_example :
    let r = resume_bridge (at 260) (codes "b") 1 9 (suspend_bridge (at 200) (codes "a") state).1 in
    (b' : Bridge) × (r.0 ≡ some b')
    × (get_active (codes "b") r.1 ≡ some b')
    × (get_suspended 1 r.1 ≡ none)
    × IsBack bridge b' (200 * second) (260 * second) 9 (codes "b")
suspend_bridge-resume_bridge_example =
    suspend_bridge-resume_bridge (at 200) (at 260) (codes "a") (codes "b") 9 state {b = bridge} refl
      refl refl (omega arith) (omega arith) (omega arith)

check_timeouts-overdue_example :
    All
      (λ kv. is_some (overdue (500 * second) kv.1) ≡ false)
      (check_timeouts (at 500) (λ sid. false) state).active
check_timeouts-overdue_example = check_timeouts-overdue (at 500) (λ sid. false) state (λ sid. refl)

idle_is_stopped : (check_timeouts (at 500) (λ sid. false) state).active ≡ []
unfolding check_timeouts stop_bridge
idle_is_stopped = refl

abbrev left : State
left = record state {
  suspended = (2, record bridge { session_id = 2; suspended_at = some (150 * second) }) ∷ [];
}
