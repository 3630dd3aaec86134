-- ===== src/Worker/Capture.antt =====
-- The loop of `run_job_on_device` in worker.py that captures the device's output.
pub mod Laws
use retro_bridge.Prelude.{
  ℕ, ◌+◌, ◌-◌, ◌*◌, Bool, true, false, ◌&&◌, Option, none, some, List, [], ◌∷◌, ltb, leb,
  if◌then◌else◌, second,
}
use retro_bridge.Worker.Recover.{job_heartbeat_interval}

-- What `_fd_read` gives: bytes, none, or an OSError or SerialException.
pub data Input : Type 0 where
  bytes : ℕ → List ℕ → Input
  nothing : Input
  port_closed : Input

-- One turn: the clock at its top, whether the job is found cancelled, what is read, and the clock behind
-- the read.
pub record Turn : Type 0 where
  pub now : ℕ
  pub cancelled : Bool
  pub input : Input
  pub after : ℕ

-- Why the loop ends.
pub data End : Type 0 where
  max_runtime_reached cancel_seen closed idle_timeout_reached : End

-- The loop's constants: `start_time`, the two limits in seconds, and whether there is a session factory.
pub record Setup : Type 0 where
  pub start_time : ℕ
  pub max_runtime : ℕ
  pub idle_timeout : ℕ
  pub has_sessions : Bool

-- What a run of the loop did: the chunks logged as RX, the heartbeats by their `elapsed`, and how it
-- ended, if it did.
pub record Captured : Type 0 where
  pub received : List (List ℕ)
  pub heartbeats : List ℕ
  pub end : Option End

abbrev pub stopped : Option End → Captured
stopped e = record { received = []; heartbeats = []; end = e }

abbrev pub beat : Bool → ℕ → Captured → Captured
beat true elapsed c = record c { heartbeats = elapsed ∷ c.heartbeats }
beat false elapsed c = c

abbrev pub log_rx : ℕ → List ℕ → Captured → Captured
log_rx b bs c = record c { received = (b ∷ bs) ∷ c.received }

-- `session_factory and (elapsed - last_heartbeat) >= JOB_HEARTBEAT_INTERVAL`
abbrev pub is_beat_due : Setup → ℕ → ℕ → Bool
is_beat_due s elapsed last_heartbeat =
    s.has_sessions && leb (last_heartbeat + job_heartbeat_interval) elapsed

-- The loop, from `last_activity` and `last_heartbeat`.
unfoldable pub capture_from : Setup → ℕ → ℕ → List Turn → Captured
capture_from s last_activity last_heartbeat [] = stopped none
capture_from s last_activity last_heartbeat (t ∷ ts) =
    let elapsed = t.now - s.start_time in
    let due = is_beat_due s elapsed last_heartbeat in
    let last_heartbeat' = if due then elapsed else last_heartbeat in
    let idle = capture_from s last_activity last_heartbeat' ts in
    let busy = capture_from s t.after last_heartbeat' ts in
    if ltb (s.max_runtime * second) elapsed
    then stopped (some max_runtime_reached)
    else beat due elapsed (
        if t.cancelled then stopped (some cancel_seen) else elim t.input [
          | port_closed ↦ stopped (some closed)
          | bytes b bs ↦ log_rx b bs busy
          | nothing ↦
              if ltb (s.idle_timeout * second) (t.after - last_activity)
              then stopped (some idle_timeout_reached)
              else idle
        ])

-- `last_activity` and `last_heartbeat` both begin at `start_time`.
unfoldable pub capture : Setup → List Turn → Captured
unfolding capture_from
capture s = capture_from s s.start_time s.start_time
