-- ===== src/Worker/Tests.antt =====
-- The worker on a small queue and a scripted device.
use mathlib.Core.List.{Memᴰ}
use retro_bridge.Prelude.{
  ℕ, ◌+◌, ◌*◌, ◌≡◌, ◌≢◌, refl, inl, inr, true, false, Option, none, some, List, [], ◌∷◌, ◌++◌,
  arith, Text, codes, second, All,
}
use retro_bridge.Model.{Job, DevicePort, job_queue, Status, queued, running}
use retro_bridge.Worker.Recover.{recover_stale_jobs, job_lease}
use retro_bridge.Worker.Claim.{
  Db, Claimer, below_limit, is_candidate, before, select_job, claimed, claim_on, claim_job,
}
use retro_bridge.Worker.Claim.Choice.{select_job-best}
use retro_bridge.Worker.Claim.Limit.{IsTable, claim_job-IsTable}
use retro_bridge.Worker.Commands.{
  cr, Json, json_list, apply_newline, resolve_cmds, resolve_newline_mode,
}
use retro_bridge.Worker.Capture.{bytes, nothing, Turn, Setup, capture}
use retro_bridge.Worker.Run.{
  got_chunk, got_nothing, transferred, World, body, run_job_on_device, command, file_transfer,
}
use retro_bridge.Worker.Run.Outcome.{IsSettled, run_job_on_device-IsSettled}
use retro_bridge.Worker.Run.Order.{IsComplete, run_job_on_device-IsComplete}
use retro_bridge.Worker.Run.Total.{run_job_on_device-returns}

-- A row with the given id, status, priority, and port and lease.
abbrev pub row : ℕ → Status → ℕ → Option ℕ → Option ℕ → Job
row i s p port lease = record {
  id = i;
  user_id = 7;
  device_id = 1;
  port_id = port;
  original_filename = codes "a.bin";
  stored_filename = some (codes "job-1/a.bin");
  status = s;
  priority = p;
  file_size_bytes = none;
  created_at = i;
  started_at = none;
  finished_at = none;
  runtime_seconds = none;
  exit_code = none;
  output_path = none;
  error_message = none;
  worker_pid = none;
  claimed_by = none;
  claimed_at = none;
  lease_expires_at = lease;
  heartbeat_at = none;
  override_newline_mode = none;
  override_pre_transfer_cmds = none;
  override_post_transfer_cmds = none;
  cancel_requested = false;
}

abbrev pub jobs : List Job
jobs =
    row 1 running 0 (some 5) (some 100)
    ∷ row 2 queued 1 none none
    ∷ row 3 queued 4 none none
    ∷ row 4 running 0 (some 6) (some 900)
    ∷ []

abbrev beaten : Job
beaten = record (row 1 running 0 (some 5) (some 100)) {
  heartbeat_at = some 80;
  lease_expires_at = some (80 + job_lease);
}

abbrev pub port : DevicePort
port = record {
  id = 6;
  device_id = 1;
  port_label = codes "TTY6";
  transport = codes "serial";
  dev_path = codes "/dev/ttyUSB0";
  purpose = job_queue;
  baud = some 9600;
  data_bits = some 8;
  parity = some (codes "N");
  stop_bits = some 1;
  flow_control = some (codes "none");
  newline_mode = some (codes "cr");
  max_concurrent_jobs = some 2;
  max_runtime_seconds = some 300;
  idle_timeout_seconds = some 5;
  pre_transfer_cmds = some (codes "LOAD");
  post_transfer_cmds = none;
  transfer_protocol = some (codes "xmodem");
  is_enabled = true;
}

select_job-best_example :
    Memᴰ (row 3 queued 4 none none) jobs
    × (is_candidate 1 (row 3 queued 4 none none) ≡ true)
    × All (λ k. is_candidate 1 k ≡ true → before k (row 3 queued 4 none none) ≡ false) jobs
    × (below_limit 1 (some 2) ≡ true)
unfolding select_job
select_job-best_example = select_job-best 1 port jobs {j = row 3 queued 4 none none} refl

abbrev pub claimer : Claimer
claimer = record { worker_id = codes "host:1:centurion"; pid = 1; now = 500 }

abbrev db : Db
db = record {
  devices =
      record { id = 1; name = codes "centurion"; display_name = none; is_enabled = true } ∷ [];
  ports = port ∷ [];
  jobs = jobs;
}

abbrev pub limits : ℕ → Option ℕ
limits k = some 2

pub jobs-IsTable : IsTable limits jobs
jobs-IsTable = ((λ k. ground arith), (λ k m e. ground arith))

claim_job-IsTable_example :
    IsTable limits (claim_job (λ p. false) claimer (codes "centurion") db).jobs
claim_job-IsTable_example =
    claim_job-IsTable limits (λ p. false) claimer (codes "centurion") db (refl, tt) jobs-IsTable

-- Job 1 is requeued, and job 3 has the highest priority.
claims_third :
    (claim_job (λ p. false) claimer (codes "centurion") db).job
    ≡ some (claimed claimer port (row 3 queued 4 none none))
unfolding claim_job claim_on select_job claimed recover_stale_jobs
claims_third = refl

abbrev start : ℕ
start = 1700000000 * second

abbrev turns : List Turn
turns =
    record { now = start + 1; cancelled = false; input = bytes b'O' (b'K' ∷ []); after = start + 2 }
    ∷ record { now = start + 400 * second; cancelled = false; input = nothing; after = start }
    ∷ []

abbrev setup : Setup
setup = record { start_time = start; max_runtime = 300; idle_timeout = 5; has_sessions = true }

abbrev pub world : World
world = record {
  output_path = codes "outputs/job-3/session.log";
  mkdir_raises = false;
  upload_exists = true;
  setup_raises = false;
  cancelled_first = false;
  open_raises = none;
  readings = got_chunk ∷ got_nothing ∷ [];
  pre_raises = λ n. none;
  transfer = transferred true;
  post_raises = λ n. none;
  start_time = start;
  turns = turns;
  has_sessions = true;
  cancelled_last = false;
  end_time = start + 400 * second;
  finish_time = start + 400 * second;
}

-- `json.loads` on the texts of this file.
abbrev pub loads : Text → Json
loads raw = json_list (raw ∷ [])

abbrev ran : Job
ran = row 3 running 4 (some 6) (some 900)

sends_in_order :
    (run_job_on_device loads ran port world).sent
    ≡ command (codes "LOAD" ++ cr ∷ []) ∷ file_transfer ∷ []
unfolding run_job_on_device body capture resolve_cmds resolve_newline_mode apply_newline
sends_in_order = refl

succeeds : (run_job_on_device loads ran port world).returned ≡ some true
unfolding run_job_on_device body capture resolve_cmds resolve_newline_mode apply_newline
succeeds = refl

run_job_on_device-IsSettled_example :
    IsSettled world true (run_job_on_device loads ran port world).job
run_job_on_device-IsSettled_example = run_job_on_device-IsSettled loads ran port world refl succeeds

run_job_on_device-IsComplete_example :
    (world.upload_exists ≡ true)
    × IsComplete loads
        (record ran { output_path = some world.output_path })
        port
        world
        (run_job_on_device loads ran port world).sent
run_job_on_device-IsComplete_example = run_job_on_device-IsComplete loads ran port world succeeds

run_job_on_device-returns_example : (run_job_on_device loads ran port world).returned ≢ none
run_job_on_device-returns_example =
    run_job_on_device-returns loads ran port world refl refl refl (inr (inl (omega arith)))
