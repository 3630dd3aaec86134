-- ===== src/Worker/Claim.antt =====
-- `claim_job` of worker.py, with nothing between its commits: the recovery, and one for each port.
pub mod Choice
pub mod Limit
use retro_bridge.Prelude.{
  ℕ, ◌+◌, Bool, true, false, not, ◌&&◌, ◌||◌, Option, none, some, List, [], ◌∷◌, ◌==◌, ltb, leb,
  if◌then◌else◌, Text, text_eq,
}
use retro_bridge.Model.{
  Job, Device, DevicePort, running, is_queued, is_running, is_job_queue, count, filter, find,
  update_where,
}
use retro_bridge.Jobs.Table.{has_id, get_job}
use retro_bridge.Worker.Recover.{job_lease, recover_stale_jobs}

-- The tables that the worker reads, and the rows of `jobs`.
pub record Db : Type 0 where
  pub devices : List Device
  pub ports : List DevicePort
  pub jobs : List Job

-- The process that claims.
pub record Claimer : Type 0 where
  pub worker_id : Text
  pub pid : ℕ
  pub now : ℕ

abbrev pub is_port : ℕ → Option ℕ → Bool
is_port p none = false
is_port p (some q) = q == p

abbrev pub runs_on : ℕ → Job → Bool
runs_on p j = is_port p j.port_id && is_running j.status

-- `running_count_subq < port.max_concurrent_jobs`; with NULL the statement is not made.
abbrev pub below_limit : ℕ → Option ℕ → Bool
below_limit n none = false
below_limit n (some limit) = ltb n limit

abbrev pub is_candidate : ℕ → Job → Bool
is_candidate device_id j =
    j.device_id == device_id && (is_queued j.status && not j.cancel_requested)

-- ORDER BY priority DESC, created_at ASC: `a` stands before `b`.
abbrev pub before : Job → Job → Bool
before a b = ltb b.priority a.priority || a.priority == b.priority && ltb a.created_at b.created_at

-- LIMIT 1; of rows that stand level the first is taken.
abbrev pub better : Job → Option Job → Job
better j none = j
better j (some k) = if before k j then k else j

abbrev pub top : List Job → Option Job
top [] = none
top (j ∷ jobs) = some (better j (top jobs))

-- The inner SELECT: the best candidate, if the port is below its limit.
unfoldable pub select_job : ℕ → DevicePort → List Job → Option Job
select_job device_id port jobs =
    if below_limit (count (runs_on port.id) jobs) port.max_concurrent_jobs
    then top (filter (is_candidate device_id) jobs)
    else none

unfoldable pub claimed : Claimer → DevicePort → Job → Job
claimed c port j = record j {
  status = running;
  port_id = some port.id;
  started_at = some c.now;
  worker_pid = some c.pid;
  claimed_by = some c.worker_id;
  claimed_at = some c.now;
  lease_expires_at = some (c.now + job_lease);
  heartbeat_at = some c.now;
}

-- What the call returns, and the rows behind it.
pub record Claim : Type 0 where
  pub job : Option Job
  pub jobs : List Job

-- The row that the UPDATE has returned.
abbrev pub claim_row : Claimer → DevicePort → Job → List Job → Claim
claim_row c port j jobs =
    let jobs' = update_where (has_id j.id) (claimed c port) jobs in
    record { job = get_job j.id jobs'; jobs = jobs' }

abbrev pub lacks_limit : Option ℕ → Bool
lacks_limit none = true
lacks_limit (some limit) = false

-- The loop over the ports. `fails` says for which of them the database raises; the comparison with a
-- limit that is NULL is not made by the database, and raises too. Then all is rolled back and nothing
-- is claimed, for the ports behind as well.
unfoldable pub claim_on : (ℕ → Bool) → Claimer → ℕ → List DevicePort → List Job → Claim
claim_on fails c device_id [] jobs = record { job = none; jobs = jobs }
claim_on fails c device_id (port ∷ ports) jobs =
    let rest = claim_on fails c device_id ports jobs in
    if fails port.id || lacks_limit port.max_concurrent_jobs
    then record { job = none; jobs = jobs }
    else elim (select_job device_id port jobs) [ none ↦ rest | some j ↦ claim_row c port j jobs ]

abbrev pub is_job_port : ℕ → DevicePort → Bool
is_job_port device_id p = p.device_id == device_id && (is_job_queue p.purpose && p.is_enabled)

abbrev pub is_device : Text → Device → Bool
is_device name d = text_eq d.name name && d.is_enabled

abbrev pub claim_for : (ℕ → Bool) → Claimer → Db → Option Device → Claim
claim_for fails c db none = record { job = none; jobs = db.jobs }
claim_for fails c db (some d) =
    claim_on fails c d.id (filter (is_job_port d.id) db.ports)
      (recover_stale_jobs d.id c.now db.jobs)

unfoldable pub claim_job : (ℕ → Bool) → Claimer → Text → Db → Claim
claim_job fails c device_name db = claim_for fails c db (find (is_device device_name) db.devices)
