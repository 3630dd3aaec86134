-- ===== src/Worker/Recover.antt =====
-- `recover_stale_jobs` and `_send_heartbeat` of worker.py, and the cancellation of orphaned jobs in
-- `worker_loop`.
pub mod Laws
use retro_bridge.Prelude.{
  ℕ, ◌+◌, ◌*◌, Bool, true, false, not, ◌&&◌, Option, none, some, List, [], ◌∷◌, ◌==◌, ltb,
  if◌then◌else◌, second,
}
use retro_bridge.Model.{
  Job, Status, queued, canceled, canceled_during_stale_recovery, is_queued, is_running, count,
  filter, update_where,
}

abbrev pub job_lease : ℕ
job_lease = 300 * second

abbrev pub job_heartbeat_interval : ℕ
job_heartbeat_interval = 30 * second

-- `Job.lease_expires_at.isnot(None), Job.lease_expires_at < now`
abbrev pub is_expired : Option ℕ → ℕ → Bool
is_expired none now = false
is_expired (some t) now = ltb t now

abbrev pub is_stale : ℕ → ℕ → Job → Bool
is_stale device_id now j =
    j.device_id == device_id && (is_running j.status && is_expired j.lease_expires_at now)

-- The columns that both updates set to NULL.
abbrev pub unclaimed : Job → Job
unclaimed j = record j {
  port_id = none;
  started_at = none;
  worker_pid = none;
  claimed_by = none;
  claimed_at = none;
  lease_expires_at = none;
  heartbeat_at = none;
}

abbrev pub cancel_stale : Job → Job
cancel_stale j = record (unclaimed j) {
  status = canceled;
  error_message = some canceled_during_stale_recovery;
}

abbrev pub requeue : Job → Job
requeue j = record (unclaimed j) { status = queued }

-- Where the first update has found a row, the function returns before the second.
unfoldable pub recover_stale_jobs : ℕ → ℕ → List Job → List Job
recover_stale_jobs device_id now jobs =
    let doomed = λ (j : Job). is_stale device_id now j && j.cancel_requested in
    if count doomed jobs == 0
    then update_where (is_stale device_id now) requeue jobs
    else update_where doomed cancel_stale jobs

-- `_send_heartbeat`; nothing is written where the database fails.
unfoldable pub send_heartbeat : Bool → ℕ → ℕ → List Job → List Job
send_heartbeat fails job_id now jobs =
    if fails
    then jobs
    else update_where (λ j. j.id == job_id)
        (λ j. record j { heartbeat_at = some now; lease_expires_at = some (now + job_lease) }) jobs

-- `worker_loop`: queued jobs whose cancellation was requested are canceled before any claim.
abbrev pub is_orphaned : ℕ → Job → Bool
is_orphaned device_id j = j.device_id == device_id && (is_queued j.status && j.cancel_requested)

-- One turn of the loop. A row that is no longer orphaned has been canceled by another process, and is
-- written as it is.
abbrev pub is_orphan : ℕ → ℕ → Job → Bool
is_orphan device_id i j = j.id == i && is_orphaned device_id j

unfoldable pub cancel_orphan : ℕ → ℕ → List Job → List Job
cancel_orphan device_id i =
    update_where (is_orphan device_id i) (λ j. record j { status = canceled })

-- The loop over the rows that the query has found, with a commit for each. Where one raises, the loop
-- is left: the answer says whether it has come to its end.
unfoldable pub cancel_orphans : (ℕ → Bool) → ℕ → List Job → List Job → Bool × List Job
cancel_orphans fails device_id [] jobs = (true, jobs)
cancel_orphans fails device_id (j ∷ found) jobs =
    let rest = cancel_orphans fails device_id found (cancel_orphan device_id j.id jobs) in
    if fails j.id then (false, jobs) else rest

abbrev pub cancel_orphaned : (ℕ → Bool) → ℕ → List Job → Bool × List Job
cancel_orphaned fails device_id jobs =
    cancel_orphans fails device_id (filter (is_orphaned device_id) jobs) jobs
