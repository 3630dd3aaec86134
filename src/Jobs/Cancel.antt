-- ===== src/Jobs/Cancel.antt =====
-- `cancel_job` of retrobridge/jobs/utils.py, and `bulk_cancel_jobs` of retrobridge/admin/routes.py.
pub mod Laws
use retro_bridge.Prelude.{
  ℕ, ◌+◌, Bool, true, false, not, ◌&&◌, Option, none, some, List, [], ◌∷◌, ◌==◌, if◌then◌else◌,
}
use retro_bridge.Model.{Job, Status, canceled, is_queued, is_running, is_finished}
use retro_bridge.Jobs.Table.{get_job, save}

-- The messages of `cancel_job`, in the order of its tests.
pub data Reply : Type 0 where
  job_not_found not_authorized job_already_finished cancellation_already_requested : Reply
  job_canceled cancellation_requested cannot_cancel_running : Reply

-- Success, message, and the table behind the commit.
pub record Canceled : Type 0 where
  pub success : Bool
  pub message : Reply
  pub jobs : List Job

abbrev refuse : Reply → List Job → Canceled
refuse m jobs = record { success = false; message = m; jobs = jobs }

abbrev accept : Reply → List Job → Canceled
accept m jobs = record { success = true; message = m; jobs = jobs }

cancel_found : Option Job → List Job → ℕ → Bool → Canceled
cancel_found none jobs user_id is_admin = refuse job_not_found jobs
cancel_found (some job) jobs user_id is_admin =
    if not (job.user_id == user_id) && not is_admin
    then refuse not_authorized jobs
    else if is_finished job.status
    then refuse job_already_finished jobs
    else if job.cancel_requested
    then refuse cancellation_already_requested jobs
    else if is_queued job.status
    then accept job_canceled (save (record job { cancel_requested = true; status = canceled }) jobs)
    else if is_running job.status && is_admin
    then accept cancellation_requested (save (record job { cancel_requested = true }) jobs)
    else refuse cannot_cancel_running jobs

unfoldable pub cancel_job : List Job → ℕ → ℕ → Bool → Canceled
unfolding cancel_found
cancel_job jobs job_id user_id is_admin = cancel_found (get_job job_id jobs) jobs user_id is_admin

-- One turn of the loop of `bulk_cancel_jobs`: the changed row, if there is one. An id that is no
-- number is dropped before.
unfoldable pub bulk_cancel_row : Job → Option Job
bulk_cancel_row job =
    if is_finished job.status
    then none
    else if job.cancel_requested
    then none
    else if is_queued job.status
    then some (record job { cancel_requested = true; status = canceled })
    else if is_running job.status
    then some (record job { cancel_requested = true })
    else none

abbrev pub bulk_cancel_one : Option Job → List Job → List Job × ℕ
bulk_cancel_one none jobs = (jobs, 0)
bulk_cancel_one (some job) jobs = elim (bulk_cancel_row job) [
  | none ↦ (jobs, 0)
  | some job' ↦ (save job' jobs, 1)
]

-- `bulk_cancel_jobs`: the table and the count that is flashed.
unfoldable pub bulk_cancel_jobs : List ℕ → List Job → List Job × ℕ
unfolding bulk_cancel_row
bulk_cancel_jobs [] jobs = (jobs, 0)
bulk_cancel_jobs (i ∷ ids) jobs =
    let (jobs', n) = bulk_cancel_one (get_job i jobs) jobs in
    let (jobs'', m) = bulk_cancel_jobs ids jobs' in (jobs'', n + m)
