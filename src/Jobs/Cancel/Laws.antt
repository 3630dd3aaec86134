-- ===== src/Jobs/Cancel/Laws.antt =====
-- Cancelling a job: who may, what changes, and what a second request does.
use retro_bridge.Prelude.{
  ℕ, ◌+◌, ◌≡◌, refl, sym, ◌∙◌, inl, inr, Bool, true, false, not, ◌&&◌, ◌||◌, Option, none, some,
  List, [], ◌∷◌, arith, ◌==◌, if◌then◌else◌, Option-cases,
}
use retro_bridge.Model.{Job, canceled, is_queued, is_running}
use retro_bridge.Jobs.Table.{get_job, save, get_job-id, get_job-save}
use retro_bridge.Jobs.Cancel.{cancel_job, bulk_cancel_row, bulk_cancel_one, bulk_cancel_jobs}

-- The rows that a user may cancel: a job of theirs that is queued, or, for an admin, any job that is
-- queued or running, unless its cancellation has been requested before.
abbrev pub can_cancel : Job → ℕ → Bool → Bool
can_cancel job user_id is_admin =
    not job.cancel_requested
    && (is_queued job.status && (job.user_id == user_id || is_admin)
        || is_running job.status && is_admin)

-- What a successful cancellation makes of a row.
abbrev pub cancelled_row : Job → Job
cancelled_row job = record job {
  cancel_requested = true;
  status = if is_queued job.status then canceled else job.status;
}

-- `cancel_job` on an existing job: it succeeds exactly for those who may cancel it, and then the job
-- alone is changed, to canceled if it was queued and to a pending request if it was running; in
-- every other case the table stays as it was.
pub cancel_job-found :
    (jobs : List Job) (job_id user_id : ℕ) (is_admin : Bool) {job : Job}
    → get_job job_id jobs ≡ some job
    → let r = cancel_job jobs job_id user_id is_admin in
      (r.success ≡ can_cancel job user_id is_admin)
      × (r.jobs ≡ (if can_cancel job user_id is_admin then save (cancelled_row job) jobs else jobs))
unfolding cancel_job
cancel_job-found jobs job_id user_id is_admin {job} h = (ground arith, ground arith)

-- A job that does not exist is reported as such.
pub cancel_job-missing :
    (jobs : List Job) (job_id user_id : ℕ) (is_admin : Bool)
    → get_job job_id jobs ≡ none
    → ((cancel_job jobs job_id user_id is_admin).success ≡ false)
      × ((cancel_job jobs job_id user_id is_admin).jobs ≡ jobs)
unfolding cancel_job
cancel_job-missing jobs job_id user_id is_admin h = (ground arith, ground arith)

-- Once a cancellation has gone through, any further one for the job, by whomever, fails and changes
-- nothing.
pub cancel_job-again :
    (jobs : List Job) (job_id user_id other_id : ℕ) (is_admin other_admin : Bool)
    → (cancel_job jobs job_id user_id is_admin).success ≡ true
    → let r = cancel_job jobs job_id user_id is_admin in
      let again = cancel_job r.jobs job_id other_id other_admin in
      (again.success ≡ false) × (again.jobs ≡ r.jobs)
cancel_job-again jobs job_id user_id other_id is_admin other_admin ok =
    elim (Option-cases (get_job job_id jobs)) [
      | inl e ↦ absurd (ne (cancel_job-missing jobs job_id user_id is_admin e).0)
      | inr (job, e) ↦
          let first = cancel_job-found jobs job_id user_id is_admin e in
          let same : job.id ≡ job_id = get_job-id job_id jobs e in
          let may : can_cancel job user_id is_admin ≡ true = sym first.0 ∙ ok in
          let saved : (cancel_job jobs job_id user_id is_admin).jobs
              ≡ save (cancelled_row job) jobs =
            rw may at first.1 in
          let now : get_job job_id (save (cancelled_row job) jobs) ≡ some (cancelled_row job) =
            ground (arith, get_job-save (cancelled_row job) job_id jobs) in
          let second =
            cancel_job-found (save (cancelled_row job) jobs) job_id other_id other_admin now in
          rw saved (second.0, second.1)
    ]
  where
    ne : ¬ ((cancel_job jobs job_id user_id is_admin).success ≡ false)
    ne h = cc

-- `cancel_job` on each of the ids, as an admin, with the number that went through.
unfoldable pub cancel_each : ℕ → List ℕ → List Job → List Job × ℕ
cancel_each admin [] jobs = (jobs, 0)
cancel_each admin (i ∷ ids) jobs =
    let r = cancel_job jobs i admin true in
    let (jobs', n) = cancel_each admin ids r.jobs in (jobs', (if r.success then 1 else 0) + n)

bulk_cancel_one-eq :
    (i admin : ℕ) (jobs : List Job) (o : Option Job)
    → get_job i jobs ≡ o
    → let r = cancel_job jobs i admin true in
      bulk_cancel_one o jobs ≡ (r.jobs, if r.success then 1 else 0)
unfolding bulk_cancel_row cancel_job
bulk_cancel_one-eq i admin jobs none e = ground arith
bulk_cancel_one-eq i admin jobs (some job) e = ground arith

-- The admin's bulk cancellation does what `cancel_job` does for an admin on each id in turn, and
-- counts the requests that go through.
pub bulk_cancel_jobs-eq-cancel_each :
    (ids : List ℕ) (admin : ℕ) (jobs : List Job)
    → bulk_cancel_jobs ids jobs ≡ cancel_each admin ids jobs
unfolding bulk_cancel_jobs cancel_each
bulk_cancel_jobs-eq-cancel_each [] admin jobs = refl
bulk_cancel_jobs-eq-cancel_each (i ∷ ids) admin jobs = rw (
  bulk_cancel_one-eq i admin jobs (get_job i jobs) refl,
  bulk_cancel_jobs-eq-cancel_each ids admin (cancel_job jobs i admin true).jobs,
)
