-- ===== src/Worker/Recover/Laws.antt =====
-- What `recover_stale_jobs` leaves behind.
use retro_bridge.Prelude.{
  ℕ, ◌+◌, ◌≤◌, ◌≡◌, inl, inr, refl, Bool, false, ◌&&◌, some, List, [], ◌∷◌, arith, ◌==◌, Bool-cases,
}
use retro_bridge.Model.{Job, count, update_where}
use retro_bridge.Jobs.Table.{get_job}
use retro_bridge.Worker.Recover.{
  is_stale, cancel_stale, requeue, recover_stale_jobs, job_lease, send_heartbeat,
}

module _ (device_id now : ℕ) where
  abbrev doomed : Job → Bool
  doomed j = is_stale device_id now j && j.cancel_requested

  requeue_all :
      (jobs : List Job)
      → count (is_stale device_id now) (update_where (is_stale device_id now) requeue jobs) ≡ 0
  requeue_all [] = refl
  requeue_all (j ∷ jobs) = ground (arith, requeue_all jobs)

  cancel_all : (jobs : List Job) → count doomed (update_where doomed cancel_stale jobs) ≡ 0
  cancel_all [] = refl
  cancel_all (j ∷ jobs) = ground (arith, cancel_all jobs)

  doomed-le : (jobs : List Job) → count doomed jobs ≤ count (is_stale device_id now) jobs
  doomed-le [] = omega arith
  doomed-le (j ∷ jobs) = ground (arith, doomed-le jobs)

  -- One call leaves no stale job whose cancellation was requested, and, if there was none to begin
  -- with, no stale job at all.
  recover_once :
      (jobs : List Job)
      → (count doomed (recover_stale_jobs device_id now jobs) ≡ 0)
        × (count doomed jobs ≡ 0
            → count (is_stale device_id now) (recover_stale_jobs device_id now jobs) ≡ 0)
  unfolding recover_stale_jobs
  recover_once jobs = elim (Bool-cases (count doomed jobs == 0)) [
    | inl e ↦ rw e (
        (
          omega (
            arith,
            requeue_all jobs,
            doomed-le (update_where (is_stale device_id now) requeue jobs),
          ),
          (λ h. requeue_all jobs),
        ))
    | inr e ↦ rw e (cancel_all jobs, (λ h. absurd (ground arith)))
  ]

  -- Two calls in a row leave no job of the device that is running on an expired lease: the first
  -- cancels those with a request for it, and the next requeues the others.
  pub recover_stale_jobs-twice :
      (jobs : List Job)
      → let once = recover_stale_jobs device_id now jobs in
        count (is_stale device_id now) (recover_stale_jobs device_id now once) ≡ 0
  recover_stale_jobs-twice jobs =
      (recover_once (recover_stale_jobs device_id now jobs)).1 (recover_once jobs).0

  get_job-update_none :
      (p : Job → Bool) (f : Job → Job) (k : ℕ) (jobs : List Job) {j : Job}
      → get_job k jobs ≡ some j
      → p j ≡ false
      → ((x : Job) → (f x).id ≡ x.id)
      → get_job k (update_where p f jobs) ≡ some j
  get_job-update_none p f k [] h e i = cc
  get_job-update_none p f k (x ∷ jobs) {j} h e i =
      ground (arith, i x, get_job-update_none p f k jobs {j = j})

  -- A job that is not running on an expired lease of this device stays as it is.
  pub recover_stale_jobs-live :
      (k : ℕ) (jobs : List Job) {j : Job}
      → get_job k jobs ≡ some j
      → is_stale device_id now j ≡ false
      → get_job k (recover_stale_jobs device_id now jobs) ≡ some j
  unfolding recover_stale_jobs
  recover_stale_jobs-live k jobs {j} h e = elim (Bool-cases (count doomed jobs == 0)) [
    | inl c ↦ rw c (get_job-update_none (is_stale device_id now) requeue k jobs h e (λ x. refl))
    | inr c ↦ rw c (get_job-update_none doomed cancel_stale k jobs h (ground arith) (λ x. refl))
  ]

heartbeat_row :
    (job_id now later : ℕ) (jobs : List Job) {j : Job}
    → get_job job_id (send_heartbeat false job_id now jobs) ≡ some j
    → j.lease_expires_at ≡ some (now + job_lease)
unfolding send_heartbeat
heartbeat_row job_id now later [] h = cc
heartbeat_row job_id now later (x ∷ jobs) {j} h =
    ground (arith, heartbeat_row job_id now later jobs {j = j})

-- A heartbeat keeps a job's lease: a `recover_stale_jobs` for any device, up to five minutes after the
-- heartbeat was written, leaves the job as it is.
pub send_heartbeat-keeps :
    (job_id device_id now later : ℕ) (jobs : List Job) {j : Job}
    → get_job job_id (send_heartbeat false job_id now jobs) ≡ some j
    → later ≤ now + job_lease
    → get_job job_id (recover_stale_jobs device_id later (send_heartbeat false job_id now jobs))
      ≡ some j
send_heartbeat-keeps job_id device_id now later jobs {j} h le =
    let lease = heartbeat_row job_id now later jobs h in
    recover_stale_jobs-live device_id later job_id (send_heartbeat false job_id now jobs) h
      (ground arith)
