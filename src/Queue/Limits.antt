-- ===== src/Queue/Limits.antt =====
-- Whatever the order of the steps, no port runs more jobs than it may.
use retro_bridge.Prelude.{
  ℕ, ◌+◌, ◌≡◌, inl, inr, refl, sym, Bool, true, false, Option, none, some, List, [], ◌∷◌, ◌++◌,
  arith, All, Bool-cases, Text,
}
use mathlib.Core.Path.{subst}
use mathlib.Core.List.{Memᴰ}
use retro_bridge.Model.{Job, DevicePort, canceled, is_running, count, count-append}
use retro_bridge.Jobs.Table.{has_id, get_job, get_job-id, get_job-own, count-save, save}
use retro_bridge.Jobs.Cancel.{cancel_job}
use retro_bridge.Jobs.Cancel.Laws.{
  can_cancel, cancelled_row, cancel_job-found, cancel_job-missing, cancel_each,
  bulk_cancel_jobs-eq-cancel_each,
}
use retro_bridge.Jobs.Create.{Request, created, create_job, new_job, safe_name_of}
use retro_bridge.Jobs.Create.Laws.{create_job-IsSound}
use retro_bridge.Worker.Recover.{send_heartbeat, cancel_orphan, is_orphan, job_lease}
use retro_bridge.Worker.Claim.{runs_on}
use retro_bridge.Worker.Claim.Limit.{
  IsTable, HasLimits, update_where-IsTable, recover_stale_jobs-IsTable, claim_on-IsTable,
}
use retro_bridge.Worker.Commands.{Json}
use retro_bridge.Worker.Run.{
  World, Step as Part, Finish, done, raises, completes, cancelled_at_end, cancelled_in_transfer,
  transfer_failed, still_capturing, still_draining, Ran, left-holds, serial_exception,
  job_cancelled, other_exception, conclude, run_upload, body, run_job_on_device,
}
use retro_bridge.Queue.{
  Step, Steps, creates, cancels, cancels_many, cancels_orphan, recovers, claims, beats, ends,
  none_yet, then_,
}

All-member {ℓ} : {A : Type ℓ} (P : A → Type 0) (xs : List A) {x : A} → All P xs → Memᴰ x xs → P x
All-member P [] h m = elim m [ ]
All-member P (y ∷ xs) h (Memᴰ.head e) = subst P (sym e) h.0
All-member P (y ∷ xs) h (Memᴰ.tail m) = All-member P xs h.1 m

-- A row that takes the place of the row with its id, and runs nowhere where that did not run.
pub save-IsTable :
    (limit : ℕ → Option ℕ) (j j' : Job) (jobs : List Job)
    → get_job j'.id jobs ≡ some j
    → ((k : ℕ) → runs_on k j' ≡ true → runs_on k j ≡ true)
    → IsTable limit jobs
    → IsTable limit (save j' jobs)
save-IsTable limit j j' jobs h runs (unique, within) = (
  (λ k.
      ground (
        arith,
        unique k,
        count-save (has_id k) j j' jobs (unique j'.id) h,
        get_job-id j'.id jobs h,
      )),
  (λ k m e.
      ground (arith, within k m e, runs k, count-save (runs_on k) j j' jobs (unique j'.id) h)),
)

-- The row behind a run, whatever it did: it stays the same job, and is finished or as it was.
conclude-row :
    (w : World) (job : Job) (s : Part Finish) (k : ℕ)
    → ((conclude w job s).job.id ≡ job.id)
      × (runs_on k (conclude w job s).job ≡ true → runs_on k job ≡ true)
conclude-row w job (done xs completes) k = (refl, λ h. ground arith)
conclude-row w job (done xs cancelled_at_end) k = (refl, λ h. ground arith)
conclude-row w job (done xs cancelled_in_transfer) k = (refl, λ h. ground arith)
conclude-row w job (done xs transfer_failed) k = (refl, λ h. ground arith)
conclude-row w job (done xs still_capturing) k = (refl, λ h. h)
conclude-row w job (done xs still_draining) k = (refl, λ h. h)
conclude-row w job (raises xs serial_exception) k = (refl, λ h. ground arith)
conclude-row w job (raises xs job_cancelled) k = (ground arith, λ h. ground arith)
conclude-row w job (raises xs other_exception) k = (refl, λ h. ground arith)

run-row :
    (loads : Text → Json) (job : Job) (port : DevicePort) (w : World) (k : ℕ)
    → let j' = (run_job_on_device loads job port w).job in
      (j'.id ≡ job.id) × (runs_on k j' ≡ true → runs_on k job ≡ true)
unfolding run_job_on_device
run-row loads job port w k =
    left-holds IsRow w.mkdir_raises job (run_upload w.upload_exists w job' (body loads job' port w))
      (refl, λ h. h) (by_upload w.upload_exists)
  where
    job' : Job
    job' = record job { output_path = some w.output_path }

    IsRow : Ran → Type 0
    IsRow r = (r.job.id ≡ job.id) × (runs_on k r.job ≡ true → runs_on k job ≡ true)

    by_upload : (u : Bool) → IsRow (run_upload u w job' (body loads job' port w))
    by_upload true =
        left-holds IsRow w.setup_raises job' (conclude w job' (body loads job' port w))
          (refl, λ h. h) (conclude-row w job' (body loads job' port w) k)
    by_upload false = (refl, λ h. ground arith)

-- A new row with a free id, that runs nowhere.
append-IsTable :
    (limit : ℕ → Option ℕ) (j : Job) (jobs : List Job)
    → count (has_id j.id) jobs ≡ 0
    → is_running j.status ≡ false
    → IsTable limit jobs
    → IsTable limit (jobs ++ j ∷ [])
append-IsTable limit j jobs free idle (unique, within) = (
  (λ k. ground (arith, unique k, count-append (has_id k) jobs (j ∷ []))),
  (λ k m e. ground (arith, within k m e, count-append (runs_on k) jobs (j ∷ []))),
)

create_job-IsTable :
    (limit : ℕ → Option ℕ) (secure_filename : Text → Text) (r : Request) (jobs : List Job) {j : Job}
    {jobs' : List Job}
    → count (has_id r.next_id) jobs ≡ 0
    → create_job secure_filename r jobs ≡ created j jobs'
    → IsTable limit jobs
    → IsTable limit jobs'
unfolding new_job
create_job-IsTable limit secure_filename r jobs {j} {jobs'} free h t =
    let (_, _, _, _, sound) = create_job-IsSound secure_filename r jobs h in
    let name = safe_name_of secure_filename r in
    rw (sound.appended, sound.is_new) (append-IsTable limit (new_job r name) jobs free refl t)

cancel_job-IsTable :
    (limit : ℕ → Option ℕ) (jobs : List Job) (job_id user_id : ℕ) (is_admin : Bool)
    → IsTable limit jobs
    → IsTable limit (cancel_job jobs job_id user_id is_admin).jobs
cancel_job-IsTable limit jobs job_id user_id is_admin t = by_row (get_job job_id jobs) refl
  where
    by_row :
        (o : Option Job)
        → get_job job_id jobs ≡ o
        → IsTable limit (cancel_job jobs job_id user_id is_admin).jobs
    by_row none e = rw (cancel_job-missing jobs job_id user_id is_admin e).1 t
    by_row (some job) e =
        rw (cancel_job-found jobs job_id user_id is_admin e).1
          (elim (Bool-cases (can_cancel job user_id is_admin)) [
            | inr n ↦ rw n t
            | inl y ↦ rw y (
                save-IsTable limit job (cancelled_row job) jobs (get_job-own job_id jobs e)
                  (λ k r. ground arith) t)
          ])

cancel_each-IsTable :
    (limit : ℕ → Option ℕ) (admin : ℕ) (ids : List ℕ) (jobs : List Job)
    → IsTable limit jobs
    → IsTable limit (cancel_each admin ids jobs).0
unfolding cancel_each
cancel_each-IsTable limit admin [] jobs t = t
cancel_each-IsTable limit admin (i ∷ ids) jobs t =
    cancel_each-IsTable limit admin ids (cancel_job jobs i admin true).jobs
      (cancel_job-IsTable limit jobs i admin true t)

module _ (loads : Text → Json) (secure_filename : Text → Text) (ports : List DevicePort)
    (limit : ℕ → Option ℕ) where
  pub Step-IsTable :
      {jobs jobs' : List Job}
      → HasLimits limit ports
      → Step loads secure_filename ports jobs jobs'
      → IsTable limit jobs
      → IsTable limit jobs'
  unfolding send_heartbeat cancel_orphan
  Step-IsTable {jobs} l (creates r free h) t =
      create_job-IsTable limit secure_filename r jobs free h t
  Step-IsTable {jobs} l (cancels i u a) t = cancel_job-IsTable limit jobs i u a t
  Step-IsTable {jobs} l (cancels_many ids) t =
      rw (bulk_cancel_jobs-eq-cancel_each ids 0 jobs) (cancel_each-IsTable limit 0 ids jobs t)
  Step-IsTable {jobs} l (cancels_orphan d i) t =
      update_where-IsTable limit (is_orphan d i) (λ j. record j { status = canceled }) jobs
        (λ j. refl) (λ k j u v. ground arith) t
  Step-IsTable {jobs} l (recovers d now) t = recover_stale_jobs-IsTable limit d now jobs t
  Step-IsTable {jobs} l (claims fails c d port m) t =
      claim_on-IsTable limit fails c d (port ∷ []) jobs
        (All-member (λ p. p.max_concurrent_jobs ≡ limit p.id) ports l m, tt) t
  Step-IsTable {jobs} l (beats true i now) t = t
  Step-IsTable {jobs} l (beats false i now) t =
      update_where-IsTable limit (has_id i)
        (λ j. record j { heartbeat_at = some now; lease_expires_at = some (now + job_lease) }) jobs
        (λ j. refl) (λ k j u v. v) t
  Step-IsTable {jobs} l (ends {j = j} i port w h) t =
      let row = run-row loads j port w in
      save-IsTable limit j (run_job_on_device loads j port w).job jobs
        (subst (λ n. get_job n jobs ≡ some j) (sym (row 0).0) (get_job-own i jobs h))
        (λ k. (row k).1) t

  -- However creations, cancellations, claims, recoveries, heartbeats and the ends of runs follow on one
  -- another, by any number of workers and from an empty table: the job ids stay unique, and no port
  -- ever has more running jobs than its `max_concurrent_jobs`.
  pub Steps-IsTable :
      {jobs : List Job}
      → HasLimits limit ports
      → Steps loads secure_filename ports [] jobs
      → IsTable limit jobs
  Steps-IsTable l none_yet = ((λ k. omega arith), (λ k m e. omega arith))
  Steps-IsTable l (then_ s t) = Step-IsTable l t (Steps-IsTable l s)
