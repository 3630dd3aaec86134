-- ===== src/Queue/History.antt =====
-- What any later state of the queue still knows of a job.
use mathlib.Core.Path.{subst}
use retro_bridge.Prelude.{
  ℕ, ◌+◌, ◌≡◌, inl, inr, refl, sym, Bool, true, false, ◌&&◌, ◌||◌, Option, none, some, List, [],
  ◌∷◌, ◌++◌, arith, ◌==◌, Bool-cases, Text,
}
use retro_bridge.Model.{Job, DevicePort, canceled, count}
use retro_bridge.Jobs.Table.{has_id, get_job, get_job-id, get_job-own, HasUniqueIds}
use retro_bridge.Jobs.Cancel.{cancel_job}
use retro_bridge.Jobs.Cancel.Laws.{
  can_cancel, cancelled_row, cancel_job-found, cancel_job-missing, cancel_each,
  bulk_cancel_jobs-eq-cancel_each,
}
use retro_bridge.Jobs.Create.Laws.{create_job-IsSound}
use retro_bridge.Worker.Recover.{
  send_heartbeat, cancel_orphan, is_orphan, is_stale, cancel_stale, requeue, recover_stale_jobs,
  job_lease,
}
use retro_bridge.Worker.Claim.{
  Claimer, Claim, lacks_limit, is_candidate, select_job, claimed, claim_row, claim_on,
}
use retro_bridge.Worker.Claim.Choice.{select_job-best}
use retro_bridge.Worker.Claim.Limit.{IsTable, HasLimits}
use retro_bridge.Queue.{
  Step, Steps, creates, cancels, cancels_many, cancels_orphan, recovers, claims, beats, ends,
  none_yet, then_,
}
use retro_bridge.Queue.Limits.{Step-IsTable}
use retro_bridge.Worker.Commands.{Json}
use retro_bridge.Worker.Run.{run_job_on_device}
use retro_bridge.Queue.Later.{
  Keeps, IsLater-refl, IsLater-trans, update_where-Keeps, save-Keeps, run-IsLater, get_job-member,
}

recover_stale_jobs-Keeps :
    (device_id now i : ℕ) (jobs : List Job) {j : Job}
    → get_job i jobs ≡ some j
    → Keeps i j (recover_stale_jobs device_id now jobs)
unfolding recover_stale_jobs
recover_stale_jobs-Keeps device_id now i jobs {j} e =
    let doomed = λ (x : Job). is_stale device_id now x && x.cancel_requested in
    elim (Bool-cases (count doomed jobs == 0)) [
      | inl y ↦ rw y (
          update_where-Keeps (is_stale device_id now) requeue i jobs (λ x. refl) (λ h. ground arith)
            e)
      | inr n ↦
          rw n (update_where-Keeps doomed cancel_stale i jobs (λ x. refl) (λ h. ground arith) e)
    ]

claim_row-Keeps :
    (c : Claimer) (port : DevicePort) (d i : ℕ) (x : Job) (jobs : List Job) {j : Job}
    → get_job x.id jobs ≡ some x
    → is_candidate d x ≡ true
    → get_job i jobs ≡ some j
    → Keeps i j (claim_row c port x jobs).jobs
unfolding claimed
claim_row-Keeps c port d i x jobs {j} own cand e =
    update_where-Keeps (has_id x.id) (claimed c port) i jobs (λ y. refl)
      (λ h. let same : x ≡ j = ground (arith, get_job-id i jobs e) in ground arith) e

claim_on-Keeps :
    (fails : ℕ → Bool) (c : Claimer) (d i : ℕ) (ports : List DevicePort) (jobs : List Job) {j : Job}
    → HasUniqueIds jobs
    → get_job i jobs ≡ some j
    → Keeps i j (claim_on fails c d ports jobs).jobs
unfolding claim_on
claim_on-Keeps fails c d i [] jobs {j} u e = (j, e, IsLater-refl j)
claim_on-Keeps fails c d i (port ∷ ports) jobs {j} u e =
    elim (Bool-cases (fails port.id || lacks_limit port.max_concurrent_jobs)) [
      | inl y ↦ rw y (j, e, IsLater-refl j)
      | inr n ↦
          rw n (by_choice (select_job d port jobs) refl (claim_on-Keeps fails c d i ports jobs u e))
    ]
  where
    rest : Claim
    rest = claim_on fails c d ports jobs

    by_choice :
        (o : Option Job)
        → select_job d port jobs ≡ o
        → Keeps i j rest.jobs
        → Keeps i j
            (elim (select_job d port jobs) as (λ _. Claim) [
              | none ↦ rest
              | some x ↦ claim_row c port x jobs
            ]).jobs
    by_choice none h r = rw h r
    by_choice (some x) h r =
        let (mem, cand, _, _) = select_job-best d port jobs h in
        rw h (claim_row-Keeps c port d i x jobs (get_job-member jobs u mem) cand e)

cancel_job-Keeps :
    (jobs : List Job) (job_id user_id i : ℕ) (is_admin : Bool) {j : Job}
    → get_job i jobs ≡ some j
    → Keeps i j (cancel_job jobs job_id user_id is_admin).jobs
cancel_job-Keeps jobs job_id user_id i is_admin {j} e = by_row (get_job job_id jobs) refl
  where
    by_row :
        (o : Option Job)
        → get_job job_id jobs ≡ o
        → Keeps i j (cancel_job jobs job_id user_id is_admin).jobs
    by_row none h = rw (cancel_job-missing jobs job_id user_id is_admin h).1 (j, e, IsLater-refl j)
    by_row (some x) h =
        rw (cancel_job-found jobs job_id user_id is_admin h).1
          (elim (Bool-cases (can_cancel x user_id is_admin)) [
            | inr n ↦ rw n (j, e, IsLater-refl j)
            | inl y ↦
                rw y (
                  save-Keeps x (cancelled_row x) i jobs (get_job-own job_id jobs h) (ground arith)
                    e)
          ])

cancel_each-Keeps :
    (admin i : ℕ) (ids : List ℕ) (jobs : List Job) {j : Job}
    → get_job i jobs ≡ some j
    → Keeps i j (cancel_each admin ids jobs).0
unfolding cancel_each
cancel_each-Keeps admin i [] jobs {j} e = (j, e, IsLater-refl j)
cancel_each-Keeps admin i (x ∷ ids) jobs {j} e =
    let (k, f, l) = cancel_job-Keeps jobs x admin i true e in
    let (k', f', l') = cancel_each-Keeps admin i ids (cancel_job jobs x admin true).jobs f in
    (k', f', IsLater-trans j k k' l l')

get_job-append :
    (i : ℕ) (jobs more : List Job) {j : Job}
    → get_job i jobs ≡ some j
    → get_job i (jobs ++ more) ≡ some j
get_job-append i [] more h = cc
get_job-append i (x ∷ jobs) more {j} h = ground (arith, get_job-append i jobs more {j = j})

module _ (loads : Text → Json) (secure_filename : Text → Text) (ports : List DevicePort)
    (limit : ℕ → Option ℕ) (i : ℕ) where
  Step-Keeps :
      {jobs jobs' : List Job} {j : Job}
      → Step loads secure_filename ports jobs jobs'
      → IsTable limit jobs
      → get_job i jobs ≡ some j
      → Keeps i j jobs'
  unfolding send_heartbeat cancel_orphan
  Step-Keeps {jobs} {j = j} (creates {j = x} r free h) t e =
      let (_, _, _, _, sound) = create_job-IsSound secure_filename r jobs h in
      (j, rw sound.appended (get_job-append i jobs (x ∷ []) e), IsLater-refl j)
  Step-Keeps {jobs} (cancels k u a) t e = cancel_job-Keeps jobs k u i a e
  Step-Keeps {jobs} (cancels_many ids) t e =
      rw (bulk_cancel_jobs-eq-cancel_each ids 0 jobs) (cancel_each-Keeps 0 i ids jobs e)
  Step-Keeps {jobs} (cancels_orphan d k) t e =
      update_where-Keeps (is_orphan d k) (λ x. record x { status = canceled }) i jobs (λ x. refl)
        (λ h. ground arith) e
  Step-Keeps {jobs} (recovers d now) t e = recover_stale_jobs-Keeps d now i jobs e
  Step-Keeps {jobs} (claims fails c d port m) t e =
      claim_on-Keeps fails c d i (port ∷ []) jobs t.0 e
  Step-Keeps {jobs} {j = j} (beats true k now) t e = (j, e, IsLater-refl j)
  Step-Keeps {jobs} (beats false k now) t e =
      update_where-Keeps (has_id k)
        (λ x. record x { heartbeat_at = some now; lease_expires_at = some (now + job_lease) }) i
        jobs (λ x. refl) (λ h. ground arith) e
  Step-Keeps {jobs} (ends {j = x} k port w h) t e =
      let later = run-IsLater loads x port w in
      let own = subst (λ n. get_job n jobs ≡ some x) (sym later.same_id) (get_job-own k jobs h) in
      save-Keeps x (run_job_on_device loads x port w).job i jobs own later e

  -- Where the table has unique ids and is within the ports' limits, it is so in every later state of the
  -- queue, and there a job still exists under its id, with its user and its device;
  -- once completed, failed or canceled it stays one of these; a requested cancellation stays
  -- requested, and from then on the job, unless it is running, never runs.
  pub Steps-Keeps :
      {jobs jobs' : List Job} {j : Job}
      → HasLimits limit ports
      → IsTable limit jobs
      → Steps loads secure_filename ports jobs jobs'
      → get_job i jobs ≡ some j
      → IsTable limit jobs' × Keeps i j jobs'
  Steps-Keeps {j = j} l t none_yet e = (t, (j, e, IsLater-refl j))
  Steps-Keeps {j = j} l t (then_ s step) e =
      let (t', (k, f, later)) = Steps-Keeps l t s e in
      let (k', f', later') = Step-Keeps step t' f in
      (
        Step-IsTable loads secure_filename ports limit l step t',
        (k', f', IsLater-trans j k k' later later'),
      )
