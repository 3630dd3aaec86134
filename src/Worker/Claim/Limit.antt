-- ===== src/Worker/Claim/Limit.antt =====
-- No port runs more jobs at once than its `max_concurrent_jobs` through `claim_job`.
use retro_bridge.Prelude.{
  ℕ, ◌≤◌, ◌≡◌, inl, inr, refl, Bool, true, ◌&&◌, ◌||◌, Option, none, some, List, [], ◌∷◌, arith,
  ◌==◌, All, Bool-cases, Text,
}
use retro_bridge.Model.{
  Job, Device, DevicePort, filter, count, find, update_where, count-update_where_same,
  count-update_where_le, count-update_where_add,
}
use retro_bridge.Jobs.Table.{has_id, HasUniqueIds}
use retro_bridge.Worker.Recover.{is_stale, cancel_stale, requeue, recover_stale_jobs}
use retro_bridge.Worker.Claim.{
  Db, Claimer, Claim, lacks_limit, runs_on, below_limit, select_job, claimed, claim_row, claim_on,
  is_job_port, is_device, claim_for, claim_job,
}

-- The limit of each port, by its id; where it is NULL there is nothing to keep.
abbrev pub WithinLimits : (ℕ → Option ℕ) → List Job → Type 0
WithinLimits limit jobs = (k m : ℕ) → limit k ≡ some m → count (runs_on k) jobs ≤ m

-- `id` is the ports' primary key: the column is a function of it.
abbrev pub HasLimits : (ℕ → Option ℕ) → List DevicePort → Type 0
HasLimits limit = All (λ p. p.max_concurrent_jobs ≡ limit p.id)

abbrev pub IsTable : (ℕ → Option ℕ) → List Job → Type 0
IsTable limit jobs = HasUniqueIds jobs × WithinLimits limit jobs

HasLimits-filter :
    (limit : ℕ → Option ℕ) (p : DevicePort → Bool) (ports : List DevicePort)
    → HasLimits limit ports
    → HasLimits limit (filter p ports)
HasLimits-filter limit p [] h = tt
HasLimits-filter limit p (x ∷ ports) h = elim (Bool-cases (p x)) [
  | inl e ↦ rw e (h.0, HasLimits-filter limit p ports h.1)
  | inr e ↦ rw e (HasLimits-filter limit p ports h.1)
]

-- Where an update neither changes ids nor makes a row run on a port, the table stays one.
pub update_where-IsTable :
    (limit : ℕ → Option ℕ) (p : Job → Bool) (f : Job → Job) (jobs : List Job)
    → ((j : Job) → (f j).id ≡ j.id)
    → ((k : ℕ) (j : Job) → p j ≡ true → runs_on k (f j) ≡ true → runs_on k j ≡ true)
    → IsTable limit jobs
    → IsTable limit (update_where p f jobs)
update_where-IsTable limit p f jobs ids runs (unique, within) = (
  (λ k. omega (arith, unique k, count-update_where_same (has_id k) p f jobs (λ j _. rw (ids j)))),
  (λ k m e. omega (arith, within k m e, count-update_where_le (runs_on k) p f jobs (runs k))),
)

pub recover_stale_jobs-IsTable :
    (limit : ℕ → Option ℕ) (device_id now : ℕ) (jobs : List Job)
    → IsTable limit jobs
    → IsTable limit (recover_stale_jobs device_id now jobs)
unfolding recover_stale_jobs
recover_stale_jobs-IsTable limit device_id now jobs h =
    let doomed = λ (j : Job). is_stale device_id now j && j.cancel_requested in
    elim (Bool-cases (count doomed jobs == 0)) [
      | inl e ↦ rw e (
          update_where-IsTable limit (is_stale device_id now) requeue jobs (λ j. refl)
            (λ k j u v. ground arith) h)
      | inr e ↦ rw e (
          update_where-IsTable limit doomed cancel_stale jobs (λ j. refl) (λ k j u v. ground arith)
            h)
    ]

-- Claiming one row for a port that is below its limit.
claim_row-IsTable :
    (limit : ℕ → Option ℕ) (c : Claimer) (port : DevicePort) (j : Job) (jobs : List Job)
    → port.max_concurrent_jobs ≡ limit port.id
    → below_limit (count (runs_on port.id) jobs) port.max_concurrent_jobs ≡ true
    → IsTable limit jobs
    → IsTable limit (claim_row c port j jobs).jobs
unfolding claimed
claim_row-IsTable limit c port j jobs own free (unique, within) = (
  (λ k. omega (
    arith,
    unique k,
    count-update_where_same (has_id k) (has_id j.id) (claimed c port) jobs (λ x _. refl),
  )),
  (λ k m e. elim (Bool-cases (port.id == k)) [
    | inl s ↦
        let add = count-update_where_add (runs_on k) (has_id j.id) (claimed c port) jobs in
        ground (arith, add, unique j.id)
    | inr d ↦
        let same =
          count-update_where_le (runs_on k) (has_id j.id) (claimed c port) jobs
            (λ x _ r. ground arith) in
        omega (arith, within k m e, same)
  ]),
)

select_job-free :
    (device_id : ℕ) (port : DevicePort) (jobs : List Job) {j : Job}
    → select_job device_id port jobs ≡ some j
    → below_limit (count (runs_on port.id) jobs) port.max_concurrent_jobs ≡ true
unfolding select_job
select_job-free device_id port jobs h = ground arith

pub claim_on-IsTable :
    (limit : ℕ → Option ℕ) (fails : ℕ → Bool) (c : Claimer) (device_id : ℕ)
    (ports : List DevicePort) (jobs : List Job)
    → HasLimits limit ports
    → IsTable limit jobs
    → IsTable limit (claim_on fails c device_id ports jobs).jobs
unfolding claim_on
claim_on-IsTable limit fails c device_id [] jobs l h = h
claim_on-IsTable limit fails c device_id (port ∷ ports) jobs l h =
    elim (Bool-cases (fails port.id || lacks_limit port.max_concurrent_jobs)) [
      | inl e ↦ rw e h
      | inr e ↦ rw e (
          by_choice (select_job device_id port jobs) refl
            (claim_on-IsTable limit fails c device_id ports jobs l.1 h))
    ]
  where
    rest : Claim
    rest = claim_on fails c device_id ports jobs

    by_choice :
        (o : Option Job)
        → select_job device_id port jobs ≡ o
        → IsTable limit rest.jobs
        → IsTable limit
            (elim (select_job device_id port jobs) as (λ _. Claim) [
              | none ↦ rest
              | some j ↦ claim_row c port j jobs
            ]).jobs
    by_choice none e r = rw e r
    by_choice (some j) e r =
        rw e (claim_row-IsTable limit c port j jobs l.0 (select_job-free device_id port jobs e) h)

-- Whatever ports the database fails on, a call of `claim_job` keeps the job ids unique and the number
-- of jobs running on each port within the port's `max_concurrent_jobs`.
pub claim_job-IsTable :
    (limit : ℕ → Option ℕ) (fails : ℕ → Bool) (c : Claimer) (device_name : Text) (db : Db)
    → HasLimits limit db.ports
    → IsTable limit db.jobs
    → IsTable limit (claim_job fails c device_name db).jobs
unfolding claim_job
claim_job-IsTable limit fails c device_name db l h =
    by_device (find (is_device device_name) db.devices)
  where
    by_device : (o : Option Device) → IsTable limit (claim_for fails c db o).jobs
    by_device none = h
    by_device (some d) =
        claim_on-IsTable limit fails c d.id (filter (is_job_port d.id) db.ports)
          (recover_stale_jobs d.id c.now db.jobs)
          (HasLimits-filter limit (is_job_port d.id) db.ports l)
          (recover_stale_jobs-IsTable limit d.id c.now db.jobs h)
