-- ===== src/Queue/Later.antt =====
-- What stays of a job, whatever happens to it.
use mathlib.Core.Path.{subst}
use mathlib.Core.List.{Memᴰ}
use retro_bridge.Prelude.{
  ℕ, ◌≤◌, ◌≡◌, ◌⊎◌, inl, inr, Bool, true, false, some, List, [], ◌∷◌, arith, ◌==◌, if◌then◌else◌,
  Bool-cases, Text,
}
use retro_bridge.Model.{Job, DevicePort, is_running, is_finished, count, update_where}
use retro_bridge.Jobs.Table.{has_id, get_job, get_job-save, save, HasUniqueIds}
use retro_bridge.Worker.Commands.{Json}
use retro_bridge.Worker.Run.{
  World, Step as Part, Finish, done, raises, completes, cancelled_at_end, cancelled_in_transfer,
  transfer_failed, still_capturing, still_draining, left-holds, serial_exception, job_cancelled,
  other_exception, conclude, run_upload, body, run_job_on_device,
}

-- What stays of a job: whose it is and where it runs, a finished status, a requested cancellation,
-- and that it does not start to run once its cancellation was requested.
pub record IsLater (j j' : Job) : Type 0 where
  pub same_id : j'.id ≡ j.id
  pub same_user : j'.user_id ≡ j.user_id
  pub same_device : j'.device_id ≡ j.device_id
  pub stays_finished : (is_finished j.status ≡ false) ⊎ (is_finished j'.status ≡ true)
  pub stays_requested : (j.cancel_requested ≡ false) ⊎ (j'.cancel_requested ≡ true)
  pub never_starts :
      (j.cancel_requested ≡ false) ⊎ (is_running j.status ≡ true) ⊎ (is_running j'.status ≡ false)

pub IsLater-refl : (j : Job) → IsLater j j
IsLater-refl j = ground arith

pub IsLater-trans : (a b c : Job) → IsLater a b → IsLater b c → IsLater a c
IsLater-trans a b c h k = ground arith

-- The job under an id in another table, if it is there.
abbrev pub Keeps : ℕ → Job → List Job → Type 0
Keeps i j jobs' = (j' : Job) × (get_job i jobs' ≡ some j') × IsLater j j'

conclude-IsLater : (w : World) (job : Job) (s : Part Finish) → IsLater job (conclude w job s).job
conclude-IsLater w job (done xs completes) = ground arith
conclude-IsLater w job (done xs cancelled_at_end) = ground arith
conclude-IsLater w job (done xs cancelled_in_transfer) = ground arith
conclude-IsLater w job (done xs transfer_failed) = ground arith
conclude-IsLater w job (done xs still_capturing) = IsLater-refl job
conclude-IsLater w job (done xs still_draining) = IsLater-refl job
conclude-IsLater w job (raises xs serial_exception) = ground arith
conclude-IsLater w job (raises xs job_cancelled) = ground arith
conclude-IsLater w job (raises xs other_exception) = ground arith

get_job-update_where :
    (p : Job → Bool) (f : Job → Job) (i : ℕ) (jobs : List Job) {j : Job}
    → ((x : Job) → (f x).id ≡ x.id)
    → get_job i jobs ≡ some j
    → get_job i (update_where p f jobs) ≡ some (if p j then f j else j)
get_job-update_where p f i [] h e = cc
get_job-update_where p f i (x ∷ jobs) {j} h e =
    ground (arith, h x, get_job-update_where p f i jobs {j = j} h)

-- An update that makes a later row of each row that it changes keeps every job.
pub update_where-Keeps :
    (p : Job → Bool) (f : Job → Job) (i : ℕ) (jobs : List Job) {j : Job}
    → ((x : Job) → (f x).id ≡ x.id)
    → (p j ≡ true → IsLater j (f j))
    → get_job i jobs ≡ some j
    → Keeps i j (update_where p f jobs)
update_where-Keeps p f i jobs {j} h later e = (
  (if p j then f j else j),
  get_job-update_where p f i jobs h e,
  elim (Bool-cases (p j)) [ inl y ↦ rw y (later y) | inr n ↦ rw n (IsLater-refl j) ],
)

pub save-Keeps :
    (x x' : Job) (i : ℕ) (jobs : List Job) {j : Job}
    → get_job x'.id jobs ≡ some x
    → IsLater x x'
    → get_job i jobs ≡ some j
    → Keeps i j (save x' jobs)
save-Keeps x x' i jobs {j} own later e = elim (Bool-cases (i == x'.id)) [
  | inl y ↦
      (x', ground (arith, get_job-save x' i jobs), subst (λ z. IsLater z x') (ground arith) later)
  | inr n ↦ (j, ground (arith, get_job-save x' i jobs), IsLater-refl j)
]

pub run-IsLater :
    (loads : Text → Json) (job : Job) (port : DevicePort) (w : World)
    → IsLater job (run_job_on_device loads job port w).job
unfolding run_job_on_device
run-IsLater loads job port w =
    left-holds (λ r. IsLater job r.job) w.mkdir_raises job
      (run_upload w.upload_exists w job' (body loads job' port w)) (IsLater-refl job)
      (by_upload w.upload_exists)
  where
    job' : Job
    job' = record job { output_path = some w.output_path }

    by_upload : (u : Bool) → IsLater job (run_upload u w job' (body loads job' port w)).job
    by_upload true =
        left-holds (λ r. IsLater job r.job) w.setup_raises job'
          (conclude w job' (body loads job' port w)) (ground arith)
          (IsLater-trans job job' (conclude w job' (body loads job' port w)).job (ground arith)
            (conclude-IsLater w job' (body loads job' port w)))
    by_upload false = ground arith

get_job-counted :
    (k : ℕ) (jobs : List Job) {j : Job} → get_job k jobs ≡ some j → 1 ≤ count (has_id k) jobs
get_job-counted k [] h = cc
get_job-counted k (x ∷ jobs) {j} h = ground (arith, get_job-counted k jobs {j = j})

pub get_job-member :
    (jobs : List Job) {j : Job} → HasUniqueIds jobs → Memᴰ j jobs → get_job j.id jobs ≡ some j
get_job-member [] u m = elim m [ ]
get_job-member (x ∷ jobs) {j} u (Memᴰ.head e) = ground arith
get_job-member (x ∷ jobs) {j} u (Memᴰ.tail m) = ground (
  arith,
  u x.id,
  u j.id,
  get_job-member jobs {j = j} (λ k. ground (arith, u k)) m,
  get_job-counted j.id jobs {j = j},
)
