-- ===== src/Queue/Turns.antt =====
-- A turn of the worker, as steps on the queue.
use mathlib.Core.List.{Memᴰ}
use retro_bridge.Prelude.{
  ℕ, ◌≡◌, ◌≢◌, refl, Bool, true, false, Option, none, some, List, [], ◌∷◌, if◌then◌else◌, Text,
  Bool-cases, inl, inr, ◌&&◌, ◌||◌, not, All,
}
use retro_bridge.Model.{Job, Device, DevicePort, find, filter}
use retro_bridge.Jobs.Table.{get_job}
use retro_bridge.Worker.Recover.{
  cancel_orphan, cancel_orphans, cancel_orphaned, is_orphaned, recover_stale_jobs,
}
use retro_bridge.Worker.Claim.{
  Db, Claimer, Claim, is_device, claim_job, claim_for, claim_on, claim_row, select_job, is_job_port,
  lacks_limit,
}
use retro_bridge.Worker.Commands.{Json}
use retro_bridge.Worker.Run.{run_job_on_device}
use retro_bridge.Worker.Loop.{
  Outside, Turned, port_of, unless_failed, run_on, run_claimed, claim_and_run, turn_for, turn,
}
use retro_bridge.Queue.Ports.{IsOnPort, claim_job-IsOnPort}
use retro_bridge.Queue.{Step, Steps, none_yet, then_, cancels_orphan, recovers, claims, ends}

-- A property of all rows of a list stays one of the rows that a filter leaves.
All-filter {ℓ} :
    {A : Type ℓ} (P : A → Type 0) (q : A → Bool) (xs : List A) → All P xs → All P (filter q xs)
All-filter P q [] h = tt
All-filter P q (x ∷ xs) h = elim (Bool-cases (q x)) [
  | inl e ↦ rw e (h.0, All-filter P q xs h.1)
  | inr e ↦ rw e (All-filter P q xs h.1)
]

all_members :
    (xs ys : List DevicePort) → ((x : DevicePort) → Memᴰ x xs → Memᴰ x ys) → All (λ x. Memᴰ x ys) xs
all_members [] ys h = tt
all_members (x ∷ xs) ys h = (h x (Memᴰ.head refl), all_members xs ys (λ y m. h y (Memᴰ.tail m)))

module _ (loads : Text → Json) (secure_filename : Text → Text) (ports : List DevicePort) where
  unless_failed-Steps :
      (r : Option Bool) (raises : Bool) (t : Turned) (jobs : List Job)
      → Steps loads secure_filename ports jobs t.jobs
      → Steps loads secure_filename ports jobs (unless_failed r raises t jobs).jobs
  unless_failed-Steps none raises t jobs h = none_yet
  unless_failed-Steps (some b) true t jobs h = none_yet
  unless_failed-Steps (some b) false t jobs h = h

  run_on-Steps :
      (o : Outside) (jobs : List Job) (i : ℕ) (j : Job) (found : Option DevicePort)
      → found ≢ none
      → get_job i jobs ≡ some j
      → Steps loads secure_filename ports jobs (run_on loads o j found jobs).jobs
  run_on-Steps o jobs i j none p h = absurd (p refl)
  run_on-Steps o jobs i j (some port) p h =
      unless_failed-Steps (run_job_on_device loads j port o.world).returned o.commit_fails _ jobs
        (then_ none_yet (ends i port o.world h))

  run_claimed-Steps :
      (o : Outside) (jobs : List Job) (found : Option Job)
      → IsOnPort ports (record { job = found; jobs = jobs })
      → Steps loads secure_filename ports jobs (run_claimed loads o ports found jobs).jobs
  unfolding IsOnPort
  run_claimed-Steps o jobs none h = none_yet
  run_claimed-Steps o jobs (some j) h =
      let ((i, row), port) = h j refl in run_on-Steps o jobs i j (port_of j.port_id ports) port row

  joined :
      {a b c : List Job}
      → Steps loads secure_filename ports a b
      → Steps loads secure_filename ports b c
      → Steps loads secure_filename ports a c
  joined s none_yet = s
  joined s (then_ t u) = then_ (joined s t) u

  orphans-Steps :
      (fails : ℕ → Bool) (device_id : ℕ) (found jobs : List Job)
      → Steps loads secure_filename ports jobs (cancel_orphans fails device_id found jobs).1
  unfolding cancel_orphans
  orphans-Steps fails device_id [] jobs = none_yet
  orphans-Steps fails device_id (j ∷ found) jobs = elim (Bool-cases (fails j.id)) [
    | inl e ↦ rw e none_yet
    | inr e ↦ rw e (
        joined (then_ none_yet (cancels_orphan device_id j.id))
          (orphans-Steps fails device_id found (cancel_orphan device_id j.id jobs)))
  ]

  claim_on-Steps :
      (fails : ℕ → Bool) (c : Claimer) (device_id : ℕ) (some_ports : List DevicePort)
      (jobs : List Job)
      → All (λ p. Memᴰ p ports) some_ports
      → Steps loads secure_filename ports jobs (claim_on fails c device_id some_ports jobs).jobs
  unfolding claim_on
  claim_on-Steps fails c device_id [] jobs m = none_yet
  claim_on-Steps fails c device_id (port ∷ some_ports) jobs m =
      by_tests (fails port.id || lacks_limit port.max_concurrent_jobs)
        (select_job device_id port jobs) (claims fails c device_id port m.0)
        (claim_on-Steps fails c device_id some_ports jobs m.1)
    where
      by_tests :
          (raises : Bool) (o : Option Job)
          → Step loads secure_filename ports jobs
              (if◌then◌else◌ {A = Claim} raises
                (record { job = none; jobs = jobs })
                (elim o [
                  | none ↦ record { job = none; jobs = jobs }
                  | some j ↦ claim_row c port j jobs
                ])).jobs
          → Steps loads secure_filename ports jobs (claim_on fails c device_id some_ports jobs).jobs
          → Steps loads secure_filename ports jobs
              (if◌then◌else◌ {A = Claim} raises
                (record { job = none; jobs = jobs })
                (elim o [
                  | none ↦ claim_on fails c device_id some_ports jobs
                  | some j ↦ claim_row c port j jobs
                ])).jobs
      by_tests true o step rest = none_yet
      by_tests false none step rest = rest
      by_tests false (some j) step rest = then_ none_yet step

  claim_job-Steps :
      (fails : ℕ → Bool) (c : Claimer) (device_name : Text) (devices : List Device)
      (jobs : List Job)
      → Steps loads secure_filename ports jobs
          (claim_job fails c device_name
            (record { devices = devices; ports = ports; jobs = jobs })).jobs
  unfolding claim_job
  claim_job-Steps fails c device_name devices jobs =
      by_device (find (is_device device_name) devices)
    where
      by_device :
          (found : Option Device)
          → Steps loads secure_filename ports jobs
              (claim_for fails c
                (record { devices = devices; ports = ports; jobs = jobs })
                found).jobs
      by_device none = none_yet
      by_device (some d) = joined (then_ none_yet (recovers d.id c.now)) (
          claim_on-Steps fails c d.id (filter (is_job_port d.id) ports)
            (recover_stale_jobs d.id c.now jobs)
            (All-filter (λ p. Memᴰ p ports) (is_job_port d.id) ports
              (all_members ports ports (λ x m. m))))

  claim_and_run-Steps :
      (o : Outside) (device_name : Text) (devices : List Device) (jobs : List Job) (goes_on : Bool)
      → Steps loads secure_filename ports jobs
          (claim_and_run loads o device_name
            (record { devices = devices; ports = ports; jobs = jobs })
            goes_on).jobs
  claim_and_run-Steps o device_name devices jobs false = none_yet
  claim_and_run-Steps o device_name devices jobs true =
      let db : Db = record { devices = devices; ports = ports; jobs = jobs } in
      joined (claim_job-Steps o.fails o.claimer device_name devices jobs) (
        run_claimed-Steps o (claim_job o.fails o.claimer device_name db).jobs
          (claim_job o.fails o.claimer device_name db).job
          (claim_job-IsOnPort o.fails o.claimer device_name db))

  -- A turn of the worker is a history of the queue, whichever of its commits fail, those for the
  -- orphaned jobs, of the recovery, of the claim or behind the run: the worker changes the jobs only by
  -- the steps that the queue's invariants are proved for.
  pub turn-Steps :
      (o : Outside) (device_name : Text) (devices : List Device) (jobs : List Job)
      → Steps loads secure_filename ports jobs
          (turn loads o device_name (record { devices = devices; ports = ports; jobs = jobs })).jobs
  unfolding turn
  turn-Steps o device_name devices jobs = by_device (find (is_device device_name) devices)
    where
      by_device :
          (found : Option Device)
          → Steps loads secure_filename ports jobs
              (turn_for loads o device_name
                (record { devices = devices; ports = ports; jobs = jobs })
                found).jobs
      by_device none = none_yet
      by_device (some d) =
          let (through, after) = cancel_orphaned o.orphan_fails d.id jobs in
          joined (orphans-Steps o.orphan_fails d.id (filter (is_orphaned d.id) jobs) jobs)
            (claim_and_run-Steps o device_name devices after (through && not o.recovery_fails))
