-- ===== src/Queue/Ports.antt =====
-- A job that `claim_job` returns is a row of the table, and has one of the ports.
use retro_bridge.Prelude.{
  ℕ, ◌≡◌, ◌≢◌, refl, sym, ap, Bool, true, false, Option, none, some, List, [], ◌∷◌, ◌==◌, arith,
  if◌then◌else◌, Text, Bool-cases, inl, inr, ◌||◌,
}
use retro_bridge.Model.{Job, Device, DevicePort, find, filter, update_where}
use retro_bridge.Jobs.Table.{has_id, get_job}
use retro_bridge.Worker.Recover.{recover_stale_jobs}
use retro_bridge.Worker.Claim.{
  Db, Claimer, Claim, is_device, claim_job, claim_for, claim_on, claim_row, claimed, select_job,
  is_job_port, lacks_limit,
}
use retro_bridge.Worker.Loop.{has_port_id, port_of}

some_eq : (a b : Job) → some a ≡ some b → a ≡ b
some_eq a b e = cc

find-updated :
    (c : Claimer) (port : DevicePort) (i : ℕ) (jobs : List Job) (j : Job)
    → get_job i (update_where (has_id i) (claimed c port) jobs) ≡ some j
    → j.port_id ≡ some port.id
unfolding claimed
find-updated c port i [] j h = absurd cc
find-updated c port i (x ∷ jobs) j h = elim (Bool-cases (has_id i x)) [
  | inl e ↦ sym (ap (λ y. y.port_id) (some_eq (claimed c port x) j (rw (e, e) at h)))
  | inr e ↦ find-updated c port i jobs j (rw (e, e) at h)
]

in_filter :
    (p : DevicePort → Bool) (k : ℕ) (ports : List DevicePort)
    → find (has_port_id k) (filter p ports) ≢ none
    → find (has_port_id k) ports ≢ none
in_filter p k [] h = h
in_filter p k (x ∷ ports) h = by_tests (p x) (has_port_id k x) h refl (in_filter p k ports)
  where
    by_tests :
        (passes here : Bool)
        → find (has_port_id k) (if passes then x ∷ filter p ports else filter p ports) ≢ none
        → has_port_id k x ≡ here
        → (find (has_port_id k) (filter p ports) ≢ none → find (has_port_id k) ports ≢ none)
        → (if here then some x else find (has_port_id k) ports) ≢ none
    by_tests passes true g n r e = cc
    by_tests true false g n r e = r (rw n at g) e
    by_tests false false g n r e = r g e

-- A claimed job is a row of the table, and has one of the ports.
unfoldable pub IsOnPort : List DevicePort → Claim → Type 0
IsOnPort ports c =
    (j : Job)
    → c.job ≡ some j
    → ((i : ℕ) × (get_job i c.jobs ≡ some j)) × (port_of j.port_id ports ≢ none)

IsOnPort-more :
    (port : DevicePort) (ports : List DevicePort) (c : Claim)
    → IsOnPort ports c
    → IsOnPort (port ∷ ports) c
unfolding IsOnPort
IsOnPort-more port ports c h j e = ((h j e).0, by_port j.port_id (h j e).1)
  where
    by_port : (o : Option ℕ) → port_of o ports ≢ none → port_of o (port ∷ ports) ≢ none
    by_port none g = g
    by_port (some k) g = elim (Bool-cases (has_port_id k port)) [
      | inl e ↦ rw e (λ q. cc)
      | inr e ↦ rw e g
    ]

nothing-IsOnPort :
    (ports : List DevicePort) (jobs : List Job)
    → IsOnPort ports (record { job = none; jobs = jobs })
unfolding IsOnPort
nothing-IsOnPort ports jobs j e = absurd cc

claim_row-IsOnPort :
    (c : Claimer) (port : DevicePort) (ports : List DevicePort) (k : Job) (jobs : List Job)
    → IsOnPort (port ∷ ports) (claim_row c port k jobs)
unfolding IsOnPort
claim_row-IsOnPort c port ports k jobs j e =
    let its_port = find-updated c port k.id jobs j e in ((k.id, e), rw its_port (λ q. found q))
  where
    found : (if port.id == port.id then some port else find (has_port_id port.id) ports) ≡ none → ⊥
    found q = let same : (port.id == port.id) ≡ true = ground arith in absurd (cc (rw same at q))

claim_on-IsOnPort :
    (fails : ℕ → Bool) (c : Claimer) (device_id : ℕ) (ports : List DevicePort) (jobs : List Job)
    → IsOnPort ports (claim_on fails c device_id ports jobs)
unfolding claim_on
claim_on-IsOnPort fails c device_id [] jobs = nothing-IsOnPort [] jobs
claim_on-IsOnPort fails c device_id (port ∷ ports) jobs =
    by_tests (fails port.id || lacks_limit port.max_concurrent_jobs)
      (select_job device_id port jobs)
      (IsOnPort-more port ports (claim_on fails c device_id ports jobs)
        (claim_on-IsOnPort fails c device_id ports jobs))
  where
    by_tests :
        (raises : Bool) (o : Option Job)
        → IsOnPort (port ∷ ports) (claim_on fails c device_id ports jobs)
        → IsOnPort (port ∷ ports) (
            if◌then◌else◌ {A = Claim} raises
              (record { job = none; jobs = jobs })
              (elim o [
                | none ↦ claim_on fails c device_id ports jobs
                | some j ↦ claim_row c port j jobs
              ]))
    by_tests true o h = nothing-IsOnPort (port ∷ ports) jobs
    by_tests false none h = h
    by_tests false (some j) h = claim_row-IsOnPort c port ports j jobs

pub claim_job-IsOnPort :
    (fails : ℕ → Bool) (c : Claimer) (device_name : Text) (db : Db)
    → IsOnPort db.ports (claim_job fails c device_name db)
unfolding claim_job IsOnPort
claim_job-IsOnPort fails c device_name db = by_device (find (is_device device_name) db.devices)
  where
    by_port :
        (device_id : ℕ) (o : Option ℕ)
        → port_of o (filter (is_job_port device_id) db.ports) ≢ none
        → port_of o db.ports ≢ none
    by_port device_id none g = g
    by_port device_id (some k) g = in_filter (is_job_port device_id) k db.ports g

    by_device : (o : Option Device) → IsOnPort db.ports (claim_for fails c db o)
    by_device none j e = nothing-IsOnPort db.ports db.jobs j e
    by_device (some d) j e =
        let (row, port) =
          claim_on-IsOnPort fails c d.id (filter (is_job_port d.id) db.ports)
            (recover_stale_jobs d.id c.now db.jobs) j e in
        (row, by_port d.id j.port_id port)
