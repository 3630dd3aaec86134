-- ===== src/Worker/Claim/Choice.antt =====
-- Which job `claim_job` picks.
use mathlib.Core.List.{Memᴰ}
use mathlib.Core.List.Memᴰ
use mathlib.Core.Path.{subst}
use retro_bridge.Prelude.{
  ℕ, ◌≡◌, inl, inr, refl, Bool, true, false, some, List, [], ◌∷◌, arith, if◌then◌else◌, All,
  Bool-cases,
}
use retro_bridge.Model.{Job, DevicePort, filter, count}
use retro_bridge.Worker.Claim.{below_limit, runs_on, is_candidate, before, better, top, select_job}

-- No row stands before `j`.
abbrev IsFirst : Job → List Job → Type 0
IsFirst j = All (λ k. before k j ≡ false)

before_trans : (a b c : Job) → before a b ≡ false → before b c ≡ false → before a c ≡ false
before_trans a b c h k = ground arith

before-asym : (a b : Job) → before a b ≡ true → before b a ≡ false
before-asym a b h = ground arith

before_irrefl : (a : Job) → before a a ≡ false
before_irrefl a = ground arith

IsFirst-weaken :
    (a b : Job) (jobs : List Job) → IsFirst a jobs → before a b ≡ false → IsFirst b jobs
IsFirst-weaken a b [] f h = tt
IsFirst-weaken a b (k ∷ jobs) f h = (before_trans k a b f.0 h, IsFirst-weaken a b jobs f.1 h)

-- `b` is in the list, and no row of it stands before `b`.
abbrev IsBest : Job → List Job → Type 0
IsBest b jobs = IsFirst b jobs × Memᴰ b jobs

choose-IsBest :
    (x k : Job) (jobs : List Job) (c : Bool)
    → before k x ≡ c
    → IsBest k jobs
    → IsBest (if c then k else x) (x ∷ jobs)
choose-IsBest x k jobs true e (first, mem) = ((before-asym k x e, first), Memᴰ.tail mem)
choose-IsBest x k jobs false e (first, mem) =
    ((before_irrefl x, IsFirst-weaken k x jobs first e), Memᴰ.head refl)

-- The choice from a list that begins with `x`.
better-IsBest : (x : Job) (jobs : List Job) → IsBest (better x (top jobs)) (x ∷ jobs)
better-IsBest x [] = ((before_irrefl x, tt), Memᴰ.head refl)
better-IsBest x (y ∷ jobs) =
    let k = better y (top jobs) in
    choose-IsBest x k (y ∷ jobs) (before k x) refl (better-IsBest y jobs)

top-IsBest : (jobs : List Job) {j : Job} → top jobs ≡ some j → IsBest j jobs
top-IsBest [] h = cc
top-IsBest (x ∷ jobs) {j} h =
    subst (λ b. IsBest b (x ∷ jobs)) (some_eq (better x (top jobs)) j h) (better-IsBest x jobs)
  where
    some_eq : (a b : Job) → some a ≡ some b → a ≡ b
    some_eq a b e = cc

mem-filter_head :
    (p : Job → Bool) (x : Job) (jobs kept : List Job) {j : Job} (c : Bool)
    → p x ≡ c
    → (Memᴰ j kept → Memᴰ j jobs × (p j ≡ true))
    → Memᴰ j (if c then x ∷ kept else kept)
    → Memᴰ j (x ∷ jobs) × (p j ≡ true)
mem-filter_head p x jobs kept true e ih (Memᴰ.head q) = (Memᴰ.head q, rw q e)
mem-filter_head p x jobs kept true e ih (Memᴰ.tail n) = (Memᴰ.tail (ih n).0, (ih n).1)
mem-filter_head p x jobs kept false e ih n = (Memᴰ.tail (ih n).0, (ih n).1)

mem-filter_holds :
    (p : Job → Bool) (jobs : List Job) {j : Job}
    → Memᴰ j (filter p jobs)
    → Memᴰ j jobs × (p j ≡ true)
mem-filter_holds p [] m = absurd (Memᴰ.not-nil m)
mem-filter_holds p (x ∷ jobs) {j} m =
    mem-filter_head p x jobs (filter p jobs) {j = j} (p x) refl (mem-filter_holds p jobs) m

IsFirst-filter :
    (p : Job → Bool) (jobs : List Job) (j : Job)
    → IsFirst j (filter p jobs)
    → All (λ k. p k ≡ true → before k j ≡ false) jobs
IsFirst-filter p [] j f = tt
IsFirst-filter p (x ∷ jobs) j f = elim (Bool-cases (p x)) [
  | inl e ↦
      let g : IsFirst j (x ∷ filter p jobs) = rw e at f in ((λ _. g.0), IsFirst-filter p jobs j g.1)
  | inr e ↦ let g : IsFirst j (filter p jobs) = rw e at f in ((λ h. cc), IsFirst-filter p jobs j g)
]

-- The claimed job is a row of the table that is queued for the device with no cancellation requested;
-- no other such row has a higher priority, or the same priority and an earlier creation; and fewer
-- jobs were running on the port than it may run at once.
pub select_job-best :
    (device_id : ℕ) (port : DevicePort) (jobs : List Job) {j : Job}
    → select_job device_id port jobs ≡ some j
    → Memᴰ j jobs
      × (is_candidate device_id j ≡ true)
      × All (λ k. is_candidate device_id k ≡ true → before k j ≡ false) jobs
      × (below_limit (count (runs_on port.id) jobs) port.max_concurrent_jobs ≡ true)
unfolding select_job
select_job-best device_id port jobs {j} h =
    let free : below_limit (count (runs_on port.id) jobs) port.max_concurrent_jobs ≡ true =
      ground arith in
    let picked : top (filter (is_candidate device_id) jobs) ≡ some j = rw free at h in
    let (first, mem) = top-IsBest (filter (is_candidate device_id) jobs) picked in
    let (m, c) = mem-filter_holds (is_candidate device_id) jobs mem in
    (m, c, IsFirst-filter (is_candidate device_id) jobs j first, free)
