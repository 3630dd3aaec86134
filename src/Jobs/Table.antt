-- ===== src/Jobs/Table.antt =====
-- The `jobs` table: lookup by primary key, and what an update of one row does.
use retro_bridge.Prelude.{
  ℕ, ◌+◌, ◌≤◌, ◌≡◌, sym, inl, inr, Bool, Bool-cases, Option, none, some, List, [], ◌∷◌, arith, ◌==◌,
  if◌then◌else◌,
}
use mathlib.Core.Path.{subst}
use retro_bridge.Model.{Job, count, find, update_where, update_where-none}

abbrev pub has_id : ℕ → Job → Bool
has_id k j = j.id == k

-- `db_session.get(Job, job_id)`
abbrev pub get_job : ℕ → List Job → Option Job
get_job k = find (has_id k)

-- The flush of a changed row.
abbrev pub save : Job → List Job → List Job
save j = update_where (has_id j.id) (λ _. j)

-- `id` is a primary key.
abbrev pub HasUniqueIds : List Job → Type 0
HasUniqueIds jobs = (k : ℕ) → count (has_id k) jobs ≤ 1

pub get_job-id : (k : ℕ) (jobs : List Job) {j : Job} → get_job k jobs ≡ some j → j.id ≡ k
get_job-id k [] h = cc
get_job-id k (x ∷ jobs) {j} h = ground (arith, get_job-id k jobs {j = j})

-- What a lookup finds behind an update of the row with one id, which keeps the ids.
pub get_job-update :
    (k i : ℕ) (f : Job → Job) (jobs : List Job)
    → ((j : Job) → (f j).id ≡ j.id)
    → get_job i (update_where (has_id k) f jobs) ≡ (
        if i == k
        then elim (get_job i jobs) [ none ↦ none | some j ↦ some (f j) ]
        else get_job i jobs)
get_job-update k i f [] h = ground arith
get_job-update k i f (x ∷ jobs) h = ground (arith, h x, get_job-update k i f jobs h)

pub get_job-save :
    (j : Job) (i : ℕ) (jobs : List Job)
    → get_job i (save j jobs) ≡ (
        if i == j.id
        then elim (get_job i jobs) [ none ↦ none | some _ ↦ some j ]
        else get_job i jobs)
get_job-save j i [] = ground arith
get_job-save j i (x ∷ jobs) = ground (arith, get_job-save j i jobs)

-- Where ids are unique, saving a row in place of the one with its id changes a count by that row only.
pub count-save :
    (q : Job → Bool) (j j' : Job) (jobs : List Job)
    → count (has_id j'.id) jobs ≤ 1
    → get_job j'.id jobs ≡ some j
    → count q (save j' jobs) + (if q j then 1 else 0) ≡ count q jobs + (if q j' then 1 else 0)
count-save q j j' [] one h = cc
count-save q j j' (x ∷ jobs) one h = elim (Bool-cases (x.id == j'.id)) [
  | inl e ↦ ground (arith, update_where-none (has_id j'.id) (λ _. j') jobs)
  | inr e ↦ ground (arith, count-save q j j' jobs)
]

-- The row that is found under an id is found under its own.
pub get_job-own :
    (k : ℕ) (jobs : List Job) {j : Job} → get_job k jobs ≡ some j → get_job j.id jobs ≡ some j
get_job-own k jobs {j} h = subst (λ i. get_job i jobs ≡ some j) (sym (get_job-id k jobs h)) h
