-- ===== src/Api/Jobs.antt =====
-- The routes of retrobridge/api/routes.py about jobs. A number in a query string is read as at least 0:
-- the code raises smaller pages to 1 and takes a smaller tail for none.
pub mod Paging
use retro_bridge.Prelude.{
  ℕ, zero, suc, ◌+◌, ◌-◌, ◌*◌, ◌/◌, Bool, true, false, not, ◌&&◌, ◌||◌, Option, none, some, List,
  [], ◌∷◌, ◌++◌, ◌==◌, ltb, leb, min, max, if◌then◌else◌, Text, length, take, drop, map,
}
use retro_bridge.Model.{Job, Status, filter}
use retro_bridge.Jobs.Create.{Access, granted, not_found_404, forbidden_403, get_job_or_403}
use retro_bridge.Jobs.Cancel.{Canceled, Reply, job_not_found, cancel_job}
use retro_bridge.Jobs.Output.{read_output_tail}

abbrev pub max_per_page : ℕ
max_per_page = 100

abbrev pub max_output_tail : ℕ
max_output_tail = 10000

abbrev pub insert_newest : Job → List Job → List Job
insert_newest j [] = j ∷ []
insert_newest j (k ∷ jobs) =
    let rest = insert_newest j jobs in
    if ltb j.created_at k.created_at then k ∷ rest else j ∷ k ∷ jobs

-- `ORDER BY created_at DESC`, with equal times in the table's order.
abbrev pub newest_first : List Job → List Job
newest_first [] = []
newest_first (j ∷ jobs) = insert_newest j (newest_first jobs)

-- Whom the request comes from.
pub record Current : Type 0 where
  pub user_id : ℕ
  pub is_admin : Bool

abbrev pub visible : Current → List Job → List Job
visible u jobs = if u.is_admin then jobs else filter (λ j. j.user_id == u.user_id) jobs

abbrev pub or_default : ℕ → Option ℕ → ℕ
or_default d none = d
or_default d (some n) = n

abbrev pub page_size : Option ℕ → ℕ
page_size per_page = max (min (or_default 20 per_page) max_per_page) 1

pub record Page : Type 0 where
  pub jobs : List Job
  pub total : ℕ
  pub pages : ℕ
  pub current_page : ℕ

unfoldable pub list_jobs : Current → Option ℕ → Option ℕ → List Job → Page
list_jobs u page per_page jobs =
    let size = page_size per_page in
    let number = max (or_default 1 page) 1 in
    let query = newest_first (visible u jobs) in
    let total = length query in
    record {
      jobs = take size (drop ((number - 1) * size) query);
      total = total;
      pages = ((total + size) - 1) / size;
      current_page = number;
    }

pub data Answer {ℓ} (A : Type ℓ) : Type ℓ where
  answered : A → Answer A
  error : ℕ → Answer A

-- What a route does with the job that the user may see.
abbrev pub on_job {ℓ} : {A : Type ℓ} → (Job → A) → Access → Answer A
on_job f (granted job) = answered (f job)
on_job f not_found_404 = error 404
on_job f forbidden_403 = error 403

abbrev pub clamped : Option ℕ → ℕ
clamped none = max_output_tail
clamped (some n) = if ltb n 1 || ltb max_output_tail n then max_output_tail else n

-- `open` finds the file of a path, or nothing.
module _ (decode : List ℕ → Text) (file : Text → Option (List ℕ)) where
  abbrev pub output_of : Option ℕ → Option Text → List Text
  output_of tail none = []
  output_of tail (some []) = []
  output_of tail (some (c ∷ path)) = read_output_tail decode (file (c ∷ path)) (some (clamped tail))

  unfoldable pub job_output : Current → ℕ → Option ℕ → List Job → Answer (List Text)
  job_output u job_id tail jobs =
      on_job (λ job. output_of tail job.output_path)
        (get_job_or_403 jobs job_id u.user_id u.is_admin)

abbrev pub is_job_not_found : Reply → Bool
is_job_not_found job_not_found = true
is_job_not_found _ = false

-- `cancel_job`: the HTTP status, and the table.
unfoldable pub cancel : Current → ℕ → List Job → ℕ × List Job
cancel u job_id jobs =
    let r = cancel_job jobs job_id u.user_id u.is_admin in
    (if r.success then 200 else if is_job_not_found r.message then 404 else 400, r.jobs)

unfoldable pub admin_cancel_job : Current → ℕ → List Job → ℕ × List Job
admin_cancel_job u job_id jobs =
    let r = cancel_job jobs job_id u.user_id true in
    if not u.is_admin then (403, jobs) else (if r.success then 200 else 404, r.jobs)
