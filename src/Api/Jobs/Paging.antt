-- ===== src/Api/Jobs/Paging.antt =====
-- The pages of the list of jobs.
use native.Mathlib.Nat.{div-add-mod, mod-lt}
use retro_bridge.Prelude.{
  ℕ, zero, suc, ◌+◌, ◌-◌, ◌*◌, ◌/◌, ◌≤◌, ◌≡◌, ap, ◌∙◌, Option, some, List, [], ◌++◌, arith, length,
  take, drop, take-short, take-take-drop, max,
}
use retro_bridge.Model.{Job}
use retro_bridge.Api.Jobs.{Current, visible, newest_first, page_size, list_jobs}

-- The first pages, one behind the other.
abbrev pub first_pages : Current → Option ℕ → List Job → ℕ → List Job
first_pages u per_page jobs zero = []
first_pages u per_page jobs (suc n) =
    first_pages u per_page jobs n ++ (list_jobs u (some (suc n)) per_page jobs).jobs

first_pages-take :
    (u : Current) (per_page : Option ℕ) (jobs : List Job) (n : ℕ)
    → first_pages u per_page jobs n ≡ take (n * page_size per_page) (newest_first (visible u jobs))
unfolding list_jobs
first_pages-take u per_page jobs zero =
    let same : 0 ≡ 0 * page_size per_page = omega arith in
    ap (λ k. take k (newest_first (visible u jobs))) same
first_pages-take u per_page jobs (suc n) =
    let size = page_size per_page in
    let query = newest_first (visible u jobs) in
    let start : (max (suc n) 1 - 1) * size ≡ n * size = ap (λ k. k * size) (omega arith) in
    ap (λ l. first_pages u per_page jobs n ++ l) (ap (λ k. take size (drop k query)) start)
    ∙ (ap (λ l. l ++ take size (drop (n * size) query)) (first_pages-take u per_page jobs n)
        ∙ take-take-drop (suc n * size) (n * size) size query (grind arith))

rounded_up : (t s : ℕ) → 1 ≤ s → t ≤ ((t + s) - 1) / s * s
rounded_up t s h =
    grind (arith, div-add-mod ((t + s) - 1) s, mod-lt ((t + s) - 1) {m = s} (omega (arith, h)))

-- The pages of the list, as many as the answer says that there are, hold exactly the jobs that the
-- user may see, the newest first, whatever size of page was asked for.
pub list_jobs-pages :
    (u : Current) (page per_page : Option ℕ) (jobs : List Job)
    → first_pages u per_page jobs (list_jobs u page per_page jobs).pages
      ≡ newest_first (visible u jobs)
unfolding list_jobs
list_jobs-pages u page per_page jobs =
    let size = page_size per_page in
    let query = newest_first (visible u jobs) in
    first_pages-take u per_page jobs (((length query + size) - 1) / size)
    ∙ take-short (((length query + size) - 1) / size * size) query
        (rounded_up (length query) size (omega arith))
