-- ===== src/Jobs/Quota.antt =====
-- `get_user_quota` and `check_rate_limit` of retrobridge/jobs/utils.py, and `get_tier_limits` of
-- retrobridge/integrations/patreon.py. A setting that is no number, or not positive, reads as 0.
pub mod Tiers
use retro_bridge.Prelude.{
  ℕ, ◌+◌, ◌-◌, ◌*◌, Bool, true, false, ◌&&◌, ◌||◌, Option, none, some, List, [], ◌∷◌, ◌++◌, ◌==◌,
  ltb, leb, if◌then◌else◌, Text, codes, text_eq, lower, upper, strip, text_or, second,
}
use retro_bridge.Model.{Job, User, is_queued, is_running, count}

abbrev pub tier_key : Text → Text → Text
tier_key tier kind = codes "PATREON_TIER_" ++ upper tier ++ kind

-- The two settings, where both are positive; `setting` is `int(_get_setting(key, "0"))`.
tier_settings : (Text → ℕ) → Text → Option (ℕ × ℕ)
tier_settings setting tier =
    let jobs = setting (tier_key tier (codes "_JOBS")) in
    let sessions = setting (tier_key tier (codes "_SESSIONS")) in
    if jobs == 0 || sessions == 0 then none else some (jobs, sessions)

abbrev no_tier : Text → Bool
no_tier [] = true
no_tier (c ∷ s) = text_eq (c ∷ s) (codes "none")

unfoldable pub get_tier_limits : (Text → ℕ) → Option Text → Option (ℕ × ℕ)
unfolding tier_settings
get_tier_limits setting tier_name =
    let tier = strip (lower (text_or tier_name [])) in
    if no_tier tier then none else tier_settings setting tier

-- A tier can only raise the limit: `if tier_jobs and tier_jobs > max_jobs`.
abbrev pub raised : Option ℕ → ℕ → ℕ
raised none own = own
raised (some limit) own = if ltb own limit then limit else own

abbrev pub first_of_pair : Option (ℕ × ℕ) → Option ℕ
first_of_pair none = none
first_of_pair (some (a, b)) = some a

abbrev pub is_active_of : ℕ → Job → Bool
is_active_of user_id j = j.user_id == user_id && (is_queued j.status || is_running j.status)

-- `if user.patreon_tier:`, and the limit that the tier raises.
abbrev pub job_limit : (Text → ℕ) → Option Text → ℕ → ℕ
job_limit setting none own = own
job_limit setting (some []) own = own
job_limit setting (some (c ∷ s)) own =
    raised (first_of_pair (get_tier_limits setting (some (c ∷ s)))) own

-- The limit on a user's queued and running jobs.
unfoldable pub max_jobs : (Text → ℕ) → User → ℕ
max_jobs setting user = job_limit setting user.patreon_tier user.max_queued_jobs

-- `get_user_quota`: how many are queued or running, the limit, and whether it is reached.
unfoldable pub get_user_quota : (Text → ℕ) → List Job → User → ℕ × ℕ × Bool
get_user_quota setting jobs user =
    let queued_running = count (is_active_of user.id) jobs in
    let limit = max_jobs setting user in (queued_running, limit, leb limit queued_running)

abbrev pub is_recent_of : ℕ → ℕ → Job → Bool
is_recent_of user_id since j = j.user_id == user_id && leb since j.created_at

abbrev pub hour : ℕ
hour = 3600 * second

-- `check_rate_limit`: whether the limit is reached, and the limit; 0 is no limit.
unfoldable pub check_rate_limit : ℕ → List Job → ℕ → ℕ → Bool × ℕ
check_rate_limit max_per_hour jobs user_id now =
    if max_per_hour == 0
    then (false, 0)
    else let recent_count = count (is_recent_of user_id (now - hour)) jobs in
      (leb max_per_hour recent_count, max_per_hour)
