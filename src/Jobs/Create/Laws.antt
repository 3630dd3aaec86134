-- ===== src/Jobs/Create/Laws.antt =====
-- What a job that `create_job` has created says about the request and the table.
use retro_bridge.Prelude.{
  ℕ, ◌-◌, ◌≤◌, ◌≡◌, ◌⊎◌, refl, Bool, true, false, Option, none, some, List, [], ◌∷◌, ◌++◌, arith,
  ◌==◌, Text,
}
use retro_bridge.Model.{Job, Device, User, count, find, count-append}
use retro_bridge.Jobs.Quota.{
  is_active_of, max_jobs, get_user_quota, is_recent_of, hour, check_rate_limit,
}
use retro_bridge.Jobs.Upload.{validate_file_content}
use retro_bridge.Jobs.Create.{
  Request, created, new_job, safe_name_of, create_for, create_job, size_of, granted, get_job_or_403,
}
use retro_bridge.Jobs.Table.{get_job}

module _ (secure_filename : Text → Text) (r : Request) (jobs : List Job) where
  -- The table behind a successful call.
  abbrev pub table : Text → List Job
  table name = jobs ++ new_job r name ∷ []

  pub record IsSound (device : Device) (user : User) (j : Job) (jobs' : List Job) : Type 0 where
    pub appended : jobs' ≡ jobs ++ j ∷ []
    pub is_new : j ≡ new_job r (safe_name_of secure_filename r)
    pub device_enabled : device.is_enabled ≡ true
    pub within_quota : count (is_active_of user.id) jobs' ≤ max_jobs r.setting user
    pub within_rate :
        (r.max_jobs_per_hour ≡ 0)
        ⊎ (count (is_recent_of r.user_id (r.now - hour)) jobs' ≤ r.max_jobs_per_hour)
    pub file_accepted : validate_file_content r.content (safe_name_of secure_filename r) ≡ none
    pub size_allowed : (r.max_upload_size ≡ 0) ⊎ (size_of r.content ≤ r.max_upload_size)

  create_for-created :
      (user : User) {j : Job} {jobs' : List Job}
      → create_for secure_filename (some user) r jobs ≡ created j jobs'
      → let name = safe_name_of secure_filename r in
        ((get_user_quota r.setting jobs user).2 ≡ false)
        × ((check_rate_limit r.max_jobs_per_hour jobs r.user_id r.now).0 ≡ false)
        × (validate_file_content r.content name ≡ none)
        × (j ≡ new_job r name)
        × (jobs' ≡ table name)
        × ((r.max_upload_size ≡ 0) ⊎ (size_of r.content ≤ r.max_upload_size))
  create_for-created user {j} {jobs'} h =
      (ground arith, ground arith, ground arith, ground arith, ground arith, ground arith)

  quota-table :
      (user : User) (name : Text)
      → (get_user_quota r.setting jobs user).2 ≡ false
      → count (is_active_of user.id) (table name) ≤ max_jobs r.setting user
  unfolding get_user_quota
  quota-table user name h =
      let one : count (is_active_of user.id) (new_job r name ∷ []) ≤ 1 = ground arith in
      ground (arith, count-append (is_active_of user.id) jobs (new_job r name ∷ []), one)

  rate-table :
      (name : Text)
      → (check_rate_limit r.max_jobs_per_hour jobs r.user_id r.now).0 ≡ false
      → (r.max_jobs_per_hour ≡ 0)
        ⊎ (count (is_recent_of r.user_id (r.now - hour)) (table name) ≤ r.max_jobs_per_hour)
  unfolding check_rate_limit
  rate-table name h =
      let recent = is_recent_of r.user_id (r.now - hour) in
      let one : count recent (new_job r name ∷ []) ≤ 1 = ground arith in
      ground (arith, count-append recent jobs (new_job r name ∷ []), one)

  create_for-IsSound :
      (device : Device) (user : User) {j : Job} {jobs' : List Job}
      → device.is_enabled ≡ true
      → create_for secure_filename (some user) r jobs ≡ created j jobs'
      → IsSound device user j jobs'
  create_for-IsSound device user {j} {jobs'} enabled h =
      let name = safe_name_of secure_filename r in
      let (quota, rate, file, row, rows, size) = create_for-created user h in
      record {
        appended = rw (rows, row);
        is_new = row;
        device_enabled = enabled;
        within_quota = rw rows (quota-table user name quota);
        within_rate = rw rows (rate-table name rate);
        file_accepted = file;
        size_allowed = size;
      }

  abbrev pub found_device : Option Device
  found_device = find (λ d. d.id == r.device_id) r.devices

  abbrev pub found_user : Option User
  found_user = find (λ u. u.id == r.user_id) r.users

  create_on-IsSound :
      (d : Option Device) (u : Option User) {j : Job} {jobs' : List Job}
      → found_device ≡ d
      → found_user ≡ u
      → create_job secure_filename r jobs ≡ created j jobs'
      → (device : Device) × (user : User) × (found_device ≡ some device)
        × (found_user ≡ some user)
        × IsSound device user j jobs'
  unfolding create_job new_job
  create_on-IsSound none u ed eu h = cc (rw ed at h)
  create_on-IsSound (some device) none ed eu h = absurd (ground arith)
  create_on-IsSound (some device) (some user) {j} {jobs'} ed eu h =
      let enabled : device.is_enabled ≡ true = ground arith in
      let free : r.has_pending_writes ≡ false = ground arith in
      (
        device,
        user,
        ed,
        eu,
        create_for-IsSound device user enabled (rw (ed, enabled, free, eu) at h),
      )

  -- A job is created only for an existing, enabled device and an existing user, from a file that the
  -- checks accept and whose size is allowed. The new row alone is appended, as a queued job of the
  -- request, and then the user's queued and running jobs are within their limit, and their jobs of
  -- the last hour within the rate limit, if there is one.
  pub create_job-IsSound :
      {j : Job} {jobs' : List Job}
      → create_job secure_filename r jobs ≡ created j jobs'
      → (device : Device) × (user : User) × (found_device ≡ some device)
        × (found_user ≡ some user)
        × IsSound device user j jobs'
  create_job-IsSound h = create_on-IsSound found_device found_user refl refl h

-- `get_job_or_403` hands out a job exactly to its owner and to admins, and only the job asked for.
pub get_job_or_403-granted :
    (jobs : List Job) (job_id user_id : ℕ) (is_admin : Bool) {job : Job}
    → get_job_or_403 jobs job_id user_id is_admin ≡ granted job
    → (get_job job_id jobs ≡ some job) × ((job.user_id ≡ user_id) ⊎ (is_admin ≡ true))
unfolding get_job_or_403
get_job_or_403-granted jobs job_id user_id is_admin {job} h = by_row (get_job job_id jobs) refl
  where
    by_row :
        (o : Option Job)
        → get_job job_id jobs ≡ o
        → (get_job job_id jobs ≡ some job) × ((job.user_id ≡ user_id) ⊎ (is_admin ≡ true))
    by_row none e = cc (rw e at h)
    by_row (some j) e = (ground arith, ground arith)
