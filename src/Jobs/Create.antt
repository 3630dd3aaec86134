-- ===== src/Jobs/Create.antt =====
-- `create_job` of retrobridge/jobs/utils.py, and `get_job_or_403`.
pub mod Laws
use retro_bridge.Prelude.{
  ℕ, ◌+◌, Bool, true, false, not, ◌&&◌, Option, none, some, List, [], ◌∷◌, ◌++◌, ◌==◌, ltb, leb,
  if◌then◌else◌, Text, codes, or_none, text_or, decimal, length,
}
use retro_bridge.Model.{Job, Device, User, Status, queued, find}
use retro_bridge.Jobs.Table.{get_job}
use retro_bridge.Jobs.Quota.{get_user_quota, check_rate_limit}
use retro_bridge.Jobs.Upload.{Rejection, validate_file_content}

-- The exceptions, in the order of the tests; `pending_writes` is the RuntimeError.
pub data CreateError : Type 0 where
  device_missing device_disabled pending_writes user_missing quota_reached : CreateError
  rate_limited : ℕ → CreateError
  rejected : Rejection → CreateError
  too_large : ℕ → ℕ → CreateError

-- What the call finds: the tables, the settings, the clock, the request, and the row id that the
-- database gives next. `content` is `none` if reading the upload raises.
pub record Request : Type 0 where
  pub devices : List Device
  pub users : List User
  pub setting : Text → ℕ
  pub max_jobs_per_hour : ℕ
  pub max_upload_size : ℕ
  pub now : ℕ
  pub next_id : ℕ
  pub has_pending_writes : Bool
  pub user_id : ℕ
  pub device_id : ℕ
  pub filename : Text
  pub content : Option (List ℕ)
  pub priority : ℕ
  pub newline_mode : Text
  pub pre_transfer_cmds : Text
  pub post_transfer_cmds : Text

pub data Created : Type 0 where
  created : Job → List Job → Created
  refused : CreateError → Created

abbrev size_of : Option (List ℕ) → ℕ
size_of none = 0
size_of (some bs) = length bs

-- The new row, once the file is saved under `job-<id>/<name>`.
unfoldable pub new_job : Request → Text → Job
new_job r safe_name = record {
  id = r.next_id;
  user_id = r.user_id;
  device_id = r.device_id;
  port_id = none;
  original_filename = safe_name;
  stored_filename = some (codes "job-" ++ decimal r.next_id ++ codes "/" ++ safe_name);
  status = queued;
  priority = r.priority;
  file_size_bytes = some (size_of r.content);
  created_at = r.now;
  started_at = none;
  finished_at = none;
  runtime_seconds = none;
  exit_code = none;
  output_path = none;
  error_message = none;
  worker_pid = none;
  claimed_by = none;
  claimed_at = none;
  lease_expires_at = none;
  heartbeat_at = none;
  override_newline_mode = or_none (some r.newline_mode);
  override_pre_transfer_cmds = or_none (some r.pre_transfer_cmds);
  override_post_transfer_cmds = or_none (some r.post_transfer_cmds);
  cancel_requested = false;
}

-- The file checks, and the insertion.
abbrev pub store_upload : Request → Text → Option Rejection → List Job → Created
store_upload r safe_name (some why) jobs = refused (rejected why)
store_upload r safe_name none jobs =
    if ltb 0 r.max_upload_size && ltb r.max_upload_size (size_of r.content)
    then refused (too_large (size_of r.content) r.max_upload_size)
    else created (new_job r safe_name) (jobs ++ new_job r safe_name ∷ [])

module _ (secure_filename : Text → Text) where
  -- `secure_filename(filename or "program.bin")`; the function is werkzeug's.
  abbrev pub safe_name_of : Request → Text
  safe_name_of r = secure_filename (text_or (some r.filename) (codes "program.bin"))

  -- What follows `BEGIN IMMEDIATE`: no other writer runs until the commit.
  abbrev pub create_for : Option User → Request → List Job → Created
  create_for none r jobs = refused user_missing
  create_for (some user) r jobs =
      if (get_user_quota r.setting jobs user).2
      then refused quota_reached
      else if (check_rate_limit r.max_jobs_per_hour jobs r.user_id r.now).0
      then refused (rate_limited r.max_jobs_per_hour)
      else store_upload r (safe_name_of r) (validate_file_content r.content (safe_name_of r)) jobs

  abbrev pub create_on : Option Device → Request → List Job → Created
  create_on none r jobs = refused device_missing
  create_on (some device) r jobs =
      if not device.is_enabled
      then refused device_disabled
      else if r.has_pending_writes
      then refused pending_writes
      else create_for (find (λ u. u.id == r.user_id) r.users) r jobs

  unfoldable pub create_job : Request → List Job → Created
  create_job r jobs = create_on (find (λ d. d.id == r.device_id) r.devices) r jobs

-- The HTTP status that `get_job_or_403` returns in place of a job.
pub data Access : Type 0 where
  granted : Job → Access
  not_found_404 forbidden_403 : Access

abbrev access_to : Option Job → ℕ → Bool → Access
access_to none user_id is_admin = not_found_404
access_to (some job) user_id is_admin =
    if not (job.user_id == user_id) && not is_admin then forbidden_403 else granted job

unfoldable pub get_job_or_403 : List Job → ℕ → ℕ → Bool → Access
get_job_or_403 jobs job_id user_id is_admin = access_to (get_job job_id jobs) user_id is_admin
