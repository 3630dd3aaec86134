-- ===== src/Jobs/Tests.antt =====
-- The job queue on a small table.
use retro_bridge.Prelude.{
  ℕ, ◌≡◌, ◌↔◌, refl, true, false, none, some, List, [], ◌∷◌, ◌++◌, Text, codes,
}
use retro_bridge.Model.{Job, Device, User, Status, queued, running, completed}
use retro_bridge.Jobs.Table.{save}
use retro_bridge.Jobs.Cancel.{cancel_job, bulk_cancel_jobs}
use retro_bridge.Jobs.Cancel.Laws.{cancelled_row, cancel_job-found}
use retro_bridge.Jobs.Quota.{max_jobs, get_tier_limits, get_user_quota, check_rate_limit}
use retro_bridge.Jobs.Upload.{
  validate_file_content, extension, signature_of, check_header, check_text, has_replacement,
}
use retro_bridge.Jobs.Upload.Accepted.{IsAccepted, validate_file_content_iff}
use retro_bridge.Jobs.Create.{Request, created, new_job, create_job}
use retro_bridge.Jobs.Create.Laws.{IsSound, found_device, found_user, create_job-IsSound}

-- A row with the given id, owner and status.
abbrev row : ℕ → ℕ → Status → Job
row i user s = record {
  id = i;
  user_id = user;
  device_id = 1;
  port_id = none;
  original_filename = codes "a.bin";
  stored_filename = none;
  status = s;
  priority = 0;
  file_size_bytes = none;
  created_at = i;
  started_at = none;
  finished_at = none;
  runtime_seconds = none;
  exit_code = none;
  output_path = none;
  error_message = none;
  worker_pid = none;
  claimed_by = none;
  claimed_at = none;
  lease_expires_at = none;
  heartbeat_at = none;
  override_newline_mode = none;
  override_pre_transfer_cmds = none;
  override_post_transfer_cmds = none;
  cancel_requested = false;
}

abbrev pub jobs : List Job
jobs = row 1 7 queued ∷ row 2 8 running ∷ row 3 7 completed ∷ []

cancel_job-found_example :
    ((cancel_job jobs 1 7 false).success ≡ true)
    × ((cancel_job jobs 1 7 false).jobs ≡ save (cancelled_row (row 1 7 queued)) jobs)
cancel_job-found_example = cancel_job-found jobs 1 7 false {job = row 1 7 queued} refl

bulk_cancel_counts : (bulk_cancel_jobs (1 ∷ 2 ∷ 2 ∷ 5 ∷ 3 ∷ []) jobs).1 ≡ 2
unfolding bulk_cancel_jobs
bulk_cancel_counts = refl

abbrev gold : Text → ℕ
gold key = 50

abbrev patron : User
patron = record {
  id = 7;
  is_admin = false;
  max_queued_jobs = 3;
  max_terminal_sessions = 1;
  email_notify_jobs = true;
  patreon_tier = some (codes " Gold");
}

max_jobs-gold : max_jobs gold patron ≡ 50
unfolding max_jobs get_tier_limits
max_jobs-gold = refl

validate_file_content_iff_example :
    (validate_file_content (some (codes ":10")) (codes "A.HEX") ≡ none)
    ↔ IsAccepted (extension (codes "A.HEX")) (codes ":10")
validate_file_content_iff_example = validate_file_content_iff (codes ":10") (codes "A.HEX")

hex_accepted : validate_file_content (some (codes ":10")) (codes "A.HEX") ≡ none
unfolding validate_file_content extension check_header signature_of check_text has_replacement
hex_accepted = refl

abbrev pub centurion : Device
centurion = record { id = 1; name = codes "centurion"; display_name = none; is_enabled = true }

abbrev pub request : Request
request = record {
  devices = centurion ∷ [];
  users = patron ∷ [];
  setting = gold;
  max_jobs_per_hour = 10;
  max_upload_size = 100;
  now = 5000000000;
  next_id = 4;
  has_pending_writes = false;
  user_id = 7;
  device_id = 1;
  filename = codes "b.txt";
  content = some (codes "hello");
  priority = 2;
  newline_mode = [];
  pre_transfer_cmds = [];
  post_transfer_cmds = [];
}

create_request :
    create_job (λ s. s) request jobs
    ≡ created (new_job request (codes "b.txt")) (jobs ++ new_job request (codes "b.txt") ∷ [])
unfolding create_job validate_file_content extension check_header signature_of check_text
    has_replacement get_user_quota check_rate_limit max_jobs get_tier_limits new_job
create_request = refl

create_job-IsSound_example :
    (device : Device) × (user : User) × (found_device (λ s. s) request jobs ≡ some device)
    × (found_user (λ s. s) request jobs ≡ some user)
    × IsSound
        (λ s. s)
        request
        jobs
        device
        user
        (new_job request (codes "b.txt"))
        (jobs ++ new_job request (codes "b.txt") ∷ [])
create_job-IsSound_example = create_job-IsSound (λ s. s) request jobs create_request
