-- ===== src/Admin/Tests.antt =====
-- A device with a port, and a user with a job and a session on it.
use retro_bridge.Prelude.{◌≡◌, refl, true, false, none, some, List, [], ◌∷◌, arith, codes}
use retro_bridge.Model.{Job, Device, DevicePort, queued, job_queue}
use retro_bridge.Terminal.Leases.{TerminalSession, PortLease, active}
use retro_bridge.Accounts.Users.{new_account}
use retro_bridge.Admin.Tables.{Tables, IsConsistent}
use retro_bridge.Admin.Deletion.{
  delete_user, delete_port, delete, deleted, integrity_error, of_upload, of_session,
}
use retro_bridge.Admin.Deletion.Outcome.{deletion, delete_user-deletion}
use retro_bridge.Admin.Devices.{DeviceForm, add_device}
use retro_bridge.Admin.Settings.{
  Kind, Field, megabytes, number, minutes, boolean, plain, optional_number, Entry, setting_map,
  save, load, get_bool, safe_bool, get_raw, setting_defaults,
}
use retro_bridge.Admin.Settings.RoundTrip.{load-save}
use retro_bridge.Admin.Operations.{
  unchanged, then_, adds_device, deletes_port, deletes_user, Operations-IsConsistent,
}

abbrev device : Device
device = record { id = 1; name = codes "pdp11"; display_name = none; is_enabled = true }

abbrev port : DevicePort
port = record {
  id = 5;
  device_id = 1;
  port_label = codes "tty";
  transport = codes "pty";
  dev_path = codes "/dev/x";
  purpose = job_queue;
  baud = none;
  data_bits = none;
  parity = none;
  stop_bits = none;
  flow_control = none;
  newline_mode = none;
  max_concurrent_jobs = none;
  max_runtime_seconds = none;
  idle_timeout_seconds = none;
  pre_transfer_cmds = none;
  post_transfer_cmds = none;
  transfer_protocol = none;
  is_enabled = true;
}

abbrev job : Job
job = record {
  id = 9;
  user_id = 7;
  device_id = 1;
  port_id = some 5;
  original_filename = codes "a.bin";
  stored_filename = some (codes "job-9/a.bin");
  status = queued;
  priority = 0;
  file_size_bytes = none;
  created_at = 1;
  started_at = none;
  finished_at = none;
  runtime_seconds = none;
  exit_code = none;
  output_path = none;
  error_message = none;
  worker_pid = none;
  claimed_by = none;
  claimed_at = none;
  lease_expires_at = none;
  heartbeat_at = none;
  override_newline_mode = none;
  override_pre_transfer_cmds = none;
  override_post_transfer_cmds = none;
  cancel_requested = false;
}

abbrev session : TerminalSession
session = record {
  id = 3;
  user_id = 7;
  device_id = 1;
  port_id = 5;
  status = active;
  connected_at = some 1;
  disconnected_at = none;
  duration_seconds = none;
  disconnect_reason = none;
  bridge_worker_id = none;
  bridge_heartbeat_at = none;
  bridge_status = none;
}

abbrev lease : PortLease
lease = record {
  port_id = 5;
  session_id = 3;
  claimed_by = codes "host:1";
  claimed_at = 1;
  lease_expires_at = 9;
  heartbeat_at = 1;
}

abbrev tables : List PortLease → Tables
tables leases = record {
  accounts =
      new_account 1 0 (codes "root") (codes "r") [] none
      ∷ new_account 7 0 (codes "ada") (codes "a") [] none
      ∷ [];
  devices = device ∷ [];
  ports = port ∷ [];
  jobs = job ∷ [];
  sessions = session ∷ [];
  leases = leases;
}

tables-IsConsistent : IsConsistent (tables (lease ∷ []))
tables-IsConsistent = record {
  port_device = ((λ e. ground arith), tt);
  job_user = ((λ e. ground arith), tt);
  job_device = ((λ e. ground arith), tt);
  job_port = ((λ e. ground arith), tt);
  session_user = ((λ e. ground arith), tt);
  session_device = ((λ e. ground arith), tt);
  session_port = ((λ e. ground arith), tt);
  lease_port = ((λ e. ground arith), tt);
  lease_session = ((λ e. ground arith), tt);
}

abbrev another : DeviceForm
another = record { is_valid = true; name = codes "vax"; display_name = none; is_enabled = true }

-- With a lease, the user cannot be deleted; the port can, with the job, the session and the lease.
leased_user : (delete_user 1 7 (tables (lease ∷ []))).0 ≡ integrity_error
unfolding delete_user delete
leased_user = refl

free_user : (delete_user 1 7 (tables [])).1.1 ≡ of_upload (codes "job-9/a.bin") ∷ of_session 3 ∷ []
unfolding delete_user delete
free_user = refl

port_deleted : (delete_port 1 5 (tables (lease ∷ []))).0 ≡ deleted
unfolding delete_port delete
port_deleted = refl

delete_user-deletion_example : delete_user 1 7 (tables []) ≡ deletion 7 (tables [])
delete_user-deletion_example = delete_user-deletion 1 7 (tables [])

abbrev with_vax : Tables
with_vax = (add_device 2 another (tables (lease ∷ []))).1

abbrev without_port : Tables
without_port = (delete_port 1 5 with_vax).1

Operations-IsConsistent_example : IsConsistent (delete_user 1 7 without_port).1.0
Operations-IsConsistent_example =
    Operations-IsConsistent
      (then_ (then_ (then_ unchanged (adds_device 2 another)) (deletes_port 1 5))
        (deletes_user 1 7))
      tables-IsConsistent

-- A form whose fields of a kind are all the same.
abbrev same : (kind : Kind) → Field kind
same megabytes = (false, 16)
same number = (false, 3)
same minutes = (false, 5)
same boolean = true
same plain = codes "x"
same optional_number = some (false, 25)

abbrev form : (e : Entry) → Field e.kind
form e = same e.kind

abbrev first_entry : Entry
first_entry = record {
  field = codes "max_upload_size_mb";
  key = codes "MAX_UPLOAD_SIZE_BYTES";
  kind = megabytes;
}

abbrev tail : List Entry → List Entry
tail [] = []
tail (e ∷ es) = es

first_of_map : setting_map ≡ first_entry ∷ tail setting_map
unfolding setting_map
first_of_map = refl

-- Without a row, registration is open.
open_by_default : get_bool (codes "REGISTRATION_OPEN") [] ≡ true
unfolding get_bool get_raw setting_defaults safe_bool
open_by_default = refl

load-save_example : load first_entry (save setting_map form []) ≡ some (false, 16)
load-save_example = load-save [] (tail setting_map) first_entry form [] first_of_map refl refl
