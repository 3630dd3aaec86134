-- ===== src/Model.antt =====
-- The tables of retrobridge/models.py that the queue, the worker and the terminal work on. A row is
-- a record, a table the list of its rows; a nullable column is an `Option`. An identifier that is only
-- compared (a worker's name, a device's name) is a `Text`. The check constraints on `status`,
-- `purpose` and `bridge_status` are the constructors of a data type.
mod Rows
mod Accounts
pub use Rows.*
pub use Accounts.*
use retro_bridge.Prelude.{ℕ, Bool, true, false, Option, List, Text, ◌==◌}

-- `ck_jobs_status`
pub data Status : Type 0 where
  queued running completed failed canceled : Status

abbrev pub is_queued : Status → Bool
is_queued queued = true
is_queued _ = false

abbrev pub is_running : Status → Bool
is_running running = true
is_running _ = false

-- `status in ("completed", "failed", "canceled")`
abbrev pub is_finished : Status → Bool
is_finished completed = true
is_finished failed = true
is_finished canceled = true
is_finished _ = false

-- The texts that the program puts into `error_message`.
pub data ErrorMessage : Type 0 where
  no_port_assigned xmodem_transfer_failed canceled_by_administrator : ErrorMessage
  canceled_during_stale_recovery upload_not_found serial_error internal_error : ErrorMessage

pub record Job : Type 0 where
  pub id : ℕ
  pub user_id : ℕ
  pub device_id : ℕ
  pub port_id : Option ℕ
  pub original_filename : Text
  pub stored_filename : Option Text
  pub status : Status
  pub priority : ℕ
  pub file_size_bytes : Option ℕ
  pub created_at : ℕ
  pub started_at : Option ℕ
  pub finished_at : Option ℕ
  pub runtime_seconds : Option ℕ
  pub exit_code : Option ℕ
  pub output_path : Option Text
  pub error_message : Option ErrorMessage
  pub worker_pid : Option ℕ
  pub claimed_by : Option Text
  pub claimed_at : Option ℕ
  pub lease_expires_at : Option ℕ
  pub heartbeat_at : Option ℕ
  pub override_newline_mode : Option Text
  pub override_pre_transfer_cmds : Option Text
  pub override_post_transfer_cmds : Option Text
  pub cancel_requested : Bool

-- `ck_device_ports_purpose`
pub data Purpose : Type 0 where
  job_queue interactive : Purpose

abbrev pub is_job_queue : Purpose → Bool
is_job_queue job_queue = true
is_job_queue interactive = false

pub record DevicePort : Type 0 where
  pub id : ℕ
  pub device_id : ℕ
  pub port_label : Text
  pub transport : Text
  pub dev_path : Text
  pub purpose : Purpose
  pub baud : Option ℕ
  pub data_bits : Option ℕ
  pub parity : Option Text
  pub stop_bits : Option ℕ
  pub flow_control : Option Text
  pub newline_mode : Option Text
  pub max_concurrent_jobs : Option ℕ
  pub max_runtime_seconds : Option ℕ
  pub idle_timeout_seconds : Option ℕ
  pub pre_transfer_cmds : Option Text
  pub post_transfer_cmds : Option Text
  pub transfer_protocol : Option Text
  pub is_enabled : Bool

pub record Device : Type 0 where
  pub id : ℕ
  pub name : Text
  pub display_name : Option Text
  pub is_enabled : Bool

-- The columns of `User` that the queue and the terminal read.
pub record User : Type 0 where
  pub id : ℕ
  pub is_admin : Bool
  pub max_queued_jobs : ℕ
  pub max_terminal_sessions : ℕ
  pub email_notify_jobs : Bool
  pub patreon_tier : Option Text
