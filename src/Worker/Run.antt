-- ===== src/Worker/Run.antt =====
-- `run_job_on_device` of worker.py. What the database, the port and the modem do comes in as `World`;
-- the exceptions that reach the handlers are values. Log lines and pauses are left out.
pub mod Outcome
pub mod Order
pub mod Total
use retro_bridge.Prelude.{
  ℕ, zero, suc, ◌-◌, ◌*◌, ◌/◌, Bool, true, false, not, Option, none, some, List, [], ◌∷◌, ◌++◌,
  if◌then◌else◌, Text, second,
}
use retro_bridge.Model.{
  Job, DevicePort, Status, completed, failed, canceled, is_running, ErrorMessage,
  xmodem_transfer_failed, canceled_by_administrator, upload_not_found, serial_error, internal_error,
}
use retro_bridge.Worker.Commands.{
  Json, pre, post, resolve_newline_mode, resolve_cmds, apply_newline,
}
use retro_bridge.Worker.Capture.{Turn, Setup, Captured, End, capture}

-- The classes of exceptions that the handlers tell apart.
pub data Exc : Type 0 where
  serial_exception job_cancelled other_exception : Exc

-- What is sent to the device, in order: a command's text, or the file by XMODEM.
pub data Sent : Type 0 where
  command : Text → Sent
  file_transfer : Sent

pub data Transfer : Type 0 where
  transferred : Bool → Transfer
  transfer_raises : Exc → Transfer

-- What a turn of the loop that drains the port reads: something, nothing, or it raises a port's error.
pub data Reading : Type 0 where
  got_chunk got_nothing read_raises : Reading

-- That loop has no bound: it has ended once a turn has read nothing, or has raised.
abbrev pub is_drained : List Reading → Bool
is_drained [] = false
is_drained (got_chunk ∷ readings) = is_drained readings
is_drained (got_nothing ∷ readings) = true
is_drained (read_raises ∷ readings) = true

-- `mkdir_raises` and `setup_raises` are exceptions that no handler of the function catches: of `mkdir`,
-- and of `get_serial_params` or `session_factory`.
-- `end_time` is `time.time()` and `finish_time` is `datetime.now(UTC)`, both read at the end.
pub record World : Type 0 where
  pub output_path : Text
  pub mkdir_raises : Bool
  pub upload_exists : Bool
  pub setup_raises : Bool
  pub cancelled_first : Bool
  pub open_raises : Option Exc
  pub readings : List Reading
  pub pre_raises : ℕ → Option Exc
  pub transfer : Transfer
  pub post_raises : ℕ → Option Exc
  pub start_time : ℕ
  pub turns : List Turn
  pub has_sessions : Bool
  pub cancelled_last : Bool
  pub end_time : ℕ
  pub finish_time : ℕ

-- What a part of the body did to the device, and how it went on.
pub data Step {ℓ} (A : Type ℓ) : Type ℓ where
  done : List Sent → A → Step A
  raises : List Sent → Exc → Step A

abbrev pub sent_first {ℓ} : {A : Type ℓ} → List Sent → Step A → Step A
sent_first xs (done ys a) = done (xs ++ ys) a
sent_first xs (raises ys e) = raises (xs ++ ys) e

infixl 5 ◌>>=◌ ◌>>◌
abbrev pub ◌>>=◌ {ℓ κ} : {A : Type ℓ} {B : Type κ} → Step A → (A → Step B) → Step B
done xs a >>= f = sent_first xs (f a)
raises xs e >>= f = raises xs e

abbrev pub ◌>>◌ {ℓ} : {B : Type ℓ} → Step (Unit {0}) → Step B → Step B
m >> k = m >>= λ _. k

abbrev pub raise_if_some : Option Exc → Step (Unit {0})
raise_if_some none = done [] tt
raise_if_some (some e) = raises [] e

-- `_check_job_cancelled`, where the job is found cancelled or not.
abbrev pub check_cancelled : Bool → Step (Unit {0})
check_cancelled true = raises [] job_cancelled
check_cancelled false = done [] tt

-- The loops over the commands, from the number of the first.
abbrev pub send_cmds : (ℕ → Option Exc) → Text → ℕ → List Text → Step (Unit {0})
send_cmds fails mode n [] = done [] tt
send_cmds fails mode n (cmd ∷ cmds) = elim (fails n) [
  | some e ↦ raises [] e
  | none ↦ sent_first (command (apply_newline cmd mode) ∷ []) (send_cmds fails mode (suc n) cmds)
]

-- How the body ends: the job is completed, canceled during the transfer or at the end, or the transfer
-- has failed. `still_capturing` and `still_draining` are runs one of whose loops has not ended.
pub data Finish : Type 0 where
  completes cancelled_in_transfer cancelled_at_end transfer_failed still_capturing still_draining :
      Finish

-- The last check, once the capture loop has ended.
abbrev pub last_check : Option End → Bool → Step Finish
last_check none cancelled = done [] still_capturing
last_check (some e) true = done [] cancelled_at_end
last_check (some e) false = done [] completes

-- What follows a transfer that went through.
after_transfer : World → Text → List Text → Setup → Step Finish
after_transfer w mode post_cmds setup = do
  send_cmds w.post_raises mode 0 post_cmds
  last_check (capture setup w.turns).end w.cancelled_last

send_file : Transfer → Step Finish → Step Finish
send_file (transferred true) rest = sent_first (file_transfer ∷ []) rest
send_file (transferred false) rest = done (file_transfer ∷ []) transfer_failed
send_file (transfer_raises job_cancelled) rest = done (file_transfer ∷ []) cancelled_in_transfer
send_file (transfer_raises serial_exception) rest = raises (file_transfer ∷ []) serial_exception
send_file (transfer_raises other_exception) rest = raises (file_transfer ∷ []) other_exception

-- What follows the draining of the port.
abbrev pub after_drain : Bool → Step Finish → Step Finish
after_drain true rest = rest
after_drain false rest = done [] still_draining

abbrev pub or_default : Option ℕ → ℕ → ℕ
or_default none d = d
or_default (some zero) d = d
or_default (some (suc n)) d = suc n

abbrev pub setup_of : DevicePort → World → Setup
setup_of port w = record {
  start_time = w.start_time;
  max_runtime = or_default port.max_runtime_seconds 300;
  idle_timeout = or_default port.idle_timeout_seconds 5;
  has_sessions = w.has_sessions;
}

module _ (loads : Text → Json) where
  -- The body of the `try`.
  unfoldable pub body : Job → DevicePort → World → Step Finish
  unfolding after_transfer send_file
  body job port w = do
    check_cancelled w.cancelled_first
    raise_if_some w.open_raises
    let mode = resolve_newline_mode job port
    after_drain (is_drained w.readings) (
        send_cmds w.pre_raises mode 0 (resolve_cmds loads job port pre)
        >> send_file w.transfer
            (after_transfer w mode (resolve_cmds loads job port post) (setup_of port w)))

abbrev pub failing : ErrorMessage → World → Job → Job
failing m w job = record job {
  status = failed;
  error_message = some m;
  finished_at = some w.finish_time;
}

abbrev pub cancelling : World → Job → Job
cancelling w job = record job {
  status = canceled;
  error_message = some canceled_by_administrator;
  finished_at = some w.finish_time;
}

abbrev pub runtime_of : World → ℕ
runtime_of w = (w.end_time - w.start_time) / second

-- What a call returns, what it makes of the job, and what it sent. `returned` is `none` where the call
-- has not returned: one of its loops goes on, or an exception has left it.
pub record Ran : Type 0 where
  pub returned : Option Bool
  pub job : Job
  pub sent : List Sent

-- The ends of the body, and the handlers behind it.
abbrev pub conclude : World → Job → Step Finish → Ran
conclude w job (done xs completes) = record {
  returned = some true;
  job = record job {
    status = completed;
    finished_at = some w.finish_time;
    runtime_seconds = some (runtime_of w);
    exit_code = some 0;
  };
  sent = xs;
}
conclude w job (done xs cancelled_at_end) = record {
  returned = some false;
  job = record (cancelling w job) { runtime_seconds = some (runtime_of w) };
  sent = xs;
}
conclude w job (done xs cancelled_in_transfer) = record {
  returned = some false;
  job = cancelling w job;
  sent = xs;
}
conclude w job (done xs transfer_failed) = record {
  returned = some false;
  job = failing xmodem_transfer_failed w job;
  sent = xs;
}
conclude w job (done xs still_capturing) = record { returned = none; job = job; sent = xs }
conclude w job (done xs still_draining) = record { returned = none; job = job; sent = xs }
conclude w job (raises xs serial_exception) = record {
  returned = some false;
  job = failing serial_error w job;
  sent = xs;
}
conclude w job (raises xs job_cancelled) = record {
  returned = some false;
  job = if is_running job.status then cancelling w job else job;
  sent = xs;
}
conclude w job (raises xs other_exception) = record {
  returned = some false;
  job = failing internal_error w job;
  sent = xs;
}

-- Where an exception leaves the function, the row is as it was then; nothing was sent.
abbrev pub left : Bool → Job → Ran → Ran
left true job ran = record { returned = none; job = job; sent = [] }
left false job ran = ran

-- Without its upload a job fails before anything is opened.
abbrev pub run_upload : Bool → World → Job → Step Finish → Ran
run_upload true w job s = left w.setup_raises job (conclude w job s)
run_upload false w job s = record {
  returned = some false;
  job = failing upload_not_found w job;
  sent = [];
}

unfoldable pub run_job_on_device : (Text → Json) → Job → DevicePort → World → Ran
run_job_on_device loads job port w =
    let job' = record job { output_path = some w.output_path } in
    left w.mkdir_raises job (run_upload w.upload_exists w job' (body loads job' port w))

-- What holds where an exception leaves the function, and of what it comes to otherwise.
pub left-holds :
    (P : Ran → Type 0) (b : Bool) (job : Job) (ran : Ran)
    → P (record { returned = none; job = job; sent = [] })
    → P ran
    → P (left b job ran)
left-holds P true job ran h k = h
left-holds P false job ran h k = k
