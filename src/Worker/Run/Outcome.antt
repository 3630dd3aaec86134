-- ===== src/Worker/Run/Outcome.antt =====
-- How a run of `run_job_on_device` leaves the job.
use retro_bridge.Prelude.{◌≡◌, ◌↔◌, Bool, true, false, some, arith, Text}
use retro_bridge.Model.{Job, DevicePort, running, completed, is_finished}
use retro_bridge.Worker.Commands.{Json}
use retro_bridge.Worker.Run.{
  serial_exception, job_cancelled, other_exception, World, Step, done, raises, Finish, completes,
  cancelled_in_transfer, cancelled_at_end, transfer_failed, still_capturing, still_draining,
  left-holds, body, conclude, run_upload, run_job_on_device,
}

-- The job's columns that a run that has ended sets.
pub record IsSettled (w : World) (b : Bool) (job : Job) : Type 0 where
  pub finished : is_finished job.status ≡ true
  pub stamped : job.finished_at ≡ some w.finish_time
  pub success : (b ≡ true) ↔ (job.status ≡ completed)

conclude-IsSettled :
    (w : World) (job : Job) (s : Step Finish) {b : Bool}
    → job.status ≡ running
    → (conclude w job s).returned ≡ some b
    → IsSettled w b (conclude w job s).job
conclude-IsSettled w job (done xs completes) h e = ground arith
conclude-IsSettled w job (done xs cancelled_at_end) h e = ground arith
conclude-IsSettled w job (done xs cancelled_in_transfer) h e = ground arith
conclude-IsSettled w job (done xs transfer_failed) h e = ground arith
conclude-IsSettled w job (done xs still_capturing) h e = cc
conclude-IsSettled w job (done xs still_draining) h e = cc
conclude-IsSettled w job (raises xs serial_exception) h e = ground arith
conclude-IsSettled w job (raises xs job_cancelled) h e = ground arith
conclude-IsSettled w job (raises xs other_exception) h e = ground arith

run_upload-IsSettled :
    (u : Bool) (w : World) (job : Job) (s : Step Finish) {b : Bool}
    → job.status ≡ running
    → (run_upload u w job s).returned ≡ some b
    → IsSettled w b (run_upload u w job s).job
run_upload-IsSettled true w job s {b} h e =
    left-holds (λ r. r.returned ≡ some b → IsSettled w b r.job) w.setup_raises job
      (conclude w job s) (λ k. cc) (λ k. conclude-IsSettled w job s h k) e
run_upload-IsSettled false w job s h e = ground arith

-- A run of a running job that returns, on whatever path, leaves the job completed, failed or canceled with
-- its finishing time, and returns True exactly for a completed job.
pub run_job_on_device-IsSettled :
    (loads : Text → Json) (job : Job) (port : DevicePort) (w : World) {b : Bool}
    → job.status ≡ running
    → (run_job_on_device loads job port w).returned ≡ some b
    → IsSettled w b (run_job_on_device loads job port w).job
unfolding run_job_on_device
run_job_on_device-IsSettled loads job port w {b} h e =
    let job' = record job { output_path = some w.output_path } in
    left-holds (λ r. r.returned ≡ some b → IsSettled w b r.job) w.mkdir_raises job
      (run_upload w.upload_exists w job' (body loads job' port w)) (λ k. cc)
      (λ k. run_upload-IsSettled w.upload_exists w job' (body loads job' port w) h k) e
