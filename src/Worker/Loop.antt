-- ===== src/Worker/Loop.antt =====
-- One turn of `worker_loop` of worker.py.
use retro_bridge.Prelude.{
  ℕ, Bool, true, false, not, ◌&&◌, Option, none, some, List, ◌==◌, if◌then◌else◌, Text,
}
use retro_bridge.Model.{
  Job, Device, DevicePort, User, Status, failed, is_finished, no_port_assigned, find,
}
use retro_bridge.Jobs.Table.{save}
use retro_bridge.Worker.Recover.{cancel_orphaned}
use retro_bridge.Worker.Claim.{Db, Claimer, is_device, claim_job}
use retro_bridge.Worker.Commands.{Json}
use retro_bridge.Worker.Run.{World, Ran, run_job_on_device}

-- What a turn meets: for which orphaned jobs the commit raises, whether that of the recovery does,
-- for which ports the database raises in the claim, whether the commit behind the run raises, and what
-- the run meets.
pub record Outside : Type 0 where
  pub orphan_fails : ℕ → Bool
  pub recovery_fails : Bool
  pub fails : ℕ → Bool
  pub claimer : Claimer
  pub world : World
  pub commit_fails : Bool
  pub users : List User

-- The table behind a turn, and the mail: to whom, about which status.
pub record Turned : Type 0 where
  pub jobs : List Job
  pub mail : Option (ℕ × Status)

abbrev pub has_port_id : ℕ → DevicePort → Bool
has_port_id k p = p.id == k

-- `job.port`
abbrev pub port_of : Option ℕ → List DevicePort → Option DevicePort
port_of none ports = none
port_of (some k) ports = find (has_port_id k) ports

abbrev pub notified : Option User → Job → Option (ℕ × Status)
notified none j = none
notified (some u) j =
    if u.email_notify_jobs && is_finished j.status then some (u.id, j.status) else none

abbrev pub unless_failed : Option Bool → Bool → Turned → List Job → Turned
unless_failed none raises t jobs = record { jobs = jobs; mail = none }
unless_failed (some _) true t jobs = record { jobs = jobs; mail = none }
unless_failed (some _) false t jobs = t

-- The flush of the job and the mail, unless the run has not ended or the commit raises.
abbrev pub finish : Outside → Ran → List Job → Turned
finish o ran jobs =
    unless_failed ran.returned o.commit_fails
      (record {
        jobs = save ran.job jobs;
        mail = notified (find (λ u. u.id == ran.job.user_id) o.users) ran.job;
      })
      jobs

module _ (loads : Text → Json) where
  abbrev pub run_on : Outside → Job → Option DevicePort → List Job → Turned
  run_on o job none jobs = record {
    jobs =
        save
          (record job {
            status = failed;
            error_message = some no_port_assigned;
            finished_at = some o.world.finish_time;
          })
          jobs;
    mail = none;
  }
  run_on o job (some port) jobs = finish o (run_job_on_device loads job port o.world) jobs

  abbrev pub run_claimed : Outside → List DevicePort → Option Job → List Job → Turned
  run_claimed o ports none jobs = record { jobs = jobs; mail = none }
  run_claimed o ports (some job) jobs = run_on o job (port_of job.port_id ports) jobs

  -- From the claim on, unless an exception has left the turn.
  abbrev pub claim_and_run : Outside → Text → Db → Bool → Turned
  claim_and_run o device_name db false = record { jobs = db.jobs; mail = none }
  claim_and_run o device_name db true =
      let c = claim_job o.fails o.claimer device_name db in run_claimed o db.ports c.job c.jobs

  abbrev pub turn_for : Outside → Text → Db → Option Device → Turned
  turn_for o device_name db none = record { jobs = db.jobs; mail = none }
  turn_for o device_name db (some d) =
      let (through, jobs) = cancel_orphaned o.orphan_fails d.id db.jobs in
      claim_and_run o device_name (record db { jobs = jobs }) (through && not o.recovery_fails)

  unfoldable pub turn : Outside → Text → Db → Turned
  turn o device_name db = turn_for o device_name db (find (is_device device_name) db.devices)
