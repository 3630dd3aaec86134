-- ===== src/Queue.antt =====
-- The job queue as a whole: the `jobs` table as the web workers, the admins and any number of worker.py
-- processes change it, one commit a step, in any order. `claim_job` is no step: its recovery is one,
-- and so is its statement for each port; of the orphaned jobs each is canceled in a step of its own.
-- What a step reads before it commits is taken as it is at the commit.
pub mod Limits
mod Later
pub mod History
mod Ports
pub mod Turns
pub mod Tests
use mathlib.Core.List.{Memᴰ}
use retro_bridge.Prelude.{ℕ, ◌≡◌, Bool, some, List, [], ◌∷◌, Text}
use retro_bridge.Model.{Job, Device, DevicePort, count}
use retro_bridge.Jobs.Table.{has_id, get_job, save}
use retro_bridge.Jobs.Cancel.{cancel_job, bulk_cancel_jobs}
use retro_bridge.Jobs.Create.{Request, created, create_job}
use retro_bridge.Worker.Recover.{recover_stale_jobs, send_heartbeat, cancel_orphan}
use retro_bridge.Worker.Claim.{Claimer, claim_on}
use retro_bridge.Worker.Commands.{Json}
use retro_bridge.Worker.Run.{World, run_job_on_device}

-- The devices and the ports are as they were configured, and stay so.
module _ (loads : Text → Json) (secure_filename : Text → Text) (ports : List DevicePort) where
  -- A committed change of the table. The row id of a new job is the database's, and is free. The
  -- last commit of a run is made on the row as it then is, whoever has changed it meanwhile.
  pub data Step : List Job → List Job → Type 0 where
    creates :
        {jobs jobs' : List Job} {j : Job} (r : Request)
        → count (has_id r.next_id) jobs ≡ 0
        → create_job secure_filename r jobs ≡ created j jobs'
        → Step jobs jobs'
    cancels :
        {jobs : List Job} (job_id user_id : ℕ) (is_admin : Bool)
        → Step jobs (cancel_job jobs job_id user_id is_admin).jobs
    cancels_many : {jobs : List Job} (ids : List ℕ) → Step jobs (bulk_cancel_jobs ids jobs).0
    cancels_orphan :
        {jobs : List Job} (device_id i : ℕ) → Step jobs (cancel_orphan device_id i jobs)
    recovers :
        {jobs : List Job} (device_id now : ℕ) → Step jobs (recover_stale_jobs device_id now jobs)
    claims :
        {jobs : List Job} (fails : ℕ → Bool) (c : Claimer) (device_id : ℕ) (port : DevicePort)
        → Memᴰ port ports
        → Step jobs (claim_on fails c device_id (port ∷ []) jobs).jobs
    beats :
        {jobs : List Job} (fails : Bool) (job_id now : ℕ)
        → Step jobs (send_heartbeat fails job_id now jobs)
    ends :
        {jobs : List Job} {j : Job} (i : ℕ) (port : DevicePort) (w : World)
        → get_job i jobs ≡ some j
        → Step jobs (save (run_job_on_device loads j port w).job jobs)

  pub data Steps : List Job → List Job → Type 0 where
    none_yet : {jobs : List Job} → Steps jobs jobs
    then_ : {a b c : List Job} → Steps a b → Step b c → Steps a c
