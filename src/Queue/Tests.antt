-- ===== src/Queue/Tests.antt =====
-- The queue on a job that is created and claimed, and on one whose cancellation was requested.
use mathlib.Core.List.{Memᴰ}
use retro_bridge.Prelude.{◌≡◌, refl, true, false, some, List, [], ◌∷◌, codes}
use retro_bridge.Model.{Job, running}
use retro_bridge.Jobs.Create.{created, new_job, create_job}
use retro_bridge.Jobs.Tests.{request, centurion}
use retro_bridge.Jobs.Upload.{
  validate_file_content, extension, check_header, signature_of, check_text, has_replacement,
}
use retro_bridge.Jobs.Quota.{get_user_quota, check_rate_limit, max_jobs, get_tier_limits}
use retro_bridge.Jobs.Cancel.{cancel_job}
use retro_bridge.Worker.Recover.{recover_stale_jobs}
use retro_bridge.Worker.Claim.{claim_on}
use retro_bridge.Worker.Claim.Limit.{IsTable}
use retro_bridge.Worker.Tests.{row, jobs, port, claimer, world, limits, loads, jobs-IsTable}
use retro_bridge.Queue.{Steps, creates, cancels, recovers, claims, none_yet, then_}
use retro_bridge.Queue.Limits.{Steps-IsTable}
use retro_bridge.Queue.Later.{Keeps}
use retro_bridge.Queue.History.{Steps-Keeps}
use retro_bridge.Queue.Turns.{turn-Steps}
use retro_bridge.Worker.Loop.{Outside, turn}

abbrev first : List Job
first = new_job request (codes "b.txt") ∷ []

creates_first : create_job (λ s. s) request [] ≡ created (new_job request (codes "b.txt")) first
unfolding create_job validate_file_content extension check_header signature_of check_text
    has_replacement get_user_quota check_rate_limit max_jobs get_tier_limits new_job
creates_first = refl

abbrev claimed_jobs : List Job
claimed_jobs = (claim_on (λ p. false) claimer 1 (port ∷ []) first).jobs

create_and_claim : Steps loads (λ s. s) (port ∷ []) [] claimed_jobs
create_and_claim =
    then_ (then_ none_yet (creates request refl creates_first))
      (claims (λ p. false) claimer 1 port (Memᴰ.head refl))

Steps-IsTable_example : IsTable limits claimed_jobs
Steps-IsTable_example = Steps-IsTable loads (λ s. s) (port ∷ []) limits (refl, tt) create_and_claim

abbrev after_request : List Job
after_request = (cancel_job jobs 1 9 true).jobs

request_and_recover : Steps loads (λ s. s) (port ∷ []) jobs (recover_stale_jobs 1 500 after_request)
request_and_recover = then_ (then_ none_yet (cancels 1 9 true)) (recovers 1 500)

Steps-Keeps_example :
    IsTable limits (recover_stale_jobs 1 500 after_request)
    × Keeps 1 (row 1 running 0 (some 5) (some 100)) (recover_stale_jobs 1 500 after_request)
Steps-Keeps_example =
    Steps-Keeps loads (λ s. s) (port ∷ []) limits 1 (refl, tt) jobs-IsTable request_and_recover refl

abbrev outside : Outside
outside = record {
  orphan_fails = λ i. false;
  recovery_fails = false;
  fails = λ p. false;
  claimer = claimer;
  world = world;
  commit_fails = false;
  users = [];
}

turn-Steps_example :
    Steps loads
      (λ s. s)
      (port ∷ [])
      first
      (turn loads outside
        (codes "centurion")
        (record { devices = centurion ∷ []; ports = port ∷ []; jobs = first })).jobs
turn-Steps_example =
    turn-Steps loads (λ s. s) (port ∷ []) outside (codes "centurion") (centurion ∷ []) first
