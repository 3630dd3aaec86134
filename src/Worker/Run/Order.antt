-- ===== src/Worker/Run/Order.antt =====
-- What a run of `run_job_on_device` sends to the device, and in which order.
use retro_bridge.Prelude.{
  ℕ, suc, ◌≡◌, ◌≢◌, refl, ap, ◌∙◌, Bool, true, false, Option, none, some, List, [], ◌∷◌, ◌++◌, map,
  arith, Text, append-nil,
}
use mathlib.Core.Path.{◌≡⟨◌⟩◌, ◌∎}
use retro_bridge.Model.{Job, DevicePort}
use retro_bridge.Worker.Commands.{
  Json, pre, post, resolve_newline_mode, resolve_cmds, apply_newline,
}
use retro_bridge.Worker.Capture.{End, Setup, capture}
use retro_bridge.Worker.Run.{
  Exc, Sent, command, file_transfer, Transfer, transferred, transfer_raises, World, Step, done,
  raises, sent_first, ◌>>◌, raise_if_some, check_cancelled, send_cmds, after_transfer, send_file,
  last_check, Finish, completes, cancelled_in_transfer, cancelled_at_end, transfer_failed,
  still_capturing, still_draining, Ran, left, is_drained, after_drain, setup_of, body, conclude,
  run_upload, run_job_on_device, serial_exception, job_cancelled, other_exception,
}

-- A sequence that is done: its first part was done, and then its second.
pub sent_first-done {ℓ} :
    {A : Type ℓ} (xs : List Sent) (s : Step A) {zs : List Sent} {a : A}
    → sent_first xs s ≡ done zs a
    → (ys : List Sent) × (s ≡ done ys a) × (zs ≡ xs ++ ys)
sent_first-done xs (done ys b) h = (ys, ground arith, ground arith)
sent_first-done xs (raises ys e) h = cc

pub >>-done :
    (m : Step (Unit {0})) (k : Step Finish) {zs : List Sent} {a : Finish}
    → (m >> k) ≡ done zs a
    → (xs ys : List Sent) × (m ≡ done xs tt) × (k ≡ done ys a) × (zs ≡ xs ++ ys)
>>-done (done xs u) k h = let (ys, e, f) = sent_first-done xs k h in (xs, ys, refl, e, f)
>>-done (raises xs e) k h = cc

-- The commands as they go out.
abbrev pub lines : Text → List Text → List Sent
lines mode = map (λ c. command (apply_newline c mode))

cmd_first-done :
    (o : Option Exc) (x : Sent) (s : Step (Unit {0})) (rest : List Sent) {xs : List Sent}
    → ((ys : List Sent) → s ≡ done ys tt → ys ≡ rest)
    → elim o as (λ _. Step (Unit {0})) [ some e ↦ raises [] e | none ↦ sent_first (x ∷ []) s ]
      ≡ done xs tt
    → xs ≡ x ∷ rest
cmd_first-done (some e) x s rest ih h = cc
cmd_first-done none x s rest ih h =
    let (ys, e, f) = sent_first-done (x ∷ []) s h in f ∙ ap (λ t. x ∷ t) (ih ys e)

send_cmds-done :
    (fails : ℕ → Option Exc) (mode : Text) (n : ℕ) (cmds : List Text) (xs : List Sent)
    → send_cmds fails mode n cmds ≡ done xs tt
    → xs ≡ lines mode cmds
send_cmds-done fails mode n [] xs h = ground arith
send_cmds-done fails mode n (c ∷ cmds) xs h =
    cmd_first-done (fails n) (command (apply_newline c mode)) (send_cmds fails mode (suc n) cmds)
      (lines mode cmds) (send_cmds-done fails mode (suc n) cmds) h

last_check-completes :
    (o : Option End) (c : Bool) {ys : List Sent}
    → last_check o c ≡ done ys completes
    → (ys ≡ []) × (c ≡ false) × (o ≢ none)
last_check-completes none c h = cc
last_check-completes (some e) true h = cc
last_check-completes (some e) false h = (ground arith, refl, (λ k. cc))

-- The part behind a transfer that went through, where it completes the job.
after_transfer-completes :
    (w : World) (mode : Text) (cmds : List Text) (setup : Setup) {xs : List Sent}
    → after_transfer w mode cmds setup ≡ done xs completes
    → (xs ≡ lines mode cmds) × (w.cancelled_last ≡ false) × ((capture setup w.turns).end ≢ none)
unfolding after_transfer
after_transfer-completes w mode cmds setup {xs} h =
    let end = last_check (capture setup w.turns).end w.cancelled_last in
    let (ys, zs, e, f, g) = >>-done (send_cmds w.post_raises mode 0 cmds) end h in
    let (none_left, kept, ended) =
      last_check-completes (capture setup w.turns).end w.cancelled_last f in
    let sent = send_cmds-done w.post_raises mode 0 cmds ys e in
    (
      g
          ∙ ap (λ t. t ++ zs) sent
          ∙ ap (λ t. lines mode cmds ++ t) none_left
          ∙ append-nil (lines mode cmds),
      kept,
      ended,
    )

send_file-completes :
    (t : Transfer) (rest : Step Finish) {xs : List Sent}
    → send_file t rest ≡ done xs completes
    → (t ≡ transferred true)
      × ((ys : List Sent) × (rest ≡ done ys completes) × (xs ≡ file_transfer ∷ ys))
unfolding send_file
send_file-completes (transferred true) rest h = (refl, sent_first-done (file_transfer ∷ []) rest h)
send_file-completes (transferred false) rest h = cc
send_file-completes (transfer_raises job_cancelled) rest h = cc
send_file-completes (transfer_raises serial_exception) rest h = cc
send_file-completes (transfer_raises other_exception) rest h = cc

-- What a completed run says about the world, and all that was sent.
pub record IsComplete (loads : Text → Json) (job : Job) (port : DevicePort) (w : World)
    (sent : List Sent) : Type 0 where
  pub not_cancelled_first : w.cancelled_first ≡ false
  pub opened : w.open_raises ≡ none
  pub drained : is_drained w.readings ≡ true
  pub file_went : w.transfer ≡ transferred true
  pub capture_ended : (capture (setup_of port w) w.turns).end ≢ none
  pub not_cancelled_last : w.cancelled_last ≡ false
  pub in_order :
      sent
      ≡ lines (resolve_newline_mode job port) (resolve_cmds loads job port pre)
        ++ (file_transfer
            ∷ lines (resolve_newline_mode job port) (resolve_cmds loads job port post))

check_cancelled-done :
    (c : Bool) {xs : List Sent} → check_cancelled c ≡ done xs tt → (c ≡ false) × (xs ≡ [])
check_cancelled-done true h = cc
check_cancelled-done false h = (refl, ground arith)

raise_if_some-done :
    (o : Option Exc) {xs : List Sent} → raise_if_some o ≡ done xs tt → (o ≡ none) × (xs ≡ [])
raise_if_some-done (some e) h = cc
raise_if_some-done none h = (refl, ground arith)

pub after_drain-done :
    (b : Bool) (rest : Step Finish) {xs : List Sent}
    → after_drain b rest ≡ done xs completes
    → (b ≡ true) × (rest ≡ done xs completes)
after_drain-done true rest h = (refl, h)
after_drain-done false rest h = cc

body-IsComplete :
    (loads : Text → Json) (job : Job) (port : DevicePort) (w : World) {xs : List Sent}
    → body loads job port w ≡ done xs completes
    → IsComplete loads job port w xs
unfolding body
body-IsComplete loads job port w {xs} h =
    let mode = resolve_newline_mode job port in
    let first = resolve_cmds loads job port pre in
    let last = resolve_cmds loads job port post in
    let after = after_transfer w mode last (setup_of port w) in
    let file = send_file w.transfer after in
    let cmds = send_cmds w.pre_raises mode 0 first in
    let rest = after_drain (is_drained w.readings) (cmds >> file) in
    let (x₁, y₁, e₁, f₁, g₁) =
      >>-done (check_cancelled w.cancelled_first) (raise_if_some w.open_raises >> rest) h in
    let (x₂, y₂, e₂, f₂, g₂) = >>-done (raise_if_some w.open_raises) rest f₁ in
    let quiet = after_drain-done (is_drained w.readings) (cmds >> file) f₂ in
    let (x₃, y₃, e₃, f₃, g₃) = >>-done cmds file quiet.1 in
    let (sent, behind) = send_file-completes w.transfer after f₃ in
    let (tail, kept, ended) = after_transfer-completes w mode last (setup_of port w) behind.1 in
    let (free, none₁) = check_cancelled-done w.cancelled_first e₁ in
    let (open_, none₂) = raise_if_some-done w.open_raises e₂ in
    let head = send_cmds-done w.pre_raises mode 0 first x₃ e₃ in
    record {
      not_cancelled_first = free;
      opened = open_;
      drained = quiet.0;
      file_went = sent;
      capture_ended = ended;
      not_cancelled_last = kept;
      in_order =
          xs
          ≡⟨ g₁ ∙ ap (λ t. t ++ y₁) none₁ ⟩ y₁
          ≡⟨ g₂ ∙ ap (λ t. t ++ y₂) none₂ ⟩ y₂
          ≡⟨ g₃ ∙ ap (λ t. t ++ y₃) head ⟩ lines mode first ++ y₃
          ≡⟨ ap (λ t. lines mode first ++ t) (behind.2 ∙ ap (λ t. file_transfer ∷ t) tail) ⟩
            lines mode first ++ (file_transfer ∷ lines mode last) ∎;
    }

conclude-true :
    (w : World) (job : Job) (s : Step Finish)
    → (conclude w job s).returned ≡ some true
    → s ≡ done (conclude w job s).sent completes
conclude-true w job (done xs completes) h = refl
conclude-true w job (done xs cancelled_at_end) h = cc
conclude-true w job (done xs cancelled_in_transfer) h = cc
conclude-true w job (done xs transfer_failed) h = cc
conclude-true w job (done xs still_capturing) h = cc
conclude-true w job (done xs still_draining) h = cc
conclude-true w job (raises xs serial_exception) h = cc
conclude-true w job (raises xs job_cancelled) h = cc
conclude-true w job (raises xs other_exception) h = cc

run_upload-true :
    (loads : Text → Json) (u : Bool) (w : World) (job : Job) (port : DevicePort)
    → (run_upload u w job (body loads job port w)).returned ≡ some true
    → (u ≡ true) × IsComplete loads job port w (run_upload u w job (body loads job port w)).sent
run_upload-true loads true w job port h = run_left w.setup_raises h
  where
    run_left :
        (b : Bool)
        → (left b job (conclude w job (body loads job port w))).returned ≡ some true
        → (true ≡ true)
          × IsComplete loads job port w (left b job (conclude w job (body loads job port w))).sent
    run_left true k = cc
    run_left false k =
        (refl, body-IsComplete loads job port w (conclude-true w job (body loads job port w) k))
run_upload-true loads false w job port h = cc

-- A run that returns True had its upload, found no cancellation at either end, opened and drained the
-- port, and saw the transfer go through and the capture end; and it sent, in this order and nothing else, the
-- pre-transfer commands, the file and the post-transfer commands, each command with its line ending.
pub run_job_on_device-IsComplete :
    (loads : Text → Json) (job : Job) (port : DevicePort) (w : World)
    → (run_job_on_device loads job port w).returned ≡ some true
    → (w.upload_exists ≡ true)
      × IsComplete loads
          (record job { output_path = some w.output_path })
          port
          w
          (run_job_on_device loads job port w).sent
unfolding run_job_on_device
run_job_on_device-IsComplete loads job port w h = run_left w.mkdir_raises h
  where
    job' : Job
    job' = record job { output_path = some w.output_path }

    ran : Ran
    ran = run_upload w.upload_exists w job' (body loads job' port w)

    run_left :
        (b : Bool)
        → (left b job ran).returned ≡ some true
        → (w.upload_exists ≡ true) × IsComplete loads job' port w (left b job ran).sent
    run_left true k = cc
    run_left false k = run_upload-true loads w.upload_exists w job' port k
