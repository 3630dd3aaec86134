-- ===== src/Worker/Run/Total.antt =====
-- A run of `run_job_on_device` returns.
use retro_bridge.Prelude.{
  ◌≡◌, ◌≢◌, ◌⊎◌, inl, inr, refl, Bool, true, false, Option, none, some, List, [], ◌∷◌, Text,
}
use retro_bridge.Model.{Job, DevicePort}
use retro_bridge.Worker.Commands.{Json, pre, post, resolve_newline_mode, resolve_cmds}
use retro_bridge.Worker.Capture.{End, capture}
use retro_bridge.Worker.Capture.Laws.{HasLateTurn, capture-ends}
use retro_bridge.Worker.Run.{
  Sent, file_transfer, Transfer, transferred, transfer_raises, World, Step, done, raises, ◌>>◌,
  raise_if_some, check_cancelled, send_cmds, after_transfer, send_file, last_check, Finish,
  completes, cancelled_in_transfer, cancelled_at_end, transfer_failed, still_capturing,
  still_draining, is_drained, after_drain, Ran, left, sent_first, setup_of, body, conclude,
  run_upload, run_job_on_device, serial_exception, job_cancelled, other_exception,
}

-- How a body goes on for ever: one of its two loops does.
abbrev IsStill : Step Finish → Type 0
IsStill s = (xs : List Sent) × ((s ≡ done xs still_capturing) ⊎ (s ≡ done xs still_draining))

sent_first-IsStill : (xs : List Sent) (s : Step Finish) → IsStill (sent_first xs s) → IsStill s
sent_first-IsStill xs (done ys still_capturing) h = (ys, inl refl)
sent_first-IsStill xs (done ys still_draining) h = (ys, inr refl)
sent_first-IsStill xs (done ys completes) (zs, inl e) = cc
sent_first-IsStill xs (done ys completes) (zs, inr e) = cc
sent_first-IsStill xs (done ys cancelled_in_transfer) (zs, inl e) = cc
sent_first-IsStill xs (done ys cancelled_in_transfer) (zs, inr e) = cc
sent_first-IsStill xs (done ys cancelled_at_end) (zs, inl e) = cc
sent_first-IsStill xs (done ys cancelled_at_end) (zs, inr e) = cc
sent_first-IsStill xs (done ys transfer_failed) (zs, inl e) = cc
sent_first-IsStill xs (done ys transfer_failed) (zs, inr e) = cc
sent_first-IsStill xs (raises ys x) (zs, inl e) = cc
sent_first-IsStill xs (raises ys x) (zs, inr e) = cc

>>-IsStill : (m : Step (Unit {0})) (k : Step Finish) → IsStill (m >> k) → IsStill k
>>-IsStill (done xs u) k h = sent_first-IsStill xs k h
>>-IsStill (raises xs e) k (zs, inl h) = cc
>>-IsStill (raises xs e) k (zs, inr h) = cc

last_check-still : (o : Option End) (c : Bool) → IsStill (last_check o c) → o ≡ none
last_check-still none c h = refl
last_check-still (some e) true (zs, inl h) = cc
last_check-still (some e) true (zs, inr h) = cc
last_check-still (some e) false (zs, inl h) = cc
last_check-still (some e) false (zs, inr h) = cc

send_file-IsStill : (t : Transfer) (rest : Step Finish) → IsStill (send_file t rest) → IsStill rest
unfolding send_file
send_file-IsStill (transferred true) rest h = sent_first-IsStill (file_transfer ∷ []) rest h
send_file-IsStill (transferred false) rest (zs, inl h) = cc
send_file-IsStill (transferred false) rest (zs, inr h) = cc
send_file-IsStill (transfer_raises job_cancelled) rest (zs, inl h) = cc
send_file-IsStill (transfer_raises job_cancelled) rest (zs, inr h) = cc
send_file-IsStill (transfer_raises serial_exception) rest (zs, inl h) = cc
send_file-IsStill (transfer_raises serial_exception) rest (zs, inr h) = cc
send_file-IsStill (transfer_raises other_exception) rest (zs, inl h) = cc
send_file-IsStill (transfer_raises other_exception) rest (zs, inr h) = cc

after_drain-IsStill :
    (b : Bool) (rest : Step Finish) → b ≡ true → IsStill (after_drain b rest) → IsStill rest
after_drain-IsStill true rest e h = h
after_drain-IsStill false rest e h = cc

-- The body goes on for ever only where the port is never drained or the capture loop has not ended.
body-still :
    (loads : Text → Json) (job : Job) (port : DevicePort) (w : World)
    → is_drained w.readings ≡ true
    → IsStill (body loads job port w)
    → (capture (setup_of port w) w.turns).end ≡ none
unfolding body after_transfer
body-still loads job port w quiet h =
    let mode = resolve_newline_mode job port in
    let end = last_check (capture (setup_of port w) w.turns).end w.cancelled_last in
    let last = send_cmds w.post_raises mode 0 (resolve_cmds loads job port post) in
    let file = send_file w.transfer (last >> end) in
    let cmds = send_cmds w.pre_raises mode 0 (resolve_cmds loads job port pre) in
    let rest = after_drain (is_drained w.readings) (cmds >> file) in
    let a =
      >>-IsStill (check_cancelled w.cancelled_first) (raise_if_some w.open_raises >> rest) h in
    let b = >>-IsStill (raise_if_some w.open_raises) rest a in
    let c = after_drain-IsStill (is_drained w.readings) (cmds >> file) quiet b in
    let d = send_file-IsStill w.transfer (last >> end) (>>-IsStill cmds file c) in
    last_check-still (capture (setup_of port w) w.turns).end w.cancelled_last
      (>>-IsStill last end d)

conclude-none :
    (w : World) (job : Job) (s : Step Finish) → (conclude w job s).returned ≡ none → IsStill s
conclude-none w job (done xs completes) h = cc
conclude-none w job (done xs cancelled_at_end) h = cc
conclude-none w job (done xs cancelled_in_transfer) h = cc
conclude-none w job (done xs transfer_failed) h = cc
conclude-none w job (done xs still_capturing) h = (xs, inl refl)
conclude-none w job (done xs still_draining) h = (xs, inr refl)
conclude-none w job (raises xs serial_exception) h = cc
conclude-none w job (raises xs job_cancelled) h = cc
conclude-none w job (raises xs other_exception) h = cc

left-none :
    (b : Bool) (job : Job) (ran : Ran)
    → b ≡ false
    → (left b job ran).returned ≡ none
    → ran.returned ≡ none
left-none true job ran e h = cc
left-none false job ran e h = h

run_upload-none :
    (loads : Text → Json) (u : Bool) (w : World) (job : Job) (port : DevicePort)
    → w.setup_raises ≡ false
    → is_drained w.readings ≡ true
    → (run_upload u w job (body loads job port w)).returned ≡ none
    → (capture (setup_of port w) w.turns).end ≡ none
run_upload-none loads true w job port set quiet h = body-still loads job port w quiet (
    conclude-none w job (body loads job port w)
      (left-none w.setup_raises job (conclude w job (body loads job port w)) set h))
run_upload-none loads false w job port set quiet h = cc

-- Where making the directory, reading the serial parameters and opening the session raise nothing, and
-- the port is once found silent or fails before the commands, and where each write to the port and the
-- modem's transfer come back, with or without an exception: a run returns as soon as its capture loop
-- would see the maximum runtime exceeded.
pub run_job_on_device-returns :
    (loads : Text → Json) (job : Job) (port : DevicePort) (w : World)
    → w.mkdir_raises ≡ false
    → w.setup_raises ≡ false
    → is_drained w.readings ≡ true
    → HasLateTurn (setup_of port w) w.turns
    → (run_job_on_device loads job port w).returned ≢ none
unfolding run_job_on_device
run_job_on_device-returns loads job port w made set quiet late h =
    (capture-ends (setup_of port w) w.turns late).0 (
      run_upload-none loads w.upload_exists w job' port set quiet (
        left-none w.mkdir_raises job (run_upload w.upload_exists w job' (body loads job' port w))
          made h))
  where
    job' : Job
    job' = record job { output_path = some w.output_path }
