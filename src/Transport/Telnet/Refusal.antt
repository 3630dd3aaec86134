-- ===== src/Transport/Telnet/Refusal.antt =====
-- The telnet client refuses every option: what `_telnet_negotiate` sends and returns.
use retro_bridge.Prelude.{ℕ, Bool, true, false, List, [], ◌∷◌, arith, All, All-append}
use retro_bridge.Transport.Telnet.{
  iac, wont, dont, Scan, done, answer, scan, command, option, skip, skip_next, resume, scan_chunk,
  received, failed, Poll, poll, poll_all, telnet_negotiate,
}

-- IAC DONT opt, or IAC WONT opt.
pub data IsRefusal : List ℕ → Type 0 where
  refuse_will : (opt : ℕ) → IsRefusal (iac ∷ dont ∷ opt ∷ [])
  refuse_do : (opt : ℕ) → IsRefusal (iac ∷ wont ∷ opt ∷ [])

abbrev Refuses : Scan → Type 0
Refuses r = All IsRefusal r.sent

answer-Refuses : (cmd opt : ℕ) (r : Scan) → Refuses r → Refuses (answer cmd opt r)
answer-Refuses cmd opt r h = grind (arith, refuse_will opt, refuse_do opt)

mutual
  unfolding scan

  scan-Refuses : (t : List ℕ) → Refuses (scan t)
  scan-Refuses [] = tt
  scan-Refuses (b ∷ t) = ground (arith, command-Refuses t, scan-Refuses t)

  command-Refuses : (t : List ℕ) → Refuses (command t)
  command-Refuses [] = tt
  command-Refuses (c ∷ t) = ground (arith, option-Refuses c t, skip-Refuses t, scan-Refuses t)

  option-Refuses : (c : ℕ) (t : List ℕ) → Refuses (option c t)
  option-Refuses c [] = answer-Refuses c 0 (done false) tt
  option-Refuses c (o ∷ t) = answer-Refuses c o (scan t) (scan-Refuses t)

  skip-Refuses : (t : List ℕ) → Refuses (skip t)
  skip-Refuses [] = tt
  skip-Refuses (b ∷ t) = skip_next-Refuses b t

  skip_next-Refuses : (b : ℕ) (t : List ℕ) → Refuses (skip_next b t)
  skip_next-Refuses b [] = tt
  skip_next-Refuses b (c ∷ t) = ground (arith, scan-Refuses t, skip_next-Refuses c t)

resume-Refuses : (t : List ℕ) → Refuses (resume t)
unfolding resume
resume-Refuses [] = tt
resume-Refuses (b ∷ t) = ground (arith, option-Refuses b t, skip-Refuses t, scan-Refuses t)

scan_chunk-Refuses : (p : Bool) (t : List ℕ) → Refuses (scan_chunk p t)
unfolding scan_chunk
scan_chunk-Refuses true t = resume-Refuses t
scan_chunk-Refuses false t = scan-Refuses t

poll_all-Refuses : (p : Bool) (ps : List Poll) → Refuses (poll_all p ps)
unfolding poll_all
poll_all-Refuses p [] = tt
poll_all-Refuses p (poll ready failed ∷ ps) = tt
poll_all-Refuses p (poll ready (received []) ∷ ps) = tt
poll_all-Refuses p (poll true (received (b ∷ t)) ∷ ps) =
    let r = scan_chunk p (b ∷ t) in
    All-append IsRefusal r.sent (poll_all r.pending ps).sent (scan_chunk-Refuses p (b ∷ t))
      (poll_all-Refuses r.pending ps)
poll_all-Refuses true (poll false (received (b ∷ t)) ∷ ps) =
    let r = scan_chunk true (b ∷ t) in
    All-append IsRefusal r.sent (poll_all r.pending ps).sent (scan_chunk-Refuses true (b ∷ t))
      (poll_all-Refuses r.pending ps)
poll_all-Refuses false (poll false (received (b ∷ t)) ∷ ps) = tt

-- Whatever the peer sends, in whatever chunks, every answer is an IAC DONT or an IAC WONT with one
-- option byte: the client agrees to no option.
pub telnet_negotiate-refuses : (ps : List Poll) → All IsRefusal (telnet_negotiate ps).1
unfolding telnet_negotiate
telnet_negotiate-refuses ps = poll_all-Refuses false ps
