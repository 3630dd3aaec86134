-- ===== src/Transport/Telnet.antt =====
-- `_telnet_negotiate` of retrobridge/transport.py. The index `i` into a received chunk is the part
-- of the chunk that is left; `out` and the bytes sent are what the rest of the run still adds.
pub mod Refusal
pub mod Render
pub mod Chunks
use retro_bridge.Prelude.{
  ℕ, Bool, true, false, not, ◌&&◌, ◌||◌, List, [], ◌∷◌, ◌++◌, ◌==◌, if◌then◌else◌,
}

abbrev pub iac : ℕ
iac = 255

abbrev pub will : ℕ
will = 251

abbrev pub wont : ℕ
wont = 252

abbrev pub do_ : ℕ
do_ = 253

abbrev pub dont : ℕ
dont = 254

abbrev pub sb : ℕ
sb = 250

abbrev pub se : ℕ
se = 240

-- What a run leaves behind: the real data, the `sendall` calls in order, and `pending_iac`.
pub record Scan : Type 0 where
  pub out : List ℕ
  pub sent : List (List ℕ)
  pub pending : Bool

abbrev pub done : Bool → Scan
done p = record { out = []; sent = []; pending = p }

-- `out.append(b)`
abbrev pub emit : ℕ → Scan → Scan
emit b r = record r { out = b ∷ r.out }

abbrev pub is_option : ℕ → Bool
is_option c = c == will || c == wont || c == do_ || c == dont

-- A WILL is answered by DONT and a DO by WONT; WONT and DONT get no answer.
abbrev pub answer : ℕ → ℕ → Scan → Scan
answer cmd opt r =
    if cmd == will
    then record r { sent = (iac ∷ dont ∷ opt ∷ []) ∷ r.sent }
    else if cmd == do_
    then record r { sent = (iac ∷ wont ∷ opt ∷ []) ∷ r.sent }
    else r

unfoldable mutual
  -- The `while i < len(data)` loop with no IAC pending.
  pub scan : List ℕ → Scan
  scan [] = done false
  scan (b ∷ t) = elim (b == iac) [ true ↦ command t | false ↦ emit b (scan t) ]

  -- What follows an IAC of the same chunk.
  pub command : List ℕ → Scan
  command [] = done true
  command (cmd ∷ t) = elim (is_option cmd) [
    | true ↦ option cmd t
    | false ↦ elim (cmd == sb) [
      | true ↦ skip t
      | false ↦ elim (cmd == iac) [ true ↦ emit iac (scan t) | false ↦ scan t ]
    ]
  ]

  -- The option byte reads as 0 where the chunk ends before it.
  pub option : ℕ → List ℕ → Scan
  option cmd [] = answer cmd 0 (done false)
  option cmd (opt ∷ t) = answer cmd opt (scan t)

  -- The inner loop that drops a subnegotiation up to its IAC SE, or to the end of the chunk.
  pub skip : List ℕ → Scan
  skip [] = done false
  skip (b ∷ t) = skip_next b t

  pub skip_next : ℕ → List ℕ → Scan
  skip_next b [] = done false
  skip_next b (c ∷ t) = elim (b == iac && c == se) [ true ↦ scan t | false ↦ skip_next c t ]

-- The first turn of the loop where the chunk before ended with a lone IAC.
unfoldable pub resume : List ℕ → Scan
unfolding scan
resume [] = done true
resume (b ∷ t) =
    if b == iac
    then emit iac (scan t)
    else if is_option b
    then option b t
    else if b == sb
    then skip t
    else scan t

unfoldable pub scan_chunk : Bool → List ℕ → Scan
unfolding resume
scan_chunk pending chunk = if pending then resume chunk else scan chunk

-- What `sock.recv` does: bytes (none where the peer has closed), or an OSError.
pub data Recv : Type 0 where
  received : List ℕ → Recv
  failed : Recv

-- One turn of the outer loop: whether `select` found the socket readable, and what `recv` does.
pub data Poll : Type 0 where
  poll : Bool → Recv → Poll

abbrev pub followed_by : Scan → Scan → Scan
followed_by r s = record s { out = r.out ++ s.out; sent = r.sent ++ s.sent }

-- The outer loop over the polls that the deadline leaves time for. A failed or empty `recv` ends it.
unfoldable pub poll_all : Bool → List Poll → Scan
unfolding scan_chunk
poll_all pending [] = done pending
poll_all pending (poll ready failed ∷ ps) = done pending
poll_all pending (poll ready (received []) ∷ ps) = done pending
poll_all pending (poll ready (received (b ∷ t)) ∷ ps) = elim (not ready && not pending) [
  | true ↦ done pending
  | false ↦ let r = scan_chunk pending (b ∷ t) in followed_by r (poll_all r.pending ps)
]

-- `_telnet_negotiate`: the data that is returned, and the answers that were sent.
unfoldable pub telnet_negotiate : List Poll → List ℕ × List (List ℕ)
unfolding poll_all
telnet_negotiate polls = let r = poll_all false polls in (r.out, r.sent)
