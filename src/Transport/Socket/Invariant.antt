-- ===== src/Transport/Socket/Invariant.antt =====
-- The flags of a `_SocketWrapper`: they agree, and the end of the stream is final.
use retro_bridge.Prelude.{
  ℕ, ◌≡◌, ◌⊎◌, Bool, true, false, List, [], ◌∷◌, arith, drop-length-take_short,
}
use retro_bridge.Transport.Socket.{
  Wrapper, new, Io, read, Call, in_waiting_call, read_call, write_call, close_call, Outcome, raised,
  call,
}

-- The two open flags agree, and once the end of the stream is known, an open wrapper has no bytes
-- left.
pub record IsValid (w : Wrapper) : Type 0 where
  pub flags_agree : w.open_ ≡ w.is_open
  pub drained : w.eof ≡ true → (w.buf ≡ []) ⊎ (w.is_open ≡ false)

pub new-IsValid : IsValid new
unfolding new
new-IsValid = ground arith

read-IsValid : (size : ℕ) (io : Io) (w : Wrapper) → IsValid w → IsValid (read size io w).1
unfolding read
read-IsValid size io w h = ground (arith, drop-length-take_short size w.buf)

-- Every call, whatever the socket does, keeps the invariant.
pub call-IsValid : (c : Call) (w : Wrapper) → IsValid w → IsValid (call c w).1
unfolding call
call-IsValid (in_waiting_call io) w h = ground arith
call-IsValid (read_call size io) w h = read-IsValid size io w h
call-IsValid (write_call bytes sent) w h = ground arith
call-IsValid close_call w h = ground arith

-- `run`: a sequence of calls, also behind a raised exception; the bytes handed out, in order.
abbrev pub run : List Call → Wrapper → List Outcome × Wrapper
run [] w = ([], w)
run (c ∷ cs) w = let (o, w') = call c w in let (os, w'') = run cs w' in (o ∷ os, w'')

abbrev is_close : Call → Bool
is_close close_call = true
is_close _ = false

call-closed :
    (c : Call) (w : Wrapper)
    → w.eof ≡ true
    → w.buf ≡ []
    → ((call c w).1.eof ≡ true)
      × ((call c w).1.buf ≡ [])
      × ((is_close c ≡ true) ⊎ ((call c w).0 ≡ raised) × ((call c w).1.is_open ≡ false))
unfolding call
call-closed (in_waiting_call io) w h k = ground arith
call-closed (read_call size io) w h k = ground arith
call-closed (write_call bytes sent) w h k = ground arith
call-closed close_call w h k = ground arith

abbrev pub AllRaise : List Call → List Outcome → Type 0
AllRaise [] os = Unit
AllRaise (c ∷ cs) [] = ⊥
AllRaise (c ∷ cs) (o ∷ os) = ((is_close c ≡ true) ⊎ (o ≡ raised)) × AllRaise cs os

-- Behind the end of the stream, with the buffer read empty, every later `in_waiting`, `read` and
-- `write` raises, in any order and whatever the socket does, and no byte is handed out.
pub run-eof : (cs : List Call) (w : Wrapper) → w.eof ≡ true → w.buf ≡ [] → AllRaise cs (run cs w).0
run-eof [] w h k = tt
run-eof (c ∷ cs) w h k =
    let f = call-closed c w h k in (ground arith, run-eof cs (call c w).1 f.0 f.1)
