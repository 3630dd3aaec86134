-- ===== src/Transport/Socket.antt =====
-- `class _SocketWrapper` of retrobridge/transport.py. The socket is outside: each call is given what
-- `select` and `recv` or `sendall` do. `_sock`, `_name` and `fd` are fixed by the constructor and
-- are left out. A `read` is asked for a number of bytes that is not negative.
pub mod Invariant
pub mod Stream
use retro_bridge.Prelude.{
  ℕ, ◌+◌, ◌-◌, Bool, true, false, not, Option, none, some, List, [], ◌∷◌, ◌++◌, leb, length, take,
  drop, if◌then◌else◌,
}

pub record Wrapper : Type 0 where
  pub buf : List ℕ
  pub eof : Bool
  pub open_ : Bool
  pub is_open : Bool

-- `__init__`
unfoldable pub new : Wrapper
new = record { buf = []; eof = false; open_ = true; is_open = true }

-- `recv`: bytes (none at the end of the stream), BlockingIOError, or another OSError.
pub data Recv : Type 0 where
  chunk : List ℕ → Recv
  would_block : Recv
  recv_failed : Recv

-- What `select` and, where it reports the socket as readable, `recv` do.
pub data Io : Type 0 where
  idle : Io
  readable : Recv → Io
  select_os_error : Io
  select_value_error : Io

-- What a call returns or raises. `read` does not catch a ValueError of `select`.
pub data Result (A : Type 0) : Type 0 where
  ok : A → Result A
  serial_exception : Result A
  value_error : Result A

-- `_raise_closed`
abbrev pub raise_closed : {A : Type 0} → Wrapper → Result A × Wrapper
raise_closed w = (serial_exception, record w { eof = true; open_ = false; is_open = false })

-- `in_waiting`, once the buffer is known to be empty and the stream not to have ended
fill : Io → Wrapper → Result ℕ × Wrapper
fill idle w = (ok 0, w)
fill (readable (chunk [])) w = raise_closed w
fill (readable (chunk (b ∷ c))) w =
    let buf' = w.buf ++ b ∷ c in (ok (length buf'), record w { buf = buf' })
fill (readable would_block) w = (ok 0, w)
fill (readable recv_failed) w = raise_closed w
fill select_os_error w = raise_closed w
fill select_value_error w = raise_closed w

abbrev pub is_empty {ℓ} : {A : Type ℓ} → List A → Bool
is_empty [] = true
is_empty (_ ∷ _) = false

unfoldable pub in_waiting : Io → Wrapper → Result ℕ × Wrapper
unfolding fill
in_waiting io w =
    if not (is_empty w.buf)
    then (ok (length w.buf), w)
    else if w.eof
    then raise_closed w
    else fill io w

-- The part of `read` behind the buffer: `got` is what the buffer gave.
top_up : Io → List ℕ → Wrapper → Result (List ℕ) × Wrapper
top_up idle got w = (ok got, w)
top_up (readable (chunk (b ∷ c))) got w = (ok (got ++ b ∷ c), w)
top_up (readable (chunk [])) [] w = raise_closed w
top_up (readable (chunk [])) (g ∷ got) w = (ok (g ∷ got), record w { eof = true })
top_up (readable would_block) got w = (ok got, w)
top_up (readable recv_failed) got w = raise_closed w
top_up select_os_error got w = raise_closed w
top_up select_value_error got w = (value_error, w)

-- `read(size)`; the outcome `io` is that of `recv` for the bytes still missing.
unfoldable pub read : ℕ → Io → Wrapper → Result (List ℕ) × Wrapper
unfolding top_up
read size io w =
    if w.eof
    then raise_closed w
    else if is_empty w.buf
    then top_up io [] w
    else let got = take size w.buf in
      let w' = record w { buf = drop (length got) w.buf } in
      if leb size (length got) then (ok got, w') else top_up io got w'

-- `write(data)`; `sent` says whether `sendall` went through.
unfoldable pub write : List ℕ → Bool → Wrapper → Result ℕ × Wrapper
write bytes sent w =
    if w.eof then raise_closed w else if sent then (ok (length bytes), w) else raise_closed w

-- `close()`; errors of `shutdown` and `close` are dropped.
unfoldable pub close : Wrapper → Wrapper
close w = if w.open_ then record w { open_ = false; is_open = false } else w

pub data Call : Type 0 where
  in_waiting_call : Io → Call
  read_call : ℕ → Io → Call
  write_call : List ℕ → Bool → Call
  close_call : Call

-- What a call did, with the bytes that `read` hands out.
pub data Outcome : Type 0 where
  returned : List ℕ → Outcome
  raised : Outcome

abbrev pub ended : {A : Type 0} → (A → List ℕ) → Result A → Outcome
ended f (ok a) = returned (f a)
ended f serial_exception = raised
ended f value_error = raised

unfoldable pub call : Call → Wrapper → Outcome × Wrapper
unfolding in_waiting read write close
call (in_waiting_call io) w = let (r, w') = in_waiting io w in (ended (λ _. []) r, w')
call (read_call size io) w = let (r, w') = read size io w in (ended (λ d. d) r, w')
call (write_call bytes sent) w = let (r, w') = write bytes sent w in (ended (λ _. []) r, w')
call close_call w = (returned [], close w)
