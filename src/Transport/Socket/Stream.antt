-- ===== src/Transport/Socket/Stream.antt =====
-- A `_SocketWrapper` loses no byte and keeps their order: what `read` hands out is what the socket
-- gave.
use retro_bridge.Prelude.{
  ℕ, ◌+◌, ◌≡◌, refl, sym, ap, ◌∙◌, Option, none, some, List, [], ◌∷◌, ◌++◌, arith, append_assoc,
  append-nil, length, length-append, take, drop, take-append-drop-length, drop-length-take_short,
  leb, if◌then◌else◌,
}
use mathlib.Core.Path.{◌≡⟨◌⟩◌, ◌∎}
use retro_bridge.Transport.Socket.{
  Wrapper, chunk, would_block, recv_failed, Io, idle, readable, select_os_error, select_value_error,
  Result, ok, serial_exception, value_error, is_empty, in_waiting, read, write, Call,
  in_waiting_call, read_call, write_call, close_call, top_up, Outcome, returned, raised, ended,
  call,
}

returned-injective : {a b : List ℕ} → returned a ≡ returned b → a ≡ b
returned-injective h = cc

-- The bytes that `recv` gives, if it is called.
abbrev pub received : Io → List ℕ
received (readable (chunk c)) = c
received _ = []

-- The bytes that a call takes from the socket: `in_waiting` asks only when the buffer is empty, and
-- `read` only when the buffer holds too few.
abbrev pub taken : Call → Wrapper → List ℕ
taken (in_waiting_call io) w = if is_empty w.buf then received io else []
taken (read_call size io) w =
    if is_empty w.buf
    then received io
    else if leb size (length (take size w.buf))
    then []
    else received io
taken (write_call bytes sent) w = []
taken close_call w = []

top_up-ok :
    (io : Io) (got : List ℕ) (w : Wrapper) {d : List ℕ}
    → (top_up io got w).0 ≡ ok d
    → (d ≡ got ++ received io) × ((top_up io got w).1.buf ≡ w.buf)
unfolding top_up
top_up-ok idle got w h = (cc (append-nil got), refl)
top_up-ok (readable (chunk (b ∷ c))) got w h = (cc, refl)
top_up-ok (readable (chunk [])) [] w h = cc
top_up-ok (readable (chunk [])) (g ∷ got) w h = (cc (append-nil (g ∷ got)), refl)
top_up-ok (readable would_block) got w h = (cc (append-nil got), refl)
top_up-ok (readable recv_failed) got w h = cc
top_up-ok select_os_error got w h = cc
top_up-ok select_value_error got w h = cc

-- A `read` that returns splits what was buffered and what came in into the bytes that it hands out
-- and the bytes that stay buffered.
read-Stream :
    (size : ℕ) (io : Io) (w : Wrapper) {d : List ℕ}
    → (read size io w).0 ≡ ok d
    → d ++ (read size io w).1.buf ≡ w.buf ++ taken (read_call size io) w
unfolding read
read-Stream size io w {d} h =
    let got = take size w.buf in
    let w' = record w { buf = drop (length got) w.buf } in
    ground (
      arith,
      top_up-ok io [] w {d = d},
      top_up-ok io got w' {d = d},
      take-append-drop-length size w.buf,
      drop-length-take_short size w.buf,
      append-nil d,
      append-nil got,
      append-nil w.buf,
    )

in_waiting-Stream :
    (io : Io) (w : Wrapper) {n : ℕ}
    → (in_waiting io w).0 ≡ ok n
    → ((in_waiting io w).1.buf ≡ w.buf ++ taken (in_waiting_call io) w)
      × (n ≡ length (in_waiting io w).1.buf)
unfolding in_waiting
in_waiting-Stream io w h = ground (arith, append-nil w.buf)

-- `in_waiting`, where it returns, is the number of bytes that the buffer then holds: the bytes taken
-- from the socket are appended to those already buffered.
pub in_waiting-counts :
    (io : Io) (w : Wrapper) {n : ℕ}
    → (in_waiting io w).0 ≡ ok n
    → n ≡ length w.buf + length (taken (in_waiting_call io) w)
in_waiting-counts io w {n} h =
    let (b, c) = in_waiting-Stream io w h in
    c ∙ ap length b ∙ length-append w.buf (taken (in_waiting_call io) w)

call-Stream :
    (c : Call) (w : Wrapper) {d : List ℕ}
    → (call c w).0 ≡ returned d
    → d ++ (call c w).1.buf ≡ w.buf ++ taken c w
unfolding call
call-Stream (in_waiting_call io) w {d} h = by_result (in_waiting io w).0 refl h
  where
    by_result :
        (r : Result ℕ)
        → (in_waiting io w).0 ≡ r
        → ended (λ _. []) r ≡ returned d
        → d ++ (in_waiting io w).1.buf ≡ w.buf ++ taken (in_waiting_call io) w
    by_result (ok n) e k = rw (sym (returned-injective k)) (in_waiting-Stream io w e).0
    by_result serial_exception e k = cc
    by_result value_error e k = cc
call-Stream (read_call size io) w {d} h = by_result (read size io w).0 refl h
  where
    by_result :
        (r : Result (List ℕ))
        → (read size io w).0 ≡ r
        → ended (λ x. x) r ≡ returned d
        → d ++ (read size io w).1.buf ≡ w.buf ++ taken (read_call size io) w
    by_result (ok x) e k = rw (← returned-injective k) (read-Stream size io w e)
    by_result serial_exception e k = cc
    by_result value_error e k = cc
call-Stream (write_call bytes sent) w {d} h = by_case
  where
    by_case : d ++ (write bytes sent w).1.buf ≡ w.buf ++ []
    by_case = ground (arith, append-nil w.buf)
call-Stream close_call w {d} h = ground (arith, append-nil w.buf)

-- A call's outcome before that of the calls behind it.
abbrev pub join : Outcome → Option (List ℕ × Wrapper) → Option (List ℕ × Wrapper)
join raised r = none
join (returned d) none = none
join (returned d) (some (e, w)) = some (d ++ e, w)

-- A run of calls none of which raises: the bytes that `read` handed out, in order, and the wrapper.
abbrev pub session : List Call → Wrapper → Option (List ℕ × Wrapper)
session [] w = some ([], w)
session (c ∷ cs) w = join (call c w).0 (session cs (call c w).1)

join-some :
    (o : Outcome) (r : Option (List ℕ × Wrapper)) {d : List ℕ} {w' : Wrapper}
    → join o r ≡ some (d, w')
    → (a e : List ℕ) × (o ≡ returned a) × (r ≡ some (e, w')) × (d ≡ a ++ e)
join-some raised r h = cc
join-some (returned a) none h = cc
join-some (returned a) (some (e, w)) h = (a, e, refl, ground arith, ground arith)

-- The bytes that such a run takes from the socket.
pub taken_all : List Call → Wrapper → List ℕ
taken_all [] w = []
taken_all (c ∷ cs) w = taken c w ++ taken_all cs (call c w).1

-- Over any run of calls that all return, the bytes handed out followed by those still buffered are
-- the bytes buffered at first followed by those taken from the socket: none is lost, repeated or
-- reordered.
pub session-Stream :
    (cs : List Call) (w : Wrapper) {d : List ℕ} {w' : Wrapper}
    → session cs w ≡ some (d, w')
    → d ++ w'.buf ≡ w.buf ++ taken_all cs w
unfolding taken_all
session-Stream [] w h = ground (arith, append-nil w.buf)
session-Stream (c ∷ cs) w {d} {w'} h =
    let w₁ = (call c w).1 in
    let (a, e, now, later, split) = join-some (call c w).0 (session cs w₁) h in
    d ++ w'.buf
    ≡⟨ ap (λ x. x ++ w'.buf) split ⟩ (a ++ e) ++ w'.buf
    ≡⟨ append_assoc a e w'.buf ⟩ a ++ (e ++ w'.buf)
    ≡⟨ ap (λ x. a ++ x) (session-Stream cs w₁ later) ⟩ a ++ (w₁.buf ++ taken_all cs w₁)
    ≡⟨ sym (append_assoc a w₁.buf (taken_all cs w₁)) ⟩ (a ++ w₁.buf) ++ taken_all cs w₁
    ≡⟨ ap (λ x. x ++ taken_all cs w₁) (call-Stream c w now) ⟩
      (w.buf ++ taken c w) ++ taken_all cs w₁
    ≡⟨ append_assoc w.buf (taken c w) (taken_all cs w₁) ⟩ w.buf ++ taken_all (c ∷ cs) w ∎
