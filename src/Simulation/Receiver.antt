-- ===== src/Simulation/Receiver.antt =====
-- The XMODEM receivers of retrobridge/simulation.py. A run is observed as a list of moments, one for each
-- turn of a loop; where the moments end, the run is cut off.
pub mod Blocks
pub mod Errors
pub mod Fuel
use retro_bridge.Prelude.{
  ℕ, zero, suc, ◌+◌, ◌-◌, ◌%◌, Bool, true, false, not, ◌&&◌, ◌||◌, Option, none, some, List, [],
  ◌∷◌, ◌++◌, ◌==◌, leb, if◌then◌else◌, Text, codes, length, take, drop,
}

-- What a turn of a loop meets: the stop event is set, the deadline of `_read_block_bytes` is over, the
-- bytes that have come, and that the read raises, as that of a pseudo-terminal does at its end.
pub record Moment : Type 0 where
  pub is_stopped : Bool
  pub is_late : Bool
  pub arrived : List ℕ
  pub fails : Bool

abbrev pub ack : ℕ
ack = 6

abbrev pub nak : ℕ
nak = 21

-- What `_read_block_bytes` returns, the bytes that nobody has read, and the moments to come.
pub record BlockRead : Type 0 where
  pub block : Option (List ℕ)
  pub unread : List ℕ
  pub later : List Moment

abbrev pub is_nil : List ℕ → Bool
is_nil [] = true
is_nil (_ ∷ _) = false

-- `_read_block_bytes`, with `got` read so far
unfoldable pub read_block_bytes : ℕ → List ℕ → List ℕ → List Moment → BlockRead
read_block_bytes n got unread [] = record {
  block = if leb n (length got) then some got else none;
  unread = unread;
  later = [];
}
read_block_bytes n got unread (m ∷ ms) =
    let here = unread ++ m.arrived in
    let room = n - length got in
    let idle = read_block_bytes n got here ms in
    let more = read_block_bytes n (got ++ take room here) (drop room here) ms in
    if leb n (length got)
    then record { block = some got; unread = unread; later = m ∷ ms }
    else if m.is_late
    then record { block = none; unread = here; later = ms }
    else if is_nil here
    then idle
    else if m.fails
    then record { block = none; unread = here; later = ms }
    else more

pub record State : Type 0 where
  pub expected : ℕ
  pub first : Bool
  pub unread : List ℕ
  pub written : List ℕ
  pub loaded : Bool

-- The receiver returns, or goes on.
pub data Next : Type 0 where
  returned : State → Next
  goes_on : State → List Moment → Next

abbrev pub write : List ℕ → State → State
write bytes s = record s { written = s.written ++ bytes }

-- What the simulated machine shows when the program is loaded.
abbrev pub program_output : Text
program_output =
    13 ∷ 10 ∷ codes "PROGRAM LOADED. EXECUTING..."
    ++ (13 ∷ 10 ∷ codes "Hello, World!"
        ++ (13 ∷ 10 ∷ codes "Execution complete. Return code: 0"
            ++ (13 ∷ 10 ∷ 13 ∷ 10 ∷ codes "READY" ++ 13 ∷ 10 ∷ [])))

abbrev pub end_of_transmission : State → State
end_of_transmission s = record (write (ack ∷ program_output) s) { loaded = true }

abbrev pub sum : List ℕ → ℕ
sum [] = 0
sum (x ∷ xs) = x + sum xs

abbrev pub byte_at : ℕ → List ℕ → ℕ
byte_at i [] = 0
byte_at zero (x ∷ xs) = x
byte_at (suc i) (x ∷ xs) = byte_at i xs

-- The block after its first byte: number, complement, 128 bytes of data, checksum.
abbrev pub is_intact : List ℕ → Bool
is_intact block =
    byte_at 1 block == (255 - byte_at 0 block) % 256
    && sum (take 128 (drop 2 block)) % 256 == byte_at 130 block

abbrev pub is_expected : ℕ → List ℕ → Bool
is_expected expected block = byte_at 0 block == expected

abbrev pub is_retransmission : ℕ → List ℕ → Bool
is_retransmission expected block = byte_at 0 block == (expected + 255) % 256

abbrev pub next_expected : ℕ → List ℕ → ℕ
next_expected expected block =
    if is_expected expected block then (byte_at 0 block + 1) % 256 else expected

-- The answer to a block, and the number that is expected next.
abbrev pub judge : ℕ → List ℕ → ℕ × ℕ
judge expected block =
    if not (is_intact block) || not (is_expected expected block || is_retransmission expected block)
    then (nak, expected)
    else (ack, next_expected expected block)

abbrev pub answer : State → List ℕ → State
answer s block =
    let (byte, expected) = judge s.expected block in
    record (write (byte ∷ []) s) { expected = expected }

abbrev pub take_block : State → BlockRead → Next
take_block s r = elim r.block [
  | none ↦ goes_on (record s { unread = r.unread }) r.later
  | some block ↦ goes_on (answer (record s { unread = r.unread }) block) r.later
]

-- A chunk that has been read. What it holds after its first byte is dropped.
abbrev pub strict_chunk : State → List ℕ → List Moment → Next
strict_chunk s [] ms = goes_on s ms
strict_chunk s (b0 ∷ _) ms =
    if b0 == 4
    then returned (end_of_transmission s)
    else if not (b0 == 1 || b0 == 2)
    then goes_on s ms
    else take_block s (read_block_bytes 131 [] s.unread ms)

abbrev pub lenient_chunk : State → List ℕ → List Moment → Next
lenient_chunk s [] ms = goes_on s ms
lenient_chunk s (b0 ∷ _) ms =
    if b0 == 1
    then goes_on (write (ack ∷ []) s) ms
    else if b0 == 4
    then returned (end_of_transmission s)
    else if b0 == 2
    then goes_on (write (ack ∷ []) s) ms
    else goes_on s ms

-- The bytes that have come and the `C` of the first turn.
abbrev pub started : State → Moment → State
started s m =
    let greeted = if s.first then write (codes "C") s else s in
    record greeted { first = false; unread = s.unread ++ m.arrived }

-- A turn of the loop: both receivers have the same, up to what they do with a chunk.
abbrev pub turn : (State → List ℕ → List Moment → Next) → State → Moment → List Moment → Next
turn chunk s m ms =
    let t = started s m in
    if m.is_stopped
    then returned s
    else if is_nil t.unread
    then goes_on t ms
    else if m.fails
    then returned t
    else chunk (record t { unread = drop 1024 t.unread }) (take 1024 t.unread) ms

unfoldable pub receive : (State → List ℕ → List Moment → Next) → ℕ → State → List Moment → State
receive chunk fuel s [] = s
receive chunk zero s (m ∷ ms) = s
receive chunk (suc fuel) s (m ∷ ms) = elim (turn chunk s m ms) [
  | returned s' ↦ s'
  | goes_on s' ms' ↦ receive chunk fuel s' ms'
]

abbrev pub new_state : List ℕ → State
new_state unread = record {
  expected = 1;
  first = true;
  unread = unread;
  written = [];
  loaded = false;
}

-- `_run_xmodem_receiver`, with `_strict_xmodem_receive` and `_lenient_xmodem_receive`; a turn uses at
-- least one moment, so there is fuel for each.
unfoldable pub run_xmodem_receiver : Bool → List ℕ → List Moment → State
run_xmodem_receiver strict unread ms =
    if strict
    then receive strict_chunk (length ms) (new_state unread) ms
    else receive lenient_chunk (length ms) (new_state unread) ms
