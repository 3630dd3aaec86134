-- ===== src/Simulation/Receiver/Blocks.antt =====
-- A sender of blocks with an 8-bit sum, which writes each header byte alone. The program's own sender is
-- none: asked with a C, it sends a header, its data and a CRC of 16 bits at once.
use retro_bridge.Prelude.{
  ℕ, zero, suc, ◌+◌, ◌-◌, ◌%◌, ◌<◌, ◌≡◌, ◌∙◌, refl, ap, true, false, some, List, [], ◌∷◌, ◌++◌,
  ◌==◌, leb, arith, length, drop, take-short, drop-short, All, append_assoc, append-nil,
  length-append, codes,
}
use retro_bridge.Simulation.Receiver.{
  Moment, State, Next, returned, goes_on, ack, sum, is_intact, judge, strict_chunk, turn, receive,
  read_block_bytes, program_output, new_state, run_xmodem_receiver,
}
use retro_bridge.Simulation.Receiver.Errors.{block_of, is_intact-block}

-- Bytes that come in time.
abbrev pub comes : List ℕ → Moment
comes bytes = record { is_stopped = false; is_late = false; arrived = bytes; fails = false }

-- The header's byte, and then the rest of the block.
abbrev pub deliveries : ℕ → List (List ℕ) → List Moment → List Moment
deliveries n [] end = end
deliveries n (bytes ∷ blocks) end =
    comes (1 ∷ []) ∷ comes (block_of n bytes) ∷ deliveries ((n + 1) % 256) blocks end

abbrev pub repeat : ℕ → ℕ → List ℕ
repeat zero x = []
repeat (suc n) x = x ∷ repeat n x

pub length-block_of :
    (n : ℕ) (bytes : List ℕ) → length bytes ≡ 128 → length (block_of n bytes) ≡ 131
length-block_of n bytes h = omega (arith, h, length-append bytes (sum bytes % 256 ∷ []))

-- A block that comes whole is read whole.
read_block_bytes-full :
    (block : List ℕ) (ms : List Moment)
    → leb 131 (length block) ≡ true
    → read_block_bytes 131 block [] ms ≡ record { block = some block; unread = []; later = ms }
unfolding read_block_bytes
read_block_bytes-full block [] h = rw h refl
read_block_bytes-full block (m ∷ ms) h = rw h refl

read_block_bytes-whole :
    (b : ℕ) (bs : List ℕ) (ms : List Moment)
    → length (b ∷ bs) ≡ 131
    → read_block_bytes 131 [] [] (comes (b ∷ bs) ∷ ms)
      ≡ record { block = some (b ∷ bs); unread = []; later = ms }
unfolding read_block_bytes
read_block_bytes-whole b bs ms h =
    rw (take-short 130 bs (omega (arith, h)), drop-short 130 bs (omega (arith, h)))
      (read_block_bytes-full (b ∷ bs) ms (ground (arith, h)))

judge-next :
    (n : ℕ) (bytes : List ℕ)
    → length bytes ≡ 128
    → n < 256
    → judge n (block_of n bytes) ≡ (ack, (n + 1) % 256)
judge-next n bytes h b =
    let intact : is_intact (block_of n bytes) ≡ true =
      ground (arith, is_intact-block n (255 - n) (sum bytes % 256) bytes h) in
    let next : (n == n) ≡ true = ground arith in rw (intact, next) refl

-- The receiver between two blocks.
abbrev pub between : ℕ → List ℕ → State
between n written = record {
  expected = n;
  first = false;
  unread = [];
  written = written;
  loaded = false;
}

turn-block :
    (n : ℕ) (bytes written : List ℕ) (ms : List Moment)
    → length bytes ≡ 128
    → n < 256
    → turn strict_chunk (between n written) (comes (1 ∷ [])) (comes (block_of n bytes) ∷ ms)
      ≡ goes_on (between ((n + 1) % 256) (written ++ ack ∷ [])) ms
turn-block n bytes written ms h b =
    rw
      (
        read_block_bytes-whole n ((255 - n) ∷ bytes ++ (sum bytes % 256 ∷ [])) ms
            (length-block_of n bytes h),
        judge-next n bytes h b,
      )
      refl

abbrev pub end_of_blocks : List Moment
end_of_blocks = comes (4 ∷ []) ∷ []

-- The receiver that has the program.
abbrev pub finished : ℕ → List ℕ → State
finished n written = record {
  expected = n;
  first = false;
  unread = [];
  written = written ++ ack ∷ program_output;
  loaded = true;
}

repeat-written :
    (written : List ℕ) (k : ℕ) (tail : List ℕ)
    → ((written ++ ack ∷ []) ++ repeat k ack) ++ tail ≡ (written ++ repeat (suc k) ack) ++ tail
repeat-written written k tail = rw (append_assoc written (ack ∷ []) (repeat k ack)) refl

pub receive-goes_on :
    (chunk : State → List ℕ → List Moment → Next) (fuel : ℕ) (s s' : State) (m : Moment)
    (ms ms' : List Moment)
    → turn chunk s m ms ≡ goes_on s' ms'
    → receive chunk (suc fuel) s (m ∷ ms) ≡ receive chunk fuel s' ms'
unfolding receive
receive-goes_on chunk fuel s s' m ms ms' h =
    ap (λ next. elim next [ returned t ↦ t | goes_on t ns ↦ receive chunk fuel t ns ]) h

receive-blocks :
    (blocks : List (List ℕ)) (n fuel : ℕ) (written : List ℕ)
    → All (λ bytes. length bytes ≡ 128) blocks
    → n < 256
    → length blocks < fuel
    → receive strict_chunk fuel (between n written) (deliveries n blocks end_of_blocks)
      ≡ finished ((n + length blocks) % 256) (written ++ repeat (length blocks) ack)
unfolding receive
receive-blocks blocks n zero written h b f = absurd (omega arith)
receive-blocks [] n (suc fuel) written h b f =
    let number : n ≡ (n + 0) % 256 = omega (arith, b) in
    rw (append-nil written) (ap (λ k. finished k written) number)
receive-blocks (bytes ∷ blocks) n (suc fuel) written h b f =
    receive-goes_on strict_chunk fuel (between n written)
      (between ((n + 1) % 256) (written ++ ack ∷ [])) (comes (1 ∷ [])) _ _
      (turn-block n bytes written (deliveries ((n + 1) % 256) blocks end_of_blocks) h.0 b)
    ∙ (receive-blocks blocks ((n + 1) % 256) fuel (written ++ ack ∷ []) h.1 (omega arith)
          (omega (arith, f))
        ∙ same)
  where
    same :
        finished
          (((n + 1) % 256 + length blocks) % 256)
          ((written ++ ack ∷ []) ++ repeat (length blocks) ack)
        ≡ finished ((n + suc (length blocks)) % 256) (written ++ repeat (suc (length blocks)) ack)
    same =
        let number : ((n + 1) % 256 + length blocks) % 256 ≡ (n + suc (length blocks)) % 256 =
          omega arith in
        rw (number, repeat-written written (length blocks) (ack ∷ program_output)) refl

receive-start :
    (fuel : ℕ) (bytes : List ℕ) (ms : List Moment)
    → receive strict_chunk (suc fuel) (new_state []) (comes bytes ∷ ms)
      ≡ receive strict_chunk (suc fuel) (between 1 (codes "C")) (comes bytes ∷ ms)
unfolding receive
receive-start fuel bytes ms = refl

receive-greeted :
    (blocks : List (List ℕ)) (fuel : ℕ)
    → receive strict_chunk (suc fuel) (new_state []) (deliveries 1 blocks end_of_blocks)
      ≡ receive strict_chunk (suc fuel) (between 1 (codes "C")) (deliveries 1 blocks end_of_blocks)
receive-greeted [] fuel = receive-start fuel (4 ∷ []) []
receive-greeted (bytes ∷ blocks) fuel = receive-start fuel (1 ∷ []) _

length-deliveries :
    (n : ℕ) (blocks : List (List ℕ)) → length blocks < length (deliveries n blocks end_of_blocks)
length-deliveries n [] = omega arith
length-deliveries n (bytes ∷ blocks) = omega (arith, length-deliveries ((n + 1) % 256) blocks)

-- A program of any number of blocks, whose header bytes each arrive alone, is received whole: the
-- strict receiver asks for it with a C, acknowledges every block although the numbers wrap around, and
-- acknowledges the end of the transmission and shows the program's output.
pub run_xmodem_receiver-deliveries :
    (blocks : List (List ℕ))
    → All (λ bytes. length bytes ≡ 128) blocks
    → run_xmodem_receiver true [] (deliveries 1 blocks end_of_blocks)
      ≡ finished ((1 + length blocks) % 256) (codes "C" ++ repeat (length blocks) ack)
unfolding run_xmodem_receiver
run_xmodem_receiver-deliveries blocks h =
    by_fuel (length (deliveries 1 blocks end_of_blocks)) (length-deliveries 1 blocks)
  where
    by_fuel :
        (fuel : ℕ)
        → length blocks < fuel
        → receive strict_chunk fuel (new_state []) (deliveries 1 blocks end_of_blocks)
          ≡ finished ((1 + length blocks) % 256) (codes "C" ++ repeat (length blocks) ack)
    by_fuel zero f = absurd (omega arith)
    by_fuel (suc fuel) f =
        receive-greeted blocks fuel
        ∙ receive-blocks blocks 1 (suc fuel) (codes "C") h (omega arith) f

-- A block that arrives in one piece with its header is dropped with it: the receiver waits for another
-- one and answers nothing.
pub turn-in_one_piece :
    (n : ℕ) (bytes written : List ℕ)
    → length bytes ≡ 128
    → (late : Moment) → late.is_late ≡ true
    → late.arrived ≡ []
    → turn strict_chunk (between n written) (comes (1 ∷ block_of n bytes)) (late ∷ [])
      ≡ goes_on (between n written) []
unfolding read_block_bytes
turn-in_one_piece n bytes written h late l a = rw (whole, l, a) refl
  where
    whole : drop 1023 (block_of n bytes) ≡ []
    whole = drop-short 1023 (block_of n bytes) (omega (arith, length-block_of n bytes h))
