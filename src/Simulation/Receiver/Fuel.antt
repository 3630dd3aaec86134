-- ===== src/Simulation/Receiver/Fuel.antt =====
-- Every turn uses a moment: the fuel of a run is enough.
use retro_bridge.Prelude.{
  ℕ, zero, suc, ◌-◌, ◌≤◌, ◌≡◌, refl, Bool, true, false, not, ◌||◌, List, [], ◌∷◌, ◌++◌, ◌==◌, leb,
  arith, length, take, drop, if◌then◌else◌, Option-cases, inl, inr,
}
use retro_bridge.Simulation.Receiver.{
  Moment, BlockRead, State, Next, returned, goes_on, is_nil, read_block_bytes, take_block,
  strict_chunk, lenient_chunk, turn, started, receive, new_state, run_xmodem_receiver,
}

by_tests :
    (full late silent fails : Bool) (k : ℕ) (a b c idle more : BlockRead)
    → length a.later ≤ suc k
    → length b.later ≤ suc k
    → length c.later ≤ suc k
    → length idle.later ≤ k
    → length more.later ≤ k
    → length
        (if◌then◌else◌ {A = BlockRead} full a (
          if◌then◌else◌ {A = BlockRead} late b (
            if◌then◌else◌ {A = BlockRead} silent idle
              (if◌then◌else◌ {A = BlockRead} fails c more)))).later
      ≤ suc k
by_tests true late silent fails k a b c idle more ha hb hc hi hm = ha
by_tests false true silent fails k a b c idle more ha hb hc hi hm = hb
by_tests false false true fails k a b c idle more ha hb hc hi hm = omega (arith, hi)
by_tests false false false true k a b c idle more ha hb hc hi hm = hc
by_tests false false false false k a b c idle more ha hb hc hi hm = omega (arith, hm)

length-later :
    (n : ℕ) (got unread : List ℕ) (ms : List Moment)
    → length (read_block_bytes n got unread ms).later ≤ length ms
unfolding read_block_bytes
length-later n got unread [] = omega arith
length-later n got unread (m ∷ ms) =
    let here = unread ++ m.arrived in
    by_tests (leb n (length got)) m.is_late (is_nil here) m.fails (length ms) _ _ _ _ _
      (omega arith) (omega arith) (omega arith) (length-later n got here ms)
      (length-later n (got ++ take (n - length got) here) (drop (n - length got) here) ms)

-- At most the moments that are there remain.
abbrev pub Leaves : List Moment → Next → Type 0
Leaves ms (returned s) = Unit
Leaves ms (goes_on s later) = length later ≤ length ms

if-Leaves :
    (b : Bool) (ms : List Moment) (x y : Next)
    → Leaves ms x
    → Leaves ms y
    → Leaves ms (if◌then◌else◌ {A = Next} b x y)
if-Leaves true ms x y hx hy = hx
if-Leaves false ms x y hx hy = hy

take_block-Leaves :
    (s : State) (r : BlockRead) (ms : List Moment)
    → length r.later ≤ length ms
    → Leaves ms (take_block s r)
take_block-Leaves s r ms h = elim (Option-cases r.block) [
  | inl e ↦ rw e h
  | inr found ↦ rw found.1 h
]

strict_chunk-Leaves :
    (s : State) (chunk : List ℕ) (ms : List Moment) → Leaves ms (strict_chunk s chunk ms)
strict_chunk-Leaves s [] ms = omega arith
strict_chunk-Leaves s (b0 ∷ bytes) ms = if-Leaves (b0 == 4) ms _ _ tt (
    if-Leaves (not (b0 == 1 || b0 == 2)) ms (goes_on s ms) _ (omega arith) (
      take_block-Leaves s (read_block_bytes 131 [] s.unread ms) ms
        (length-later 131 [] s.unread ms)))

lenient_chunk-Leaves :
    (s : State) (chunk : List ℕ) (ms : List Moment) → Leaves ms (lenient_chunk s chunk ms)
lenient_chunk-Leaves s [] ms = omega arith
lenient_chunk-Leaves s (b0 ∷ bytes) ms =
    if-Leaves (b0 == 1) ms _ _ (omega arith)
      (if-Leaves (b0 == 4) ms _ _ tt (if-Leaves (b0 == 2) ms _ _ (omega arith) (omega arith)))

module _ (chunk : State → List ℕ → List Moment → Next)
    (leaves : (s : State) (bytes : List ℕ) (ms : List Moment) → Leaves ms (chunk s bytes ms)) where
  turn-Leaves : (s : State) (m : Moment) (ms : List Moment) → Leaves ms (turn chunk s m ms)
  turn-Leaves s m ms =
      let t = started s m in
      if-Leaves m.is_stopped ms _ _ tt (
        if-Leaves (is_nil t.unread) ms _ _ (omega arith) (
          if-Leaves m.fails ms _ _ tt
            (leaves (record t { unread = drop 1024 t.unread }) (take 1024 t.unread) ms)))

  -- Once there is a unit of fuel for each moment, more fuel makes no difference.
  receive-enough :
      (f g : ℕ) (s : State) (ms : List Moment)
      → length ms ≤ f
      → length ms ≤ g
      → receive chunk f s ms ≡ receive chunk g s ms
  unfolding receive
  receive-enough f g s [] hf hg = refl
  receive-enough zero g s (m ∷ ms) hf hg = absurd (omega arith)
  receive-enough (suc f) zero s (m ∷ ms) hf hg = absurd (omega arith)
  receive-enough (suc f) (suc g) s (m ∷ ms) hf hg =
      by_next (turn chunk s m ms) (turn-Leaves s m ms)
        (λ t ns h. receive-enough f g t ns (omega (arith, h, hf)) (omega (arith, h, hg)))
    where
      by_next :
          (next : Next)
          → Leaves ms next
          → ((t : State) (ns : List Moment)
              → length ns ≤ length ms
              → receive chunk f t ns ≡ receive chunk g t ns)
          → (elim next [ returned t ↦ t | goes_on t ns ↦ receive chunk f t ns ])
            ≡ (elim next [ returned t ↦ t | goes_on t ns ↦ receive chunk g t ns ])
      by_next (returned t) h r = refl
      by_next (goes_on t ns) h r = r t ns h

-- A receiver's run never ends for want of fuel: with any fuel from a unit for each moment, the strict
-- and the lenient receiver do exactly what they do with the fuel that `run_xmodem_receiver` has.
pub receive-fuel :
    (strict : Bool) (fuel : ℕ) (unread : List ℕ) (ms : List Moment)
    → length ms ≤ fuel
    → receive (if strict then strict_chunk else lenient_chunk) fuel (new_state unread) ms
      ≡ run_xmodem_receiver strict unread ms
unfolding run_xmodem_receiver
receive-fuel true fuel unread ms h =
    receive-enough strict_chunk strict_chunk-Leaves fuel (length ms) (new_state unread) ms h
      (omega arith)
receive-fuel false fuel unread ms h =
    receive-enough lenient_chunk lenient_chunk-Leaves fuel (length ms) (new_state unread) ms h
      (omega arith)
