-- ===== src/Simulation/Terminal/Password.antt =====
-- The password that is typed does not show.
use retro_bridge.Prelude.{
  ℕ, ◌≡◌, ◌≤◌, take-short, drop-short, refl, ap, List, [], ◌∷◌, arith, length,
}
use retro_bridge.Simulation.Receiver.Blocks.{comes}
use retro_bridge.Simulation.Terminal.{
  Config, State, goes_on, password, has_newline, stars, password_chunk, turn,
}

stars-same : (xs ys : List ℕ) → length xs ≡ length ys → stars xs ≡ stars ys
stars-same [] [] h = refl
stars-same [] (y ∷ ys) h = absurd (omega arith)
stars-same (x ∷ xs) [] h = absurd (omega arith)
stars-same (x ∷ xs) (y ∷ ys) h = ap (λ s. b'*' ∷ s) (stars-same xs ys (omega arith))

-- The state in which a password is asked for, with nothing left to read.
abbrev pub asked : List ℕ → List ℕ → State
asked line written = record { phase = password; line = line; unread = []; written = written }

-- While a password is asked for, what the simulation writes and does next depends only on how many
-- bytes were typed and on whether one of them ends the line, not on the bytes.
pub turn-password :
    (c : Config) (line written xs ys : List ℕ)
    → length xs ≡ length ys
    → length xs ≤ 1024
    → has_newline xs ≡ has_newline ys
    → turn c (asked line written) (comes xs) ≡ turn c (asked line written) (comes ys)
unfolding turn
turn-password c line written [] [] l k h = refl
turn-password c line written [] (y ∷ ys) l k h = absurd (omega arith)
turn-password c line written (x ∷ xs) [] l k h = absurd (omega arith)
turn-password c line written (x ∷ xs) (y ∷ ys) l k h =
    rw
      (
        take-short 1023 xs (omega (arith, k)),
        drop-short 1023 xs (omega (arith, k)),
        take-short 1023 ys (omega (arith, k, l)),
        drop-short 1023 ys (omega (arith, k, l)),
      )
      (ap goes_on (same-chunk (asked line written) (x ∷ xs) (y ∷ ys) l h))
  where
    same-chunk :
        (s : State) (zs ws : List ℕ)
        → length zs ≡ length ws
        → has_newline zs ≡ has_newline ws
        → password_chunk c s zs ≡ password_chunk c s ws
    same-chunk s zs ws e g = rw (g, stars-same zs ws e) refl
