-- ===== src/Simulation/Terminal/Screen.antt =====
-- What a user sees of the line that is typed.
use mathlib.Core.List.{reverse}
use retro_bridge.Prelude.{
  ℕ, ◌≡◌, Bool, false, ◌||◌, List, [], ◌∷◌, ◌++◌, ◌==◌, leb, if◌then◌else◌, drop,
}
use retro_bridge.Simulation.Terminal.{Shell, is_erase}

-- A line of a terminal: the cells before the cursor, the nearest first, and those from it on.
pub record Screen : Type 0 where
  pub before : List ℕ
  pub after : List ℕ

-- Backspace goes left; another byte overwrites the cell at the cursor.
abbrev pub display_byte : Screen → ℕ → Screen
display_byte s b =
    if b == 8
    then elim s.before [ [] ↦ s | c ∷ cells ↦ record { before = cells; after = c ∷ s.after } ]
    else record { before = b ∷ s.before; after = drop 1 s.after }

abbrev pub display : Screen → List ℕ → Screen
display s [] = s
display s (b ∷ bytes) = display (display_byte s b) bytes

abbrev pub is_key : ℕ → Bool
is_key b = is_erase b || leb 32 b

-- The screen shows what stood there, and then the line, before the cursor.
abbrev pub Shows : Screen → List ℕ → Shell → Type 0
Shows screen prompt s = (display screen s.written).before ≡ reverse s.line ++ prompt

-- What holds between two keys.
Typed : Screen → List ℕ → Shell → Type 0
Typed screen prompt s = (s.is_logged_out ≡ false) × Shows screen prompt s
