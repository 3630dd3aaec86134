-- ===== src/Security/Store/Answers.antt =====
-- Limiters whose states stay related give the same answers.
use retro_bridge.Prelude.{ℕ, ◌≤◌, ◌≡◌, refl, Bool, List, [], ◌∷◌, Text}
use retro_bridge.Security.Store.{Row}
use retro_bridge.Security.Store.Window.{check_all, run}

-- The times of the requests do not go back, from `t` on.
abbrev pub IsOrdered : ℕ → List (Text × ℕ) → Type 0
IsOrdered t [] = Unit
IsOrdered t ((key, now) ∷ rs) = (t ≤ now) × IsOrdered now rs

module _ (max_req window : Text → ℕ) where
  -- Two limiters whose states stay related give the same answers.
  pub run-eq {ℓ κ} :
      {S : Type ℓ} (step : Text → ℕ → S → Bool × S) (R : ℕ → S → List Row → Type κ)
      → ((t now : ℕ) (key : Text) (s : S) (h : List Row)
          → t ≤ now
          → R t s h
          → ((step key now s).0 ≡ (check_all max_req window key now h).0)
            × R now (step key now s).1 (check_all max_req window key now h).1)
      → (t : ℕ) (rs : List (Text × ℕ)) (s : S) (h : List Row) → IsOrdered t rs
      → R t s h
      → run step rs s ≡ run (check_all max_req window) rs h
  unfolding run
  run-eq step R ok t [] s h o r = refl
  run-eq step R ok t ((key, now) ∷ rs) s h o r =
      let (same, r') = ok t now key s h o.0 r in
      let more =
        run-eq step R ok now rs (step key now s).1 (check_all max_req window key now h).1 o.1 r' in
      λ i. same i ∷ more i
