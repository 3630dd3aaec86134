-- ===== src/Security/Store/Tracks.antt =====
-- When a store agrees with the whole history of a key on all that can still matter.
use mathlib.Core.Path.{◌≡⟨◌⟩◌, ◌∎}
use retro_bridge.Prelude.{
  ℕ, ◌≤◌, ◌≡◌, refl, sym, ap, ◌∙◌, inl, inr, true, false, not, ◌&&◌, List, [], ◌∷◌, ◌++◌, arith,
  if◌then◌else◌, length, Bool-cases, Text, text_eq, text_eq→eq, text_eq_self,
}
use retro_bridge.Model.{count, filter, delete_where}
use retro_bridge.Security.Store.{is_old, Row, has_key}
use retro_bridge.Security.Store.Window.{is_recent}

-- The timestamps of a key.
abbrev pub times : Text → List Row → List ℕ
times k [] = []
times k (r ∷ rs) = if has_key k r then r.timestamp ∷ times k rs else times k rs

abbrev pub young : ℕ → ℕ → List ℕ → List ℕ
young w now = filter (λ t. not (is_old w now t))

pub young-append :
    (w now : ℕ) (xs ys : List ℕ) → young w now (xs ++ ys) ≡ young w now xs ++ young w now ys
young-append w now [] ys = refl
young-append w now (x ∷ xs) ys = ground (arith, young-append w now xs ys)

-- What is too old for a longer window, or was too old before, is too old.
pub young-young :
    (w v now later : ℕ) (xs : List ℕ)
    → w ≤ v
    → now ≤ later
    → young w later (young v now xs) ≡ young w later xs
young-young w v now later [] h k = refl
young-young w v now later (x ∷ xs) h k = ground (arith, young-young w v now later xs h k)

pub times-append : (k : Text) (rs qs : List Row) → times k (rs ++ qs) ≡ times k rs ++ times k qs
times-append k [] qs = refl
times-append k (r ∷ rs) qs = ground (arith, times-append k rs qs)

pub count-times : (k : Text) (rs : List Row) → count (has_key k) rs ≡ length (times k rs)
count-times k [] = refl
count-times k (r ∷ rs) = ground (arith, count-times k rs)

pub times-sweep :
    (k : Text) (w now : ℕ) (rs : List Row)
    → times k (delete_where (λ r. is_old w now r.timestamp) rs) ≡ young w now (times k rs)
times-sweep k w now [] = refl
times-sweep k w now (r ∷ rs) = ground (arith, times-sweep k w now rs)

pub times-delete_own :
    (k : Text) (w now : ℕ) (rs : List Row)
    → times k (delete_where (λ r. has_key k r && is_old w now r.timestamp) rs)
      ≡ young w now (times k rs)
times-delete_own k w now [] = refl
times-delete_own k w now (r ∷ rs) = ground (arith, times-delete_own k w now rs)

has_key_other :
    (k key : Text) (r : Row) → text_eq k key ≡ false → has_key k r ≡ true → has_key key r ≡ false
has_key_other k key r h e = elim (Bool-cases (has_key key r)) [
  | inl f ↦
      let same : k ≡ key = text_eq→eq k r.key e ∙ sym (text_eq→eq key r.key f) in
      let self = text_eq_self key in cc
  | inr f ↦ f
]

pub times-delete_other :
    (k key : Text) (w now : ℕ) (rs : List Row)
    → text_eq k key ≡ false
    → times k (delete_where (λ r. has_key key r && is_old w now r.timestamp) rs) ≡ times k rs
times-delete_other k key w now [] h = refl
times-delete_other k key w now (r ∷ rs) h =
    ground (arith, has_key_other k key r h, times-delete_other k key w now rs h)

module _ (max_req window : Text → ℕ) where
  pub count-recent :
      (k : Text) (now : ℕ) (h : List Row)
      → count (is_recent max_req window k now) h ≡ length (young (window k) now (times k h))
  count-recent k now [] = refl
  count-recent k now (r ∷ h) = ground (arith, count-recent k now h)

  -- A store, as the timestamps that it has for each key, agrees with the whole history on all that can
  -- still matter at time `t` or later.
  abbrev pub Tracks : ℕ → (Text → List ℕ) → List Row → Type 0
  Tracks t f h =
      (k : Text) (now : ℕ) → t ≤ now → young (window k) now (f k) ≡ young (window k) now (times k h)

  abbrev pub pushed : Text → Text → ℕ → List ℕ
  pushed k key now = if text_eq k key then now ∷ [] else []

  pub Tracks-keep :
      (t now : ℕ) (f g : Text → List ℕ) (h : List Row)
      → t ≤ now
      → ((k : Text) (n : ℕ) → now ≤ n → young (window k) n (g k) ≡ young (window k) n (f k))
      → Tracks t f h
      → Tracks now g h
  Tracks-keep t now f g h le same tr k n later = same k n later ∙ tr k n (omega arith)

  pub Tracks-push :
      (t now : ℕ) (key : Text) (f g : Text → List ℕ) (h : List Row)
      → t ≤ now
      → ((k : Text) (n : ℕ)
          → now ≤ n
          → young (window k) n (g k) ≡ young (window k) n (f k ++ pushed k key now))
      → Tracks t f h
      → Tracks now g (h ++ record { key = key; timestamp = now } ∷ [])
  Tracks-push t now key f g h le same tr k n later =
      let w = window k in
      let row : Row = record { key = key; timestamp = now } in
      young w n (g k)
      ≡⟨ same k n later ∙ young-append w n (f k) (pushed k key now) ⟩
        young w n (f k) ++ young w n (pushed k key now)
      ≡⟨ ap (λ xs. xs ++ young w n (pushed k key now)) (tr k n (omega arith)) ⟩
        young w n (times k h) ++ young w n (pushed k key now)
      ≡⟨ sym (young-append w n (times k h) (pushed k key now))
        ∙ ap (young w n) (sym (times-append k h (row ∷ []))) ⟩
        young w n (times k (h ++ row ∷ [])) ∎
