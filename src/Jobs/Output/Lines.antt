-- ===== src/Jobs/Output/Lines.antt =====
-- The lines of a text that is cut behind a newline.
use retro_bridge.Prelude.{
  ℕ, zero, suc, ◌+◌, ◌-◌, ◌≤◌, ◌≡◌, ◌≢◌, refl, sym, ap, ◌∙◌, Bool, true, false, ◌&&◌, List, [], ◌∷◌,
  ◌++◌, ◌==◌, arith, if◌then◌else◌, Text, length, drop, length-append, Bool-cases, inl, inr, map,
  ltb,
}
use retro_bridge.Jobs.Output.{
  universal, split, onto_first, ends_newline, last_is_empty, pop_last, without_end, iterate, last,
}

abbrev pub IsFull : List Text → Type 0
IsFull [] = ⊥
IsFull (_ ∷ _) = Unit

onto_first-IsFull : (c : ℕ) (lines : List Text) → IsFull (onto_first c lines)
onto_first-IsFull c [] = tt
onto_first-IsFull c (line ∷ lines) = tt

if-IsFull :
    (b : Bool) (x y : List Text)
    → IsFull x
    → IsFull y
    → IsFull (if◌then◌else◌ {A = List Text} b x y)
if-IsFull true x y hx hy = hx
if-IsFull false x y hx hy = hy

pub split-IsFull : (s : Text) → IsFull (split s)
split-IsFull [] = tt
split-IsFull (c ∷ s) = if-IsFull (c == 10) _ _ tt (onto_first-IsFull c (split s))

onto_first-append :
    (c : ℕ) (xs ys : List Text) → IsFull xs → onto_first c (xs ++ ys) ≡ onto_first c xs ++ ys
onto_first-append c [] ys h = absurd h
onto_first-append c (x ∷ xs) ys h = refl

pub split-append : (x y : Text) → split (x ++ 10 ∷ y) ≡ split x ++ split y
split-append [] y = refl
split-append (c ∷ x) y = elim (Bool-cases (c == 10)) [
  | inl e ↦ rw e (ap (λ l. [] ∷ l) (split-append x y))
  | inr e ↦ rw e (
      ap (onto_first c) (split-append x y)
      ∙ onto_first-append c (split x) (split y) (split-IsFull x))
]

last_is_empty-append : (xs ys : List Text) → IsFull ys → last_is_empty (xs ++ ys) ≡ last_is_empty ys
last_is_empty-append [] ys h = refl
last_is_empty-append (x ∷ []) [] h = absurd h
last_is_empty-append ([] ∷ []) (y ∷ ys) h = refl
last_is_empty-append ((_ ∷ _) ∷ []) (y ∷ ys) h = refl
last_is_empty-append ([] ∷ x ∷ xs) ys h = last_is_empty-append (x ∷ xs) ys h
last_is_empty-append ((_ ∷ _) ∷ x ∷ xs) ys h = last_is_empty-append (x ∷ xs) ys h

pop_last-append : (xs ys : List Text) → IsFull ys → pop_last (xs ++ ys) ≡ xs ++ pop_last ys
pop_last-append [] ys h = refl
pop_last-append (x ∷ []) [] h = absurd h
pop_last-append (x ∷ []) (y ∷ ys) h = refl
pop_last-append (x ∷ z ∷ xs) ys h = ap (λ l. x ∷ l) (pop_last-append (z ∷ xs) ys h)

ends_newline-append :
    (x : Text) (c : ℕ) (y : Text) → ends_newline (x ++ c ∷ y) ≡ ends_newline (c ∷ y)
ends_newline-append [] c y = refl
ends_newline-append (d ∷ []) c y = refl
ends_newline-append (d ∷ e ∷ x) c y = ends_newline-append (e ∷ x) c y

-- The lines before the cut do not matter to what becomes of the end.
pub without_end-append :
    (xs : List Text) (x y : Text) → without_end (x ++ 10 ∷ y) (xs ++ split y) ≡ xs ++ iterate y
without_end-append xs x [] =
    rw (ends_newline-append x 10 [], last_is_empty-append xs ([] ∷ []) tt)
      (pop_last-append xs ([] ∷ []) tt)
without_end-append xs x (c ∷ y) =
    rw
      (
        ends_newline-append x 10 (c ∷ y),
        last_is_empty-append xs (split (c ∷ y)) (split-IsFull (c ∷ y)),
      )
      (by_test (last_is_empty (split (c ∷ y)) && ends_newline (c ∷ y)))
  where
    by_test :
        (b : Bool)
        → (if b then pop_last (xs ++ split (c ∷ y)) else xs ++ split (c ∷ y))
          ≡ xs ++ (if b then pop_last (split (c ∷ y)) else split (c ∷ y))
    by_test true = pop_last-append xs (split (c ∷ y)) (split-IsFull (c ∷ y))
    by_test false = refl

pub iterate-without_end : (s : Text) → s ≢ [] → iterate s ≡ without_end s (split s)
iterate-without_end [] h = absurd (h refl)
iterate-without_end (c ∷ s) h = refl

pub iterate-append : (x y : Text) → iterate (x ++ 10 ∷ y) ≡ split x ++ iterate y
iterate-append x y = by_first x refl
  where
    by_first : (z : Text) → z ≡ x → iterate (x ++ 10 ∷ y) ≡ split x ++ iterate y
    by_first [] e = rw (sym e) (without_end-append ([] ∷ []) [] y)
    by_first (c ∷ z) e = rw (sym e) (
        ap (without_end (c ∷ z ++ 10 ∷ y)) (split-append (c ∷ z) y)
        ∙ without_end-append (split (c ∷ z)) (c ∷ z) y)

-- A newline stays where it is, and what is behind it is read as if it stood alone.
pub universal-append : (a b : Text) → (x : Text) × (universal (a ++ 10 ∷ b) ≡ x ++ 10 ∷ universal b)
universal-append [] [] = ([], refl)
universal-append [] (d ∷ b) = ([], refl)
universal-append (c ∷ []) b =
    let (x, h) = universal-append [] b in
    elim (Bool-cases (c == 13)) [ inl e ↦ (x, rw e h) | inr e ↦ (c ∷ x, rw e (ap (λ l. c ∷ l) h)) ]
universal-append (c ∷ d ∷ a) b =
    let (x, h) = universal-append (d ∷ a) b in
    elim (Bool-cases (c == 13 && d == 10)) [
      | inl e ↦ (x, rw e h)
      | inr e ↦
          ((if c == 13 then 10 else c) ∷ x, rw e (ap (λ l. (if c == 13 then 10 else c) ∷ l) h))
    ]

drop-append {ℓ} :
    {A : Type ℓ} (n k : ℕ) (xs ys : List A) → n ≡ length xs + k → drop n (xs ++ ys) ≡ drop k ys
drop-append n k [] ys h = let same : n ≡ k = omega (arith, h) in ap (λ i. drop i ys) same
drop-append zero k (x ∷ xs) ys h = absurd (omega (arith, h))
drop-append (suc n) k (x ∷ xs) ys h = drop-append n k xs ys (omega (arith, h))

-- The last lines are those of the part that has enough of them.
pub last-append : (n : ℕ) (xs ys : List Text) → n ≤ length ys → last n (xs ++ ys) ≡ last n ys
last-append n [] ys h = refl
last-append n (x ∷ xs) ys h =
    let more : ltb n (length (x ∷ xs ++ ys)) ≡ true = ground (arith, h, length-append xs ys) in
    rw more (start ∙ sym ending)
  where
    start : drop (length (x ∷ xs ++ ys) - n) (x ∷ xs ++ ys) ≡ drop (length ys - n) ys
    start =
        drop-append (length (x ∷ xs ++ ys) - n) (length ys - n) (x ∷ xs) ys
          (omega (arith, h, length-append xs ys))

    ending : last n ys ≡ drop (length ys - n) ys
    ending = elim (Bool-cases (ltb n (length ys))) [
      | inl e ↦ rw e refl
      | inr e ↦
          let zero_left : 0 ≡ length ys - n = ground (arith, h, e) in
          rw e (ap (λ k. drop k ys) zero_left)
    ]

length-map : (f : Text → Text) (xs : List Text) → length (map f xs) ≡ length xs
length-map f [] = refl
length-map f (x ∷ xs) = ap suc (length-map f xs)

drop-map : (f : Text → Text) (k : ℕ) (xs : List Text) → drop k (map f xs) ≡ map f (drop k xs)
drop-map f zero xs = refl
drop-map f (suc k) [] = refl
drop-map f (suc k) (x ∷ xs) = drop-map f k xs

pub last-map : (f : Text → Text) (n : ℕ) (xs : List Text) → last n (map f xs) ≡ map f (last n xs)
last-map f n xs = elim (Bool-cases (ltb n (length xs))) [
  | inl e ↦ rw (length-map f xs, e) (drop-map f (length xs - n) xs)
  | inr e ↦ rw (length-map f xs, e) refl
]
