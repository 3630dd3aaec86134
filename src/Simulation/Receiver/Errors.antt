-- ===== src/Simulation/Receiver/Errors.antt =====
-- One byte of a block that arrives wrong.
use retro_bridge.Prelude.{
  ℕ, zero, suc, ◌+◌, ◌-◌, ◌%◌, ◌≤◌, ◌<◌, ◌≡◌, ◌≢◌, ◌∙◌, sym, refl, ◌⊎◌, inl, inr, Bool-cases, ltb,
  false, ◌&&◌, List, [], ◌∷◌, ◌++◌, ◌==◌, arith, length, take, All,
}
use retro_bridge.Simulation.Receiver.{nak, sum, byte_at, is_intact, judge}

-- The bytes that a sender puts on the line after the header.
abbrev pub block_of : ℕ → List ℕ → List ℕ
block_of n bytes = n ∷ (255 - n) ∷ bytes ++ (sum bytes % 256 ∷ [])

abbrev pub set_at : ℕ → ℕ → List ℕ → List ℕ
set_at i v [] = []
set_at zero v (x ∷ xs) = v ∷ xs
set_at (suc i) v (x ∷ xs) = x ∷ set_at i v xs

pub take-exactly {ℓ} :
    {A : Type ℓ} (xs ys : List A) (n : ℕ) → length xs ≡ n → take n (xs ++ ys) ≡ xs
take-exactly [] ys n h = rw (zero_eq n h) refl
  where
    zero_eq : (k : ℕ) → 0 ≡ k → k ≡ 0
    zero_eq k e = omega arith
take-exactly (x ∷ xs) ys zero h = absurd (omega arith)
take-exactly (x ∷ xs) ys (suc n) h = rw (take-exactly xs ys n (omega arith)) refl

pub byte_at-last : (xs : List ℕ) (c n : ℕ) → length xs ≡ n → byte_at n (xs ++ c ∷ []) ≡ c
byte_at-last [] c zero h = refl
byte_at-last [] c (suc n) h = absurd (omega arith)
byte_at-last (x ∷ xs) c zero h = absurd (omega arith)
byte_at-last (x ∷ xs) c (suc n) h = byte_at-last xs c n (omega arith)

length-set_at : (i v : ℕ) (xs : List ℕ) → length (set_at i v xs) ≡ length xs
length-set_at i v [] = refl
length-set_at zero v (x ∷ xs) = refl
length-set_at (suc i) v (x ∷ xs) = omega (arith, length-set_at i v xs)

set_at-append :
    (i v c : ℕ) (xs : List ℕ) → i < length xs → set_at i v (xs ++ c ∷ []) ≡ set_at i v xs ++ c ∷ []
set_at-append i v c [] h = absurd (omega arith)
set_at-append zero v c (x ∷ xs) h = refl
set_at-append (suc i) v c (x ∷ xs) h = rw (set_at-append i v c xs (omega arith)) refl

set_at-last : (v c : ℕ) (xs : List ℕ) → set_at (length xs) v (xs ++ c ∷ []) ≡ xs ++ v ∷ []
set_at-last v c [] = refl
set_at-last v c (x ∷ xs) = rw (set_at-last v c xs) refl

-- The sum without the byte that changes.
sum-set_at :
    (i v : ℕ) (xs : List ℕ) → i < length xs → sum (set_at i v xs) + byte_at i xs ≡ sum xs + v
sum-set_at i v [] h = absurd (omega arith)
sum-set_at zero v (x ∷ xs) h = omega arith
sum-set_at (suc i) v (x ∷ xs) h = omega (arith, sum-set_at i v xs (omega arith))

byte_at-small : (i : ℕ) (xs : List ℕ) → All (λ x. x < 256) xs → byte_at i xs < 256
byte_at-small i [] h = omega arith
byte_at-small zero (x ∷ xs) h = h.0
byte_at-small (suc i) (x ∷ xs) h = byte_at-small i xs h.1

-- What `is_intact` reads of a block.
pub is_intact-block :
    (n c k : ℕ) (bytes : List ℕ)
    → length bytes ≡ 128
    → is_intact (n ∷ c ∷ bytes ++ k ∷ []) ≡ (c == (255 - n) % 256 && sum bytes % 256 == k)
is_intact-block n c k bytes h =
    rw (take-exactly bytes (k ∷ []) 128 h, byte_at-last bytes k 128 h) refl

judge-broken :
    (expected : ℕ) (block : List ℕ)
    → is_intact block ≡ false
    → judge expected block ≡ (nak, expected)
judge-broken expected block h = rw h refl

-- A data byte that changes, changes the sum.
data-broken :
    (n i v k : ℕ) (bytes : List ℕ)
    → length bytes ≡ 128
    → i < 128
    → All (λ x. x < 256) bytes
    → v < 256
    → v ≢ byte_at i bytes
    → k ≡ sum bytes % 256
    → is_intact (n ∷ (255 - n) ∷ set_at i v bytes ++ k ∷ []) ≡ false
data-broken n i v k bytes h l small s d e =
    let same =
      is_intact-block n (255 - n) k (set_at i v bytes)
        (omega (arith, h, length-set_at i v bytes)) in
    let sums = sum-set_at i v bytes (omega (arith, h, l)) in
    let old = byte_at-small i bytes small in
    let other : sum (set_at i v bytes) % 256 ≢ k = (λ g. d (omega (arith, sums, old, s, e, g))) in
    ground (arith, same, other)

byte_at-append : (i c : ℕ) (xs : List ℕ) → i < length xs → byte_at i (xs ++ c ∷ []) ≡ byte_at i xs
byte_at-append i c [] h = absurd (omega arith)
byte_at-append zero c (x ∷ xs) h = refl
byte_at-append (suc i) c (x ∷ xs) h = byte_at-append i c xs (omega arith)

-- The two bytes that stand for the number.
number-broken :
    (n c k : ℕ) (bytes : List ℕ)
    → length bytes ≡ 128
    → c ≢ (255 - n) % 256
    → is_intact (n ∷ c ∷ bytes ++ k ∷ []) ≡ false
number-broken n c k bytes h d = ground (arith, is_intact-block n c k bytes h)

checksum-broken :
    (n k : ℕ) (bytes : List ℕ)
    → length bytes ≡ 128
    → sum bytes % 256 ≢ k
    → is_intact (n ∷ (255 - n) ∷ bytes ++ k ∷ []) ≡ false
checksum-broken n k bytes h d = ground (arith, is_intact-block n (255 - n) k bytes h)

lt_or_ge : (i n : ℕ) → (i < n) ⊎ (n ≤ i)
lt_or_ge i n = elim (Bool-cases (ltb i n)) [
  | inl e ↦ inl (ground arith)
  | inr e ↦ inr (ground arith)
]

broken :
    (n i v : ℕ) (bytes : List ℕ)
    → length bytes ≡ 128
    → n < 256
    → All (λ x. x < 256) bytes
    → i < 131
    → v < 256
    → v ≢ byte_at i (block_of n bytes)
    → is_intact (set_at i v (block_of n bytes)) ≡ false
broken n zero v bytes h b small l s d =
    number-broken v (255 - n) (sum bytes % 256) bytes h (λ e. d (omega (arith, e, s, b)))
broken n (suc zero) v bytes h b small l s d =
    number-broken n v (sum bytes % 256) bytes h (λ e. d (omega (arith, e, s, b)))
broken n (suc (suc i)) v bytes h b small l s d = elim (lt_or_ge i 128) [
  | inl lt ↦ rw (set_at-append i v (sum bytes % 256) bytes (omega (arith, lt, h))) (
      data-broken n i v (sum bytes % 256) bytes h lt small s
        (λ e. d (e ∙ sym (byte_at-append i (sum bytes % 256) bytes (omega (arith, lt, h))))) refl)
  | inr ge ↦ at_end i (omega (arith, l, ge, h)) d
]
  where
    at_end :
        (j : ℕ)
        → j ≡ length bytes
        → v ≢ byte_at j (bytes ++ (sum bytes % 256 ∷ []))
        → is_intact (n ∷ (255 - n) ∷ set_at j v (bytes ++ (sum bytes % 256 ∷ []))) ≡ false
    at_end j e g =
        let same = set_at-last v (sum bytes % 256) bytes in
        let old = byte_at-last bytes (sum bytes % 256) j (sym e) in
        rw (e, same) (checksum-broken n v bytes h (λ q. g (sym q ∙ sym old)))

-- Behind its header byte a block has 131 bytes. Where exactly one of them arrives wrong, whichever it
-- is, the block is never acknowledged: the receiver answers NAK and expects the same block again.
pub judge-one_error :
    (expected n i v : ℕ) (bytes : List ℕ)
    → length bytes ≡ 128
    → n < 256
    → All (λ x. x < 256) bytes
    → i < 131
    → v < 256
    → v ≢ byte_at i (block_of n bytes)
    → judge expected (set_at i v (block_of n bytes)) ≡ (nak, expected)
judge-one_error expected n i v bytes h b small l s d =
    judge-broken expected (set_at i v (block_of n bytes)) (broken n i v bytes h b small l s d)
