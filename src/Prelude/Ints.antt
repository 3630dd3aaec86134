-- ===== src/Prelude/Ints.antt =====
-- Python's `int(s)` of a text, for ASCII, and the round trip with `str(n)`.
use Prim.Native.Nat.{ℕ, zero, suc, ◌+◌, ◌-◌, ◌*◌, ◌/◌, ◌%◌, ◌<◌}
use mathlib.Core.Path.{◌≡◌, refl, ap, ◌∙◌}
use mathlib.Core.Bool.{Bool, true, false, ◌&&◌, ◌||◌}
use mathlib.Core.List.{[], ◌∷◌, reverse, reverse-cons, reverse-reverse}
use mathlib.Core.Option.{Option, none, some}
use mathlib.Core.Logic.{inl, inr}
use native.Mathlib.Omega.{arith}
use retro_bridge.Prelude.Tests.{ltb, leb, ◌==◌, if◌then◌else◌, Bool-cases}
use retro_bridge.Prelude.Lists.{All, All-append}
use retro_bridge.Prelude.Texts.{Text, is_space, digits_into, decimal}

-- `str.strip()`: below 128, `str` also takes the four separators for spaces.
abbrev pub is_str_space : ℕ → Bool
is_str_space c = is_space c || (leb 28 c && leb c 31)

abbrev pub str_lstrip : Text → Text
str_lstrip [] = []
str_lstrip (c ∷ s) = if is_str_space c then str_lstrip s else c ∷ s

abbrev pub str_strip : Text → Text
str_strip s = reverse (str_lstrip (reverse (str_lstrip s)))

abbrev pub is_digit : ℕ → Bool
is_digit c = leb b'0' c && leb c b'9'

-- The digits, between which single underscores may stand; `after` says that a digit came last.
abbrev pub read_digits : Bool → ℕ → Text → Option ℕ
read_digits after n [] = if after then some n else none
read_digits after n (c ∷ s) =
    let more = read_digits true (n * 10 + (c - b'0')) s in
    let skip = read_digits false n s in
    if is_digit c then more else if c == b'_' && after then skip else none

-- An integer: whether it has a minus sign, and its digits.
abbrev pub signed : Bool → Option ℕ → Option (Bool × ℕ)
signed minus none = none
signed minus (some n) = some (minus, n)

abbrev pub read_signed : Text → Option (Bool × ℕ)
read_signed [] = none
read_signed (c ∷ s) =
    if c == b'-'
    then signed true (read_digits false 0 s)
    else if c == b'+'
    then signed false (read_digits false 0 s)
    else signed false (read_digits false 0 (c ∷ s))

-- `int(s)`; `none` is a ValueError.
unfoldable pub parse_int : Text → Option (Bool × ℕ)
parse_int s = read_signed (str_strip s)

abbrev pub AllDigits : Text → Type 0
AllDigits = All (λ c. is_digit c ≡ true)

digits_into-digits : (f n : ℕ) (rest : Text) → AllDigits rest → AllDigits (digits_into f n rest)
unfolding digits_into
digits_into-digits zero n rest h = h
digits_into-digits (suc f) n rest h = elim (Bool-cases (ltb n 10)) [
  | inl e ↦ rw e (ground (arith, e), h)
  | inr e ↦ rw e (digits_into-digits f (n / 10) ((b'0' + n % 10) ∷ rest) (ground arith, h))
]

pub decimal-digits : (n : ℕ) → AllDigits (decimal n)
unfolding decimal
decimal-digits n = digits_into-digits (suc n) n [] tt

read_digits-digits_into :
    (f n : ℕ) (after : Bool) (rest : Text)
    → n < f
    → read_digits after 0 (digits_into f n rest) ≡ read_digits true n rest
unfolding digits_into
read_digits-digits_into zero n after rest h = absurd (omega (arith, h))
read_digits-digits_into (suc f) n after rest h = elim (Bool-cases (ltb n 10)) [
  | inl e ↦
      let digit : is_digit (b'0' + n) ≡ true = ground (arith, e) in
      let value : 0 * 10 + ((b'0' + n) - b'0') ≡ n = omega arith in
      rw (e, digit) (ap (λ k. read_digits true k rest) value)
  | inr e ↦
      let digit : is_digit (b'0' + n % 10) ≡ true = ground arith in
      let value : n / 10 * 10 + ((b'0' + n % 10) - b'0') ≡ n = omega arith in
      rw e (
        read_digits-digits_into f (n / 10) after ((b'0' + n % 10) ∷ rest) (ground (arith, e, h))
        ∙ rw digit (ap (λ k. read_digits true k rest) value))
]

-- A text without spaces.
abbrev pub IsSolid : Text → Type 0
IsSolid = All (λ c. is_str_space c ≡ false)

solid-str_lstrip : (s : Text) → IsSolid s → str_lstrip s ≡ s
solid-str_lstrip [] h = refl
solid-str_lstrip (c ∷ s) h = rw h.0 refl

IsSolid-reverse : (s : Text) → IsSolid s → IsSolid (reverse s)
IsSolid-reverse [] h = tt
IsSolid-reverse (c ∷ s) h = rw (reverse-cons c s) (
    All-append (λ d. is_str_space d ≡ false) (reverse s) (c ∷ []) (IsSolid-reverse s h.1) (h.0, tt))

pub solid-str_strip : (s : Text) → IsSolid s → str_strip s ≡ s
solid-str_strip s h =
    ap (λ t. reverse (str_lstrip (reverse t))) (solid-str_lstrip s h)
    ∙ (ap reverse (solid-str_lstrip (reverse s) (IsSolid-reverse s h)) ∙ reverse-reverse s)

pub digits-IsSolid : (s : Text) → AllDigits s → IsSolid s
digits-IsSolid [] h = tt
digits-IsSolid (c ∷ s) h = (ground (arith, h.0), digits-IsSolid s h.1)

digits-read_signed :
    (s : Text) (n : ℕ)
    → AllDigits s
    → read_digits false 0 s ≡ some n
    → read_signed s ≡ some (false, n)
digits-read_signed [] n h e = absurd cc
digits-read_signed (c ∷ s) n h e =
    let not_minus : (c == b'-') ≡ false = ground (arith, h.0) in
    let not_plus : (c == b'+') ≡ false = ground (arith, h.0) in
    rw (not_minus, not_plus) (ap (signed false) e)

value-decimal : (n : ℕ) → read_digits false 0 (decimal n) ≡ some n
unfolding decimal
value-decimal n = read_digits-digits_into (suc n) n false [] (omega arith)

-- `int(str(n)) == n`
pub parse_int-decimal : (n : ℕ) → parse_int (decimal n) ≡ some (false, n)
unfolding parse_int
parse_int-decimal n =
    ap read_signed (solid-str_strip (decimal n) (digits-IsSolid (decimal n) (decimal-digits n)))
    ∙ digits-read_signed (decimal n) n (decimal-digits n) (value-decimal n)
