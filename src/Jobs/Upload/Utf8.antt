-- ===== src/Jobs/Upload/Utf8.antt =====
-- `bytes.decode("utf-8", errors="replace")`, as far as it decides whether U+FFFD is in the result:
-- some byte is no part of a well-formed sequence, or the bytes spell U+FFFD itself.
use retro_bridge.Prelude.{
  ℕ, Bool, true, false, not, ◌&&◌, ◌||◌, List, [], ◌∷◌, leb, if◌then◌else◌, contains,
}

abbrev pub in_range : ℕ → ℕ → ℕ → Bool
in_range lo hi b = leb lo b && leb b hi

-- The ranges of the bytes that must follow a first byte; a byte that begins no sequence gets one
-- that nothing meets.
abbrev pub trail : ℕ → List (ℕ × ℕ)
trail b =
    if leb b 0x7f
    then []
    else if in_range 0xc2 0xdf b
    then (0x80, 0xbf) ∷ []
    else if in_range 0xe0 0xe0 b
    then (0xa0, 0xbf) ∷ (0x80, 0xbf) ∷ []
    else if in_range 0xed 0xed b
    then (0x80, 0x9f) ∷ (0x80, 0xbf) ∷ []
    else if in_range 0xe1 0xef b
    then (0x80, 0xbf) ∷ (0x80, 0xbf) ∷ []
    else if in_range 0xf0 0xf0 b
    then (0x90, 0xbf) ∷ (0x80, 0xbf) ∷ (0x80, 0xbf) ∷ []
    else if in_range 0xf1 0xf3 b
    then (0x80, 0xbf) ∷ (0x80, 0xbf) ∷ (0x80, 0xbf) ∷ []
    else if in_range 0xf4 0xf4 b
    then (0x80, 0x8f) ∷ (0x80, 0xbf) ∷ (0x80, 0xbf) ∷ []
    else (1, 0) ∷ []

-- The bytes are well formed where those ranges are still to be met.
abbrev pub follows : List (ℕ × ℕ) → List ℕ → Bool
follows [] [] = true
follows (_ ∷ _) [] = false
follows [] (b ∷ bs) = follows (trail b) bs
follows ((lo, hi) ∷ more) (b ∷ bs) = in_range lo hi b && follows more bs

abbrev pub is_utf8 : List ℕ → Bool
is_utf8 = follows []

unfoldable pub has_replacement : List ℕ → Bool
has_replacement bs = not (is_utf8 bs) || contains (0xef ∷ 0xbf ∷ 0xbd ∷ []) bs
