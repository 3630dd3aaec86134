-- ===== src/Jobs/Output/Blocks.antt =====
-- The blocks that are read from the end of a file.
use retro_bridge.Prelude.{
  ℕ, zero, suc, ◌+◌, ◌-◌, ◌≤◌, ◌≡◌, ◌⊎◌, refl, sym, ap, ◌∙◌, Bool, true, false, ◌&&◌, List, [], ◌∷◌,
  ◌++◌, arith, if◌then◌else◌, drop, take, min, take-append-drop, inl, inr, ltb, leb,
}
use retro_bridge.Model.{count, count-append}
use retro_bridge.Jobs.Output.{is_byte, read_blocks}

drop-drop {ℓ} : {A : Type ℓ} (n j k : ℕ) (xs : List A) → n ≡ k + j → drop j (drop k xs) ≡ drop n xs
drop-drop n j zero xs h = let same : j ≡ n = omega (arith, h) in ap (λ i. drop i xs) same
drop-drop zero j (suc k) xs h = absurd (omega (arith, h))
drop-drop (suc n) zero (suc k) [] h = refl
drop-drop (suc n) (suc j) (suc k) [] h = refl
drop-drop (suc n) j (suc k) (x ∷ xs) h = drop-drop n j k xs (omega (arith, h))

-- What the loop has read is the end of the file, with enough newlines unless it is the whole file.
unfoldable pub IsRead : ℕ → List ℕ → ℕ × List ℕ → Type 0
IsRead tail file r = (r.1 ≡ drop r.0 file) × ((r.0 ≡ 0) ⊎ (suc tail ≤ count (is_byte 10) r.1))

pub read_blocks-IsRead :
    (fuel tail : ℕ) (file : List ℕ) (pos : ℕ) (read : List ℕ) (newlines : ℕ)
    → pos ≤ fuel
    → read ≡ drop pos file
    → newlines ≡ count (is_byte 10) read
    → IsRead tail file (read_blocks fuel tail file pos read newlines)
unfolding read_blocks IsRead
read_blocks-IsRead zero tail file pos read newlines f e c = (e, inl (omega (arith, f)))
read_blocks-IsRead (suc fuel) tail file pos read newlines f e c =
    by_test (ltb 0 pos) (leb newlines tail) refl refl (λ p.
      read_blocks-IsRead fuel tail file (pos - step) (chunk ++ read)
        (newlines + count (is_byte 10) chunk) (ground (arith, f, p)) joined
        (omega (arith, c, count-append (is_byte 10) chunk read)))
  where
    step : ℕ
    step = min 8192 pos

    chunk : List ℕ
    chunk = take step (drop (pos - step) file)

    joined : chunk ++ read ≡ drop (pos - step) file
    joined =
        ap (λ l. chunk ++ l) (e ∙ sym (drop-drop pos step (pos - step) file (omega arith)))
        ∙ take-append-drop step (drop (pos - step) file)

    by_test :
        (more few : Bool)
        → ltb 0 pos ≡ more
        → leb newlines tail ≡ few
        → (ltb 0 pos ≡ true
            → IsRead tail file (
                read_blocks fuel tail file
                  (pos - step)
                  (chunk ++ read)
                  (newlines + count (is_byte 10) chunk)))
        → IsRead tail file (
            if more && few
            then read_blocks fuel tail file
                (pos - step)
                (chunk ++ read)
                (newlines + count (is_byte 10) chunk)
            else (pos, read))
    by_test true true p q r = r p
    by_test true false p q r = (e, inr (ground (arith, c, q)))
    by_test false few p q r = (e, inl (ground (arith, p)))
