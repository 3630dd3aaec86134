-- ===== src/Jobs/Output/Tail.antt =====
-- The last lines of a file without reading all of it.
use retro_bridge.Prelude.{
  ℕ, zero, suc, ◌≤◌, ◌≡◌, ◌≢◌, ◌⊎◌, refl, sym, ap, ◌∙◌, Bool, true, false, ◌&&◌, Option, none, some,
  List, [], ◌∷◌, ◌++◌, ◌==◌, arith, if◌then◌else◌, Text, length, drop, take, drop-short,
  length-append, append_assoc, take-append-drop, Bool-cases, inl, inr, map, ltb,
}
use retro_bridge.Model.{count}
use retro_bridge.Jobs.Output.{
  universal, split, iterate, last, without_end, rstrip_newlines, is_byte, read_blocks, all_lines,
  tail_lines, read_output_tail,
}
use retro_bridge.Jobs.Output.Blocks.{IsRead, read_blocks-IsRead}
use retro_bridge.Jobs.Output.Lines.{
  IsFull, split-IsFull, split-append, without_end-append, iterate-append, universal-append,
  last-append, last-map, iterate-without_end,
}

first_newline :
    (d : List ℕ) (n : ℕ)
    → count (is_byte 10) d ≡ suc n
    → (x : List ℕ) × ((y : List ℕ) × ((d ≡ x ++ 10 ∷ y) × (count (is_byte 10) y ≡ n)))
first_newline [] n h = absurd (omega (arith, h))
first_newline (b ∷ d) n h = elim (Bool-cases (b == 10)) [
  | inl e ↦
      let ten : b ≡ 10 = ground (arith, e) in ([], (d, (ap (λ c. c ∷ d) ten, ground (arith, h, e))))
  | inr e ↦
      let (x, (y, (p, q))) = first_newline d n (ground (arith, h, e)) in
      (b ∷ x, (y, (ap (λ l. b ∷ l) p, q)))
]

universal-full : (s : Text) → s ≢ [] → universal s ≢ []
universal-full [] h e = h refl
universal-full (c ∷ []) h e = cc
universal-full (c ∷ d ∷ s) h e = by_test (c == 13 && d == 10) (universal-full (d ∷ s) (λ q. cc)) e
  where
    by_test :
        (b : Bool)
        → universal (d ∷ s) ≢ []
        → (if b then universal (d ∷ s) else (if c == 13 then 10 else c) ∷ universal (d ∷ s)) ≢ []
    by_test true r e = r e
    by_test false r e = cc

drop_one-append : (xs ys : List Text) → IsFull xs → drop 1 (xs ++ ys) ≡ drop 1 xs ++ ys
drop_one-append [] ys h = absurd h
drop_one-append (x ∷ xs) ys h = refl

partial_at :
    (tail : ℕ) (text before rest : Text)
    → text ≡ before ++ 10 ∷ rest
    → tail ≤ length (iterate rest)
    → last tail (without_end text (drop 1 (split text))) ≡ last tail (iterate rest)
partial_at tail text before rest h many =
    ap (λ t. last tail (without_end t (drop 1 (split t)))) h
    ∙ (ap (λ lines. last tail (without_end (before ++ 10 ∷ rest) lines))
          (ap (drop 1) (split-append before rest)
            ∙ drop_one-append (split before) (split rest) (split-IsFull before))
        ∙ (ap (last tail) (without_end-append (drop 1 (split before)) before rest)
            ∙ last-append tail (drop 1 (split before)) (iterate rest) many))

last-nil : (n : ℕ) → last n [] ≡ []
last-nil n = elim (Bool-cases (ltb n 0)) [ inl e ↦ absurd (ground (arith, e)) | inr e ↦ rw e refl ]

-- ASCII is decoded byte by byte, so that a text can be cut behind a newline; and something is decoded as
-- something.
module _ (decode : List ℕ → Text)
    (newline-decode : (x y : List ℕ) → decode (x ++ 10 ∷ y) ≡ decode x ++ 10 ∷ decode y)
    (nonempty-decode : (b : ℕ) (bytes : List ℕ) → decode (b ∷ bytes) ≢ [])
    (empty-decode : decode [] ≡ []) where
  lines_of : List ℕ → List Text
  lines_of file = iterate (universal (decode file))

  -- Behind a newline, the lines are those of the rest.
  cut :
      (x y : List ℕ)
      → (z : Text) × (universal (decode (x ++ 10 ∷ y)) ≡ z ++ 10 ∷ universal (decode y))
  cut x y =
      let (z, h) = universal-append (decode x) (decode y) in
      (z, ap universal (newline-decode x y) ∙ h)

  lines-cut :
      (x y : List ℕ) → (zs : List Text) × (IsFull zs × (lines_of (x ++ 10 ∷ y) ≡ zs ++ lines_of y))
  unfolding lines_of
  lines-cut x y =
      let (z, h) = cut x y in
      (split z, (split-IsFull z, ap iterate h ∙ iterate-append z (universal (decode y))))

  length-full : (zs : List Text) → IsFull zs → 1 ≤ length zs
  length-full [] h = absurd h
  length-full (z ∷ zs) h = omega arith

  -- There are at least as many lines as newlines.
  count-lines : (n : ℕ) (d : List ℕ) → count (is_byte 10) d ≡ n → n ≤ length (lines_of d)
  count-lines zero d h = omega arith
  count-lines (suc n) d h =
      let (x, (y, (p, q))) = first_newline d n h in
      let (zs, (full, e)) = lines-cut x y in
      let more = length-full zs full in
      let rest = count-lines n y q in
      let same = ap length (ap lines_of p ∙ e) in
      omega (arith, more, rest, same, length-append zs (lines_of y))

  -- The lines of a part of the file with one newline too many.
  partial_lines :
      (tail : ℕ) (file before read : List ℕ)
      → file ≡ before ++ read
      → suc tail ≤ count (is_byte 10) read
      → last tail (without_end (universal (decode read)) (drop 1 (split (universal (decode read)))))
        ≡ last tail (lines_of file)
  unfolding lines_of
  partial_lines tail file before read f h =
      let (n, (e, few)) = enough (count (is_byte 10) read) h in
      let (x, (y, (p, q))) = first_newline read n e in
      let many : tail ≤ length (lines_of y) = omega (arith, few, count-lines n y q) in
      let (z, g) = cut x y in
      let (zs, (full, w)) = lines-cut (before ++ x) y in
      partial_at tail (universal (decode read)) z (universal (decode y))
        (ap (λ d. universal (decode d)) p ∙ g) many
      ∙ sym (
          ap (λ d. last tail (lines_of d))
            (f ∙ (ap (λ l. before ++ l) p ∙ sym (append_assoc before x (10 ∷ y))))
          ∙ (ap (last tail) w ∙ last-append tail zs (lines_of y) many))
    where
      enough : (c : ℕ) → suc tail ≤ c → (n : ℕ) × ((c ≡ suc n) × (tail ≤ n))
      enough zero f = absurd (omega (arith, f))
      enough (suc n) f = (n, (refl, omega (arith, f)))

  whole :
      (tail b : ℕ) (bytes read : List ℕ)
      → read ≡ b ∷ bytes
      → last tail (without_end (universal (decode read)) (split (universal (decode read))))
        ≡ last tail (lines_of (b ∷ bytes))
  unfolding lines_of
  whole tail b bytes read h =
      ap (λ d. last tail (without_end (universal (decode d)) (split (universal (decode d))))) h
      ∙ sym (
          ap (last tail) (
            iterate-without_end (universal (decode (b ∷ bytes)))
              (universal-full (decode (b ∷ bytes)) (nonempty-decode b bytes))))

  tail_lines-last :
      (tail b : ℕ) (bytes : List ℕ)
      → tail_lines decode tail (b ∷ bytes) ≡ last tail (all_lines decode (b ∷ bytes))
  unfolding lines_of IsRead
  tail_lines-last tail b bytes = by_read (read_blocks (length file) tail file (length file) [] 0) (
      read_blocks-IsRead (length file) tail file (length file) [] 0 (omega arith)
        (sym (drop-short (length file) file (omega arith))) refl)
    where
      file : List ℕ
      file = b ∷ bytes

      by_read :
          (r : ℕ × List ℕ)
          → IsRead tail file r
          → map rstrip_newlines (
              last tail (
                without_end (universal (decode r.1)) (
                  if ltb 0 r.0
                  then drop 1 (split (universal (decode r.1)))
                  else split (universal (decode r.1)))))
            ≡ last tail (map rstrip_newlines (lines_of file))
      by_read (pos, read) (e, enough) = elim (Bool-cases (ltb 0 pos)) [
        | inl p ↦ rw p (
            ap (map rstrip_newlines) (
              partial_lines tail file (take pos file) read
                (sym (take-append-drop pos file) ∙ ap (λ l. take pos file ++ l) (sym e))
                (some_left pos enough p))
            ∙ sym (last-map rstrip_newlines tail (lines_of file)))
        | inr n ↦ rw n (
            ap (map rstrip_newlines) (whole tail b bytes read (e ∙ at_start pos n))
            ∙ sym (last-map rstrip_newlines tail (lines_of file)))
      ]
        where
          some_left :
              (k : ℕ)
              → (k ≡ 0) ⊎ (suc tail ≤ count (is_byte 10) read)
              → ltb 0 k ≡ true
              → suc tail ≤ count (is_byte 10) read
          some_left k (inl z) q = absurd (ground (arith, z, q))
          some_left k (inr h) q = h

          at_start : (k : ℕ) → ltb 0 k ≡ false → drop k file ≡ file
          at_start k q =
              let zero_left : k ≡ 0 = ground (arith, q) in ap (λ i. drop i file) zero_left

  -- The last lines of a job's output are those that reading the whole file gives, although only as
  -- many blocks of it are read as hold one newline more than lines are asked for. This needs that UTF-8
  -- is decoded behind a newline as if it stood alone, and to an empty text exactly where nothing stands.
  pub read_output_tail-last :
      (tail : ℕ) (file : Option (List ℕ))
      → tail ≢ 0
      → read_output_tail decode file (some tail) ≡ last tail (read_output_tail decode file none)
  unfolding read_output_tail
  read_output_tail-last zero file h = absurd (h refl)
  read_output_tail-last (suc n) none h = sym (last-nil (suc n))
  read_output_tail-last (suc n) (some []) h = sym (
      ap (λ t. last (suc n) (map rstrip_newlines (iterate (universal t)))) empty-decode
      ∙ last-nil (suc n))
  read_output_tail-last (suc n) (some (b ∷ bytes)) h = tail_lines-last (suc n) b bytes
