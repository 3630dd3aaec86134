-- ===== src/Worker/Commands/Laws.antt =====
-- The line endings of commands, and the partial writes to a file descriptor.
use retro_bridge.Prelude.{
  ℕ, zero, suc, ◌+◌, ◌≤◌, ◌<◌, ◌≡◌, ◌≢◌, refl, sym, ap, ◌∙◌, inl, inr, true, false, List, [], ◌∷◌,
  ◌++◌, arith, ◌==◌, leb, length, take, drop, Text, text_eq, codes, Bool-cases, leb→le,
  take-append-drop,
}
use native.Mathlib.Nat.{zero-add, suc-add}
use retro_bridge.Worker.Commands.{
  cr, lf, newline_sequence, ends_line, apply_newline, all_written, fd_write,
}

ends_line-append : (s : Text) (c : ℕ) (t : Text) → ends_line (s ++ c ∷ t) ≡ ends_line (c ∷ t)
ends_line-append [] c t = refl
ends_line-append (a ∷ []) c t = refl
ends_line-append (a ∷ b ∷ s) c t = ends_line-append (b ∷ s) c t

ends_line-newline : (s mode : Text) → ends_line (s ++ newline_sequence mode) ≡ true
ends_line-newline s mode = elim (Bool-cases (text_eq mode (codes "cr"))) [
  | inl e ↦ rw e (ends_line-append s cr [])
  | inr e ↦ elim (Bool-cases (text_eq mode (codes "lf"))) [
    | inl k ↦ rw (e, k) (ends_line-append s lf [])
    | inr k ↦ rw (e, k) (ends_line-append s cr (lf ∷ []))
  ]
]

take-length-append : (s t : Text) → take (length s) (s ++ t) ≡ s
take-length-append [] t = refl
take-length-append (c ∷ s) t = rw (take-length-append s t)

apply_newline-fixed : (t mode : Text) → ends_line t ≡ true → apply_newline t mode ≡ t
unfolding apply_newline
apply_newline-fixed [] mode h = refl
apply_newline-fixed (c ∷ s) mode h = rw h

apply_newline-open :
    (t mode : Text)
    → t ≢ []
    → ends_line t ≡ false
    → apply_newline t mode ≡ t ++ newline_sequence mode
unfolding apply_newline
apply_newline-open [] mode n h = absurd (n refl)
apply_newline-open (c ∷ s) mode n h = rw h

-- A command that is not empty goes out with a line ending, whatever the mode, its own text first; and
-- a second application changes nothing, whatever its mode.
pub apply_newline-ends :
    (cmd mode other : Text)
    → cmd ≢ []
    → (ends_line (apply_newline cmd mode) ≡ true)
      × (take (length cmd) (apply_newline cmd mode) ≡ cmd)
      × (apply_newline (apply_newline cmd mode) other ≡ apply_newline cmd mode)
apply_newline-ends cmd mode other h = elim (Bool-cases (ends_line cmd)) [
  | inl e ↦
      let same = apply_newline-fixed cmd mode e in
      rw same (e, take-all cmd, apply_newline-fixed cmd other e)
  | inr e ↦
      let longer = apply_newline-open cmd mode h e in
      let ends = ends_line-newline cmd mode in
      rw longer (
        ends,
        take-length-append cmd (newline_sequence mode),
        apply_newline-fixed (cmd ++ newline_sequence mode) other ends,
      )
]
  where
    take-all : (t : Text) → take (length t) t ≡ t
    take-all [] = refl
    take-all (c ∷ t) = rw (take-all t)

le→leb : (a b : ℕ) → a ≤ b → leb a b ≡ true
le→leb a b h = ground arith

take-nil : (n : ℕ) → take {A = ℕ} n [] ≡ []
take-nil zero = refl
take-nil (suc n) = refl

drop-nil : (n : ℕ) → drop {A = ℕ} n [] ≡ []
drop-nil zero = refl
drop-nil (suc n) = refl

take-drop-add : (n t : ℕ) (xs : List ℕ) → take n (drop t xs) ++ drop (t + n) xs ≡ drop t xs
take-drop-add n zero xs = rw zero-add (take-append-drop n xs)
take-drop-add n (suc t) [] = rw (take-nil n, drop-nil (suc t + n))
take-drop-add n (suc t) (x ∷ xs) = rw suc-add (take-drop-add n t xs)

drop-past : (t : ℕ) (xs : List ℕ) → length xs ≤ t → drop t xs ≡ []
drop-past zero [] h = refl
drop-past zero (x ∷ xs) h = absurd (omega arith)
drop-past (suc t) [] h = refl
drop-past (suc t) (x ∷ xs) h = drop-past t xs (omega arith)

-- Each call of `os.write` takes at least one byte.
abbrev pub AllPositive : List ℕ → Type 0
AllPositive [] = Unit
AllPositive (n ∷ ns) = (0 < n) × AllPositive ns

fd_write-done :
    (bytes ns : List ℕ) (total : ℕ)
    → length bytes ≤ total
    → fd_write bytes total ns ≡ (all_written total, [])
unfolding fd_write
fd_write-done bytes [] total h = rw (le→leb (length bytes) total h)
fd_write-done bytes (n ∷ ns) total h = rw (le→leb (length bytes) total h)

fd_write-step :
    (bytes ns : List ℕ) (n total : ℕ)
    → total < length bytes
    → 0 < n
    → let rest = fd_write bytes (total + n) ns in
      fd_write bytes total (n ∷ ns) ≡ (rest.0, take n (drop total bytes) ++ rest.1)
unfolding fd_write
fd_write-step bytes ns n total h p =
    let long : leb (length bytes) total ≡ false = ground arith in
    let some_taken : (n == 0) ≡ false = ground arith in rw (long, some_taken)

fd_write-from :
    (bytes ns : List ℕ) (total : ℕ)
    → AllPositive ns
    → length bytes ≤ total + length ns
    → ((fd_write bytes total ns).1 ≡ drop total bytes)
      × ((n : ℕ) × ((fd_write bytes total ns).0 ≡ all_written n) × (length bytes ≤ n))
fd_write-from bytes [] total p h =
    let enough : length bytes ≤ total = omega arith in
    rw (fd_write-done bytes [] total enough)
      (sym (drop-past total bytes enough), (total, refl, enough))
fd_write-from bytes (n ∷ ns) total p h = elim (Bool-cases (leb (length bytes) total)) [
  | inl e ↦
      let enough = leb→le (length bytes) total e in
      rw (fd_write-done bytes (n ∷ ns) total enough)
        (sym (drop-past total bytes enough), (total, refl, enough))
  | inr e ↦
      let (out, ended) = fd_write-from bytes ns (total + n) p.1 (omega arith) in
      rw (fd_write-step bytes ns n total (ground arith) p.0)
        (ap (λ x. take n (drop total bytes) ++ x) out ∙ take-drop-add n total bytes, ended)
]

-- If every `os.write` takes at least one byte, `_fd_write` returns after at most one call for each byte,
-- and exactly the given bytes have gone out, in order.
pub fd_write-sends :
    (bytes ns : List ℕ)
    → AllPositive ns
    → length bytes ≤ length ns
    → ((fd_write bytes 0 ns).1 ≡ bytes) × ((n : ℕ) × ((fd_write bytes 0 ns).0 ≡ all_written n))
fd_write-sends bytes ns p h =
    let (out, ended) = fd_write-from bytes ns 0 p (omega arith) in (out, (ended.0, ended.1))
