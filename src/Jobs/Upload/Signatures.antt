-- ===== src/Jobs/Upload/Signatures.antt =====
-- The signature table against the whole content of an uploaded file.
use retro_bridge.Prelude.{
  ℕ, zero, suc, ◌≤◌, ◌≡◌, ◌↔◌, refl, ◌⊎◌, inl, inr, true, false, ◌&&◌, none, List, [], ◌∷◌, ◌++◌,
  arith, leb, length, take, All, Text, text_eq, starts_with, Bool-cases,
}
use retro_bridge.Jobs.Upload.{reject_signatures, min_upload_read, find_signature, signature_of}

-- The test of the loop, which slices the header, is a test for a prefix of the whole content, as long
-- as the header is no shorter than the signature.
slice_test :
    (sig content : List ℕ) (n : ℕ)
    → length sig ≤ n
    → (leb (length sig) (length (take n content))
        && text_eq (take (length sig) (take n content)) sig)
      ≡ starts_with sig content
slice_test [] content n h = ground arith
slice_test (s ∷ sig) content zero h = absurd (omega arith)
slice_test (s ∷ sig) [] (suc n) h = ground arith
slice_test (s ∷ sig) (c ∷ content) (suc n) h = ground (arith, slice_test sig content n)

-- Every signature of the table has at least one byte and fits into the header.
abbrev Fits : List ℕ × Text → Type 0
Fits s = (1 ≤ length s.0) × (length s.0 ≤ min_upload_read)

reject_signatures-Fits : All Fits reject_signatures
reject_signatures-Fits = omega arith

-- No signature of the table is a prefix of the content.
abbrev pub IsUnsigned : List (List ℕ × Text) → List ℕ → Type 0
IsUnsigned sigs content = All (λ s. starts_with s.0 content ≡ false) sigs

find_signature-none :
    (sigs : List (List ℕ × Text)) (content : List ℕ)
    → All Fits sigs
    → (find_signature sigs (take min_upload_read content) ≡ none → IsUnsigned sigs content)
      × (IsUnsigned sigs content → find_signature sigs (take min_upload_read content) ≡ none)
find_signature-none [] content h = ((λ _. tt), (λ _. refl))
find_signature-none ((sig, label) ∷ sigs) content h =
    let rest = find_signature-none sigs content h.1 in
    rw (slice_test sig content min_upload_read h.0.1) (elim (Bool-cases (starts_with sig content)) [
      | inl e ↦ rw e ((λ h. cc), (λ k. cc))
      | inr e ↦ rw e ((λ h. (refl, rest.0 h)), (λ k. rest.1 k.1))
    ])

starts_with-append : (sig rest : List ℕ) → starts_with sig (sig ++ rest) ≡ true
starts_with-append [] rest = refl
starts_with-append (s ∷ sig) rest = ground (arith, starts_with-append sig rest)

-- The byte sequences of the table.
abbrev pub IsListed : List ℕ → List (List ℕ × Text) → Type 0
IsListed sig [] = ⊥
IsListed sig (s ∷ sigs) = (sig ≡ s.0) ⊎ IsListed sig sigs

listed_prefix :
    (sig rest : List ℕ) (sigs : List (List ℕ × Text))
    → IsListed sig sigs
    → ¬ IsUnsigned sigs (sig ++ rest)
listed_prefix sig rest [] m u = m
listed_prefix sig rest (s ∷ sigs) (inl e) u = cc (rw e at (starts_with-append sig rest), u.0)
listed_prefix sig rest (s ∷ sigs) (inr m) u = listed_prefix sig rest sigs m u.1

-- No signature of `_REJECT_SIGNATURES` is a prefix of the content.
pub HasNoSignature : List ℕ → Type 0
HasNoSignature content = IsUnsigned reject_signatures content

-- The header decides about the whole content.
pub signature_of-none :
    (content : List ℕ)
    → (signature_of (take min_upload_read content) ≡ none) ↔ HasNoSignature content
unfolding signature_of HasNoSignature
signature_of-none content = find_signature-none reject_signatures content reject_signatures-Fits

pub not-HasNoSignature :
    (sig rest : List ℕ) → IsListed sig reject_signatures → ¬ HasNoSignature (sig ++ rest)
unfolding HasNoSignature
not-HasNoSignature sig rest m = listed_prefix sig rest reject_signatures m
