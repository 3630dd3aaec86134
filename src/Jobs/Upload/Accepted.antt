-- ===== src/Jobs/Upload/Accepted.antt =====
-- Exactly which uploads `validate_file_content` accepts.
use retro_bridge.Prelude.{
  ℕ, ◌≡◌, ◌≢◌, ◌↔◌, refl, ◌⊎◌, inl, inr, true, false, Option, none, some, List, [], ◌∷◌, ◌++◌,
  arith, take, Text, text_eq, codes, Bool-cases, one_of, has_char, lstrip,
}
use retro_bridge.Jobs.Upload.{
  reject_signatures, min_upload_read, signature_of, check_signed, check_text, check_header,
  validate_file_content, extension, allowed_extensions, text_extensions, is_ascii, has_replacement,
  colon_first,
}
use retro_bridge.Jobs.Upload.Signatures.{
  HasNoSignature, signature_of-none, IsListed, not-HasNoSignature,
}

-- What a text file's first 1024 bytes must be like.
pub record IsPlainText (ext : Text) (header : List ℕ) : Type 0 where
  pub no_null : has_char 0 header ≡ false
  pub decodes : (is_ascii header ≡ true) ⊎ (has_replacement header ≡ false)
  pub hex_colon : text_eq ext (codes "hex") ≡ true → colon_first (lstrip header) ≡ true

pub record IsAccepted (ext : Text) (content : List ℕ) : Type 0 where
  pub allowed : one_of ext allowed_extensions ≡ true
  pub nonempty : content ≢ []
  pub unsigned : HasNoSignature content
  pub plain : one_of ext text_extensions ≡ true → IsPlainText ext (take min_upload_read content)

check_text_iff :
    (ext : Text) (header : List ℕ) → (check_text ext header ≡ none) ↔ IsPlainText ext header
unfolding check_text
check_text_iff ext header = (
  (λ h. record { no_null = ground arith; decodes = ground arith; hex_colon = λ k. ground arith }),
  (λ p. ground (arith, p.no_null, p.decodes, p.hex_colon)),
)

check_header_iff :
    (ext : Text) (b : ℕ) (content : List ℕ)
    → let header = take min_upload_read (b ∷ content) in
      (check_header ext header ≡ none)
      ↔ HasNoSignature (b ∷ content) × (one_of ext text_extensions ≡ true → IsPlainText ext header)
unfolding check_header
check_header_iff ext b content = by_signature (signature_of header) refl
  where
    header : List ℕ
    header = take min_upload_read (b ∷ content)

    Rest : Type 0
    Rest =
        HasNoSignature (b ∷ content) × (one_of ext text_extensions ≡ true → IsPlainText ext header)

    by_signature :
        (o : Option Text)
        → signature_of header ≡ o
        → (check_signed (signature_of header) ext header ≡ none) ↔ Rest
    by_signature (some l) e = rw e ((λ h. cc), (λ r. cc ((signature_of-none (b ∷ content)).1 r.0)))
    by_signature none e = rw e (
      (λ h. (
        (signature_of-none (b ∷ content)).0 e,
        (λ k. (check_text_iff ext header).0 (rw k at h)),
      )),
      (λ r. elim (Bool-cases (one_of ext text_extensions)) [
        | inl k ↦ rw k ((check_text_iff ext header).1 (r.1 k))
        | inr k ↦ rw k
      ]),
    )

check_header-IsAccepted :
    (ext : Text) (content : List ℕ)
    → one_of ext allowed_extensions ≡ true
    → (check_header ext (take min_upload_read content) ≡ none) ↔ IsAccepted ext content
check_header-IsAccepted ext [] k = ((λ h. absurd (empty h)), (λ a. absurd (a.nonempty refl)))
  where
    empty : ¬ (check_header ext [] ≡ none)
    empty = unfold check_header in λ h. cc
check_header-IsAccepted ext (b ∷ content) k =
    let iff = check_header_iff ext b content in
    (
      (λ h. record {
        allowed = k;
        nonempty = λ e. cc;
        unsigned = (iff.0 h).0;
        plain = (iff.0 h).1;
      }),
      (λ a. iff.1 (a.unsigned, a.plain)),
    )

-- An upload that can be read is accepted exactly if its extension is allowed, it is not empty, no known
-- signature is a prefix of it and, for the text types, its first 1024 bytes hold no null byte, are
-- ASCII or decode without a replacement character, and, for `.hex`, hold only spaces or begin with a
-- colon behind spaces.
pub validate_file_content_iff :
    (content : List ℕ) (filename : Text)
    → (validate_file_content (some content) filename ≡ none)
      ↔ IsAccepted (extension filename) content
unfolding validate_file_content
validate_file_content_iff content filename =
    elim (Bool-cases (one_of (extension filename) allowed_extensions)) [
      | inl k ↦ rw k (check_header-IsAccepted (extension filename) content k)
      | inr k ↦ rw k ((λ h. cc), (λ a. cc (a.allowed, k)))
    ]

-- A file that begins with a known signature is refused, whatever its name and whatever follows.
pub validate_file_content-signature :
    (sig rest : List ℕ) (filename : Text)
    → IsListed sig reject_signatures
    → validate_file_content (some (sig ++ rest)) filename ≢ none
validate_file_content-signature sig rest filename m h =
    not-HasNoSignature sig rest m ((validate_file_content_iff (sig ++ rest) filename).0 h).unsigned
