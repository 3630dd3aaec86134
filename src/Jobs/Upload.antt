-- ===== src/Jobs/Upload.antt =====
-- `validate_file_content` of retrobridge/jobs/utils.py: the check of an uploaded file by its name's
-- extension and its first 1024 bytes.
pub mod Signatures
pub mod Accepted
mod Utf8
unfoldable pub use Utf8.{is_utf8, has_replacement}
use retro_bridge.Prelude.{
  ℕ, ◌+◌, Bool, true, false, not, ◌&&◌, ◌||◌, Option, none, some, List, [], ◌∷◌, ◌++◌, ◌==◌, ltb,
  leb, if◌then◌else◌, length, take, drop, Text, codes, text_eq, one_of, has_char, lower, lstrip,
}

abbrev pub allowed_extensions : List Text
allowed_extensions =
    codes "bin" ∷ codes "hex" ∷ codes "obj" ∷ codes "asm" ∷ codes "s" ∷ codes "txt" ∷ []

abbrev pub text_extensions : List Text
text_extensions = codes "txt" ∷ codes "asm" ∷ codes "s" ∷ codes "hex" ∷ []

-- `_REJECT_SIGNATURES`: the bytes and the label; every offset is 0.
abbrev pub reject_signatures : List (List ℕ × Text)
reject_signatures =
    (0x7f ∷ codes "ELF", codes "ELF executable")
    ∷ (codes "MZ", codes "DOS/PE executable")
    ∷ (0xcf ∷ 0xfa ∷ 0xed ∷ 0xfe ∷ [], codes "Mach-O 64-bit executable")
    ∷ (0xce ∷ 0xfa ∷ 0xed ∷ 0xfe ∷ [], codes "Mach-O 32-bit executable")
    ∷ (0xfe ∷ 0xed ∷ 0xfa ∷ 0xce ∷ [], codes "Mach-O 64-bit (reverse)")
    ∷ (0xfe ∷ 0xed ∷ 0xfa ∷ 0xcf ∷ [], codes "Mach-O 32-bit (reverse)")
    ∷ (0xca ∷ 0xfe ∷ 0xba ∷ 0xbe ∷ [], codes "Mach-O universal binary")
    ∷ (0xbe ∷ 0xba ∷ 0xfe ∷ 0xca ∷ [], codes "Mach-O universal (reverse)")
    ∷ (0x00 ∷ 0x00 ∷ 0x01 ∷ 0x00 ∷ [], codes "Windows icon")
    ∷ (b'P' ∷ b'K' ∷ 0x03 ∷ 0x04 ∷ [], codes "ZIP archive")
    ∷ (0x1f ∷ 0x8b ∷ [], codes "gzip archive")
    ∷ (codes "Rar!" ++ 0x1a ∷ 0x07 ∷ [], codes "RAR archive")
    ∷ (0xed ∷ 0xab ∷ 0xee ∷ 0xdb ∷ [], codes "RPM package")
    ∷ (codes "BZh", codes "bzip2 archive")
    ∷ (0x89 ∷ codes "PNG", codes "PNG image")
    ∷ (0xff ∷ 0xd8 ∷ 0xff ∷ [], codes "JPEG image")
    ∷ (codes "GIF8", codes "GIF image")
    ∷ (codes "%PDF", codes "PDF document")
    ∷ (0xd0 ∷ 0xcf ∷ 0x11 ∷ 0xe0 ∷ [], codes "OLE2/MS Office document")
    ∷ []

abbrev pub min_upload_read : ℕ
min_upload_read = 1024

-- The part behind the last dot, or all of it where there is none.
abbrev pub behind_dot : Text → Text → Text
behind_dot part [] = part
behind_dot part (c ∷ s) = behind_dot (if c == b'.' then s else part) s

-- `filename.rsplit(".", 1)[-1].lower() if "." in filename else ""`
unfoldable pub extension : Text → Text
extension filename = if has_char b'.' filename then lower (behind_dot filename filename) else []

-- The ValueErrors, in the order of the tests.
pub data Rejection : Type 0 where
  unsupported_type : Text → Rejection
  unreadable : Rejection
  empty_file : Rejection
  looks_like : Text → Rejection
  null_bytes : Text → Rejection
  not_text : Text → Rejection
  no_colon : Rejection

-- The loop over the signatures: the label of the first that the header begins with.
abbrev pub find_signature : List (List ℕ × Text) → List ℕ → Option Text
find_signature [] header = none
find_signature ((sig, label) ∷ sigs) header =
    if leb (length sig) (length header) && text_eq (take (length sig) header) sig
    then some label
    else find_signature sigs header

-- `header.decode("ascii")` goes through.
abbrev pub is_ascii : List ℕ → Bool
is_ascii [] = true
is_ascii (b ∷ bs) = ltb b 128 && is_ascii bs

-- Not `stripped and stripped[0:1] != b":"`
abbrev pub colon_first : List ℕ → Bool
colon_first [] = true
colon_first (b ∷ bs) = b == b':'

unfoldable pub check_text : Text → List ℕ → Option Rejection
check_text ext header =
    if has_char 0 header
    then some (null_bytes ext)
    else if not (is_ascii header) && has_replacement header
    then some (not_text ext)
    else if text_eq ext (codes "hex") && not (colon_first (lstrip header))
    then some no_colon
    else none

-- The label of the signature that the header begins with, if there is one.
unfoldable pub signature_of : List ℕ → Option Text
signature_of header = find_signature reject_signatures header

-- The rest of the check, once the loop over the signatures has ended.
abbrev pub check_signed : Option Text → Text → List ℕ → Option Rejection
check_signed (some label) ext header = some (looks_like label)
check_signed none ext header = if one_of ext text_extensions then check_text ext header else none

unfoldable pub check_header : Text → List ℕ → Option Rejection
check_header ext [] = some empty_file
check_header ext (b ∷ bs) = check_signed (signature_of (b ∷ bs)) ext (b ∷ bs)

-- `none` stands for acceptance; the content is `none` where reading it raises.
unfoldable pub validate_file_content : Option (List ℕ) → Text → Option Rejection
validate_file_content content filename =
    let ext = extension filename in
    if not (one_of ext allowed_extensions) then some (unsupported_type ext) else elim content [
      | none ↦ some unreadable
      | some bs ↦ check_header ext (take min_upload_read bs)
    ]
