-- ===== src/Upload/Detect.antt =====
-- `detect_file_type` and `_verify_docx_zip` of backend/app/ingestion/validators.py. Reading the
-- entries of an archive and decoding UTF-8 are Python's, and are parameters.
pub mod Agrees
use docmesh.Prelude.{
  ℕ, ◌+◌, Bool, true, false, Option, none, some, List, [], ◌∷◌, map, ltb, length, ◌==◌,
  if◌then◌else◌,
}
use docmesh.Text.{starts_with, Text, Unicode, text_eq, text_in, lstrip}
use docmesh.Storage.{FileType, pdf, docx, txt, md}

-- `UploadValidationError.code`
pub data ErrorCode : Type 0 where
  unsupported_type empty_file magic_mismatch zip_bomb too_large : ErrorCode

-- A value, an `UploadValidationError`, or another exception.
pub data Checked {ℓ} (A : Type ℓ) : Type ℓ where
  valid : A → Checked A
  invalid : ErrorCode → Checked A
  crashed : Checked A

-- The values of `FileType`.
abbrev pub extension : FileType → Text
extension pdf = b'p' ∷ b'd' ∷ b'f' ∷ []
extension docx = b'd' ∷ b'o' ∷ b'c' ∷ b'x' ∷ []
extension txt = b't' ∷ b'x' ∷ b't' ∷ []
extension md = b'm' ∷ b'd' ∷ []

-- `FileType(ext)`; `none` is an extension that is not in `ALLOWED_EXTENSIONS`.
unfoldable pub file_type_of : Text → Option FileType
unfolding text_eq
file_type_of ext =
    if text_eq ext (extension pdf)
    then some pdf
    else (if text_eq ext (extension docx)
        then some docx
        else (if text_eq ext (extension txt)
            then some txt
            else (if text_eq ext (extension md) then some md else none)))

unfoldable pub file_type_eq : FileType → FileType → Bool
file_type_eq pdf pdf = true
file_type_eq docx docx = true
file_type_eq txt txt = true
file_type_eq md md = true
file_type_eq _ _ = false

-- "%PDF-"
abbrev pub pdf_magic : Text
pdf_magic = b'%' ∷ b'P' ∷ b'D' ∷ b'F' ∷ b'-' ∷ []

-- "PK\x03\x04"
abbrev pub zip_magic : Text
zip_magic = b'P' ∷ b'K' ∷ 3 ∷ 4 ∷ []

abbrev pub zip_max_entries : ℕ
zip_max_entries = 200

-- 50 MB
abbrev pub zip_max_uncompressed : ℕ
zip_max_uncompressed = 52428800

-- "[Content_Types].xml"
abbrev pub content_types : Text
content_types =
    b'[' ∷ b'C' ∷ b'o' ∷ b'n' ∷ b't' ∷ b'e' ∷ b'n' ∷ b't' ∷ b'_' ∷ b'T' ∷ b'y' ∷ b'p' ∷ b'e' ∷ b's'
    ∷ b']' ∷ b'.' ∷ b'x' ∷ b'm' ∷ b'l' ∷ []

-- `sum(info.file_size for info in infos)`
abbrev pub total_size : List (Text × ℕ) → ℕ
total_size [] = 0
total_size ((name, size) ∷ infos) = size + total_size infos

-- `_verify_docx_zip`, from the entries as (name, declared size); `none` is `BadZipFile`. The result
-- is the error that it raises.
unfoldable pub verify_docx_zip : Option (List (Text × ℕ)) → Option ErrorCode
unfolding text_in
verify_docx_zip none = some unsupported_type
verify_docx_zip (some infos) =
    if ltb zip_max_entries (length infos)
    then some zip_bomb
    else (if ltb zip_max_uncompressed (total_size infos)
        then some zip_bomb
        else (if text_in content_types (map (λ (i : Text × ℕ). i.0) infos)
            then none
            else some unsupported_type))

-- The claim against the content: `actual.value != ext`.
abbrev pub check_claim : FileType → FileType → Checked FileType
check_claim actual claimed =
    if file_type_eq actual claimed then valid actual else invalid magic_mismatch

abbrev pub check_docx : Option ErrorCode → FileType → Checked FileType
check_docx none claimed = check_claim docx claimed
check_docx (some code) claimed = invalid code

-- `ext in ("txt", "md")`
abbrev pub check_text : FileType → Checked FileType
check_text txt = valid txt
check_text md = valid md
check_text pdf = invalid magic_mismatch
check_text docx = invalid magic_mismatch

abbrev pub is_empty : Text → Bool
is_empty [] = true
is_empty (c ∷ t) = false

module _ ⦃u : Unicode⦄ where
  -- `claimed_ext.lower().lstrip(".")`
  unfoldable pub normal_ext : Text → Text
  unfolding lstrip
  normal_ext claimed_ext = lstrip (λ c. c == b'.') (u.lower claimed_ext)

module _ (read_zip : Text → Option (List (Text × ℕ))) (is_utf8 : Text → Bool) where
  -- The content's checks, once the extension is known.
  unfoldable pub detect_content : Text → Text → FileType → Checked FileType
  unfolding file_type_eq starts_with verify_docx_zip
  detect_content header source claimed =
      if is_empty header
      then invalid empty_file
      else (if starts_with pdf_magic header
          then check_claim pdf claimed
          else (if starts_with zip_magic header
              then check_docx (verify_docx_zip (read_zip source)) claimed
              else (if is_utf8 source then check_text claimed else invalid unsupported_type)))

  abbrev pub detect_claimed : Text → Text → Option FileType → Checked FileType
  detect_claimed header source none = invalid unsupported_type
  detect_claimed header source (some claimed) = detect_content header source claimed

  module _ ⦃u : Unicode⦄ where
    unfoldable pub detect_file_type : Text → Text → Text → Checked FileType
    unfolding detect_content file_type_of normal_ext
    detect_file_type header source claimed_ext =
        detect_claimed header source (file_type_of (normal_ext claimed_ext))
