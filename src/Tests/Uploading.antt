-- ===== src/Tests/Uploading.antt =====
-- Uploads at small inputs.
use docmesh.Prelude.{
  false, ℕ, ◌≡◌, ◌<◌, ◌≤◌, refl, Bool, true, Option, none, some, List, [], ◌∷◌, length, ltb, ◌==◌,
  if◌then◌else◌,
}
use docmesh.Text.{Text}
use docmesh.Storage.{pdf, empty_db, queued, get_by_sha256, create}
use docmesh.Upload.Detect.{
  valid, invalid, extension, detect_file_type, normal_ext, pdf_magic, content_types, empty_file,
  too_large, magic_mismatch,
}
use docmesh.Upload.Detect.Agrees.{Shows, detect_file_type-Shows}
use docmesh.Upload.Filename.{sanitize_filename}
use docmesh.Upload.Filename.Safe.{HasNoControl, sanitize_filename-HasNoControl}
use docmesh.Upload.Stream.{stream_to_disk_capped}
use docmesh.Upload.Stream.Capped.{content, stream_to_disk_capped-content}
use docmesh.Ingest.{World, raised, act, ◌>>=◌}
use docmesh.Upload.Service.{Request, receive_upload, register, on_error, try_upload}
use docmesh.Upload.Service.Files.{try_upload-files}
use docmesh.Tests.Samples.{ascii}

-- Every archive has the one entry of 7 bytes, and all bytes are text.
abbrev one_entry : Text → Option (List (Text × ℕ))
one_entry source = some ((content_types, 7) ∷ [])

abbrev all_text : Text → Bool
all_text source = true

-- ".PDF"
abbrev claimed : Text
claimed = b'.' ∷ b'P' ∷ b'D' ∷ b'F' ∷ []

pdf_accepted : detect_file_type one_entry all_text pdf_magic [] claimed ≡ valid pdf
unfolding detect_file_type
pdf_accepted = refl

text_as_pdf : detect_file_type one_entry all_text (1 ∷ []) [] claimed ≡ invalid magic_mismatch
unfolding detect_file_type
text_as_pdf = refl

detect_file_type-Shows_example :
    ((detect_file_type one_entry all_text pdf_magic [] claimed ≡ valid pdf
        → (normal_ext claimed ≡ extension pdf) × Shows one_entry all_text pdf_magic [] pdf)
      × ((normal_ext claimed ≡ extension pdf) × Shows one_entry all_text pdf_magic [] pdf
          → detect_file_type one_entry all_text pdf_magic [] claimed ≡ valid pdf))
detect_file_type-Shows_example = detect_file_type-Shows one_entry all_text pdf_magic [] claimed pdf

-- Two reads, of two bytes and of one, and the empty one.
abbrev three_bytes : List (Option Text)
three_bytes = some (5 ∷ 6 ∷ []) ∷ some (7 ∷ []) ∷ some [] ∷ []

over_cap : stream_to_disk_capped (λ t. t) 2 three_bytes ≡ (invalid too_large, none)
unfolding stream_to_disk_capped
over_cap = refl

at_cap :
    stream_to_disk_capped (λ t. t) 3 three_bytes
    ≡ (valid (3, 5 ∷ 6 ∷ 7 ∷ []), some (5 ∷ 6 ∷ 7 ∷ []))
unfolding stream_to_disk_capped
at_cap = refl

stream_to_disk_capped-content_example : stream_to_disk_capped (λ t. t) 3 three_bytes ≡ (
    if length (content three_bytes) == 0
    then (invalid empty_file, none)
    else (if ltb 3 (length (content three_bytes)) then (invalid too_large, none) else (
      valid (length (content three_bytes), content three_bytes),
      some (content three_bytes),
    )))
stream_to_disk_capped-content_example = stream_to_disk_capped-content (λ t. t) 3 three_bytes tt

-- An upload of "%PDF-", and an empty library whose sixth call, the append of the event, raises.
abbrev request : Request
request = record {
  display_name = b'a' ∷ claimed;
  claimed_ext = claimed;
  reads = some pdf_magic ∷ [];
  tmp_path = b't' ∷ [];
  doc_id = b'd' ∷ [];
}

abbrev library : World
library = record {
  db = empty_db;
  index = [];
  persisted = [];
  corpus = [];
  published = [];
  stage = queued;
  now = 7;
  files = [];
  waiting = [];
  stored_path = none;
  faults = false ∷ false ∷ false ∷ false ∷ false ∷ true ∷ [];
}

-- Such a failure leaves the row of the document, without its file.
row_stays : length (try_upload one_entry all_text (λ t. t) 9 request library).1.db.documents ≡ 1
unfolding try_upload on_error receive_upload register act ◌>>=◌ get_by_sha256 create
row_stays = refl

request-raised : (receive_upload one_entry all_text (λ t. t) 9 request library).0 ≡ raised
unfolding receive_upload register act ◌>>=◌ get_by_sha256 create
request-raised = refl

request-calm : (receive_upload one_entry all_text (λ t. t) 9 request library).1.faults ≡ []
unfolding receive_upload register act ◌>>=◌ get_by_sha256 create
request-calm = refl

try_upload-files_example :
    (try_upload one_entry all_text (λ t. t) 9 request library).1.files ≡ library.files
try_upload-files_example =
    try_upload-files one_entry all_text (λ t. t) 9 request library tt (λ t. tt) request-raised
      request-calm

-- "CON\t. " is escaped, without its tab and what it ends in.
escaped :
    sanitize_filename (λ t. t) (λ t. t) (λ t. t) (b'C' ∷ b'O' ∷ b'N' ∷ 9 ∷ b'.' ∷ 32 ∷ [])
    ≡ b'_' ∷ b'C' ∷ b'O' ∷ b'N' ∷ []
unfolding sanitize_filename
escaped = refl

sanitize_filename-HasNoControl_example :
    (0 < length (sanitize_filename (λ t. t) (λ t. t) (λ t. t) (1 ∷ claimed)))
    × (length (sanitize_filename (λ t. t) (λ t. t) (λ t. t) (1 ∷ claimed)) ≤ 255)
    × HasNoControl (sanitize_filename (λ t. t) (λ t. t) (λ t. t) (1 ∷ claimed))
sanitize_filename-HasNoControl_example =
    sanitize_filename-HasNoControl (λ t. t) (λ t. t) (λ t. t) (1 ∷ claimed)
