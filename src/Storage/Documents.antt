-- ===== src/Storage/Documents.antt =====
-- backend/app/storage/sql/document_repo.py
use docmesh.Prelude.{
  ℕ, Bool, true, false, not, Option, none, some, List, [], ◌∷◌, ◌++◌, filter, take, drop, length,
  leb, if◌then◌else◌,
}
use docmesh.Text.{Text, text_eq}
use docmesh.Storage.Schemas.{
  DocumentStatus, queued, status_eq, DocumentCreate, Document, Chunk, IngestionEvent, Db,
}

-- `one_or_none` of a query by a unique column.
unfoldable pub find_document : (Document → Bool) → List Document → Option Document
find_document p [] = none
find_document p (d ∷ ds) = if p d then some d else find_document p ds

unfoldable pub get : Text → Db → Option Document
unfolding find_document
get doc_id db = find_document (λ d. text_eq d.id doc_id) db.documents

unfoldable pub get_by_sha256 : Text → Db → Option Document
unfolding find_document
get_by_sha256 sha256 db = find_document (λ d. text_eq d.sha256 sha256) db.documents

abbrev pub new_document : ℕ → DocumentCreate → Document
new_document now data_in = record {
  id = data_in.id;
  original_filename = data_in.original_filename;
  stored_filename = data_in.stored_filename;
  file_type = data_in.file_type;
  size_bytes = data_in.size_bytes;
  sha256 = data_in.sha256;
  status = queued;
  error_message = none;
  title = data_in.title;
  page_count = none;
  chunk_count = 0;
  created_at = now;
  updated_at = now;
}

abbrev pub is_none {ℓ} : {A : Type ℓ} → Option A → Bool
is_none none = true
is_none (some a) = false

-- `create`; `none` is the IntegrityError of the primary key or of the unique index on `sha256`.
unfoldable pub create : ℕ → DocumentCreate → Db → Option (Document × Db)
unfolding get get_by_sha256
create now data_in db =
    if is_none (get data_in.id db)
    then (if is_none (get_by_sha256 data_in.sha256 db)
        then some (
          new_document now data_in,
          record db { documents = db.documents ++ new_document now data_in ∷ [] },
        )
        else none)
    else none

-- An UPDATE of the rows with the id.
unfoldable pub update_documents : (Document → Document) → Text → List Document → List Document
update_documents f doc_id [] = []
update_documents f doc_id (d ∷ ds) =
    let rest = update_documents f doc_id ds in if text_eq d.id doc_id then f d ∷ rest else d ∷ rest

unfoldable pub update_status : ℕ → Text → DocumentStatus → Option Text → Db → Db
unfolding update_documents
update_status now doc_id status error_message db = record db {
  documents =
      update_documents
        (λ d. record d { status = status; error_message = error_message; updated_at = now }) doc_id
        db.documents;
}

unfoldable pub set_stats : ℕ → Text → ℕ → ℕ → Db → Db
unfolding update_documents
set_stats now doc_id page_count chunk_count db = record db {
  documents =
      update_documents
        (λ d. record d {
          page_count = some page_count;
          chunk_count = chunk_count;
          updated_at = now;
        })
        doc_id db.documents;
}

-- `delete`: the row, and by ON DELETE CASCADE its chunks and its events.
unfoldable pub delete : Text → Db → Bool × Db
unfolding get
delete doc_id db = (
  not (is_none (get doc_id db)),
  record db {
    documents = filter (λ (d : Document). not (text_eq d.id doc_id)) db.documents;
    chunks = filter (λ (c : Chunk). not (text_eq c.document_id doc_id)) db.chunks;
    events = filter (λ (e : IngestionEvent). not (text_eq e.document_id doc_id)) db.events;
  },
)

-- ORDER BY created_at DESC; rows of one time keep their order.
unfoldable pub insert_newest : Document → List Document → List Document
insert_newest d [] = d ∷ []
insert_newest d (e ∷ es) =
    if leb e.created_at d.created_at then d ∷ e ∷ es else e ∷ insert_newest d es

unfoldable pub newest_first : List Document → List Document
unfolding insert_newest
newest_first [] = []
newest_first (d ∷ ds) = insert_newest d (newest_first ds)

abbrev pub has_status : Option DocumentStatus → Document → Bool
has_status none d = true
has_status (some s) d = status_eq d.status s

-- `list`: a page of the documents with the status, and how many there are.
unfoldable pub list_documents : ℕ → ℕ → Option DocumentStatus → Db → List Document × ℕ
unfolding newest_first status_eq
list_documents offset limit status db =
    let rows = filter (has_status status) db.documents in
    (take limit (drop offset (newest_first rows)), length rows)
