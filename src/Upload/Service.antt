-- ===== src/Upload/Service.antt =====
-- `DocumentService.upload` and `DocumentService.delete` of
-- backend/app/services/document_service.py, with all of its collaborators but the graph service.
pub mod Leads
pub mod Files
pub mod Forgotten
use docmesh.Prelude.{
  ℕ, Bool, true, false, not, Option, none, some, List, [], ◌∷◌, ◌++◌, map, filter, take,
}
use docmesh.Text.{Text, Unicode, text_eq}
use docmesh.Storage.{
  queued, FileType, DocumentCreate, Document, Chunk, Db, get_by_sha256, get, create, delete,
  list_by_document, append_event,
}
use docmesh.Ingest.Exec.{World, Exec, Result, ok, raised, pure, ◌>>=◌, ◌>>◌, act, ask, call, modify}
use docmesh.Ingest.Pipeline.{drop_vectors, persist, drop_corpus}
use docmesh.Upload.Detect.{Checked, valid, invalid, crashed, extension, detect_file_type}
use docmesh.Upload.Stream.{stream_to_disk_capped}

abbrev pub throw : {A : Type 0} → Exec A
throw w = (raised, w)

-- A validator's error is raised.
abbrev pub lift : {A : Type 0} → Checked A → Exec A
lift (valid a) = pure a
lift (invalid code) = throw
lift crashed = throw

-- `path.unlink(missing_ok=True)`
abbrev pub unlink : Text → World → World
unlink name w = record w { files = filter (λ f. not (text_eq f name)) w.files }

abbrev pub unlink_opt : Option Text → World → World
unlink_opt none w = w
unlink_opt (some name) w = unlink name w

-- `os.replace(old, new)`
abbrev pub replace : Text → Text → World → World
replace old new w = record w { files = new ∷ filter (λ f. not (text_eq f old)) w.files }

-- The file that the stream leaves under the name.
abbrev pub place : Text → Option Text → World → World
place name none w = w
place name (some bytes) w = record w { files = name ∷ w.files }

-- `f"{doc_id}.{file_type.value}"`
abbrev pub stored_name : Text → FileType → Text
stored_name doc_id file_type = doc_id ++ b'.' ∷ extension file_type

-- `raise DuplicateDocumentError(existing)`
abbrev pub refuse : Option Document → Exec (Unit {0})
refuse none = pure tt
refuse (some existing) = throw

-- `doc_repo.create`, and what the database says.
abbrev pub created : Option Document → Exec Document
created none = throw
created (some d) = pure d

abbrev pub insert_at : Option (Document × Db) → World → Option Document × World
insert_at none w = (none, w)
insert_at (some (d, db)) w = (some d, record w { db = db })

abbrev pub insert_row : DocumentCreate → World → Option Document × World
insert_row data_in w = insert_at (create w.now data_in w.db) w

abbrev pub log_queued : Text → World → Unit {0} × World
log_queued doc_id w = (tt, record w { db = (append_event w.now doc_id queued w.db).1 })

abbrev pub enqueue : Text → World → World
enqueue doc_id w = record w { waiting = w.waiting ++ doc_id ∷ [] }

-- An upload: the name for display, its suffix, the reads to come, the two names that `uuid4` gives,
-- and the bytes on disk.
pub record Request : Type 0 where
  pub display_name : Text
  pub claimed_ext : Text
  pub reads : List (Option Text)
  pub tmp_path : Text
  pub doc_id : Text

abbrev pub content_of : Option Text → Text
content_of none = []
content_of (some bytes) = bytes

module _ (read_zip : Text → Option (List (Text × ℕ))) (is_utf8 : Text → Bool) (sha256 : Text → Text)
    (max_upload_bytes : ℕ) ⦃u : Unicode⦄ where
  -- From the move of the file to its name on.
  unfoldable pub register : Request → FileType → ℕ × Text → Exec Document
  register r file_type (size_bytes, digest) = do
    let stored = stored_name r.doc_id file_type
    modify (λ w. record w { stored_path = some stored })
    call (replace r.tmp_path stored)
    row ← act (
        insert_row record {
          id = r.doc_id;
          original_filename = r.display_name;
          stored_filename = stored;
          file_type = file_type;
          size_bytes = size_bytes;
          sha256 = digest;
          title = none;
        })
    document ← created row
    act (log_queued r.doc_id)
    call (enqueue r.doc_id)
    pure document

  -- The body of the `try` statement.
  unfoldable pub receive_upload : Request → Exec Document
  unfolding stream_to_disk_capped detect_file_type register
  receive_upload r = do
    let streamed = stream_to_disk_capped sha256 max_upload_bytes r.reads
    call (place r.tmp_path streamed.1)
    sized ← lift streamed.0
    let bytes = content_of streamed.1
    header ← ask (λ w. take 8 bytes)
    file_type ← lift (detect_file_type read_zip is_utf8 header bytes r.claimed_ext)
    existing ← ask (λ w. get_by_sha256 sized.1 w.db)
    refuse existing
    register r file_type sized

  -- The `except` clause, which raises again.
  unfoldable pub on_error : Request → Exec Document
  on_error r = do call (unlink r.tmp_path); call (λ w. unlink_opt w.stored_path w); throw

  abbrev pub rescue : Result Document → Exec Document → Exec Document
  rescue (ok document) handler w = (ok document, w)
  rescue raised handler w = handler w

  unfoldable pub try_upload : Request → Exec Document
  unfolding receive_upload on_error
  try_upload r w =
      let v = record w { stored_path = none } in
      rescue (receive_upload r v).0 (on_error r) (receive_upload r v).1

  abbrev pub upload_as : Text → Request → Exec Document
  upload_as [] r = throw
  upload_as (c ∷ ext) r = try_upload r

  unfoldable pub upload : Request → Exec Document
  unfolding try_upload
  upload r = upload_as r.claimed_ext r

-- `BM25Index.remove`, where there is something to remove.
abbrev pub forget : List Text → Exec (Unit {0})
forget [] = pure tt
forget (i ∷ ids) = call (drop_corpus (i ∷ ids))

abbrev pub delete_row : Text → World → Bool × World
delete_row doc_id w = let (deleted, db) = delete doc_id w.db in (deleted, record w { db = db })

abbrev pub purge : Bool → Text → List Text → Exec Bool
purge false doc_id chunk_ids = pure false
purge true doc_id chunk_ids = do
  call (drop_vectors doc_id)
  call persist
  forget chunk_ids
  pure true

abbrev pub delete_found : Text → Option Document → Exec Bool
delete_found doc_id none = pure false
delete_found doc_id (some document) = do
  chunk_ids ← ask (λ w. map (λ (c : Chunk). c.id) (list_by_document doc_id w.db))
  call (unlink document.stored_filename)
  deleted ← act (delete_row doc_id)
  purge deleted doc_id chunk_ids

-- `DocumentService.delete`
unfoldable pub delete_document : Text → Exec Bool
delete_document doc_id = do document ← ask (λ w. get doc_id w.db); delete_found doc_id document
