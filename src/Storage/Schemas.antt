-- ===== src/Storage/Schemas.antt =====
-- backend/app/schemas/documents.py. An id is a text; a time is a number.
use docmesh.Prelude.{ℕ, Bool, true, false, Option, List, []}
use docmesh.Text.{Text}

pub data DocumentStatus : Type 0 where
  queued parsing chunking embedding indexing done failed : DocumentStatus

unfoldable pub status_eq : DocumentStatus → DocumentStatus → Bool
status_eq queued queued = true
status_eq parsing parsing = true
status_eq chunking chunking = true
status_eq embedding embedding = true
status_eq indexing indexing = true
status_eq done done = true
status_eq failed failed = true
status_eq _ _ = false

pub data FileType : Type 0 where
  pdf docx txt md : FileType

pub record DocumentCreate : Type 0 where
  pub id : Text
  pub original_filename : Text
  pub stored_filename : Text
  pub file_type : FileType
  pub size_bytes : ℕ
  pub sha256 : Text
  pub title : Option Text

pub record Document : Type 0 where
  pub id : Text
  pub original_filename : Text
  pub stored_filename : Text
  pub file_type : FileType
  pub size_bytes : ℕ
  pub sha256 : Text
  pub status : DocumentStatus
  pub error_message : Option Text
  pub title : Option Text
  pub page_count : Option ℕ
  pub chunk_count : ℕ
  pub created_at : ℕ
  pub updated_at : ℕ

-- `detail` and `duration_ms` are for display, and are left out.
pub record IngestionEvent : Type 0 where
  pub id : ℕ
  pub document_id : Text
  pub status : DocumentStatus
  pub created_at : ℕ

pub record ChunkCreate : Type 0 where
  pub id : Text
  pub document_id : Text
  pub chunk_index : ℕ
  pub text : Text
  pub token_count : ℕ
  pub page_start : Option ℕ
  pub page_end : Option ℕ
  pub section : Option Text
  pub char_start : ℕ
  pub char_end : ℕ
  pub content_hash : Text
  pub is_duplicate : Bool

pub record Chunk : Type 0 where
  pub id : Text
  pub document_id : Text
  pub chunk_index : ℕ
  pub text : Text
  pub token_count : ℕ
  pub page_start : Option ℕ
  pub page_end : Option ℕ
  pub section : Option Text
  pub char_start : ℕ
  pub char_end : ℕ
  pub content_hash : Text
  pub vector_id : Option ℕ
  pub is_duplicate : Bool
  pub created_at : ℕ

-- The tables; `next_event_id` is the autoincrement key of `ingestion_events`.
pub record Db : Type 0 where
  pub documents : List Document
  pub chunks : List Chunk
  pub events : List IngestionEvent
  pub next_event_id : ℕ

abbrev pub empty_db : Db
empty_db = record { documents = []; chunks = []; events = []; next_event_id = 1 }
