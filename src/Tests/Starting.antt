-- ===== src/Tests/Starting.antt =====
-- A start behind a crash: one document is done, but the file of vectors is lost; one was being parsed;
-- one failed.
use docmesh.Prelude.{◌≡◌, ◌⊎◌, refl, false, none, some, [], ◌∷◌, All, arith}
use docmesh.Text.{Text, codes, text_eq}
use docmesh.Storage.{Document, DocumentStatus, FileType, Chunk, status_eq}
use docmesh.Ingest.Exec.{World}
use docmesh.Ingest.Startup.{startup}
use docmesh.Ingest.Startup.Settled.{SettledOrWaits, Fits, startup-SettledOrWaits}

abbrev doc : Text → DocumentStatus → Document
doc i status = record {
  id = i;
  original_filename = i;
  stored_filename = i;
  file_type = FileType.txt;
  size_bytes = 1;
  sha256 = i;
  status = status;
  error_message = none;
  title = none;
  page_count = none;
  chunk_count = 1;
  created_at = 1;
  updated_at = 1;
}

abbrev chunk : Chunk
chunk = record {
  id = codes "c1";
  document_id = codes "a";
  chunk_index = 0;
  text = [];
  token_count = 1;
  page_start = none;
  page_end = none;
  section = none;
  char_start = 0;
  char_end = 0;
  content_hash = [];
  vector_id = some 0;
  is_duplicate = false;
  created_at = 1;
}

abbrev crashed : World
crashed = record {
  db = record {
    documents =
        doc (codes "a") DocumentStatus.done
        ∷ doc (codes "b") DocumentStatus.parsing
        ∷ doc (codes "c") DocumentStatus.failed
        ∷ [];
    chunks = chunk ∷ [];
    events = [];
    next_event_id = 1;
  };
  index = [];
  persisted = [];
  corpus = [];
  published = [];
  stage = DocumentStatus.queued;
  now = 9;
  files = [];
  waiting = [];
  stored_path = none;
  faults = [];
}

both_wait : (startup crashed).waiting ≡ codes "a" ∷ codes "b" ∷ []
unfolding startup text_eq
both_wait = refl

startup-SettledOrWaits_example :
    All (SettledOrWaits (startup crashed)) (startup crashed).db.documents
    × ((startup crashed).persisted ≡ (startup crashed).index)
    × (Fits crashed
        ⊎ All
            (λ (d : Document). status_eq d.status DocumentStatus.done ≡ false)
            (startup crashed).db.documents)
startup-SettledOrWaits_example = startup-SettledOrWaits crashed (omega arith)
