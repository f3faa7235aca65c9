-- ===== src/Tests/Ingesting.antt =====
-- The pipeline at a document whose chunking raises, and the deduplication of a few drafts.
use docmesh.Prelude.{All, ℕ, ◌≡◌, refl, true, false, none, some, List, [], ◌∷◌, ◌==◌, map}
use docmesh.Text.{Text}
use docmesh.Chunker.Document.{DraftChunk}
use docmesh.Storage.{
  get, next_vector_id, queued, failed, parsing, chunking, txt, Document, IngestionEvent, Chunk,
  empty_db, append_event,
}
use docmesh.Ingest.Exec.{World, raised, act, ◌>>=◌, try_except, suppress}
use docmesh.Ingest.Dedup.{exact_flags, near_pass}
use docmesh.Ingest.Dedup.Kept.{IsApart, IsCovered, near_pass-IsApart}
use docmesh.Ingest.Pipeline.{
  allocate, Config, stages, enter_stage, emit_event, on_failure, ingest_found, purge_vectors,
  purge_chunks,
}
use docmesh.Text.{text_eq}
use docmesh.Ingest.Exec.{ok}
use docmesh.Upload.Service.{delete_document}
use docmesh.Upload.Service.Forgotten.{IsForgotten, delete_document-IsForgotten}
use docmesh.Ingest.Pipeline.Order.{Logged, ingest_found-Logged}
use docmesh.Ingest.Pipeline.VectorIds.{IsBelow, CountsFrom, allocate-IsBelow}
use docmesh.Ingest.Pipeline.Clean.{IsClean, ingest_found-IsClean}

abbrev doc_a : Text
doc_a = b'a' ∷ []

abbrev one_chunk : DraftChunk
one_chunk = record {
  text = b'x' ∷ [];
  char_start = 0;
  char_end = 1;
  page_start = none;
  page_end = none;
  section = none;
  token_count = 1;
  content_hash = b'x' ∷ [];
}

abbrev config : Config
config = record {
  extract_document =
      λ name type. record { full_text = b'x' ∷ []; blocks = []; page_count = none; title = none };
  chunk = λ e. one_chunk ∷ [];
  embed = λ t. t;
  stored_near = λ rows v. false;
  near = λ v w. false;
  new_id = λ n. n ∷ [];
}

abbrev document : Document
document = record {
  id = doc_a;
  original_filename = [];
  stored_filename = [];
  file_type = txt;
  size_bytes = 1;
  sha256 = [];
  status = queued;
  error_message = none;
  title = none;
  page_count = none;
  chunk_count = 0;
  created_at = 0;
  updated_at = 0;
}

abbrev old_chunk : Chunk
old_chunk = record {
  id = b'o' ∷ [];
  document_id = doc_a;
  chunk_index = 0;
  text = [];
  token_count = 1;
  page_start = none;
  page_end = none;
  section = none;
  char_start = 0;
  char_end = 1;
  content_hash = [];
  vector_id = some 3;
  is_duplicate = false;
  created_at = 0;
}

-- The sixth call, the chunker's, raises; the document has a chunk from an earlier run.
abbrev failing : World
failing = record {
  db = record empty_db { documents = document ∷ []; chunks = old_chunk ∷ [] };
  index = record { vector_id = 3; chunk_id = b'o' ∷ []; doc_id = doc_a; vector = [] } ∷ [];
  persisted = [];
  corpus = (b'o' ∷ [], []) ∷ [];
  published = [];
  stage = queued;
  now = 7;
  files = [];
  waiting = [];
  stored_path = none;
  faults = false ∷ false ∷ false ∷ false ∷ false ∷ true ∷ [];
}

failing_log :
    map
      (λ (e : IngestionEvent). e.status)
      (ingest_found config [] doc_a (some document) failing).1.published
    ≡ parsing ∷ chunking ∷ failed ∷ []
unfolding ingest_found stages enter_stage emit_event act ◌>>=◌ try_except suppress on_failure
    append_event purge_chunks purge_vectors
failing_log = refl

ingest_found-Logged_example :
    Logged doc_a failing
      (ingest_found config [] doc_a (some document) failing).0
      (ingest_found config [] doc_a (some document) failing).1
ingest_found-Logged_example = ingest_found-Logged config [] doc_a document failing

failing-raised : (stages config doc_a document failing).0 ≡ raised
unfolding stages enter_stage emit_event act ◌>>=◌
failing-raised = refl

failing-calm : (stages config doc_a document failing).1.faults ≡ []
unfolding stages enter_stage emit_event act ◌>>=◌
failing-calm = refl

ingest_found-IsClean_example :
    IsClean doc_a
      (stages config doc_a document failing).1
      (ingest_found config [] doc_a (some document) failing).1
ingest_found-IsClean_example =
    ingest_found-IsClean config [] doc_a document failing failing-raised failing-calm

abbrev hashes : List Text
hashes = (1 ∷ []) ∷ (2 ∷ []) ∷ (1 ∷ []) ∷ (3 ∷ []) ∷ []

hashes_flagged : exact_flags ((3 ∷ []) ∷ []) [] hashes ≡ false ∷ false ∷ true ∷ true ∷ []
unfolding exact_flags
hashes_flagged = refl

abbrev vectors : List (ℕ × ℕ)
vectors = (0, 5) ∷ (1, 5) ∷ (2, 6) ∷ []

-- The vectors that are kept, beside one in the store that is a 6.
abbrev kept_vectors : List (ℕ × ℕ)
kept_vectors = (near_pass (λ v. v == 6) (λ v w. v == w) (false ∷ false ∷ false ∷ []) [] vectors).1

near_pass-IsApart_example :
    IsApart (λ v. v == 6) (λ v w. v == w) [] kept_vectors
    × All (IsCovered (λ v. v == 6) (λ v w. v == w) kept_vectors) vectors
near_pass-IsApart_example =
    near_pass-IsApart (λ v. v == 6) (λ v w. v == w) (false ∷ false ∷ false ∷ []) [] vectors tt

allocate-IsBelow_example :
    All (λ (c : Chunk). IsBelow (next_vector_id (old_chunk ∷ [])) c.vector_id) (old_chunk ∷ [])
    × CountsFrom
        (next_vector_id (old_chunk ∷ []))
        (allocate (next_vector_id (old_chunk ∷ [])) ((old_chunk, 1 ∷ []) ∷ []))
allocate-IsBelow_example = allocate-IsBelow (old_chunk ∷ []) ((old_chunk, 1 ∷ []) ∷ [])

-- The same library, where no call raises.
abbrev working : World
working = record failing { faults = [] }

document_found : get doc_a working.db ≡ some document
unfolding get text_eq
document_found = refl

delete_document-IsForgotten_example :
    ((delete_document doc_a working).0 ≡ ok true)
    × IsForgotten doc_a document working (delete_document doc_a working).1
delete_document-IsForgotten_example =
    delete_document-IsForgotten doc_a document working refl document_found
