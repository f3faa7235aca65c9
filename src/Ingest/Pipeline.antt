-- ===== src/Ingest/Pipeline.antt =====
-- `_run_pipeline` of backend/app/ingestion/queue.py, up to the graph recompute that follows it.
pub mod Emits
pub mod StageEvents
pub mod Order
pub mod Clean
pub mod VectorIds
use docmesh.Prelude.{
  ℕ, suc, Bool, not, Option, none, some, List, [], ◌∷◌, ◌++◌, map, filter, get_elem?, length,
  if◌then◌else◌,
}
use docmesh.Text.{Text, text_eq, text_in}
use docmesh.Extract.{ExtractedDoc}
use docmesh.Chunker.Document.{DraftChunk}
use docmesh.Storage.{
  DocumentStatus, parsing, chunking, embedding, indexing, done, failed, FileType, Document, Chunk,
  ChunkCreate, get, update_status, set_stats, bulk_create, next_vector_id, assign_vector_ids,
  lookup_vid, existing_content_hashes, list_by_document, delete_by_document, append_event,
  option_list,
}
use docmesh.Ingest.Exec.{
  Vector, VectorRow, World, Exec, ◌>>=◌, ◌>>◌, pure, act, ask, call, modify, suppress, try_except,
}
use docmesh.Ingest.Dedup.{dedup}

-- `event_repo.append`, then `broker.publish`, which does not raise.
unfoldable pub emit_event : Text → DocumentStatus → Exec (Unit {0})
emit_event doc_id status = do
  event ←
      act (λ w. let (e, db) = append_event w.now doc_id status w.db in (e, record w { db = db }))
  modify (λ w. record w { published = w.published ++ event ∷ [] })

-- The effects of the calls, each on its own store.
abbrev pub set_status : Text → DocumentStatus → Option Text → World → World
set_status doc_id status message w = record w {
  db = update_status w.now doc_id status message w.db;
}

-- `enter_stage`
unfoldable pub enter_stage : Text → DocumentStatus → Exec (Unit {0})
enter_stage doc_id status = do
  modify (λ w. record w { stage = status })
  call (set_status doc_id status none)
  emit_event doc_id status

-- The rows that `bulk_create` is given; `new_id` is `uuid4().hex`, called once for each.
unfoldable pub chunk_creates :
    (ℕ → Text) → Text → ℕ → List DraftChunk → List Bool → List ChunkCreate
chunk_creates new_id doc_id i [] flags = []
chunk_creates new_id doc_id i (d ∷ ds) [] = []
chunk_creates new_id doc_id i (d ∷ ds) (f ∷ fs) =
    record {
      id = new_id i;
      document_id = doc_id;
      chunk_index = i;
      text = d.text;
      token_count = d.token_count;
      page_start = d.page_start;
      page_end = d.page_end;
      section = d.section;
      char_start = d.char_start;
      char_end = d.char_end;
      content_hash = d.content_hash;
      is_duplicate = f;
    }
    ∷ chunk_creates new_id doc_id (suc i) ds fs

-- `[chunk_rows[idx] for idx, _ in kept]`, each with its vector.
unfoldable pub kept_rows : List Chunk → List (ℕ × Vector) → List (Chunk × Vector)
kept_rows rows [] = []
kept_rows rows ((idx, vec) ∷ kept) =
    map (λ c. (c, vec)) (option_list (get_elem? rows idx)) ++ kept_rows rows kept

-- `{row.id: base + 1 + j for j, row in enumerate(kept_rows)}`, from the first id that is free.
unfoldable pub allocate : ℕ → List (Chunk × Vector) → List (Text × ℕ)
allocate next [] = []
allocate next ((row, vec) ∷ rows) = (row.id, next) ∷ allocate (suc next) rows

-- The records that `upsert` is given; `vids[row.id]`.
unfoldable pub vector_rows : Text → List (Text × ℕ) → List (Chunk × Vector) → List VectorRow
unfolding lookup_vid
vector_rows doc_id vids [] = []
vector_rows doc_id vids ((row, vec) ∷ rows) =
    map (λ vid. record { vector_id = vid; chunk_id = row.id; doc_id = doc_id; vector = vec })
      (option_list (lookup_vid row.id vids))
    ++ vector_rows doc_id vids rows

-- `BM25Index.add`: `dict.update` of the corpus.
unfoldable pub corpus_put : Text → Text → List (Text × Text) → List (Text × Text)
corpus_put i text [] = (i, text) ∷ []
corpus_put i text ((j, t) ∷ m) = if text_eq j i then (j, text) ∷ m else (j, t) ∷ corpus_put i text m

unfoldable pub corpus_add : List (Chunk × Vector) → List (Text × Text) → List (Text × Text)
unfolding corpus_put
corpus_add [] m = m
corpus_add ((row, vec) ∷ rows) m = corpus_add rows (corpus_put row.id row.text m)

-- `BM25Index.remove`
unfoldable pub corpus_remove : List Text → List (Text × Text) → List (Text × Text)
corpus_remove ids m = filter (λ (e : Text × Text). not (text_in e.0 ids)) m

-- `FaissVectorStore.delete_by_document`
unfoldable pub index_delete : Text → List VectorRow → List VectorRow
index_delete doc_id rows = filter (λ (r : VectorRow). not (text_eq r.doc_id doc_id)) rows

abbrev pub page_count_or_0 : Option ℕ → ℕ
page_count_or_0 none = 0
page_count_or_0 (some n) = n

abbrev pub draft_keys : List DraftChunk → List (Text × Text)
draft_keys drafts = map (λ (d : DraftChunk). (d.content_hash, d.text)) drafts

-- What the pipeline is configured with: the extractors, the chunker with its settings and token
-- counter, the embedding model, the two similarity tests, and the ids of the new chunks.
pub record Config : Type 0 where
  pub extract_document : Text → FileType → ExtractedDoc
  pub chunk : ExtractedDoc → List DraftChunk
  pub embed : Text → Vector
  pub stored_near : List VectorRow → Vector → Bool
  pub near : Vector → Vector → Bool
  pub new_id : ℕ → Text

abbrev pub create_rows : List ChunkCreate → World → List Chunk × World
create_rows items w =
    let (created, db) = bulk_create w.now items w.db in (created, record w { db = db })

abbrev pub assign : List (Text × ℕ) → World → World
assign vids w = record w { db = assign_vector_ids vids w.db }

abbrev pub upsert : List VectorRow → World → World
upsert rows w = record w { index = w.index ++ rows }

abbrev pub persist : World → World
persist w = record w { persisted = w.index }

abbrev pub add_corpus : List (Chunk × Vector) → World → World
add_corpus rows w = record w { corpus = corpus_add rows w.corpus }

abbrev pub record_stats : Text → ℕ → ℕ → World → World
record_stats doc_id pages n w = record w { db = set_stats w.now doc_id pages n w.db }

abbrev pub drop_vectors : Text → World → World
drop_vectors doc_id w = record w { index = index_delete doc_id w.index }

abbrev pub drop_chunks : Text → World → World
drop_chunks doc_id w = record w { db = delete_by_document doc_id w.db }

abbrev pub drop_corpus : List Text → World → World
drop_corpus removed w = record w { corpus = corpus_remove removed w.corpus }

-- The `indexing` stage, after the rows have their vector ids chosen.
unfoldable pub store_vectors :
    Text → List (Chunk × Vector) → List (Text × ℕ) → ℕ → ℕ → Exec (Unit {0})
store_vectors doc_id chosen vids pages n = do
  call (assign vids)
  call (upsert (vector_rows doc_id vids chosen))
  call persist
  call (add_corpus chosen)
  call (record_stats doc_id pages n)

-- The `indexing` stage.
unfoldable pub index_chunks :
    (ℕ → Text)
    → Text
    → ExtractedDoc
    → List DraftChunk
    → List Bool
    → List (ℕ × Vector)
    → Exec (Unit {0})
index_chunks new_id doc_id extracted drafts flags kept = do
  rows ← act (create_rows (chunk_creates new_id doc_id 0 drafts flags))
  next ← ask (λ w. next_vector_id w.db.chunks)
  let chosen = kept_rows rows kept
  store_vectors doc_id chosen (allocate next chosen) (page_count_or_0 extracted.page_count)
      (length rows)

-- The two best-effort cleanup steps of the `except` clause.
unfoldable pub purge_vectors : Text → Exec (Unit {0})
purge_vectors doc_id = do call (drop_vectors doc_id); call persist

unfoldable pub purge_chunks : Text → Exec (Unit {0})
purge_chunks doc_id = do
  removed ← ask (λ w. map (λ (c : Chunk). c.id) (list_by_document doc_id w.db))
  call (drop_chunks doc_id)
  call (drop_corpus removed)

-- The `except` clause; `message` is the error's text, cut to 500 characters.
unfoldable pub on_failure : Text → Text → Exec (Unit {0})
on_failure message doc_id = do
  suppress (purge_vectors doc_id)
  suppress (purge_chunks doc_id)
  call (set_status doc_id failed (some message))
  emit_event doc_id failed

module _ (g : Config) where
  -- The body of the `try` statement.
  unfoldable pub stages : Text → Document → Exec (Unit {0})
  stages doc_id doc = do
    enter_stage doc_id parsing
    extracted ← ask (λ w. g.extract_document doc.stored_filename doc.file_type)
    enter_stage doc_id chunking
    drafts ← ask (λ w. g.chunk extracted)
    enter_stage doc_id embedding
    existing ←
        ask (λ w. existing_content_hashes (map (λ (d : DraftChunk). d.content_hash) drafts) w.db)
    found ← ask (λ w. dedup (g.stored_near w.index) g.near g.embed existing (draft_keys drafts))
    enter_stage doc_id indexing
    index_chunks g.new_id doc_id extracted drafts found.0 found.1
    enter_stage doc_id done

  -- A document that was deleted while it was queued is no error.
  unfoldable pub ingest_found : Text → Text → Option Document → Exec (Unit {0})
  ingest_found message doc_id none = pure tt
  ingest_found message doc_id (some doc) =
      try_except (stages doc_id doc) (on_failure message doc_id)

  -- `_run_pipeline` without the graph recompute.
  unfoldable pub ingest : Text → Text → Exec (Unit {0})
  ingest message doc_id = do doc ← ask (λ w. get doc_id w.db); ingest_found message doc_id doc
