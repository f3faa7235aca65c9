-- ===== src/Ingest/Startup.antt =====
-- The repairs of `lifespan` in backend/app/main.py, before the worker starts, and what they call of
-- backend/app/storage/vector/faiss_store.py, chunk_repo.py and backend/app/search/bm25.py. No call
-- raises here: an exception ends the start. The check of the graph behind them, which touches none of
-- these tables, is `repair_graph` of Graph/Recompute.antt.
pub mod Rows
pub mod Recovered
pub mod Settled
use docmesh.Prelude.{
  ℕ, Bool, not, ◌&&◌, ◌||◌, Option, none, some, List, [], ◌∷◌, ◌++◌, map, filter, flat_map, length,
  leb, ltb, ◌==◌, if◌then◌else◌,
}
use docmesh.Text.{Text, text_eq}
use docmesh.Storage.{
  Db, Document, DocumentStatus, Chunk, queued, parsing, chunking, embedding, indexing, done,
  status_eq, list_documents, update_status, delete_by_document, append_event,
}
use docmesh.Graph.Order.{text_lt}
use docmesh.Ingest.Exec.{World, VectorRow}
use docmesh.Ingest.Pipeline.{index_delete}

-- ORDER BY document_id, chunk_index
abbrev pub comes_first : Chunk → Chunk → Bool
comes_first c d =
    text_lt c.document_id d.document_id
    || (text_eq c.document_id d.document_id && leb c.chunk_index d.chunk_index)

unfoldable pub insert_ordered : Chunk → List Chunk → List Chunk
unfolding text_lt
insert_ordered c [] = c ∷ []
insert_ordered c (d ∷ ds) =
    let rest = insert_ordered c ds in if comes_first c d then c ∷ d ∷ ds else d ∷ rest

unfoldable pub in_order : List Chunk → List Chunk
unfolding insert_ordered
in_order [] = []
in_order (c ∷ cs) = insert_ordered c (in_order cs)

unfoldable pub list_non_duplicates : Db → List Chunk
unfolding in_order
list_non_duplicates db = in_order (filter (λ (c : Chunk). not c.is_duplicate) db.chunks)

abbrev pub with_vector : Option ℕ → Chunk → List (ℕ × Text × Text)
with_vector none c = []
with_vector (some v) c = (v, c.id, c.document_id) ∷ []

-- `mapped`: vector id, chunk and document of the chunks that have a vector.
abbrev pub mapped : List Chunk → List (ℕ × Text × Text)
mapped rows = flat_map (λ (c : Chunk). with_vector c.vector_id c) rows

-- A vector of the file with the chunk and the document that the mappings give to its id; one that
-- they do not know is of neither, for which empty ids stand.
unfoldable pub relabel : List (ℕ × Text × Text) → VectorRow → VectorRow
relabel [] r = record r { chunk_id = []; doc_id = [] }
relabel ((v, chunk_id, doc_id) ∷ m) r =
    let rest = relabel m r in
    if v == r.vector_id then record r { chunk_id = chunk_id; doc_id = doc_id } else rest

-- `load`
unfoldable pub load : List (ℕ × Text × Text) → World → World
unfolding relabel
load mappings w = record w { index = map (relabel mappings) w.persisted }

-- The reset of a document that was done, where the index is lost.
abbrev pub reset_document : Document → World → World
reset_document doc w = record w {
  db = update_status w.now doc.id queued none (delete_by_document doc.id w.db);
}

unfoldable pub reset_documents : List Document → World → World
unfolding delete_by_document update_status
reset_documents [] w = w
reset_documents (doc ∷ docs) w = reset_documents docs (reset_document doc w)

-- The vector store is hydrated, and cleared if it does not have a vector for each mapping.
unfoldable pub reconcile : World → World
unfolding list_non_duplicates load reset_documents list_documents
reconcile w =
    let mappings = mapped (list_non_duplicates w.db) in
    let loaded = load mappings w in
    if not (length loaded.index == length mappings)
    then reset_documents (list_documents 0 10000 (some done) loaded.db).0
        (record loaded { index = [] })
    else loaded

-- `sorted(docs, key=lambda d: d.created_at)`, which is stable.
unfoldable pub insert_oldest : Document → List Document → List Document
insert_oldest d [] = d ∷ []
insert_oldest d (e ∷ es) =
    let rest = insert_oldest d es in if ltb e.created_at d.created_at then e ∷ rest else d ∷ e ∷ es

unfoldable pub oldest_first : List Document → List Document
unfolding insert_oldest
oldest_first [] = []
oldest_first (d ∷ ds) = insert_oldest d (oldest_first ds)

-- `queue.enqueue(doc.id)`
abbrev pub wait : Text → World → World
wait i w = record w { waiting = w.waiting ++ i ∷ [] }

-- What a crash left of a document is wiped, and it is queued again, with an event.
abbrev pub requeue : Text → World → World
requeue i w =
    let db = update_status w.now i queued none (delete_by_document i w.db) in
    let (event, db') = append_event w.now i queued db in
    record w { index = index_delete i w.index; db = db'; published = w.published ++ event ∷ [] }

unfoldable pub wait_all : List Document → World → World
wait_all [] w = w
wait_all (doc ∷ docs) w = wait_all docs (wait doc.id w)

unfoldable pub requeue_all : List Document → World → World
unfolding index_delete delete_by_document update_status append_event
requeue_all [] w = w
requeue_all (doc ∷ docs) w = requeue_all docs (wait doc.id (requeue doc.id w))

-- The sweep of a status.
unfoldable pub sweep : DocumentStatus → World → World
unfolding list_documents oldest_first wait_all requeue_all status_eq
sweep status w =
    let docs = oldest_first (list_documents 0 10000 (some status) w.db).0 in
    if status_eq status queued then wait_all docs w else requeue_all docs w

unfoldable pub recover : World → World
unfolding sweep
recover w = sweep indexing (sweep embedding (sweep chunking (sweep parsing (sweep queued w))))

-- `vector_store.persist()` and `bm25.rebuild(…)`
abbrev pub finish : World → World
finish w = record w {
  persisted = w.index;
  corpus = map (λ (c : Chunk). (c.id, c.text)) (list_non_duplicates w.db);
}

unfoldable pub startup : World → World
unfolding reconcile recover list_non_duplicates
startup w = finish (recover (reconcile w))
