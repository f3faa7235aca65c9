-- ===== src/Graph/Hydrate.antt =====
-- What `_recompute_locked` of backend/app/services/graph_service.py reads and scores before its writes:
-- the texts and vectors of the documents, `_build_doc_vectors` and `_score_pairs_sync`. A dictionary by
-- document id that is filled for each document is a function of the id. `none` is an exception.
pub mod Scored
use docmesh.Prelude.{
  ℕ, Option, none, some, List, [], ◌∷◌, map, filter, flat_map, and_then, cons_option,
}
use docmesh.Text.{Text, Unicode}
use docmesh.Dict.{Dict, text_key, find, put}
use docmesh.Storage.{Db, Document, Chunk, list_by_document, option_list}
use docmesh.Ingest.Exec.{Vector}
use docmesh.Vectors.Faiss.{Faiss}
use docmesh.Vectors.Store.{FaissVectorStore, reconstruct}
use docmesh.Graph.Schemas.{Scores, GraphSettings}
use docmesh.Graph.Build.{SemanticOverlap}
use docmesh.Graph.Entities.{EntityTools, Counts, extract_entities}
use docmesh.Graph.Entities.Scorer.{EntityScorer, is_in, new_scorer}
use docmesh.Graph.Semantic.{DocVectors, NumPy, semantic_overlaps}

-- `doc_texts[doc_id]`
unfoldable pub texts_of : Db → Text → List Text
unfolding list_by_document
texts_of db doc_id = map (λ (c : Chunk). c.text) (list_by_document doc_id db)

-- `vector_chunks[doc_id]`
unfoldable pub vector_chunks : Db → Text → List Chunk
unfolding list_by_document
vector_chunks db doc_id = filter (λ (c : Chunk). is_in c.vector_id) (list_by_document doc_id db)

unfoldable pub all_chunks : Db → List Document → List Chunk
unfolding vector_chunks
all_chunks db docs = flat_map (λ (d : Document). vector_chunks db d.id) docs

abbrev pub vector_ids : List Chunk → List ℕ
vector_ids cs = flat_map (λ (c : Chunk). option_list c.vector_id) cs

-- `zip(all_chunks, vectors, strict=True)`, and the loop over it.
abbrev pub keep_vector : Text → Option Vector → Dict Text Vector → Dict Text Vector
keep_vector i none by_chunk = by_chunk
keep_vector i (some v) by_chunk = put i v by_chunk

unfoldable pub vectors_by_chunk :
    List Chunk → List (Option Vector) → Dict Text Vector → Option (Dict Text Vector)
unfolding put
vectors_by_chunk [] [] by_chunk = some by_chunk
vectors_by_chunk [] (v ∷ vs) by_chunk = none
vectors_by_chunk (c ∷ cs) [] by_chunk = none
vectors_by_chunk (c ∷ cs) (v ∷ vs) by_chunk = vectors_by_chunk cs vs (keep_vector c.id v by_chunk)

unfoldable pub rows_of : Dict Text Vector → List Chunk → Option (List Vector)
unfolding find
rows_of by_chunk [] = some []
rows_of by_chunk (c ∷ cs) = cons_option (find c.id by_chunk) (rows_of by_chunk cs)

unfoldable pub usable : Dict Text Vector → List Chunk → List Chunk
unfolding find
usable by_chunk cs = filter (λ (c : Chunk). is_in (find c.id by_chunk)) cs

abbrev pub doc_vectors : Text → List Chunk → List Vector → DocVectors
doc_vectors doc_id cs matrix = record {
  doc_id = doc_id;
  chunk_ids = map (λ (c : Chunk). c.id) cs;
  matrix = matrix;
}

unfoldable pub vectors_of_docs : Db → Dict Text Vector → List Document → Option (List DocVectors)
unfolding rows_of usable vector_chunks
vectors_of_docs db by_chunk [] = some []
vectors_of_docs db by_chunk (d ∷ docs) =
    let cs = usable by_chunk (vector_chunks db d.id) in
    cons_option (and_then (rows_of by_chunk cs) (λ matrix. some (doc_vectors d.id cs matrix)))
      (vectors_of_docs db by_chunk docs)

module _ {I W : Type 0} (f : Faiss I W) where
  -- `_build_doc_vectors`
  unfoldable pub build_doc_vectors :
      FaissVectorStore I → Db → List Document → Option (List DocVectors)
  unfolding reconstruct all_chunks vectors_by_chunk vectors_of_docs
  build_doc_vectors store db docs =
      let chunks = all_chunks db docs in
      and_then (vectors_by_chunk chunks (reconstruct f (vector_ids chunks) store) [])
        (λ by_chunk. vectors_of_docs db by_chunk docs)

module _ {I W : Type 0} ⦃s : Scores W⦄ (f : Faiss I W) (np : NumPy W) (log : W → W) (of_nat : ℕ → W)
    (g : GraphSettings W) where
  -- `_score_pairs_sync`
  unfoldable pub score_pairs :
      List DocVectors
      → Dict Text Counts
      → Option (Dict (Text × Text) (SemanticOverlap W) × EntityScorer W)
  unfolding semantic_overlaps new_scorer
  score_pairs vectors entities =
      and_then (semantic_overlaps np g.top_k_pairs g.semantic_floor g.semantic_ceil vectors)
        (λ overlaps. some (overlaps, new_scorer log of_nat entities))

  module _ ⦃u : Unicode⦄ (tools : EntityTools) where
    unfoldable pub add_entities : Db → List Document → Dict Text Counts → Dict Text Counts
    unfolding texts_of extract_entities put
    add_entities db [] entities = entities
    add_entities db (d ∷ docs) entities = add_entities db docs (
        put d.id (extract_entities tools g.entity_labels g.min_entity_len (texts_of db d.id))
          entities)

    -- The scores of the documents' pairs.
    unfoldable pub scored_pairs :
        FaissVectorStore I
        → Db
        → List Document
        → Option (Dict (Text × Text) (SemanticOverlap W) × EntityScorer W)
    unfolding build_doc_vectors score_pairs add_entities
    scored_pairs store db docs =
        and_then (build_doc_vectors f store db docs)
          (λ vectors. score_pairs vectors (add_entities db docs []))
