-- ===== src/Graph/Hydrate/Scored.antt =====
-- The hydration of the vectors does not raise, and every two documents are scored.
use docmesh.Prelude.{
  ℕ, suc, ◌≡◌, refl, sym, ap, ◌∙◌, true, Option, none, some, List, [], ◌∷◌, All, All-append, filter,
  length, length-map, if_both, arith,
}
use docmesh.Text.{Text}
use docmesh.Dict.{Dict, text_key, find}
use docmesh.Storage.{Db, Document, Chunk, list_by_document}
use docmesh.Storage.Listed.{ids}
use docmesh.Ingest.Exec.{Vector}
use docmesh.Vectors.Faiss.{Faiss}
use docmesh.Vectors.Store.{FaissVectorStore, reconstruct, reconstruct_in}
use docmesh.Graph.Entities.Scorer.{is_in}
use docmesh.Graph.Semantic.{DocVectors}
use docmesh.Graph.Semantic.Pairs.{IsAligned}
use docmesh.Graph.Semantic.Entries.{doc_ids}
use docmesh.Graph.Hydrate.{
  vector_chunks, all_chunks, vector_ids, keep_vector, vectors_by_chunk, rows_of, usable,
  doc_vectors, vectors_of_docs, build_doc_vectors,
}

abbrev HasId : Chunk → Type 0
HasId c = (v : ℕ) × (c.vector_id ≡ some v)

is_in-some : {A : Type 0} (o : Option A) → is_in o ≡ true → (x : A) × (o ≡ some x)
is_in-some none h = absurd cc
is_in-some (some x) h = (x, refl)

filter-some :
    {A : Type 0} (key : Chunk → Option A) (cs : List Chunk)
    → All (λ c. (x : A) × (key c ≡ some x)) (filter (λ (c : Chunk). is_in (key c)) cs)
filter-some {A} key [] = tt
filter-some {A} key (c ∷ cs) =
    if_both (All (λ c. (x : A) × (key c ≡ some x))) (is_in (key c))
      (λ yes. (is_in-some (key c) yes, filter-some key cs)) (λ _. filter-some key cs)

all_chunks-HasId : (db : Db) (docs : List Document) → All HasId (all_chunks db docs)
unfolding all_chunks vector_chunks
all_chunks-HasId db [] = tt
all_chunks-HasId db (d ∷ docs) =
    All-append HasId (vector_chunks db d.id) (all_chunks db docs)
      (filter-some (λ c. c.vector_id) (list_by_document d.id db)) (all_chunks-HasId db docs)

length-vector_ids : (cs : List Chunk) → All HasId cs → length (vector_ids cs) ≡ length cs
length-vector_ids [] h = refl
length-vector_ids (c ∷ cs) ((v, e), hs) = rw e (ap suc (length-vector_ids cs hs))

length-reconstruct_in :
    {I W : Type 0} (f : Faiss I W) (is : List ℕ) (index : Option I)
    → length (reconstruct_in f is index) ≡ length is
length-reconstruct_in f is none = length-map {B = Option Vector} (λ _. none) is
length-reconstruct_in f is (some i) = length-map (λ id. f.reconstruct id i) is

-- As many vectors as chunks.
vectors_by_chunk-some :
    (cs : List Chunk) (vs : List (Option Vector)) (by_chunk : Dict Text Vector)
    → length vs ≡ length cs
    → (by_chunk' : Dict Text Vector) × (vectors_by_chunk cs vs by_chunk ≡ some by_chunk')
unfolding vectors_by_chunk
vectors_by_chunk-some [] [] by_chunk h = (by_chunk, refl)
vectors_by_chunk-some [] (v ∷ vs) by_chunk h = absurd (omega arith)
vectors_by_chunk-some (c ∷ cs) [] by_chunk h = absurd (omega arith)
vectors_by_chunk-some (c ∷ cs) (v ∷ vs) by_chunk h =
    vectors_by_chunk-some cs vs (keep_vector c.id v by_chunk) (omega arith)

rows_of-some :
    (by_chunk : Dict Text Vector) (cs : List Chunk)
    → All (λ c. (v : Vector) × (find c.id by_chunk ≡ some v)) cs
    → (matrix : List Vector) × (rows_of by_chunk cs ≡ some matrix) × (length matrix ≡ length cs)
unfolding rows_of
rows_of-some by_chunk [] h = ([], refl, refl)
rows_of-some by_chunk (c ∷ cs) ((v, e), hs) =
    let (matrix, eq, len) = rows_of-some by_chunk cs hs in (v ∷ matrix, rw (e, eq) refl, ap suc len)

vectors_of_docs-AreAligned :
    (db : Db) (by_chunk : Dict Text Vector) (docs : List Document)
    → (vectors : List DocVectors) × (vectors_of_docs db by_chunk docs ≡ some vectors)
      × (doc_ids vectors ≡ ids docs)
      × All IsAligned vectors
unfolding vectors_of_docs usable
vectors_of_docs-AreAligned db by_chunk [] = ([], refl, refl, tt)
vectors_of_docs-AreAligned db by_chunk (d ∷ docs) =
    let cs = usable by_chunk (vector_chunks db d.id) in
    let (matrix, rows, len) =
      rows_of-some by_chunk cs (filter-some (λ c. find c.id by_chunk) (vector_chunks db d.id)) in
    let (vectors, eq, same, aligned) = vectors_of_docs-AreAligned db by_chunk docs in
    (
      doc_vectors d.id cs matrix ∷ vectors,
      rw (rows, eq) refl,
      ap (λ is. d.id ∷ is) same,
      (length-map (λ (c : Chunk). c.id) cs ∙ sym len, aligned),
    )

-- The vectors of the documents are found without an exception, whatever the store holds: a document
-- has as many ids of chunks as vectors.
pub build_doc_vectors-AreAligned :
    {I W : Type 0} (f : Faiss I W) (store : FaissVectorStore I) (db : Db) (docs : List Document)
    → (vectors : List DocVectors) × (build_doc_vectors f store db docs ≡ some vectors)
      × (doc_ids vectors ≡ ids docs)
      × All IsAligned vectors
unfolding build_doc_vectors reconstruct
build_doc_vectors-AreAligned f store db docs =
    let cs = all_chunks db docs in
    let (by_chunk, eq) = vectors_by_chunk-some cs (reconstruct f (vector_ids cs) store) [] (
      length-reconstruct_in f (vector_ids cs) store.index
      ∙ length-vector_ids cs (all_chunks-HasId db docs)) in
    rw eq (vectors_of_docs-AreAligned db by_chunk docs)
