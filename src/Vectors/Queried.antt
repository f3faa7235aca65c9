-- ===== src/Vectors/Queried.antt =====
-- What a query of the store gives.
use docmesh.Prelude.{
  ℕ, ◌*◌, ◌≤◌, ◌≡◌, refl, true, Option, none, some, List, [], ◌∷◌, All, map, take, length,
  length-take, take-All, min, ◌==◌, if_both, arith, Bool-cases, inl, inr,
}
use docmesh.Text.{Text, text_in}
use docmesh.Dict.{nat_key}
use docmesh.Ingest.Exec.{Vector, VectorRow}
use docmesh.Graph.Query.{VectorHit}
use docmesh.Vectors.Faiss.{Faiss, IsFaiss, IsResult, vector_of}
use docmesh.Vectors.Store.{FaissVectorStore, entry, keep_result, hits_of, query, overfetch}
use docmesh.Vectors.Rows.{find_row}
use docmesh.Vectors.Represents.{Represents}

-- The document is one of those that are asked for, if any are.
abbrev pub IsWanted : Option (List Text) → Text → Type 0
IsWanted none doc_id = Unit
IsWanted (some ids) doc_id = text_in doc_id ids ≡ true

-- The hit is the chunk of a row, of a document that is wanted.
abbrev pub IsHit : {W : Type 0} → Option (List Text) → List VectorRow → VectorHit W → Type 0
IsHit doc_ids rows hit =
    (v : ℕ) × (r : VectorRow) × (find_row v rows ≡ some r)
    × (hit.chunk_id ≡ r.chunk_id)
    × IsWanted doc_ids r.doc_id

-- A vector that the index holds is one of a row.
entry_row :
    (v : ℕ) (rows : List VectorRow) (x : Vector)
    → vector_of v (map entry rows) ≡ some x
    → (r : VectorRow) × (find_row v rows ≡ some r)
unfolding vector_of
entry_row v [] x h = absurd cc
entry_row v (r ∷ rows) x h = elim (Bool-cases (r.vector_id == v)) [
  | inl here ↦ (r, rw here refl)
  | inr later ↦ let (r', found) = entry_row v rows x (rw later at h) in (r', rw later found)
]

module _ {W : Type 0} where
  abbrev AreHits : Option (List Text) → List VectorRow → Option (List (VectorHit W)) → Type 0
  AreHits doc_ids rows o =
      (hits : List (VectorHit W)) × (o ≡ some hits) × All (IsHit doc_ids rows) hits

  keep_result-AreHits :
      (doc_ids : Option (List Text)) (rows : List VectorRow) (v : ℕ) (score : W) (r : VectorRow)
      (o : Option (List (VectorHit W)))
      → find_row v rows ≡ some r
      → AreHits doc_ids rows o
      → AreHits doc_ids rows (keep_result doc_ids score (some r.chunk_id) (some r.doc_id) o)
  keep_result-AreHits none rows v score r o found (hits, eq, good) = (
    record { chunk_id = r.chunk_id; score = score } ∷ hits,
    rw eq refl,
    ((v, r, found, refl, tt), good),
  )
  keep_result-AreHits (some ids) rows v score r o found (hits, eq, good) =
      elim (Bool-cases (text_in r.doc_id ids)) [
        | inl wanted ↦ (
          record { chunk_id = r.chunk_id; score = score } ∷ hits,
          rw (wanted, eq) refl,
          ((v, r, found, refl, wanted), good),
        )
        | inr other ↦ (hits, rw (other, eq) refl, good)
      ]

module _ {I W : Type 0} (f : Faiss I W) (laws : IsFaiss f) (st : FaissVectorStore I)
    (rows persisted : List VectorRow) (h : Represents f laws st rows persisted) where
  hits_of-AreHits :
      (doc_ids : Option (List Text)) (results : List (W × Option ℕ))
      → All (IsResult (map entry rows)) results
      → AreHits doc_ids rows (hits_of doc_ids st results)
  unfolding hits_of
  hits_of-AreHits doc_ids [] ok = ([], refl, tt)
  hits_of-AreHits doc_ids ((score, none) ∷ results) (_, ok) = hits_of-AreHits doc_ids results ok
  hits_of-AreHits doc_ids ((score, some v) ∷ results) ((x, held), ok) =
      let (r, found) = entry_row v rows x held in
      rw (h.maps.chunks_eq v, h.maps.docs_eq v, found)
        (keep_result-AreHits doc_ids rows v score r (hits_of doc_ids st results) found
          (hits_of-AreHits doc_ids results ok))

  -- A query of a store that stands for some rows raises nothing. It gives as many hits as it is asked
  -- for at most, each the chunk of a row; with a filter, of a row of one of its documents.
  pub query-AreHits :
      (vector : Vector) (top_k : ℕ) (doc_ids : Option (List Text))
      → (hits : List (VectorHit W)) × (query f vector top_k doc_ids st ≡ some hits)
        × (length hits ≤ top_k)
        × All (IsHit doc_ids rows) hits
  unfolding query
  query-AreHits vector top_k doc_ids =
      let (i, found, held, dim) = h.index_eq in
      let k = min (f.ntotal i) (top_k * overfetch doc_ids) in
      let (hits, eq, good) =
        hits_of-AreHits doc_ids (f.search vector k i)
          (rw held at (laws.search-results vector k i)) in
      rw found (
        if_both
          (λ o.
            (hits' : List (VectorHit W)) × (o ≡ some hits')
            × (length hits' ≤ top_k)
            × All (IsHit doc_ids rows) hits')
          (f.ntotal i == 0) (λ _. ([], refl, omega arith, tt))
          (λ _. (
            take top_k hits,
            rw eq refl,
            omega (arith, length-take top_k hits),
            take-All (IsHit doc_ids rows) top_k hits good,
          )))
