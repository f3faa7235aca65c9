-- ===== src/Graph/Semantic/Pairs.antt =====
-- The pairs of passages of two documents.
use docmesh.Prelude.{
  get_elem?-some, ℕ, zero, suc, ◌*◌, ◌/◌, ◌%◌, ◌<◌, ◌≡◌, refl, sym, ap, ◌∙◌, some, List, [], ◌∷◌,
  All, map, length, get_elem?, gather, arith,
}
use mathlib.Core.List.{flatten}
use native.Mathlib.Nat.{div-lt_iff_lt-mul, mod-lt, div-add-mod'}
use docmesh.Text.{Text}
use docmesh.Ingest.Exec.{Vector}
use docmesh.Graph.Schemas.{Scores}
use docmesh.Graph.Semantic.{DocVectors, NumPy, pairs_at}
use docmesh.Graph.Semantic.Blocks.{table, get_elem?-table}

-- A passage of each of two documents.
pub record Passages : Type 0 where
  pub chunk_a : Text
  pub chunk_b : Text
  pub vector_a : Vector
  pub vector_b : Vector

-- The chunk and the vector stand in one row of the document.
abbrev pub IsPassage : DocVectors → Text → Vector → Type 0
IsPassage d chunk vector =
    (r : ℕ) × (get_elem? d.chunk_ids r ≡ some chunk) × (get_elem? d.matrix r ≡ some vector)

abbrev pub AreOf : DocVectors → DocVectors → Passages → Type 0
AreOf a b x = IsPassage a x.chunk_a x.vector_a × IsPassage b x.chunk_b x.vector_b

abbrev pub IsAligned : DocVectors → Type 0
IsAligned d = length d.chunk_ids ≡ length d.matrix

-- An index below `m * n` is a row and a column.
below_div : (p m n : ℕ) → p < m * n → (p / n < m) × (p % n < n)
below_div p m zero h = absurd (omega arith)
below_div p m (suc n) h = ((div-lt_iff_lt-mul (omega arith)).1 h, mod-lt p (omega arith))

module _ {W : Type 0} ⦃s : Scores W⦄ (np : NumPy W) where
  abbrev pub cosine : Passages → W
  cosine x = np.dot x.vector_a x.vector_b

  abbrev pub listed : Passages → Text × Text × W
  listed x = (x.chunk_a, x.chunk_b, s.round (cosine x) 4)

  module _ (a b : DocVectors) (aligned_a : IsAligned a) (aligned_b : IsAligned b) where
    passages_at :
        (p : ℕ)
        → p < length a.matrix * length b.matrix
        → (x : Passages) × AreOf a b x
          × (get_elem? a.chunk_ids (p / length b.matrix) ≡ some x.chunk_a)
          × (get_elem? b.chunk_ids (p % length b.matrix) ≡ some x.chunk_b)
          × (get_elem? (flatten (table np a.matrix b.matrix)) p ≡ some (cosine x))
    passages_at p h =
        let nb = length b.matrix in
        let (row, col) = below_div p (length a.matrix) nb h in
        let (u, v, at_row, at_col, product) =
          get_elem?-table np a.matrix b.matrix (p / nb) (p % nb) row col in
        let (i, chunk_i) = get_elem?-some a.chunk_ids (p / nb) (omega arith) in
        let (j, chunk_j) = get_elem?-some b.chunk_ids (p % nb) (omega arith) in
        (
          record { chunk_a = i; chunk_b = j; vector_a = u; vector_b = v },
          ((p / nb, chunk_i, at_row), (p % nb, chunk_j, at_col)),
          chunk_i,
          chunk_j,
          ap (get_elem? (flatten (table np a.matrix b.matrix))) (sym (div-add-mod' p nb)) ∙ product,
        )

    pub pairs_at-found :
        (top : List ℕ)
        → All (λ p. p < length a.matrix * length b.matrix) top
        → (found : List Passages) × (length found ≡ length top)
          × All (AreOf a b) found
          × (gather (flatten (table np a.matrix b.matrix)) top ≡ some (map cosine found))
          × (pairs_at a b (length b.matrix) (flatten (table np a.matrix b.matrix)) top
              ≡ some (map listed found))
    unfolding pairs_at
    pairs_at-found [] h = ([], refl, tt, refl, refl)
    pairs_at-found (p ∷ top) (h, hs) =
        let (x, of_docs, chunk_a, chunk_b, product) = passages_at p h in
        let (found, len, good, cosines, pairs) = pairs_at-found top hs in
        (
          x ∷ found,
          ap suc len,
          (of_docs, good),
          rw (product, cosines) refl,
          rw (chunk_a, chunk_b, product, pairs) refl,
        )
