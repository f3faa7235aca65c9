-- ===== src/Vectors/Faiss.antt =====
-- What the vector store calls of FAISS, `IndexIDMap2(IndexFlatIP(dim))`, and what it documents.
use docmesh.Prelude.{
  ℕ, ◌+◌, ◌≡◌, not, Bool, false, ◌||◌, Option, none, some, List, [], ◌∷◌, ◌++◌, All, filter, length,
  ◌==◌, if◌then◌else◌,
}
use docmesh.Ingest.Exec.{Vector}

-- A result of `search` without an id is one that FAISS pads with -1.
pub record Faiss (I W : Type 0) : Type 0 where
  pub new_index : ℕ → I
  pub dim_of : I → ℕ
  pub ntotal : I → ℕ
  pub add_with_ids : List (ℕ × Vector) → I → I
  pub remove_ids : List ℕ → I → ℕ × I
  pub search : Vector → ℕ → I → List (W × Option ℕ)
  pub reconstruct : ℕ → I → Option Vector

-- `id in ids`
unfoldable pub id_in : ℕ → List ℕ → Bool
id_in i [] = false
id_in i (j ∷ js) = j == i || id_in i js

-- The vector of the id.
unfoldable pub vector_of : ℕ → List (ℕ × Vector) → Option Vector
vector_of i [] = none
vector_of i ((j, v) ∷ es) = let rest = vector_of i es in if j == i then some v else rest

abbrev pub IsResult : {W : Type 0} → List (ℕ × Vector) → W × Option ℕ → Type 0
IsResult es (x, none) = Unit
IsResult es (x, some i) = (v : Vector) × (vector_of i es ≡ some v)

-- An index holds vectors with ids, in order: adding appends, removing drops all with such an id and
-- counts them, and a search returns at most as many as it is asked for, of those that it holds.
pub record IsFaiss {I W : Type 0} (f : Faiss I W) : Type 0 where
  pub contents : I → List (ℕ × Vector)
  pub contents-new : (dim : ℕ) → contents (f.new_index dim) ≡ []
  pub contents-add :
      (es : List (ℕ × Vector)) (i : I) → contents (f.add_with_ids es i) ≡ contents i ++ es
  pub contents-remove :
      (ids : List ℕ) (i : I)
      → contents (f.remove_ids ids i).1
        ≡ filter (λ (e : ℕ × Vector). not (id_in e.0 ids)) (contents i)
  pub removed :
      (ids : List ℕ) (i : I)
      → (f.remove_ids ids i).0 + length (contents (f.remove_ids ids i).1) ≡ length (contents i)
  pub ntotal-eq : (i : I) → f.ntotal i ≡ length (contents i)
  pub dim-new : (dim : ℕ) → f.dim_of (f.new_index dim) ≡ dim
  pub dim-add : (es : List (ℕ × Vector)) (i : I) → f.dim_of (f.add_with_ids es i) ≡ f.dim_of i
  pub dim-remove : (ids : List ℕ) (i : I) → f.dim_of (f.remove_ids ids i).1 ≡ f.dim_of i
  pub search-results : (v : Vector) (k : ℕ) (i : I) → All (IsResult (contents i)) (f.search v k i)
  pub reconstruct-eq : (id : ℕ) (i : I) → f.reconstruct id i ≡ vector_of id (contents i)
