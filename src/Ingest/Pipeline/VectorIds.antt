-- ===== src/Ingest/Pipeline/VectorIds.antt =====
-- The vector ids that `_run_pipeline` (backend/app/ingestion/queue.py) gives to new rows.
use docmesh.Prelude.{
  ℕ, suc, ◌≤◌, ◌<◌, ◌≡◌, refl, Option, none, some, List, [], ◌∷◌, All, All-imp, arith,
}
use docmesh.Text.{Text}
use docmesh.Storage.{Chunk, next_vector_id, above}
use docmesh.Ingest.Exec.{Vector}
use docmesh.Ingest.Pipeline.{allocate}

-- The id that a row has, if any, is below `n`.
abbrev pub IsBelow : ℕ → Option ℕ → Type 0
IsBelow n none = Unit
IsBelow n (some v) = v < n

-- The ids grow, from `n` on, without a gap.
abbrev pub CountsFrom : ℕ → List (Text × ℕ) → Type 0
CountsFrom n [] = Unit
CountsFrom n ((i, v) ∷ vids) = (v ≡ n) × CountsFrom (suc n) vids

IsBelow-weaken : (m n : ℕ) (o : Option ℕ) → m ≤ n → IsBelow m o → IsBelow n o
IsBelow-weaken m n none h b = tt
IsBelow-weaken m n (some v) h b = omega arith

IsBelow-above : (o : Option ℕ) (n : ℕ) → IsBelow (above o n) o
IsBelow-above none n = tt
IsBelow-above (some v) n = omega arith

above-ge : (o : Option ℕ) (n : ℕ) → n ≤ above o n
above-ge none n = omega arith
above-ge (some v) n = omega arith

next_vector_id-IsBelow :
    (cs : List Chunk) → All (λ (c : Chunk). IsBelow (next_vector_id cs) c.vector_id) cs
unfolding next_vector_id
next_vector_id-IsBelow [] = tt
next_vector_id-IsBelow (c ∷ cs) = (
  IsBelow-above c.vector_id (next_vector_id cs),
  All-imp _ _
      (λ d b.
        IsBelow-weaken (next_vector_id cs) _ d.vector_id (above-ge c.vector_id (next_vector_id cs))
          b)
      cs (next_vector_id-IsBelow cs),
)

allocate-CountsFrom : (n : ℕ) (rows : List (Chunk × Vector)) → CountsFrom n (allocate n rows)
unfolding allocate
allocate-CountsFrom n [] = tt
allocate-CountsFrom n ((row, vec) ∷ rows) = (refl, allocate-CountsFrom (suc n) rows)

-- Every vector id in the table is below the first new one, and the new ones count up from it: none
-- is given twice.
pub allocate-IsBelow :
    (cs : List Chunk) (rows : List (Chunk × Vector))
    → All (λ (c : Chunk). IsBelow (next_vector_id cs) c.vector_id) cs
      × CountsFrom (next_vector_id cs) (allocate (next_vector_id cs) rows)
allocate-IsBelow cs rows = (next_vector_id-IsBelow cs, allocate-CountsFrom (next_vector_id cs) rows)
