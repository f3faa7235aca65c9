-- ===== src/Ingest/Dedup.antt =====
-- `_dedup_and_embed` of backend/app/ingestion/queue.py.
pub mod Kept
use docmesh.Prelude.{ℕ, zero, suc, Bool, true, false, ◌||◌, List, [], ◌∷◌, ◌++◌, map, if◌then◌else◌}
use docmesh.Text.{Text, text_in}

-- `flags` of the exact pass: the hash stands among the `existing` ones, or was `seen` in this batch.
unfoldable pub exact_flags : List Text → List Text → List Text → List Bool
unfolding text_in
exact_flags existing seen [] = []
exact_flags existing seen (h ∷ hs) =
    let dup_exact = text_in h existing || text_in h seen in
    dup_exact ∷ exact_flags existing (if dup_exact then seen else h ∷ seen) hs

-- `[(i, drafts[i]) for i in range(len(drafts)) if not flags[i]]`
unfoldable pub candidates {ℓ} : {A : Type ℓ} → ℕ → List Bool → List A → List (ℕ × A)
candidates i [] drafts = []
candidates i (f ∷ fs) [] = []
candidates i (f ∷ fs) (d ∷ ds) =
    let rest = candidates (suc i) fs ds in if f then rest else (i, d) ∷ rest

-- `flags[idx] = True`
unfoldable pub set_flag : ℕ → List Bool → List Bool
set_flag idx [] = []
set_flag zero (f ∷ fs) = true ∷ fs
set_flag (suc idx) (f ∷ fs) = f ∷ set_flag idx fs

-- The vectors, whether the vector store has a hit above the threshold for a vector, and whether
-- the inner product of two vectors is above it.
module _ {Vec : Type 0} (stored_near : Vec → Bool) (near : Vec → Vec → Bool) where
  -- `float(np.max(np.stack(kept_vecs) @ vec)) > threshold`; false where nothing is kept.
  unfoldable pub batch_near : List (ℕ × Vec) → Vec → Bool
  batch_near [] vec = false
  batch_near ((i, v) ∷ kept) vec = near v vec || batch_near kept vec

  -- The loop over the candidates and their vectors: the flags, and the pairs that are kept.
  unfoldable pub near_pass :
      List Bool → List (ℕ × Vec) → List (ℕ × Vec) → List Bool × List (ℕ × Vec)
  unfolding batch_near set_flag
  near_pass flags kept [] = (flags, kept)
  near_pass flags kept ((idx, vec) ∷ rest) =
      let dup_near = stored_near vec || batch_near kept vec in
      near_pass (if dup_near then set_flag idx flags else flags)
        (if dup_near then kept else kept ++ (idx, vec) ∷ []) rest

  -- The whole function, from the hashes that stand in the database and the drafts as (content
  -- hash, text). `embed_passages` gives one vector for each text.
  unfoldable pub dedup : (Text → Vec) → List Text → List (Text × Text) → List Bool × List (ℕ × Vec)
  unfolding exact_flags candidates near_pass
  dedup embed existing drafts =
      let flags = exact_flags existing [] (map (λ (d : Text × Text). d.0) drafts) in
      let texts = candidates 0 flags (map (λ (d : Text × Text). d.1) drafts) in
      near_pass flags [] (map (λ (c : ℕ × Text). (c.0, embed c.1)) texts)
