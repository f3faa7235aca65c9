-- ===== src/Graph/Semantic.antt =====
-- `semantic_overlaps` of backend/app/graph/semantic.py. A matrix is its rows, all of one length that is
-- not 0. What the code calls of numpy is a parameter; `none` is an IndexError.
pub mod Blocks
pub mod Top
pub mod Pairs
pub mod Scored
pub mod Entries
use docmesh.Prelude.{
  ℕ, ◌+◌, ◌-◌, ◌/◌, ◌%◌, min, ◌==◌, Option, none, some, List, [], ◌∷◌, map, length, drop, slice,
  get_elem?, gather, cons_option, and_then, if◌then◌else◌,
}
use mathlib.Core.List.{reverse, flatten}
use docmesh.Text.{Text}
use docmesh.Ingest.Exec.{Vector}
use docmesh.Dict.{Dict, put}
use docmesh.Graph.Schemas.{Scores}
use docmesh.Graph.Combiner.{calibrate}
use docmesh.Graph.Build.{SemanticOverlap}
use docmesh.Graph.Entities.Keys.{entity_key}

pub record DocVectors : Type 0 where
  pub doc_id : Text
  pub chunk_ids : List Text
  pub matrix : List Vector

-- An entry of `a @ a.T` for two rows, the indices that `argpartition` and `argsort` give, and the mean.
pub record NumPy (W : Type 0) : Type 0 where
  pub dot : Vector → Vector → W
  pub argpartition : List W → ℕ → List ℕ
  pub argsort : List W → List ℕ
  pub mean : List W → W

-- A document with its two offsets.
pub record Placed : Type 0 where
  pub doc : DocVectors
  pub start : ℕ
  pub stop : ℕ

unfoldable pub placed : ℕ → List DocVectors → List Placed
placed n [] = []
placed n (d ∷ ds) =
    record { doc = d; start = n; stop = n + length d.matrix } ∷ placed (n + length d.matrix) ds

abbrev pub stack : List DocVectors → List Vector
stack ds = flatten (map (λ (d : DocVectors). d.matrix) ds)

-- Where `[-k:]` begins.
abbrev pub from_end : ℕ → ℕ → ℕ
from_end k n = if k == 0 then 0 else n - k

module _ {W : Type 0} where
  unfoldable pub block_between : List (List W) → Placed → Placed → List (List W)
  block_between sims a b =
      map (λ (row : List W). slice row b.start b.stop) (slice sims a.start a.stop)

module _ {W : Type 0} (np : NumPy W) where
  unfoldable pub similarities : List Vector → List (List W)
  similarities stacked = map (λ u. map (np.dot u) stacked) stacked

  -- The `k` largest, the largest first.
  unfoldable pub top_of : List W → ℕ → Option (List ℕ)
  top_of flat k =
      let kth = from_end k (length flat) in
      let top = drop kth (np.argpartition flat kth) in
      and_then (gather flat top) (λ found. gather top (reverse (np.argsort found)))

module _ {W : Type 0} ⦃s : Scores W⦄ where
  abbrev pub pair_of : Option Text → Option Text → Option W → Option (Text × Text × W)
  pair_of none b w = none
  pair_of (some a) none w = none
  pair_of (some a) (some b) none = none
  pair_of (some a) (some b) (some w) = some (a, b, s.round w 4)

  unfoldable pub pairs_at :
      DocVectors → DocVectors → ℕ → List W → List ℕ → Option (List (Text × Text × W))
  pairs_at a b nb flat [] = some []
  pairs_at a b nb flat (p ∷ ps) =
      cons_option
        (pair_of (get_elem? a.chunk_ids (p / nb)) (get_elem? b.chunk_ids (p % nb))
          (get_elem? flat p))
        (pairs_at a b nb flat ps)

module _ {W : Type 0} ⦃s : Scores W⦄ (np : NumPy W) (top_k : ℕ) (floor ceil : W) where
  unfoldable pub overlap_at :
      DocVectors → DocVectors → ℕ → List W → List ℕ → Option (SemanticOverlap W)
  unfolding pairs_at calibrate
  overlap_at a b nb flat top = and_then (gather flat top) (λ found.
      and_then (pairs_at a b nb flat top) (λ pairs. some (record {
        score = calibrate (np.mean found) floor ceil;
        raw_mean_cosine = np.mean found;
        top_pairs = pairs;
      })))

  unfoldable pub overlap_in : DocVectors → DocVectors → ℕ → List W → Option (SemanticOverlap W)
  unfolding top_of overlap_at
  overlap_in a b nb [] =
      some (record { score = s.nought; raw_mean_cosine = s.nought; top_pairs = [] })
  overlap_in a b nb (w ∷ ws) =
      let flat = w ∷ ws in
      and_then (top_of np flat (min top_k (length flat))) (λ top. overlap_at a b nb flat top)

  -- The round of one `i` and `j`
  unfoldable pub overlap_between : List (List W) → Placed → Placed → Option (SemanticOverlap W)
  unfolding block_between overlap_in
  overlap_between sims a b =
      overlap_in a.doc b.doc (b.stop - b.start) (flatten (block_between sims a b))

  -- The round of one `i`, over the documents behind it
  unfoldable pub overlaps_from :
      List (List W)
      → Placed
      → List Placed
      → Dict (Text × Text) (SemanticOverlap W)
      → Option (Dict (Text × Text) (SemanticOverlap W))
  unfolding overlap_between put
  overlaps_from sims a [] out = some out
  overlaps_from sims a (b ∷ bs) out =
      and_then (overlap_between sims a b)
        (λ overlap. overlaps_from sims a bs (put (a.doc.doc_id, b.doc.doc_id) overlap out))

  unfoldable pub overlaps_of :
      List (List W)
      → List Placed
      → Dict (Text × Text) (SemanticOverlap W)
      → Option (Dict (Text × Text) (SemanticOverlap W))
  unfolding overlaps_from
  overlaps_of sims [] out = some out
  overlaps_of sims (a ∷ rest) out =
      and_then (overlaps_from sims a rest out) (λ out'. overlaps_of sims rest out')

  unfoldable pub semantic_overlaps :
      List DocVectors → Option (Dict (Text × Text) (SemanticOverlap W))
  unfolding similarities placed overlaps_of
  semantic_overlaps docs = overlaps_of (similarities np (stack docs)) (placed 0 docs) []
