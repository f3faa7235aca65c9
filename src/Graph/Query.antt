-- ===== src/Graph/Query.antt =====
-- The query mode of `get_graph` in backend/app/services/graph_service.py: how much each document has to
-- do with a query.
pub mod Best
use docmesh.Prelude.{ℕ, suc, Bool, not, Option, none, some, List, [], ◌∷◌, map, if◌then◌else◌}
use docmesh.Text.{Text, text_eq}
use docmesh.Storage.{Chunk, find_chunk}
use docmesh.Graph.Schemas.{Scores, GraphSettings}
use docmesh.Graph.Combiner.{max_score, calibrate}

-- A hit of the vector store.
pub record VectorHit (W : Type 0) : Type 0 where
  pub chunk_id : Text
  pub score : W

-- The entries of `relevance` and `match_count` for a document.
pub record Relevance (W : Type 0) : Type 0 where
  pub doc_id : Text
  pub relevance : W
  pub match_count : ℕ

module _ {W : Type 0} ⦃s : Scores W⦄ where
  abbrev pub unrelated : Text → Relevance W
  unrelated i = record { doc_id = i; relevance = s.nought; match_count = 0 }

module _ {W : Type 0} ⦃s : Scores W⦄ (g : GraphSettings W) where
  unfoldable pub score_of : VectorHit W → W
  unfolding calibrate
  score_of hit = calibrate hit.score g.semantic_floor g.semantic_ceil

  -- `score >= g.query_relevance_threshold`
  abbrev pub is_match : W → Bool
  is_match score = not (s.lt score g.query_relevance_threshold)

  -- One hit, on the entries of a document.
  unfoldable pub note : Text → W → Relevance W → Relevance W
  unfolding text_eq
  note owner score r =
      let count = if is_match score then suc r.match_count else r.match_count in
      if text_eq r.doc_id owner
      then record r { relevance = max_score r.relevance score; match_count = count }
      else r

  abbrev pub note_owner : Option Chunk → W → List (Relevance W) → List (Relevance W)
  note_owner none score rs = rs
  note_owner (some c) score rs = map (note c.document_id score) rs

  -- The loop over the hits; an owner that is no done document is passed over.
  unfoldable pub annotate :
      List Chunk → List (VectorHit W) → List (Relevance W) → List (Relevance W)
  unfolding note score_of find_chunk
  annotate hit_chunks [] rs = rs
  annotate hit_chunks (hit ∷ hits) rs =
      annotate hit_chunks hits (note_owner (find_chunk hit.chunk_id hit_chunks) (score_of hit) rs)
