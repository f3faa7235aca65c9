-- ===== src/Search/Schemas.antt =====
-- backend/app/schemas/search.py, over a type of scores.
use docmesh.Prelude.{ℕ, Bool, Option, List}
use docmesh.Text.{Text, Span}

-- `HighlightSpan` is a span.
pub record SearchHit (W : Type 0) : Type 0 where
  pub rank : ℕ
  pub chunk_id : Text
  pub document_id : Text
  pub filename : Text
  pub text : Text
  pub page_start : Option ℕ
  pub page_end : Option ℕ
  pub section : Option Text
  pub dense_score : Option W
  pub bm25_score : Option W
  pub fused_score : W
  pub rerank_score : W
  pub term_highlights : List Span
  pub best_sentence : Option Span

-- `top_k`, `dense_weight` and `rrf_k` are within their bounds in the source.
pub record SearchRequest (W : Type 0) : Type 0 where
  pub query : Text
  pub top_k : Option ℕ
  pub dense_weight : Option W
  pub rrf_k : Option ℕ
  pub debug : Bool

pub record RankedItem (W : Type 0) : Type 0 where
  pub rank : ℕ
  pub chunk_id : Text
  pub score : W

pub record SearchDebug (W : Type 0) : Type 0 where
  pub dense_ranking : List (RankedItem W)
  pub bm25_ranking : List (RankedItem W)

-- The timings are left out.
pub record SearchResponse (W : Type 0) : Type 0 where
  pub query : Text
  pub hits : List (SearchHit W)
  pub debug : Option (SearchDebug W)

-- `SearchSettings` of backend/app/core/config.py, as far as the service reads it.
pub record SearchSettings (W : Type 0) : Type 0 where
  pub rrf_k : ℕ
  pub dense_weight : W
  pub retrieve_n : ℕ
  pub return_n : ℕ
  pub semantic_highlights : Bool
