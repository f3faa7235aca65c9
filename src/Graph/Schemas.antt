-- ===== src/Graph/Schemas.antt =====
-- backend/app/schemas/graph.py and the settings of the graph, over a type of scores: the floats of the
-- source are an interface, with what the code does with them;
-- `round` is `round(x, n)` and `fixed` is `f"{x:.2f}"`.
use docmesh.Prelude.{ℕ, Bool, Option, List}
use docmesh.Text.{Text}

pub record Scores (W : Type 0) : Type 0 where
  pub nought : W
  pub one : W
  pub add : W → W → W
  pub sub : W → W → W
  pub mul : W → W → W
  pub div : W → W → W
  pub lt : W → W → Bool
  pub round : W → ℕ → W
  pub fixed : W → Text

pub record TopPair (W : Type 0) : Type 0 where
  pub a : Text
  pub b : Text
  pub sim : W

pub record SharedEntity (W : Type 0) : Type 0 where
  pub text : Text
  pub label : Text
  pub idf : W
  pub count_a : ℕ
  pub count_b : ℕ

pub record EntityWeight (W : Type 0) : Type 0 where
  pub text : Text
  pub label : Text
  pub idf : W
  pub count : ℕ

pub record TopicWeight (W : Type 0) : Type 0 where
  pub topic_id : ℕ
  pub weight : W
  pub terms : List Text

-- The validator of `EdgeCreate` and the times of `Edge` are in the repository.
pub record EdgeCreate (W : Type 0) : Type 0 where
  pub id : Text
  pub source_doc_id : Text
  pub target_doc_id : Text
  pub semantic_score : W
  pub entity_score : W
  pub topic_score : W
  pub combined_score : W
  pub top_pairs : List (TopPair W)
  pub shared_entities : List (SharedEntity W)
  pub params_hash : Text

pub record DocumentAnalysisCreate (W : Type 0) : Type 0 where
  pub document_id : Text
  pub dominant_topic_id : Option ℕ
  pub top_topics : List (TopicWeight W)
  pub entities : List (EntityWeight W)
  pub params_hash : Text

-- `GraphSettings` of backend/app/core/config.py.
pub record GraphSettings (W : Type 0) : Type 0 where
  pub semantic_weight : W
  pub entity_weight : W
  pub topic_weight : W
  pub edge_threshold : W
  pub top_k_pairs : ℕ
  pub n_topics : ℕ
  pub spacy_model : Text
  pub entity_labels : List Text
  pub min_entity_len : ℕ
  pub semantic_floor : W
  pub semantic_ceil : W
  pub random_state : ℕ
  pub top_entities_per_node : ℕ
  pub query_top_k : ℕ
  pub query_relevance_threshold : W
