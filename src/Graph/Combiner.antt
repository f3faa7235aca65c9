-- ===== src/Graph/Combiner.antt =====
-- backend/app/graph/combiner.py, and `calibrate` of backend/app/graph/semantic.py.
use docmesh.Prelude.{ℕ, List, if◌then◌else◌}
use docmesh.Text.{Text}
use docmesh.Graph.Schemas.{Scores, GraphSettings}

pub data SignalName : Type 0 where
  semantic entity topic : SignalName

-- The settings under `SCORING_FIELDS`.
pub record ScoringFields (W : Type 0) : Type 0 where
  pub semantic_weight : W
  pub entity_weight : W
  pub topic_weight : W
  pub edge_threshold : W
  pub top_k_pairs : ℕ
  pub n_topics : ℕ
  pub entity_labels : List Text
  pub min_entity_len : ℕ
  pub semantic_floor : W
  pub semantic_ceil : W
  pub spacy_model : Text
  pub random_state : ℕ

module _ {W : Type 0} where
  unfoldable pub scoring_fields : GraphSettings W → ScoringFields W
  scoring_fields g = record {
    semantic_weight = g.semantic_weight;
    entity_weight = g.entity_weight;
    topic_weight = g.topic_weight;
    edge_threshold = g.edge_threshold;
    top_k_pairs = g.top_k_pairs;
    n_topics = g.n_topics;
    entity_labels = g.entity_labels;
    min_entity_len = g.min_entity_len;
    semantic_floor = g.semantic_floor;
    semantic_ceil = g.semantic_ceil;
    spacy_model = g.spacy_model;
    random_state = g.random_state;
  }

  -- `digest` is the SHA-256 of the JSON.
  unfoldable pub compute_params_hash : (ScoringFields W → Text) → GraphSettings W → Text
  unfolding scoring_fields
  compute_params_hash digest g = digest (scoring_fields g)

module _ {W : Type 0} ⦃s : Scores W⦄ where
  unfoldable pub combine : W → W → W → GraphSettings W → W
  combine sem ent top g =
      s.add (s.add (s.mul g.semantic_weight sem) (s.mul g.entity_weight ent))
        (s.mul g.topic_weight top)

  -- `max` keeps the first of the largest.
  abbrev pub larger : SignalName × W → SignalName × W → SignalName × W
  larger (n, x) (m, y) = if s.lt x y then (m, y) else (n, x)

  unfoldable pub dominant_signal : W → W → W → GraphSettings W → SignalName
  dominant_signal sem ent top g =
      (larger
        (larger (SignalName.semantic, s.mul g.semantic_weight sem)
          (SignalName.entity, s.mul g.entity_weight ent))
        (SignalName.topic, s.mul g.topic_weight top)).0

  -- `max(x, y)` and `min(x, y)`
  abbrev pub max_score : W → W → W
  max_score x y = if s.lt x y then y else x

  abbrev pub min_score : W → W → W
  min_score x y = if s.lt y x then y else x

  unfoldable pub calibrate : W → W → W → W
  calibrate raw floor ceil =
      min_score s.one (max_score s.nought (s.div (s.sub raw floor) (s.sub ceil floor)))
