-- ===== src/Graph/Build.antt =====
-- `_build_edges`, `_shared_entities` and `_build_analyses` of
-- backend/app/services/graph_service.py. The three signals are parameters.
pub mod EdgeSet
use docmesh.Prelude.{Bool, not, ℕ, Option, none, some, List, [], ◌∷◌, ◌++◌, map, if◌then◌else◌}
use docmesh.Text.{Text, text_eq}
use docmesh.Storage.{Document}
use docmesh.Graph.Schemas.{
  Scores, GraphSettings, TopPair, SharedEntity, EntityWeight, TopicWeight, EdgeCreate,
  DocumentAnalysisCreate,
}
use docmesh.Graph.Order.{sorted_pair}
use docmesh.Graph.Combiner.{combine}

-- Of backend/app/graph/semantic.py.
pub record SemanticOverlap (W : Type 0) : Type 0 where
  pub score : W
  pub raw_mean_cosine : W
  pub top_pairs : List (Text × Text × W)

-- Of backend/app/graph/entities.py.
pub record SharedEntityScore (W : Type 0) : Type 0 where
  pub text : Text
  pub label : Text
  pub idf : W
  pub count_a : ℕ
  pub count_b : ℕ

pub record EntityOverlap (W : Type 0) : Type 0 where
  pub score : W
  pub shared : List (SharedEntityScore W)

-- What was scored: the semantic overlap of a pair, where it has one; the entity overlap; the topic
-- similarity, where there is a topic model; the topics and entities of a document; and a fresh id for
-- the edge of a pair.
pub record Signals (W : Type 0) : Type 0 where
  pub semantic : Text → Text → Option (SemanticOverlap W)
  pub entity : Text → Text → EntityOverlap W
  pub topic : Option (Text → Text → W)
  pub topics_of : Text → Option ℕ × List (TopicWeight W)
  pub entities_of : Text → List (EntityWeight W)
  pub edge_id : Text → Text → Text

module _ {W : Type 0} where
  abbrev pub flip_pair : Bool → Text × Text × W → TopPair W
  flip_pair flipped (a, b, sim) = record {
    a = if flipped then b else a;
    b = if flipped then a else b;
    sim = sim;
  }

  abbrev pub shared_entity : Bool → SharedEntityScore W → SharedEntity W
  shared_entity flipped e = record {
    text = e.text;
    label = e.label;
    idf = e.idf;
    count_a = if flipped then e.count_b else e.count_a;
    count_b = if flipped then e.count_a else e.count_b;
  }

module _ {W : Type 0} ⦃s : Scores W⦄ (g : GraphSettings W) (signals : Signals W)
    (params_hash : Text) where
  abbrev pub semantic_of : Text → Text → SemanticOverlap W
  semantic_of i j = elim (signals.semantic i j) [
    | none ↦ record { score = s.nought; raw_mean_cosine = s.nought; top_pairs = [] }
    | some overlap ↦ overlap
  ]

  abbrev pub topic_of : Text → Text → W
  topic_of i j = elim signals.topic [ none ↦ s.nought | some similarity ↦ similarity i j ]

  -- The score of a pair of documents.
  unfoldable pub combined : Text → Text → W
  unfolding combine
  combined i j = combine (semantic_of i j).score (signals.entity i j).score (topic_of i j) g

  unfoldable pub edge_between : Text → Text → EdgeCreate W
  unfolding combined sorted_pair text_eq
  edge_between i j =
      let (source, target) = sorted_pair i j in
      let flipped = not (text_eq source i) in
      record {
        id = signals.edge_id i j;
        source_doc_id = source;
        target_doc_id = target;
        semantic_score = s.round (semantic_of i j).score 6;
        entity_score = s.round (signals.entity i j).score 6;
        topic_score = s.round (topic_of i j) 6;
        combined_score = s.round (combined i j) 6;
        top_pairs = map (flip_pair flipped) (semantic_of i j).top_pairs;
        shared_entities = map (shared_entity flipped) (signals.entity i j).shared;
        params_hash = params_hash;
      }

  -- The round of one `i`, over the documents behind it.
  unfoldable pub edges_from : Text → List Text → List (EdgeCreate W)
  unfolding edge_between
  edges_from i [] = []
  edges_from i (j ∷ js) =
      let rest = edges_from i js in
      if s.lt (combined i j) g.edge_threshold then rest else edge_between i j ∷ rest

  unfoldable pub edges_of : List Text → List (EdgeCreate W)
  unfolding edges_from
  edges_of [] = []
  edges_of (i ∷ is) = edges_from i is ++ edges_of is

  unfoldable pub build_edges : List Document → List (EdgeCreate W)
  unfolding edges_of
  build_edges done_docs = edges_of (map (λ (d : Document). d.id) done_docs)

  abbrev pub analysis_of : Document → DocumentAnalysisCreate W
  analysis_of doc =
      let (dominant, top_topics) = signals.topics_of doc.id in
      record {
        document_id = doc.id;
        dominant_topic_id = dominant;
        top_topics = top_topics;
        entities = signals.entities_of doc.id;
        params_hash = params_hash;
      }

  unfoldable pub build_analyses : List Document → List (DocumentAnalysisCreate W)
  build_analyses done_docs = map analysis_of done_docs
