-- ===== src/Graph/Views.antt =====
-- The reads of backend/app/services/graph_service.py: `get_graph` and `get_edge_detail`.
pub mod Served
use docmesh.Prelude.{
  ℕ, Bool, true, false, not, ◌||◌, ◌&&◌, Option, none, some, List, [], ◌∷◌, map, flat_map, take,
  length, ltb, ◌==◌, if◌then◌else◌,
}
use docmesh.Text.{Text, text_eq}
use docmesh.Storage.{Db, Document, FileType, Chunk, find_chunk, get_many}
use docmesh.Graph.Schemas.{Scores, GraphSettings, TopPair, SharedEntity, EntityWeight, TopicWeight}
use docmesh.Graph.Combiner.{ScoringFields, SignalName, dominant_signal, compute_params_hash}
use docmesh.Graph.Edges.{Edge, list_all, get}
use docmesh.Graph.Recompute.{DocumentAnalysis, GraphDb, list_done, ids}
use docmesh.Graph.Query.{VectorHit, Relevance, annotate, unrelated}

pub record GraphNode (W : Type 0) : Type 0 where
  pub id : Text
  pub filename : Text
  pub file_type : FileType
  pub size_bytes : ℕ
  pub chunk_count : ℕ
  pub dominant_topic_id : Option ℕ
  pub top_topics : List (TopicWeight W)
  pub top_entities : List (EntityWeight W)
  pub relevance : Option W
  pub match_count : Option ℕ

pub record GraphEdge (W : Type 0) : Type 0 where
  pub id : Text
  pub source : Text
  pub target : Text
  pub semantic_score : W
  pub entity_score : W
  pub topic_score : W
  pub combined_score : W
  pub dominant_signal : SignalName
  pub shared_entities : List (SharedEntity W)
  pub top_pair_count : ℕ

pub record GraphMeta (W : Type 0) : Type 0 where
  pub document_count : ℕ
  pub edge_count : ℕ
  pub params_hash : Text
  pub stale : Bool
  pub computed_at : Option ℕ
  pub threshold : W
  pub weights : W × W × W
  pub query : Option Text
  pub relevance_threshold : Option W

pub record GraphResponse (W : Type 0) : Type 0 where
  pub nodes : List (GraphNode W)
  pub edges : List (GraphEdge W)
  pub meta : GraphMeta W

pub record ChunkRef : Type 0 where
  pub chunk_id : Text
  pub document_id : Text
  pub text : Text
  pub page_start : Option ℕ
  pub page_end : Option ℕ
  pub section : Option Text

pub record HydratedPair (W : Type 0) : Type 0 where
  pub similarity : W
  pub a : ChunkRef
  pub b : ChunkRef

pub record EdgeDetail (W : Type 0) : Type 0 where
  pub edge : GraphEdge W
  pub top_pairs : List (HydratedPair W)

-- `_chunk_ref`
abbrev pub chunk_ref : Chunk → ChunkRef
chunk_ref c = record {
  chunk_id = c.id;
  document_id = c.document_id;
  text = c.text;
  page_start = c.page_start;
  page_end = c.page_end;
  section = c.section;
}

module _ {W : Type 0} where
  unfoldable pub find_analysis : Text → List (DocumentAnalysis W) → Option (DocumentAnalysis W)
  find_analysis doc_id [] = none
  find_analysis doc_id (a ∷ rest) =
      let later = find_analysis doc_id rest in
      if text_eq a.item.document_id doc_id then some a else later

  unfoldable pub find_relevance : Text → List (Relevance W) → Option (Relevance W)
  find_relevance doc_id [] = none
  find_relevance doc_id (r ∷ rest) =
      let later = find_relevance doc_id rest in if text_eq r.doc_id doc_id then some r else later

  -- `max((e.updated_at for e in edges), default=None)`
  unfoldable pub newest : List (Edge W) → Option ℕ
  newest [] = none
  newest (e ∷ es) = elim (newest es) [
    | none ↦ some e.updated_at
    | some t ↦ some (if ltb e.updated_at t then t else e.updated_at)
  ]

  unfoldable pub any_other_hash : Text → List (DocumentAnalysis W) → Bool
  any_other_hash current [] = false
  any_other_hash current (a ∷ rest) =
      not (text_eq a.item.params_hash current) || any_other_hash current rest

  -- `stale` of `get_graph`
  unfoldable pub served_stale : Text → List Document → List (DocumentAnalysis W) → Bool
  unfolding any_other_hash
  served_stale current done_docs analyses =
      not (length done_docs == 0)
      && (not (length analyses == length done_docs) || any_other_hash current analyses)

  abbrev pub hydrated : W → Option Chunk → Option Chunk → List (HydratedPair W)
  hydrated sim none b = []
  hydrated sim (some a) none = []
  hydrated sim (some a) (some b) =
      record { similarity = sim; a = chunk_ref a; b = chunk_ref b } ∷ []

module _ {W : Type 0} ⦃s : Scores W⦄ (g : GraphSettings W) where
  -- `_node`, for the entries of the query mode.
  unfoldable pub node :
      List (DocumentAnalysis W) → Option (List (Relevance W)) → Document → GraphNode W
  unfolding find_analysis find_relevance
  node analyses notes doc =
      let found = find_analysis doc.id analyses in
      record {
        id = doc.id;
        filename = doc.original_filename;
        file_type = doc.file_type;
        size_bytes = doc.size_bytes;
        chunk_count = doc.chunk_count;
        dominant_topic_id = elim found [ none ↦ none | some a ↦ a.item.dominant_topic_id ];
        top_topics = elim found [ none ↦ [] | some a ↦ a.item.top_topics ];
        top_entities = elim found [
          | none ↦ []
          | some a ↦ take g.top_entities_per_node a.item.entities
        ];
        relevance = elim notes [
          | none ↦ none
          | some rs ↦ elim (find_relevance doc.id rs) [
            | none ↦ some (s.round s.nought 4)
            | some r ↦ some (s.round r.relevance 4)
          ]
        ];
        match_count = elim notes [
          | none ↦ none
          | some rs ↦ elim (find_relevance doc.id rs) [
            | none ↦ some 0
            | some r ↦ some r.match_count
          ]
        ];
      }

  -- `_edge_view`
  unfoldable pub edge_view : Bool → Edge W → GraphEdge W
  unfolding dominant_signal
  edge_view full_entities edge = record {
    id = edge.item.id;
    source = edge.item.source_doc_id;
    target = edge.item.target_doc_id;
    semantic_score = edge.item.semantic_score;
    entity_score = edge.item.entity_score;
    topic_score = edge.item.topic_score;
    combined_score = edge.item.combined_score;
    dominant_signal =
        dominant_signal edge.item.semantic_score edge.item.entity_score edge.item.topic_score g;
    shared_entities =
        if full_entities then edge.item.shared_entities else take 3 edge.item.shared_entities;
    top_pair_count = length edge.item.top_pairs;
  }

  -- The entries of the query mode: `search` embeds the query and asks the vector store. An empty
  -- query is none.
  unfoldable pub notes_for :
      (Text → List (VectorHit W)) → Db → List Document → Option Text → Option (List (Relevance W))
  unfolding annotate get_many
  notes_for search db done_docs none = none
  notes_for search db done_docs (some []) = none
  notes_for search db done_docs (some (c ∷ t)) =
      let hits = search (c ∷ t) in
      let hit_chunks = get_many (map (λ (h : VectorHit W). h.chunk_id) hits) db in
      some (annotate g hit_chunks hits (map unrelated (ids done_docs)))

  abbrev pub or_none : Option Text → Option Text
  or_none none = none
  or_none (some []) = none
  or_none (some (c ∷ t)) = some (c ∷ t)

  unfoldable pub get_graph :
      (ScoringFields W → Text)
      → (Text → List (VectorHit W))
      → Db
      → GraphDb W
      → Option Text
      → GraphResponse W
  unfolding compute_params_hash list_done list_all node edge_view newest served_stale notes_for
  get_graph digest search db st query =
      let done_docs = (list_done db).0 in
      let rows = list_all st.edges in
      let current = compute_params_hash digest g in
      record {
        nodes = map (node st.analyses (notes_for search db done_docs query)) done_docs;
        edges = map (edge_view false) rows;
        meta = record {
          document_count = length done_docs;
          edge_count = length rows;
          params_hash = current;
          stale = served_stale current done_docs st.analyses;
          computed_at = newest rows;
          threshold = g.edge_threshold;
          weights = (g.semantic_weight, g.entity_weight, g.topic_weight);
          query = or_none query;
          relevance_threshold = elim (or_none query) [
            | none ↦ none
            | some q ↦ some g.query_relevance_threshold
          ];
        };
      }

  abbrev pub detail : Db → Option (Edge W) → Option (EdgeDetail W)
  detail db none = none
  detail db (some edge) =
      let chunks = get_many (flat_map (λ (p : TopPair W). p.a ∷ p.b ∷ []) edge.item.top_pairs) db in
      some (record {
        edge = edge_view true edge;
        top_pairs =
            flat_map
              (λ (p : TopPair W). hydrated p.sim (find_chunk p.a chunks) (find_chunk p.b chunks))
              edge.item.top_pairs;
      })

  unfoldable pub get_edge_detail : Db → List (Edge W) → Text → Text → Option (EdgeDetail W)
  unfolding get edge_view get_many find_chunk
  get_edge_detail db rows doc_a doc_b = detail db (get doc_a doc_b rows)
