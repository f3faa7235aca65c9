-- ===== src/Explain/Service.antt =====
-- `ExplanationService` of backend/app/services/explanation_service.py. Durations are left out.
pub mod Cached
use docmesh.Prelude.{
  ℕ, Bool, true, false, Option, none, some, List, [], ◌∷◌, ◌++◌, flat_map, take, if◌then◌else◌,
}
use docmesh.Text.{Text, Unicode, text_eq, codes}
use docmesh.Llm.{ChatMessage, LlmResult, LlmClient}
use docmesh.Llm.Decimal.{show}
use docmesh.Storage.{Db, Document, Chunk, find_chunk, get as get_document, get_many}
use docmesh.RateLimit.{TokenBucket, try_acquire}
use docmesh.Graph.{Scores, GraphSettings, TopPair}
use docmesh.Graph.Edges.{Edge, get as get_edge}
use docmesh.Graph.Combiner.{dominant_signal}
use docmesh.Explain.Prompt.{
  EvidencePair, EdgeEvidence, CachePayload, max_entities_in_prompt, by_similarity, build_messages,
  compute_cache_key,
}
use docmesh.Explain.Output.{postprocess}
use docmesh.Explain.Template.{template_id, render}
use docmesh.Explain.Records.{
  EdgeExplanationCreate, EdgeExplanationRecord, Explanations, get_by_cache_key, upsert,
}

pub data Generator : Type 0 where
  llm template : Generator

pub record EdgeExplanation : Type 0 where
  pub edge_id : Text
  pub source : Text
  pub target : Text
  pub explanation : Text
  pub generator : Generator
  pub model : Text
  pub cached : Bool
  pub generated_at : ℕ
  pub input_tokens : Option ℕ
  pub output_tokens : Option ℕ

-- The bucket that it shares with the answers, the messages of the model's runs, and the table.
pub record ExplainState : Type 0 where
  pub bucket : TokenBucket
  pub runs : List (List ChatMessage)
  pub records : Explanations

-- `not_found` is `None`, `rate_limited` is `RateLimitedError` with the parts that are missing, and
-- `raised` another exception.
pub data Outcome : Type 0 where
  not_found raised : Outcome
  explained : EdgeExplanation → Outcome
  rate_limited : ℕ → Outcome

-- `_display_name`; an empty title is falsy.
abbrev pub title_or_name : Option Text → Text → Text
title_or_name none name = name
title_or_name (some []) name = name
title_or_name (some (c ∷ t)) name = c ∷ t

abbrev pub display_name : Option Document → Text → Text
display_name none fallback = fallback
display_name (some doc) fallback = title_or_name doc.title doc.original_filename

abbrev pub where_page : Option ℕ → Option Text
where_page none = none
where_page (some n) = some (codes "page " ++ show n)

-- `_where`
abbrev pub where_section : Option Text → Option ℕ → Option Text
where_section none page = where_page page
where_section (some []) page = where_page page
where_section (some (c ∷ t)) page = some (codes "section \"" ++ ((c ∷ t) ++ codes "\""))

-- The record of the key, unless the explanation is to be refreshed.
abbrev pub lookup : Bool → Text → ExplainState → Option EdgeExplanationRecord
lookup true key st = none
lookup false key st = get_by_cache_key key st.records

module _ {W : Type 0} where
  abbrev pub hydrated : W → Option Chunk → Option Chunk → List (EvidencePair W)
  hydrated sim none b = []
  hydrated sim (some a) none = []
  hydrated sim (some a) (some b) =
      record {
        text_a = a.text;
        text_b = b.text;
        similarity = sim;
        where_a = where_section a.section a.page_start;
        where_b = where_section b.section b.page_start;
      }
      ∷ []

  -- The pairs of the edge whose chunks are still there.
  unfoldable pub hydrate : List (TopPair W) → Db → List (EvidencePair W)
  unfolding find_chunk get_many
  hydrate pairs db =
      let chunks = get_many (flat_map (λ (p : TopPair W). p.a ∷ p.b ∷ []) pairs) db in
      flat_map (λ (p : TopPair W). hydrated p.sim (find_chunk p.a chunks) (find_chunk p.b chunks))
        pairs

  -- `_wire`
  unfoldable pub wire : Edge W → EdgeExplanationRecord → Bool → EdgeExplanation
  unfolding text_eq
  wire edge row cached_hit = record {
    edge_id = edge.item.id;
    source = edge.item.source_doc_id;
    target = edge.item.target_doc_id;
    explanation = row.item.explanation;
    generator = if text_eq row.item.model template_id then Generator.template else Generator.llm;
    model = row.item.model;
    cached = cached_hit;
    generated_at = row.created_at;
    input_tokens = row.item.input_tokens;
    output_tokens = row.item.output_tokens;
  }

  -- A hit of the cache, or else what is done without one.
  abbrev pub cached_or :
      Edge W
      → Option EdgeExplanationRecord
      → ExplainState
      → Outcome × ExplainState
      → Outcome × ExplainState
  cached_or edge none st other = other
  cached_or edge (some row) st other = (explained (wire edge row true), st)

  -- The upsert of a record, and the explanation of it.
  unfoldable pub store : ℕ → Edge W → EdgeExplanationCreate → ExplainState → Outcome × ExplainState
  unfolding upsert
  store now edge item st =
      let (row, records) = upsert now item st.records in
      (explained (wire edge row false), record st { records = records })

module _ {W : Type 0} ⦃s : Scores W⦄ ⦃u : Unicode⦄ where
  -- `_build_evidence`
  unfoldable pub build_evidence : GraphSettings W → Db → Edge W → EdgeEvidence W
  unfolding hydrate dominant_signal
  build_evidence g db edge = record {
    doc_a = display_name (get_document edge.item.source_doc_id db) edge.item.source_doc_id;
    doc_b = display_name (get_document edge.item.target_doc_id db) edge.item.target_doc_id;
    dominant_signal =
        dominant_signal edge.item.semantic_score edge.item.entity_score edge.item.topic_score g;
    semantic_score = edge.item.semantic_score;
    entity_score = edge.item.entity_score;
    topic_score = edge.item.topic_score;
    combined_score = edge.item.combined_score;
    shared_entities = take max_entities_in_prompt edge.item.shared_entities;
    pairs = by_similarity (hydrate edge.item.top_pairs db);
  }

module _ {W : Type 0} ⦃s : Scores W⦄ ⦃u : Unicode⦄ (digest : CachePayload W → Text) (edge : Edge W)
    (ev : EdgeEvidence W) where
  -- `_template_explanation`
  unfoldable pub template_explanation : ℕ → Bool → ExplainState → Outcome × ExplainState
  unfolding store render compute_cache_key
  template_explanation now refresh st =
      let key = compute_cache_key digest template_id edge ev in
      cached_or edge (lookup refresh key st) st (
        store now edge
          (record {
            cache_key = key;
            edge_id = some edge.item.id;
            model = template_id;
            explanation = render ev;
            input_tokens = none;
            output_tokens = none;
          })
          st)

  -- A text of the model is stored under the key; an empty one counts as a failure.
  unfoldable pub use_text :
      ℕ → Bool → Text → LlmResult → Option Text → ExplainState → Outcome × ExplainState
  unfolding store template_explanation
  use_text now refresh key result none st = (raised, st)
  use_text now refresh key result (some []) st = template_explanation now refresh st
  use_text now refresh key result (some (c ∷ t)) st =
      store now edge
        (record {
          cache_key = key;
          edge_id = some edge.item.id;
          model = result.model_id;
          explanation = c ∷ t;
          input_tokens = some result.input_tokens;
          output_tokens = some result.output_tokens;
        })
        st

  unfoldable pub use_result :
      ℕ → Bool → Text → Option LlmResult → ExplainState → Outcome × ExplainState
  unfolding use_text template_explanation postprocess
  use_result now refresh key none st = template_explanation now refresh st
  use_result now refresh key (some result) st =
      use_text now refresh key result (postprocess result.text) st

  -- `complete(build_messages(ev))`
  unfoldable pub run_model :
      ℕ
      → Bool
      → Text
      → LlmClient
      → Option (List ChatMessage)
      → ExplainState
      → Outcome × ExplainState
  unfolding use_result
  run_model now refresh key client none st = (raised, st)
  run_model now refresh key client (some messages) st =
      use_result now refresh key (client.complete messages)
        (record st { runs = st.runs ++ messages ∷ [] })

  unfoldable pub generate : ℕ → Bool → Text → LlmClient → ExplainState → Outcome × ExplainState
  unfolding run_model build_messages try_acquire
  generate now refresh key client st =
      let ((allowed, missing), bucket) = try_acquire now 60 st.bucket in
      let st' = record st { bucket = bucket } in
      if allowed
      then run_model now refresh key client (build_messages ev) st'
      else (rate_limited missing, st')

  unfoldable pub explain_edge : Option LlmClient → ℕ → Bool → ExplainState → Outcome × ExplainState
  unfolding generate template_explanation compute_cache_key
  explain_edge none now refresh st = template_explanation now refresh st
  explain_edge (some client) now refresh st =
      let key = compute_cache_key digest client.model_id edge ev in
      cached_or edge (lookup refresh key st) st (generate now refresh key client st)

module _ {W : Type 0} ⦃s : Scores W⦄ ⦃u : Unicode⦄ (digest : CachePayload W → Text)
    (llm : Option LlmClient) (g : GraphSettings W) (db : Db) (edges : List (Edge W)) where
  abbrev pub explain_found : Option (Edge W) → ℕ → Bool → ExplainState → Outcome × ExplainState
  explain_found none now refresh st = (not_found, st)
  explain_found (some edge) now refresh st =
      explain_edge digest edge (build_evidence g db edge) llm now refresh st

  -- `explain`, at a time.
  unfoldable pub explain : Text → Text → ℕ → Bool → ExplainState → Outcome × ExplainState
  unfolding explain_edge build_evidence get_edge
  explain doc_a doc_b now refresh st = explain_found (get_edge doc_a doc_b edges) now refresh st
