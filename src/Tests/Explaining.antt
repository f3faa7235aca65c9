-- ===== src/Tests/Explaining.antt =====
-- An edge between two documents, its stored passages, and the explanations of it.
use docmesh.Prelude.{arith, List, ℕ, ◌≡◌, refl, true, false, none, some, [], ◌∷◌, length, take}
use docmesh.Text.{Text, codes, text_eq}
use docmesh.Llm.{LlmClient, system, user}
use docmesh.Storage.{empty_db}
use docmesh.Graph.{GraphSettings}
use docmesh.Graph.Edges.{Edge, get}
use docmesh.Graph.Combiner.{SignalName}
use mathlib.Core.List.{Perm}
use docmesh.Explain.Prompt.{EvidencePair, EdgeEvidence, CachePayload, system_prompt, build_messages}
use docmesh.Explain.Prompt.Ranked.{IsOrder, IsDescending}
use docmesh.Explain.Prompt.Budget.{IsFitted, build_messages-IsFitted}
use docmesh.Explain.Output.{postprocess}
use docmesh.Explain.Records.{get_by_cache_key}
use docmesh.Explain.Service.{EdgeExplanation, ExplainState, Generator, Outcome, wire, explain}
use docmesh.Explain.Service.Cached.{explain-again}
use docmesh.Tests.Samples.{ascii, hundredths}

abbrev pub settings : GraphSettings ℕ
settings = record {
  semantic_weight = 50;
  entity_weight = 30;
  topic_weight = 20;
  edge_threshold = 35;
  top_k_pairs = 10;
  n_topics = 8;
  spacy_model = codes "m";
  entity_labels = [];
  min_entity_len = 3;
  semantic_floor = 50;
  semantic_ceil = 95;
  random_state = 42;
  top_entities_per_node = 10;
  query_top_k = 50;
  query_relevance_threshold = 35;
}

abbrev pub edge : Edge ℕ
edge = record {
  item = record {
    id = codes "e";
    source_doc_id = codes "a";
    target_doc_id = codes "b";
    semantic_score = 80;
    entity_score = 0;
    topic_score = 0;
    combined_score = 40;
    top_pairs = [];
    shared_entities = [];
    params_hash = codes "h";
  };
  created_at = 1;
  updated_at = 1;
}

abbrev pair : ℕ → EvidencePair ℕ
pair n = record {
  text_a = codes "Cats purr.";
  text_b = codes "Cats sleep.";
  similarity = n;
  where_a = none;
  where_b = none;
}

abbrev evidence : EdgeEvidence ℕ
evidence = record {
  doc_a = codes "a";
  doc_b = codes "b";
  dominant_signal = SignalName.semantic;
  semantic_score = 80;
  entity_score = 0;
  topic_score = 0;
  combined_score = 40;
  shared_entities = [];
  pairs = pair 60 ∷ pair 90 ∷ [];
}

hundredths-IsOrder : IsOrder hundredths
hundredths-IsOrder = record {
  asym = λ x y h. ground (arith, h);
  not_lt_trans = λ x y z h k. ground (arith, h, k);
}

build_messages-IsFitted_example :
    (text : Text) × (sorted : List (EvidencePair ℕ)) × (build_messages evidence
      ≡ some (
          record { role = system; content = system_prompt }
          ∷ record { role = user; content = text }
          ∷ []))
    × Perm sorted (pair 60 ∷ pair 90 ∷ [])
    × IsDescending sorted
    × IsFitted evidence (take 3 sorted) (length (take 3 sorted)) text
build_messages-IsFitted_example =
    build_messages-IsFitted evidence hundredths-IsOrder ((refl, refl), ((refl, refl), tt))

abbrev client : LlmClient
client = record {
  model_id = codes "m";
  complete = λ messages. some (record {
    text = codes "Both are about cats.";
    input_tokens = 9;
    output_tokens = 5;
    model_id = codes "m";
  });
}

abbrev digest : CachePayload ℕ → Text
digest payload = payload.model

abbrev fresh : ExplainState
fresh = record {
  bucket = record { capacity = 120; tokens = 60; rate = 30; last = 0 };
  runs = [];
  records = record { rows = []; next_id = 1 };
}

abbrev first : Outcome × ExplainState
first =
    explain digest (some client) settings empty_db (edge ∷ []) (codes "b") (codes "a") 0 false fresh

abbrev given : EdgeExplanation
given = record {
  edge_id = codes "e";
  source = codes "a";
  target = codes "b";
  explanation = codes "Both are about cats.";
  generator = Generator.llm;
  model = codes "m";
  cached = false;
  generated_at = 0;
  input_tokens = some 9;
  output_tokens = some 5;
}

first-given : first.0 ≡ Outcome.explained given
unfolding explain text_eq get_by_cache_key wire
first-given = refl

explain-again_example :
    explain digest
      (some client)
      settings
      empty_db
      (edge ∷ [])
      (codes "a")
      (codes "b")
      100
      false
      first.1
    ≡ (Outcome.explained (record given { cached = true }), first.1)
unfolding explain build_messages postprocess get text_eq get_by_cache_key wire
explain-again_example =
    explain-again digest (some client) settings empty_db (edge ∷ []) (codes "b") (codes "a") edge
      refl (_, _, _, _, refl, refl, refl) 0 100 false fresh first.1 given refl
