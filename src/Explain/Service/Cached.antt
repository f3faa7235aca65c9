-- ===== src/Explain/Service/Cached.antt =====
-- An explanation that was given is found again.
use docmesh.Prelude.{
  ℕ, ◌≡◌, refl, sym, ap, subst, ◌∙◌, Bool, true, false, Option, none, some, List, [], ◌∷◌, ◌++◌,
  Option-cases, inl, inr, if_both,
}
use docmesh.Text.{Text, Unicode}
use docmesh.Llm.{ChatMessage, LlmResult, LlmClient}
use docmesh.Storage.{Db}
use docmesh.RateLimit.{try_acquire}
use docmesh.Graph.{Scores, GraphSettings}
use docmesh.Graph.Edges.{Edge, find_edge, get as get_edge}
use docmesh.Graph.Order.{sorted_pair_comm}
use docmesh.Explain.Prompt.{EdgeEvidence, CachePayload, build_messages, compute_cache_key}
use docmesh.Explain.Output.{postprocess}
use docmesh.Explain.Template.{template_id}
use docmesh.Explain.Records.{
  EdgeExplanationCreate, EdgeExplanationRecord, get_by_cache_key, upsert, upsert-get_by_cache_key,
}
use docmesh.Explain.Service.{
  EdgeExplanation, ExplainState, Outcome, not_found, raised, explained, rate_limited, wire, lookup,
  cached_or, store, template_explanation, use_text, use_result, run_model, generate, explain_edge,
  explain_found, explain, build_evidence,
}

module _ {W : Type 0} ⦃s : Scores W⦄ ⦃u : Unicode⦄ where
  -- The model, where there is one, answers the prompt for the evidence with some text.
  abbrev pub Generates : Option LlmClient → EdgeEvidence W → Type 0
  Generates none ev = Unit
  Generates (some client) ev =
      (messages : List ChatMessage) × (result : LlmResult) × (c : ℕ) × (t : Text) × (build_messages
          ev
        ≡ some messages)
      × (client.complete messages ≡ some result)
      × (postprocess result.text ≡ some (c ∷ t))

module _ {W : Type 0} (edge : Edge W) (key : Text) where
  -- What is explained is stored under the key.
  abbrev Keeps : Outcome × ExplainState → Type 0
  Keeps (explained e, st) =
      (row : EdgeExplanationRecord) × (get_by_cache_key key st.records ≡ some row)
      × (wire edge row true ≡ record e { cached = true })
  Keeps (not_found, st) = Unit
  Keeps (raised, st) = Unit
  Keeps (rate_limited missing, st) = Unit

  store-Keeps :
      (now : ℕ) (item : EdgeExplanationCreate) (st : ExplainState)
      → item.cache_key ≡ key
      → Keeps (store now edge item st)
  unfolding store wire
  store-Keeps now item st e =
      let (row, records) = upsert now item st.records in
      (
        (upsert now item st.records).0,
        subst
            (λ k.
              get_by_cache_key k (upsert now item st.records).1
              ≡ some (upsert now item st.records).0)
            e (upsert-get_by_cache_key now item st.records),
        refl,
      )

  cached_or-Keeps :
      (refresh : Bool) (st : ExplainState) (other : Outcome × ExplainState)
      → Keeps other
      → Keeps (cached_or edge (lookup refresh key st) st other)
  unfolding wire
  cached_or-Keeps true st other h = h
  cached_or-Keeps false st other h = elim (Option-cases (get_by_cache_key key st.records)) [
    | inl missing ↦ subst (λ o. Keeps (cached_or edge o st other)) (sym missing) h
    | inr (row, found) ↦
        subst (λ o. Keeps (cached_or edge o st other)) (sym found) (row, found, refl)
  ]

  -- What is kept is explained again from the cache.
  Keeps-cached :
      (r : Outcome × ExplainState) (e : EdgeExplanation) (st : ExplainState)
      → r ≡ (explained e, st)
      → Keeps r
      → (other : Outcome × ExplainState)
      → cached_or edge (lookup false key st) st other ≡ (explained (record e { cached = true }), st)
  Keeps-cached r e st r_eq h other =
      let (row, found, same) = subst Keeps r_eq h in
      ap (λ o. cached_or edge o st other) found ∙ ap (λ x. (explained x, st)) same

module _ {W : Type 0} ⦃s : Scores W⦄ ⦃u : Unicode⦄ (digest : CachePayload W → Text) (edge : Edge W)
    (ev : EdgeEvidence W) where
  template-Keeps :
      (now : ℕ) (refresh : Bool) (st : ExplainState)
      → Keeps edge
          (compute_cache_key digest template_id edge ev)
          (template_explanation digest edge ev now refresh st)
  unfolding template_explanation
  template-Keeps now refresh st =
      cached_or-Keeps edge (compute_cache_key digest template_id edge ev) refresh st _
        (store-Keeps edge (compute_cache_key digest template_id edge ev) now _ st refl)

  run_model-Keeps :
      (now : ℕ) (refresh : Bool) (key : Text) (client : LlmClient) (st : ExplainState)
      → Generates (some client) ev
      → Keeps edge key (run_model digest edge ev now refresh key client (build_messages ev) st)
  unfolding run_model use_result use_text
  run_model-Keeps now refresh key client st (messages, result, c, t, built, answered, text) =
      let ran : ExplainState = record st { runs = st.runs ++ messages ∷ [] } in
      subst (λ o. Keeps edge key (run_model digest edge ev now refresh key client o st)) (sym built)
        (subst (λ o. Keeps edge key (use_result digest edge ev now refresh key o ran))
          (sym answered)
          (subst (λ o. Keeps edge key (use_text digest edge ev now refresh key result o ran))
            (sym text) (store-Keeps edge key now _ ran refl)))

  generate-Keeps :
      (now : ℕ) (refresh : Bool) (key : Text) (client : LlmClient) (st : ExplainState)
      → Generates (some client) ev
      → Keeps edge key (generate digest edge ev now refresh key client st)
  unfolding generate
  generate-Keeps now refresh key client st h =
      if_both (Keeps edge key) (try_acquire now 60 st.bucket).0.0
        (λ _. run_model-Keeps now refresh key client _ h) (λ _. tt)

  explain_edge-again :
      (llm : Option LlmClient)
      → Generates llm ev
      → (now later : ℕ) (refresh : Bool) (st st' : ExplainState) (e : EdgeExplanation)
      → explain_edge digest edge ev llm now refresh st ≡ (explained e, st')
      → explain_edge digest edge ev llm later false st'
        ≡ (explained (record e { cached = true }), st')
  unfolding explain_edge template_explanation
  explain_edge-again none h now later refresh st st' e r_eq =
      Keeps-cached edge (compute_cache_key digest template_id edge ev) _ e st' r_eq
        (template-Keeps now refresh st) _
  explain_edge-again (some client) h now later refresh st st' e r_eq =
      let key = compute_cache_key digest client.model_id edge ev in
      Keeps-cached edge key _ e st' r_eq
        (cached_or-Keeps edge key refresh st _ (generate-Keeps now refresh key client st h)) _

-- Where the model, if there is one, answers the prompt with some text: an explanation that was given
-- for two documents is given again, without a refresh and in whatever order they are named, from the
-- cache: the same text, and neither a token nor a run of the model is spent.
pub explain-again :
    {W : Type 0} ⦃s : Scores W⦄ ⦃u : Unicode⦄ (digest : CachePayload W → Text)
    → (llm : Option LlmClient) (g : GraphSettings W) (db : Db) (edges : List (Edge W))
    → (doc_a doc_b : Text) (edge : Edge W) → get_edge doc_a doc_b edges ≡ some edge
    → Generates llm (build_evidence g db edge)
    → (now later : ℕ) (refresh : Bool) (st st' : ExplainState) (e : EdgeExplanation)
    → explain digest llm g db edges doc_a doc_b now refresh st ≡ (explained e, st')
    → explain digest llm g db edges doc_b doc_a later false st'
      ≡ (explained (record e { cached = true }), st')
unfolding explain get_edge
explain-again digest llm g db edges doc_a doc_b edge found h now later refresh st st' e r_eq =
    let first = ap (λ o. explain_found digest llm g db edges o now refresh st) (sym found) ∙ r_eq in
    let swapped : get_edge doc_b doc_a edges ≡ some edge =
      ap (λ (p : Text × Text). find_edge p.0 p.1 edges) (sorted_pair_comm doc_b doc_a) ∙ found in
    ap (λ o. explain_found digest llm g db edges o later false st') swapped
    ∙ explain_edge-again digest edge (build_evidence g db edge) llm h now later refresh st st' e
        first
