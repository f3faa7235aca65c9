-- ===== src/Ask/Service/Grounded.antt =====
-- What an answer rests on, and when the model runs.
use docmesh.Prelude.{
  ℕ, zero, suc, ◌≤◌, ◌<◌, ◌≡◌, ◌⊎◌, refl, sym, ap, subst, ◌∙◌, true, ◌&&◌, Option, none, some, List,
  [], ◌∷◌, All, take, get_elem?, length, if_both, arith, Option-cases, inl, inr,
}
use docmesh.Text.{Text, Unicode}
use docmesh.Llm.{LlmResult, LlmClient}
use docmesh.Llm.Decimal.{Digits}
use docmesh.Llm.Truncate.{StartsSolid}
use docmesh.Search.{SearchHit}
use docmesh.RateLimit.{try_acquire}
use docmesh.Ask.Citations.{is_valid, member, parse_citations}
use docmesh.Ask.Citations.Verified.{parse_citations-IsVerified}
use docmesh.Ask.Prompt.{AskSettings, QaContext, postprocess_answer}
use docmesh.Ask.Prompt.Included.{build_qa_messages-IsLongest}
use docmesh.Ask.Prompt.Answers.{postprocess_answer-returns}
use docmesh.Ask.Service.{
  AskRequest, AskResponse, AskState, Citation, Generator, Outcome, answered, rate_limited, raised,
  citation, cite, verify, generate, answer_with, answer_from, ask, degraded, response, or_default,
}

members-valid :
    (valid_max : ℕ) (ns ms : List ℕ)
    → ((n : ℕ) → member n ns ≡ (is_valid valid_max n && member n ms))
    → (all : List ℕ) → ((n : ℕ) → member n all ≡ true → member n ns ≡ true)
    → All (λ n. (1 ≤ n) × (n ≤ valid_max)) all
members-valid valid_max ns ms h [] sub = tt
members-valid valid_max ns ms h (n ∷ all) sub =
    let valid : (is_valid valid_max n && member n ms) ≡ true = sym (h n) ∙ sub n (ground (arith)) in
    (
      (ground (arith, valid), ground (arith, valid)),
      members-valid valid_max ns ms h all (λ m k. sub m (ground (arith, k))),
    )

get_elem?-lt :
    {A : Type 0} (xs : List A) (i : ℕ) → i < length xs → (x : A) × (get_elem? xs i ≡ some x)
get_elem?-lt [] i h = absurd (omega arith)
get_elem?-lt (x ∷ xs) zero h = (x, refl)
get_elem?-lt (x ∷ xs) (suc i) h = get_elem?-lt xs i (omega arith)

get_elem?-of_take :
    {A : Type 0} (n : ℕ) (xs : List A) (i : ℕ) (x : A)
    → get_elem? (take n xs) i ≡ some x
    → get_elem? xs i ≡ some x
get_elem?-of_take zero xs i x h = cc
get_elem?-of_take (suc n) [] i x h = h
get_elem?-of_take (suc n) (y ∷ xs) zero x h = h
get_elem?-of_take (suc n) (y ∷ xs) (suc i) x h = get_elem?-of_take n xs i x h

module _ {W : Type 0} where
  -- The citation is of the hit that its marker counts.
  abbrev pub Cites : List (SearchHit W) → Citation → Type 0
  Cites hits c =
      (i : ℕ) × (hit : SearchHit W) × (get_elem? hits i ≡ some hit) × (c ≡ citation (suc i) hit)

  -- The answer shows the hits, each of its citations is of one of them, and it is of the model
  -- unless it is empty, and without citations.
  abbrev pub IsGrounded : List (SearchHit W) → AskResponse W → Type 0
  IsGrounded hits r =
      (r.evidence ≡ hits)
      × All (Cites hits) r.citations
      × ((r.generator ≡ Generator.llm) ⊎ ((r.answer ≡ []) × (r.citations ≡ [])))

  abbrev pub Grounds : List (SearchHit W) → Outcome W → Type 0
  Grounds hits (answered r) = IsGrounded hits r
  Grounds hits (rate_limited missing) = Unit
  Grounds hits raised = ⊥

  cite-Cites :
      (included : List (SearchHit W)) (ms : List ℕ)
      → All (λ m. (1 ≤ m) × (m ≤ length included)) ms
      → (cs : List Citation) × (cite included ms ≡ some cs) × All (Cites included) cs
  unfolding cite
  cite-Cites included [] h = ([], refl, tt)
  cite-Cites included (zero ∷ ms) h = absurd (omega (arith, h.0.0))
  cite-Cites included (suc m ∷ ms) h =
      let (hit, hit_eq) = get_elem?-lt included m (omega (arith, h.0.1)) in
      let (cs, cs_eq, good) = cite-Cites included ms h.1 in
      (citation (suc m) hit ∷ cs, rw (hit_eq, cs_eq, cite) refl, ((m, hit, hit_eq, refl), good))

  Cites-take :
      (n : ℕ) (hits : List (SearchHit W)) (cs : List Citation)
      → All (Cites (take n hits)) cs
      → All (Cites hits) cs
  Cites-take n hits [] h = tt
  Cites-take n hits (c ∷ cs) ((i, hit, at, same), h) =
      ((i, hit, get_elem?-of_take n hits i hit at, same), Cites-take n hits cs h)

module _ {W : Type 0} ⦃u : Unicode⦄ ⦃d : Digits⦄ where
  verify-cited :
      (req : AskRequest) (hits included : List (SearchHit W)) (result : LlmResult)
      → (c : ℕ) (t : Text) (cs : List Citation)
      → cite included (parse_citations (c ∷ t) (length included)).1 ≡ some cs
      → verify req hits included result (some (c ∷ t))
        ≡ answered (
            response req hits
              (length included)
              result
              (parse_citations (c ∷ t) (length included)).0
              cs)
  unfolding verify
  verify-cited req hits included result c t cs e = rw (e, verify) refl

  verify-Grounds :
      (req : AskRequest) (hits : List (SearchHit W)) (n : ℕ) (result : LlmResult) (text : Text)
      → Grounds hits (verify req hits (take n hits) result (some text))
  unfolding verify degraded
  verify-Grounds req hits n result [] = (refl, tt, inr (refl, refl))
  verify-Grounds req hits n result (c ∷ t) =
      let included = take n hits in
      let ms = (parse_citations (c ∷ t) (length included)).1 in
      let verified = parse_citations-IsVerified (c ∷ t) (length included) in
      let valid = members-valid (length included) ms _ verified.1 ms (λ m k. k) in
      let (cs, cs_eq, good) = cite-Cites included ms valid in
      subst (Grounds hits) (sym (verify-cited req hits included result c t cs cs_eq))
        (refl, Cites-take n hits cs good, inl refl)

  generate-down :
      (req : AskRequest) (hits : List (SearchHit W)) (ctx : QaContext W) (client : LlmClient)
      → (st : AskState) → client.complete ctx.messages ≡ none
      → (generate req hits ctx client st).0
        ≡ answered (degraded req hits Generator.unavailable (length ctx.included))
  unfolding generate
  generate-down req hits ctx client st e = rw (e, generate) refl

  generate-text :
      (req : AskRequest) (hits : List (SearchHit W)) (ctx : QaContext W) (client : LlmClient)
      → (st : AskState) (result : LlmResult) (text : Text)
      → client.complete ctx.messages ≡ some result
      → postprocess_answer result.text ≡ some text
      → (generate req hits ctx client st).0 ≡ verify req hits ctx.included result (some text)
  unfolding generate
  generate-text req hits ctx client st result text e k =
      rw (e, generate) (ap (verify req hits ctx.included result) k)

  generate-Grounds :
      (req : AskRequest) (hits : List (SearchHit W)) (ctx : QaContext W) (n : ℕ)
      → ctx.included ≡ take n hits
      → (client : LlmClient) (st : AskState) → Grounds hits (generate req hits ctx client st).0
  unfolding degraded
  generate-Grounds req hits ctx n e client st = elim (Option-cases (client.complete ctx.messages)) [
    | inl down ↦
        subst (Grounds hits) (sym (generate-down req hits ctx client st down))
          (refl, tt, inr (refl, refl))
    | inr (result, result_eq) ↦
        let (text, text_eq, size) = postprocess_answer-returns result.text in
        subst (Grounds hits)
          (sym (
            generate-text req hits ctx client st result text result_eq text_eq
            ∙ ap (λ included. verify req hits included result (some text)) e))
          (verify-Grounds req hits n result text)
  ]

  answer_with-Grounds :
      (now : ℕ) (req : AskRequest) (hits : List (SearchHit W)) (ctx : QaContext W) (n : ℕ)
      → ctx.included ≡ take n hits
      → (llm : Option LlmClient) (st : AskState)
      → Grounds hits (answer_with now req hits ctx llm st).0
  unfolding answer_with degraded
  answer_with-Grounds now req hits ctx n e none st = (refl, tt, inr (refl, refl))
  answer_with-Grounds now req hits ctx n e (some client) st =
      if_both (λ (r : Outcome W × AskState). Grounds hits r.0) (try_acquire now 60 st.bucket).0.0
        (λ _. generate-Grounds req hits ctx n e client _) (λ _. tt)

take-take : {A : Type 0} (n m : ℕ) (xs : List A) → (k : ℕ) × (take n (take m xs) ≡ take k xs)
take-take zero m xs = (zero, refl)
take-take (suc n) zero xs = (zero, refl)
take-take (suc n) (suc m) [] = (zero, refl)
take-take (suc n) (suc m) (x ∷ xs) =
    let (k, k_eq) = take-take n m xs in (suc k, ap (λ l. x ∷ l) k_eq)

module _ {W : Type 0} ⦃u : Unicode⦄ ⦃d : Digits⦄ (cfg : AskSettings) (llm : Option LlmClient)
    (search : Text → ℕ → List (SearchHit W)) where
  answer_from-Grounds :
      (now : ℕ) (req : AskRequest) (hits : List (SearchHit W)) (st : AskState)
      → 0 < cfg.chunk_char_budget
      → All (λ hit. StartsSolid hit.text) hits
      → Grounds hits (answer_from cfg llm now req hits st).0
  unfolding answer_from degraded
  answer_from-Grounds now req [] st h solid = (refl, tt, inr (refl, refl))
  answer_from-Grounds now req (hit ∷ hits) st h solid =
      let (ctx, ctx_eq, shown, longest) =
        build_qa_messages-IsLongest cfg req.question (hit ∷ hits) h solid in
      let (k, k_eq) = take-take (length ctx.included) cfg.top_k (hit ∷ hits) in
      rw (ctx_eq, answer_from)
        (answer_with-Grounds now req (hit ∷ hits) ctx k (longest.0 ∙ k_eq) llm st)

  -- If no hit of the search begins with white space, and a chunk has some budget: a question is
  -- answered, or refused by the rate limit, but raises nothing else. The answer shows the hits that
  -- were found, each citation is of the hit that its marker counts, and an answer that is not the
  -- model's is empty.
  pub ask-IsGrounded :
      (now : ℕ) (req : AskRequest) (st : AskState)
      → 0 < cfg.chunk_char_budget
      → All (λ hit. StartsSolid hit.text) (search req.question (or_default req.top_k cfg.top_k))
      → Grounds
          (search req.question (or_default req.top_k cfg.top_k))
          (ask cfg llm search now req st).0
  unfolding ask
  ask-IsGrounded now req st h solid = answer_from-Grounds now req _ st h solid
