-- ===== src/Ask/Service/Runs.antt =====
-- When the model runs, and what a run costs.
use docmesh.Prelude.{
  ℕ, ◌≡◌, ◌⊎◌, refl, true, false, Option, none, some, List, [], ◌∷◌, ◌++◌, Bool-cases, Option-cases,
  inl, inr,
}
use docmesh.Text.{Text, Unicode}
use docmesh.Llm.{ChatMessage, LlmClient}
use docmesh.Llm.Decimal.{Digits}
use docmesh.Search.{SearchHit}
use docmesh.RateLimit.{try_acquire}
use docmesh.Ask.Prompt.{AskSettings, QaContext, build_qa_messages}
use docmesh.Ask.Service.{
  AskRequest, AskState, Outcome, rate_limited, raised, generate, answer_with, answer_from, ask,
  or_default,
}

module _ {W : Type 0} ⦃u : Unicode⦄ ⦃d : Digits⦄ where
  -- The bucket refuses, and so does the question; or it gives a token, and the model runs once, on
  -- these messages.
  abbrev pub Spends : ℕ → List ChatMessage → AskState → Outcome W × AskState → Type 0
  Spends now messages st r =
      ((try_acquire now 60 st.bucket).0.0 ≡ false
        × (r ≡ (
          rate_limited (try_acquire now 60 st.bucket).0.1,
          record st { bucket = (try_acquire now 60 st.bucket).1 },
        )))
      ⊎ (((try_acquire now 60 st.bucket).0.0 ≡ true)
          × (r.1 ≡ record st {
            bucket = (try_acquire now 60 st.bucket).1;
            runs = st.runs ++ messages ∷ [];
          }))

  generate-state :
      (req : AskRequest) (hits : List (SearchHit W)) (ctx : QaContext W) (client : LlmClient)
      → (st : AskState)
      → (generate req hits ctx client st).1 ≡ record st { runs = st.runs ++ ctx.messages ∷ [] }
  unfolding generate
  generate-state req hits ctx client st = elim (Option-cases (client.complete ctx.messages)) [
    | inl down ↦ rw (down, generate) refl
    | inr (result, result_eq) ↦ rw (result_eq, generate) refl
  ]

  answer_with-Spends :
      (now : ℕ) (req : AskRequest) (hits : List (SearchHit W)) (ctx : QaContext W)
      → (client : LlmClient) (st : AskState)
      → Spends now ctx.messages st (answer_with now req hits ctx (some client) st)
  unfolding answer_with
  answer_with-Spends now req hits ctx client st =
      elim (Bool-cases (try_acquire now 60 st.bucket).0.0) [
        | inl allowed ↦
            let st' = record st { bucket = (try_acquire now 60 st.bucket).1 } in
            inr (allowed, rw (allowed, answer_with) (generate-state req hits ctx client st'))
        | inr refused ↦ inl (refused, rw (refused, answer_with) refl)
      ]

module _ {W : Type 0} ⦃u : Unicode⦄ ⦃d : Digits⦄ (cfg : AskSettings) (llm : Option LlmClient) where
  -- What a question spends: nothing without hits, nothing where the prompt raises, nothing without a
  -- model; else what its prompt spends.
  abbrev SpendsOn :
      Option (QaContext W) → Option LlmClient → ℕ → AskState → Outcome W × AskState → Type 0
  SpendsOn none client now st r = r ≡ (raised, st)
  SpendsOn (some ctx) none now st r = r.1 ≡ st
  SpendsOn (some ctx) (some client) now st r = Spends now ctx.messages st r

  abbrev pub IsSpent : Text → List (SearchHit W) → ℕ → AskState → Outcome W × AskState → Type 0
  IsSpent question [] now st r = r.1 ≡ st
  IsSpent question (hit ∷ hits) now st r =
      SpendsOn (build_qa_messages cfg question (hit ∷ hits)) llm now st r

  answer_from-IsSpent :
      (now : ℕ) (req : AskRequest) (hits : List (SearchHit W)) (st : AskState)
      → IsSpent req.question hits now st (answer_from cfg llm now req hits st)
  unfolding answer_from answer_with
  answer_from-IsSpent now req [] st = refl
  answer_from-IsSpent now req (hit ∷ hits) st =
      elim (Option-cases (build_qa_messages cfg req.question (hit ∷ hits))) [
        | inl bad ↦ rw (bad, answer_from) refl
        | inr (ctx, ctx_eq) ↦ elim (Option-cases llm) [
          | inl off ↦ rw (ctx_eq, answer_from, off) refl
          | inr (client, on) ↦
              rw (ctx_eq, answer_from, on) (answer_with-Spends now req (hit ∷ hits) ctx client st)
        ]
      ]

  -- A question without hits, one whose prompt raises, and one without a model take no token and run no
  -- model. Any other takes a token and runs the model once, on the messages of its prompt, or is
  -- refused by the bucket and runs it not at all.
  pub ask-IsSpent :
      (search : Text → ℕ → List (SearchHit W)) (now : ℕ) (req : AskRequest) (st : AskState)
      → IsSpent req.question
          (search req.question (or_default req.top_k cfg.top_k))
          now
          st
          (ask cfg llm search now req st)
  unfolding ask
  ask-IsSpent search now req st =
      answer_from-IsSpent now req (search req.question (or_default req.top_k cfg.top_k)) st
