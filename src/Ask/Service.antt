-- ===== src/Ask/Service.antt =====
-- `AnswerService` of backend/app/services/answer_service.py, behind the retrieval. Durations are left
-- out.
pub mod Grounded
pub mod Runs
use docmesh.Prelude.{
  ℕ, zero, suc, Option, none, some, List, [], ◌∷◌, ◌++◌, get_elem?, last?, length, if◌then◌else◌,
}
use docmesh.Text.{Text, Unicode}
use docmesh.Llm.{ChatMessage, LlmResult, LlmClient}
use docmesh.Llm.Decimal.{Digits}
use docmesh.Search.{SearchHit}
use docmesh.RateLimit.{TokenBucket, try_acquire}
use docmesh.Ask.Citations.{parse_citations}
use docmesh.Ask.Prompt.{AskSettings, QaContext, build_qa_messages, postprocess_answer}

-- backend/app/schemas/ask.py
pub record AskRequest : Type 0 where
  pub question : Text
  pub top_k : Option ℕ

pub record Citation : Type 0 where
  pub marker : ℕ
  pub chunk_id : Text
  pub document_id : Text
  pub filename : Text
  pub page_start : Option ℕ
  pub page_end : Option ℕ
  pub section : Option Text

pub data Generator : Type 0 where
  llm unavailable no_evidence : Generator

pub record AskResponse (W : Type 0) : Type 0 where
  pub question : Text
  pub answer : Text
  pub generator : Generator
  pub model : Option Text
  pub citations : List Citation
  pub evidence : List (SearchHit W)
  pub context_chunks : ℕ
  pub input_tokens : Option ℕ
  pub output_tokens : Option ℕ

-- The bucket that it shares with the explanations, and the messages of the model's runs.
pub record AskState : Type 0 where
  pub bucket : TokenBucket
  pub runs : List (List ChatMessage)

-- `rate_limited` is `RateLimitedError`, with the parts that are missing; `raised` is another
-- exception.
pub data Outcome (W : Type 0) : Type 0 where
  answered : AskResponse W → Outcome W
  rate_limited : ℕ → Outcome W
  raised : Outcome W

-- `req.top_k or cfg.top_k`
abbrev pub or_default : Option ℕ → ℕ → ℕ
or_default none k = k
or_default (some zero) k = k
or_default (some (suc n)) k = suc n

abbrev pub add_citation : Citation → Option (List Citation) → Option (List Citation)
add_citation c none = none
add_citation c (some cs) = some (c ∷ cs)

module _ {W : Type 0} where
  abbrev pub citation : ℕ → SearchHit W → Citation
  citation m hit = record {
    marker = m;
    chunk_id = hit.chunk_id;
    document_id = hit.document_id;
    filename = hit.filename;
    page_start = hit.page_start;
    page_end = hit.page_end;
    section = hit.section;
  }

  -- `included[m - 1]`; the index -1 is the last.
  abbrev pub source_of : List (SearchHit W) → ℕ → Option (SearchHit W)
  source_of included zero = last? included
  source_of included (suc m) = get_elem? included m

  -- The citations; `none` is an `IndexError`.
  unfoldable pub cite : List (SearchHit W) → List ℕ → Option (List Citation)
  cite included [] = some []
  cite included (m ∷ ms) = elim (source_of included m) [
    | none ↦ none
    | some hit ↦ add_citation (citation m hit) (cite included ms)
  ]

  -- `_degraded`
  unfoldable pub degraded : AskRequest → List (SearchHit W) → Generator → ℕ → AskResponse W
  degraded req hits generator context_chunks = record {
    question = req.question;
    answer = [];
    generator = generator;
    model = none;
    citations = [];
    evidence = hits;
    context_chunks = context_chunks;
    input_tokens = none;
    output_tokens = none;
  }

  abbrev pub response :
      AskRequest → List (SearchHit W) → ℕ → LlmResult → Text → List Citation → AskResponse W
  response req hits context_chunks result answer citations = record {
    question = req.question;
    answer = answer;
    generator = Generator.llm;
    model = some result.model_id;
    citations = citations;
    evidence = hits;
    context_chunks = context_chunks;
    input_tokens = some result.input_tokens;
    output_tokens = some result.output_tokens;
  }

module _ {W : Type 0} ⦃u : Unicode⦄ ⦃d : Digits⦄ where
  -- Behind the run of the model.
  unfoldable pub verify :
      AskRequest → List (SearchHit W) → List (SearchHit W) → LlmResult → Option Text → Outcome W
  unfolding degraded parse_citations cite
  verify req hits included result none = raised
  verify req hits included result (some []) =
      answered (degraded req hits Generator.unavailable (length included))
  verify req hits included result (some (c ∷ t)) =
      let (answer, markers) = parse_citations (c ∷ t) (length included) in
      elim (cite included markers) [
        | none ↦ raised
        | some citations ↦ answered (response req hits (length included) result answer citations)
      ]

  unfoldable pub generate :
      AskRequest → List (SearchHit W) → QaContext W → LlmClient → AskState → Outcome W × AskState
  unfolding degraded verify postprocess_answer
  generate req hits ctx client st =
      let st' = record st { runs = st.runs ++ ctx.messages ∷ [] } in
      elim (client.complete ctx.messages) [
        | none ↦ (answered (degraded req hits Generator.unavailable (length ctx.included)), st')
        | some result ↦ (verify req hits ctx.included result (postprocess_answer result.text), st')
      ]

  unfoldable pub answer_with :
      ℕ
      → AskRequest
      → List (SearchHit W)
      → QaContext W
      → Option LlmClient
      → AskState
      → Outcome W × AskState
  unfolding degraded generate try_acquire
  answer_with now req hits ctx none st =
      (answered (degraded req hits Generator.unavailable (length ctx.included)), st)
  answer_with now req hits ctx (some client) st =
      let ((allowed, missing), bucket) = try_acquire now 60 st.bucket in
      let st' = record st { bucket = bucket } in
      if allowed then generate req hits ctx client st' else (rate_limited missing, st')

module _ {W : Type 0} ⦃u : Unicode⦄ ⦃d : Digits⦄ (cfg : AskSettings) (llm : Option LlmClient) where
  unfoldable pub answer_from : ℕ → AskRequest → List (SearchHit W) → AskState → Outcome W × AskState
  unfolding degraded build_qa_messages answer_with
  answer_from now req [] st = (answered (degraded req [] Generator.no_evidence 0), st)
  answer_from now req (hit ∷ hits) st = elim (build_qa_messages cfg req.question (hit ∷ hits)) [
    | none ↦ (raised, st)
    | some ctx ↦ answer_with now req (hit ∷ hits) ctx llm st
  ]

  -- `ask`, for a search, at a time.
  unfoldable pub ask :
      (Text → ℕ → List (SearchHit W)) → ℕ → AskRequest → AskState → Outcome W × AskState
  unfolding answer_from
  ask search now req st =
      answer_from now req (search req.question (or_default req.top_k cfg.top_k)) st
