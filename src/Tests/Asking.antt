-- ===== src/Tests/Asking.antt =====
-- A question about one passage, and what a model may answer.
use docmesh.Prelude.{ℕ, ◌≡◌, ◌&&◌, refl, none, some, Option, List, [], ◌∷◌, flat_map, length, arith}
use docmesh.Text.{Text, codes}
use docmesh.Llm.{LlmClient, system, user}
use docmesh.Search.{SearchHit}
use docmesh.Ask.Citations.{tokens, token_numbers, is_valid, member, parse_citations}
use docmesh.Ask.Citations.Verified.{IsDistinct, parse_citations-IsVerified}
use docmesh.Ask.Prompt.{AskSettings, QaContext, qa_system_prompt, user_question, build_qa_messages}
use docmesh.Ask.Prompt.Included.{blocks, IsLongest, build_qa_messages-IsLongest}
use docmesh.Ask.Service.{AskRequest, AskState, Outcome, ask}
use docmesh.Ask.Service.Grounded.{Grounds, ask-IsGrounded}
use docmesh.Ask.Service.Runs.{IsSpent, ask-IsSpent}
use docmesh.Tests.Samples.{ascii, ascii_digits}

-- Two passages; there is no third.
abbrev reply : Text
reply = codes "Cats purr [1, 2] [3]."

verified : parse_citations reply 2 ≡ (codes "Cats purr [1][2].", 1 ∷ 2 ∷ [])
unfolding parse_citations
verified = refl

parse_citations-IsVerified_example :
    IsDistinct (parse_citations reply 2).1
    × ((n : ℕ)
        → member n (parse_citations reply 2).1
          ≡ (is_valid 2 n && member n (flat_map token_numbers (tokens (length reply) reply))))
parse_citations-IsVerified_example = parse_citations-IsVerified reply 2

-- A marker within a marker: taking the inner one out leaves another that was not verified.
nested : parse_citations (codes "Cats [[9]7]") 2 ≡ (codes "Cats [7]", [])
unfolding parse_citations
nested = refl

abbrev hit : SearchHit ℕ
hit = record {
  rank = 1;
  chunk_id = codes "c1";
  document_id = codes "d1";
  filename = codes "cats.txt";
  text = codes "Cats purr.";
  page_start = none;
  page_end = none;
  section = none;
  dense_score = none;
  bm25_score = none;
  fused_score = 1;
  rerank_score = 1;
  term_highlights = [];
  best_sentence = none;
}

-- The first two of three passages fit.
abbrev cfg : AskSettings
cfg = record { top_k = 3; chunk_char_budget = 20; context_char_budget = 60 }

build_qa_messages-IsLongest_example :
    (ctx : QaContext ℕ) × (build_qa_messages cfg (codes "Why?") (hit ∷ hit ∷ hit ∷ []) ≡ some ctx)
    × (ctx.messages
        ≡ record { role = system; content = qa_system_prompt }
          ∷ record {
            role = user;
            content = user_question (codes "Why?") (blocks cfg 1 ctx.included);
          }
          ∷ [])
    × IsLongest cfg 1 0 (hit ∷ hit ∷ hit ∷ []) ctx.included
build_qa_messages-IsLongest_example =
    build_qa_messages-IsLongest cfg (codes "Why?") (hit ∷ hit ∷ hit ∷ []) (omega arith)
      (refl, (refl, (refl, tt)))

abbrev answers : Text → LlmClient
answers t = record {
  model_id = codes "m";
  complete = λ messages.
      some (record { text = t; input_tokens = 9; output_tokens = 5; model_id = codes "m" });
}

abbrev question : AskRequest
question = record { question = codes "Why?"; top_k = none }

abbrev idle : AskState
idle = record { bucket = record { capacity = 120; tokens = 60; rate = 30; last = 0 }; runs = [] }

abbrev search : Text → ℕ → List (SearchHit ℕ)
search q k = hit ∷ []

-- An answer of markers that count no passage is given as the model's, and is empty.
abbrev answer_of : Outcome ℕ → Option Text
answer_of (Outcome.answered r) = some r.answer
answer_of (Outcome.rate_limited missing) = none
answer_of Outcome.raised = none

all_invalid : answer_of (ask cfg (some (answers (codes "[9]"))) search 0 question idle).0 ≡ some []
unfolding ask
all_invalid = refl

ask-IsGrounded_example :
    Grounds (hit ∷ []) (ask cfg (some (answers reply)) search 0 question idle).0
ask-IsGrounded_example =
    ask-IsGrounded cfg (some (answers reply)) search 0 question idle (omega arith) (refl, tt)

ask-IsSpent_example :
    IsSpent cfg
      (some (answers reply))
      question.question
      (hit ∷ [])
      0
      idle
      (ask cfg (some (answers reply)) search 0 question idle)
ask-IsSpent_example = ask-IsSpent cfg (some (answers reply)) search 0 question idle
