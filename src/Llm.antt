-- ===== src/Llm.antt =====
-- backend/app/llm: the interface of the language model, and the texts that go to it and come back.
pub mod Decimal
pub mod Truncate
use docmesh.Prelude.{ℕ, Option, List}
use docmesh.Text.{Text}

-- Roles of backend/app/llm/interface.py.
pub data Role : Type 0 where
  system user assistant : Role

pub record ChatMessage : Type 0 where
  pub role : Role
  pub content : Text

pub record LlmResult : Type 0 where
  pub text : Text
  pub input_tokens : ℕ
  pub output_tokens : ℕ
  pub model_id : Text

-- `LLMClient`: `complete` gives `none` for `LLMUnavailableError`.
pub record LlmClient : Type 0 where
  pub model_id : Text
  pub complete : List ChatMessage → Option LlmResult
