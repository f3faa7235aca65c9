-- ===== src/Ask.antt =====
-- backend/app/llm/qa_prompt.py and backend/app/services/answer_service.py: an answer with verified
-- citations.
pub mod Citations
pub mod Prompt
pub mod Service
