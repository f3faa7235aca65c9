-- ===== src/Explain.antt =====
-- The explanations of edges: backend/app/llm/prompt.py and template.py,
-- backend/app/storage/sql/explanation_repo.py and backend/app/services/explanation_service.py.
pub mod Prompt
pub mod Output
pub mod Template
pub mod Records
pub mod Service
