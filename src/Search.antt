-- ===== src/Search.antt =====
-- backend/app/search and backend/app/services/search_service.py: from two rankings to hits with
-- highlights.
mod Schemas
pub use Schemas.*
pub mod Highlights
pub mod Fusion
pub mod Service
pub mod Keyword
