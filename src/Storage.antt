-- ===== src/Storage.antt =====
-- backend/app/schemas/documents.py, and the repositories of backend/app/storage/sql over tables
-- as lists of rows.
mod Schemas
mod Documents
mod Chunks
mod Events
pub mod Listed
unfoldable pub use Schemas.*
unfoldable pub use Documents.*
unfoldable pub use Chunks.*
unfoldable pub use Events.*
