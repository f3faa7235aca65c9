-- ===== src/Ingest.antt =====
-- backend/app/ingestion/queue.py: the worker's pipeline over the stores, with every call that may
-- raise.
pub mod Exec
pub mod Dedup
pub mod Pipeline
pub mod Broker
pub mod Startup
unfoldable pub use Exec.*
