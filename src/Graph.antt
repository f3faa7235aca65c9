-- ===== src/Graph.antt =====
-- The graph of documents: backend/app/graph, backend/app/schemas/graph.py,
-- backend/app/storage/sql/edge_repo.py and analysis_repo.py, and
-- backend/app/services/graph_service.py.
mod Schemas
pub mod Order
pub mod Edges
pub mod Combiner
pub mod Entities
pub mod Semantic
pub mod Topics
pub mod Hydrate
pub mod Build
pub mod Recompute
pub mod Query
pub mod Views
pub use Schemas.*
