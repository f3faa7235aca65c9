-- ===== src/Chunker.antt =====
-- backend/app/ingestion/chunker.py: sentences, units that fit the token budget, and their packing
-- into chunks.
pub mod Sentences
pub mod Oversized
pub mod Packing
pub mod Document
