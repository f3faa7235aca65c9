-- ===== src/Tests.antt =====
-- Inputs that exercise the code, and the theorems at those inputs.
mod Samples
mod Chunking
mod Extracting
mod Ingesting
mod Broadcasting
mod Uploading
mod Limiting
mod Asking
mod Explaining
mod Graphing
mod Naming
mod Overlapping
mod Hydrating
mod Starting
mod Searching
mod Keywords
mod Storing
mod Reading
