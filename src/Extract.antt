-- ===== src/Extract.antt =====
-- backend/app/ingestion/extractors: blocks with exact offsets into the extracted text, the section
-- path, and the extraction of plain text and Markdown, of PDF and of DOCX.
mod Base
pub mod Offsets
pub mod Sections
pub mod Labels
pub mod Paragraphs
pub mod Pdf
pub mod Docx
unfoldable pub use Base.*
