-- ===== src/Text.antt =====
-- Python's `str` as a list of code points, and the methods of `str` and `re` that
-- backend/app/ingestion uses. The Unicode tables belong to the Python runtime: which code points
-- are white space, upper or lower case, and `str.lower`, are the interface `Unicode`.
mod Spans
pub mod Runs
unfoldable pub use Spans.*
unfoldable pub use Runs.*
