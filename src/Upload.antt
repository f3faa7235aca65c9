-- ===== src/Upload.antt =====
-- backend/app/ingestion/validators.py: what an upload has to be; and the upload and deletion of
-- backend/app/services/document_service.py.
pub mod Detect
pub mod Stream
pub mod Filename
pub mod Service
