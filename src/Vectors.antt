-- ===== src/Vectors.antt =====
-- backend/app/storage/vector/faiss_store.py. Each method is one step, and the lock is left out: calls
-- come one after the other (`delete_by_document` takes the ids of the document out of `_vids_by_doc`
-- before it takes the lock, and the model has no call between). Logging and the thread that the calls
-- run in are left out, too.
pub mod Faiss
pub mod Store
pub mod Rows
pub mod Dicts
pub mod Represents
pub mod Deleted
pub mod Refines
pub mod Queried
