-- ===== src/Storage/Events.antt =====
-- backend/app/storage/sql/event_repo.py
use docmesh.Prelude.{ℕ, suc, ◌&&◌, List, [], ◌∷◌, ◌++◌, filter, ltb}
use docmesh.Text.{Text, text_eq}
use docmesh.Storage.Schemas.{DocumentStatus, IngestionEvent, Db}

-- `append`: the event with its autoincrement id.
unfoldable pub append_event : ℕ → Text → DocumentStatus → Db → IngestionEvent × Db
append_event now doc_id status db =
    let event : IngestionEvent = record {
      id = db.next_event_id;
      document_id = doc_id;
      status = status;
      created_at = now;
    } in
    (event, record db { events = db.events ++ event ∷ []; next_event_id = suc db.next_event_id })

-- `list_for_document`; the rows stand in the order of their ids.
unfoldable pub list_for_document : Text → ℕ → Db → List IngestionEvent
list_for_document doc_id after_id db =
    filter (λ (e : IngestionEvent). text_eq e.document_id doc_id && ltb after_id e.id) db.events
