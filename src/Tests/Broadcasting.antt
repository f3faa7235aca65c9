-- ===== src/Tests/Broadcasting.antt =====
-- The broker with a queue of two for the document "a".
use docmesh.Prelude.{ℕ, ◌≡◌, refl, some, List, [], ◌∷◌, ◌++◌, arith}
use docmesh.Text.{text_eq}
use docmesh.Storage.{IngestionEvent, queued}
use docmesh.Ingest.Broker.{StatusBroker, subscribe, unsubscribe, publish_all, listens}
use docmesh.Ingest.Broker.Delivery.{newest, publish_all-newest}

abbrev event : ℕ → IngestionEvent
event n = record { id = n; document_id = b'a' ∷ []; status = queued; created_at = n }

abbrev idle : StatusBroker
idle = record { doc_subs = []; global_subs = []; maxsize = 2; queues = λ k. []; next_queue = 0 }

abbrev three_events : List IngestionEvent
three_events = event 1 ∷ event 2 ∷ event 3 ∷ []

abbrev listening : StatusBroker
listening = record idle { doc_subs = (b'a' ∷ [], 0 ∷ []) ∷ []; next_queue = 1 }

subscribed : (subscribe (some (b'a' ∷ [])) idle).1.doc_subs ≡ listening.doc_subs
unfolding subscribe
subscribed = refl

unsubscribed : (unsubscribe (some (b'a' ∷ [])) 0 listening).doc_subs ≡ []
unfolding unsubscribe text_eq
unsubscribed = refl

publish_all-newest_example :
    (publish_all three_events listening).queues 0 ≡ newest 2 (listening.queues 0 ++ three_events)
unfolding listens text_eq
publish_all-newest_example =
    publish_all-newest three_events listening 0 (omega arith) (omega arith)
      (refl, (refl, (refl, tt)))
