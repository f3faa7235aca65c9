-- ===== src/Ingest/Broker.antt =====
-- `StatusBroker` of backend/app/ingestion/broker.py.
pub mod Delivery
use docmesh.Prelude.{
  ℕ, suc, Bool, false, not, ◌&&◌, ◌||◌, Option, none, some, List, [], ◌∷◌, ◌++◌, filter, length,
  leb, ltb, ◌==◌, if◌then◌else◌,
}
use docmesh.Text.{Text, text_eq}
use docmesh.Storage.{IngestionEvent}

-- A queue is named by a number, its identity in the sets; `queues` holds what each has buffered,
-- and `next_queue` is the number of the next object.
pub record StatusBroker : Type 0 where
  pub doc_subs : List (Text × List ℕ)
  pub global_subs : List ℕ
  pub maxsize : ℕ
  pub queues : ℕ → List IngestionEvent
  pub next_queue : ℕ

unfoldable pub has : ℕ → List ℕ → Bool
has k [] = false
has k (j ∷ js) = k == j || has k js

-- `doc_subs.get(doc_id, set())`
unfoldable pub subs_of : Text → List (Text × List ℕ) → List ℕ
subs_of doc_id [] = []
subs_of doc_id ((d, ks) ∷ subs) = if text_eq d doc_id then ks else subs_of doc_id subs

-- `doc_subs[doc_id].add(queue)` of a `defaultdict(set)`.
unfoldable pub add_sub : Text → ℕ → List (Text × List ℕ) → List (Text × List ℕ)
add_sub doc_id k [] = (doc_id, k ∷ []) ∷ []
add_sub doc_id k ((d, ks) ∷ subs) =
    let rest = add_sub doc_id k subs in
    if text_eq d doc_id then (d, k ∷ ks) ∷ subs else (d, ks) ∷ rest

-- `queues.discard(queue)`
unfoldable pub discard : ℕ → List ℕ → List ℕ
discard k ks = filter (λ j. not (k == j)) ks

abbrev pub keep_sub : Text → List ℕ → List (Text × List ℕ) → List (Text × List ℕ)
keep_sub d [] subs = subs
keep_sub d (k ∷ ks) subs = (d, k ∷ ks) ∷ subs

-- The queue leaves the set of the document, and an empty set is dropped.
unfoldable pub drop_sub : Text → ℕ → List (Text × List ℕ) → List (Text × List ℕ)
unfolding discard
drop_sub doc_id k [] = []
drop_sub doc_id k ((d, ks) ∷ subs) =
    let rest = drop_sub doc_id k subs in
    if text_eq d doc_id then keep_sub d (discard k ks) subs else (d, ks) ∷ rest

abbrev pub new_queue : StatusBroker → StatusBroker
new_queue b = record b {
  queues = λ k. if k == b.next_queue then [] else b.queues k;
  next_queue = suc b.next_queue;
}

unfoldable pub subscribe : Option Text → StatusBroker → ℕ × StatusBroker
unfolding add_sub
subscribe none b =
    (b.next_queue, record (new_queue b) { global_subs = b.next_queue ∷ b.global_subs })
subscribe (some doc_id) b =
    (b.next_queue, record (new_queue b) { doc_subs = add_sub doc_id b.next_queue b.doc_subs })

unfoldable pub unsubscribe : Option Text → ℕ → StatusBroker → StatusBroker
unfolding drop_sub discard
unsubscribe none k b = record b { global_subs = discard k b.global_subs }
unsubscribe (some doc_id) k b = record b { doc_subs = drop_sub doc_id k b.doc_subs }

-- `asyncio.Queue.full`: a queue of size 0 has no bound.
abbrev pub is_full : ℕ → List IngestionEvent → Bool
is_full maxsize q = ltb 0 maxsize && leb maxsize (length q)

abbrev pub drop_oldest : List IngestionEvent → List IngestionEvent
drop_oldest [] = []
drop_oldest (e ∷ q) = q

-- `put_nowait`, and on `QueueFull` one `get_nowait` before it.
unfoldable pub put_newest : ℕ → IngestionEvent → List IngestionEvent → List IngestionEvent
put_newest maxsize event q =
    if is_full maxsize q then drop_oldest q ++ event ∷ [] else q ++ event ∷ []

-- Is the queue in `doc_subs.get(event.document_id, set()) | global_subs`?
unfoldable pub listens : StatusBroker → IngestionEvent → ℕ → Bool
unfolding has subs_of
listens b event k = has k (subs_of event.document_id b.doc_subs) || has k b.global_subs

-- Each queue of the union gets the event once; the order of a set does not matter to it.
unfoldable pub publish : IngestionEvent → StatusBroker → StatusBroker
unfolding listens put_newest
publish event b = record b {
  queues = λ k. if listens b event k then put_newest b.maxsize event (b.queues k) else b.queues k;
}

-- The worker's calls, one after the other.
unfoldable pub publish_all : List IngestionEvent → StatusBroker → StatusBroker
unfolding publish
publish_all [] b = b
publish_all (e ∷ es) b = publish_all es (publish e b)
