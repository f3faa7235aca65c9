-- ===== src/Ingest/Startup/Recovered.antt =====
-- After the start every document is settled, or waits in the queue.
use docmesh.Prelude.{
  ◌≤◌, ◌≡◌, refl, sym, ap, ◌∙◌, true, false, none, some, List, [], ◌∷◌, ◌++◌, append-nil,
  append_assoc, All, All-imp, filter, length, length-filter, arith, Bool-cases, inl, inr,
}
use docmesh.Text.{Text, text_in}
use docmesh.Storage.{
  Db, Document, DocumentStatus, queued, parsing, chunking, embedding, indexing, status_eq,
  has_status, update_status, delete_by_document, append_event, list_documents,
}
use docmesh.Storage.Listed.{ids, list_documents-all, newest_first-has}
use docmesh.Ingest.Exec.{World}
use docmesh.Ingest.Startup.{oldest_first, wait, requeue, wait_all, requeue_all, sweep, recover}
use docmesh.Ingest.Startup.Rows.{
  update_documents-All, length-update_documents, text_in-append, oldest_first-has, filter-has,
}

-- The document has none of the statuses.
abbrev pub HasNone : List DocumentStatus → DocumentStatus → Type 0
HasNone gs status = All (λ g. status_eq status g ≡ false) gs

-- While the documents that are left are swept: one of the status is left, one that is queued waits,
-- and none has a status that was swept before.
abbrev Sweeping : DocumentStatus → List DocumentStatus → List Text → List Text → Document → Type 0
Sweeping s gs is waiting d =
    (status_eq d.status s ≡ true → text_in d.id is ≡ true)
    × (status_eq d.status queued ≡ true → text_in d.id waiting ≡ true)
    × HasNone gs d.status

abbrev pub Swept : List DocumentStatus → World → Type 0
Swept gs w =
    All
      (λ (d : Document).
        (status_eq d.status queued ≡ true → text_in d.id w.waiting ≡ true) × HasNone gs d.status)
      w.db.documents

module _ (s : DocumentStatus) (gs : List DocumentStatus) (not_s : status_eq queued s ≡ false)
    (not_gs : HasNone gs queued) where
  requeue-Sweeping :
      (i : Text) (is : List Text) (w : World)
      → All (Sweeping s gs (i ∷ is) w.waiting) w.db.documents
      → All (Sweeping s gs is (w.waiting ++ i ∷ [])) (requeue i w).db.documents
  unfolding update_status delete_by_document append_event text_in
  requeue-Sweeping i is w h =
      update_documents-All (Sweeping s gs (i ∷ is) w.waiting)
        (Sweeping s gs is (w.waiting ++ i ∷ []))
        (λ d. record d { status = queued; error_message = none; updated_at = w.now }) i
        (λ d e k. (
          (λ bad. absurd (ground (arith, bad, not_s))),
          (λ _. text_in-append d.id w.waiting (i ∷ []) ∙ ground (arith, e)),
          not_gs,
        ))
        (λ d e k. (
          (λ q. ground (arith, e, k.0 q)),
          (λ q. text_in-append d.id w.waiting (i ∷ []) ∙ ground (arith, k.1 q)),
          k.2,
        ))
        w.db.documents h

  requeue_all-Swept :
      (docs : List Document) (w : World)
      → All (Sweeping s gs (ids docs) w.waiting) w.db.documents
      → Swept (s ∷ gs) (requeue_all docs w)
  unfolding requeue_all text_in
  requeue_all-Swept [] w h =
      All-imp (Sweeping s gs [] w.waiting)
        (λ (d : Document).
          (status_eq d.status queued ≡ true → text_in d.id w.waiting ≡ true)
          × HasNone (s ∷ gs) d.status)
        (λ d k. (k.1, (none_left d k.0, k.2))) w.db.documents h
    where
      none_left :
          (d : Document)
          → (status_eq d.status s ≡ true → false ≡ true)
          → status_eq d.status s ≡ false
      none_left d k = elim (Bool-cases (status_eq d.status s)) [
        | inl bad ↦ let no : false ≡ true = k bad in absurd cc
        | inr good ↦ good
      ]
  requeue_all-Swept (doc ∷ docs) w h =
      requeue_all-Swept docs (wait doc.id (requeue doc.id w))
        (requeue-Sweeping doc.id (ids docs) w h)

length-requeue_all :
    (docs : List Document) (w : World)
    → length (requeue_all docs w).db.documents ≡ length w.db.documents
unfolding requeue_all update_status delete_by_document append_event
length-requeue_all [] w = refl
length-requeue_all (doc ∷ docs) w =
    length-requeue_all docs (wait doc.id (requeue doc.id w))
    ∙ length-update_documents
        (λ d. record d { status = queued; error_message = none; updated_at = w.now }) doc.id
        w.db.documents

wait_all-db : (docs : List Document) (w : World) → (wait_all docs w).db ≡ w.db
unfolding wait_all
wait_all-db [] w = refl
wait_all-db (doc ∷ docs) w = wait_all-db docs (wait doc.id w)

wait_all-waiting :
    (docs : List Document) (w : World) → (wait_all docs w).waiting ≡ w.waiting ++ ids docs
unfolding wait_all
wait_all-waiting [] w = sym (append-nil w.waiting)
wait_all-waiting (doc ∷ docs) w =
    wait_all-waiting docs (wait doc.id w) ∙ append_assoc w.waiting (doc.id ∷ []) (ids docs)

-- The documents that a sweep of the status goes through.
abbrev pub swept_docs : DocumentStatus → Db → List Document
swept_docs s db = oldest_first (list_documents 0 10000 (some s) db).0

-- While there are at most ten thousand documents, a sweep finds each that has the status.
abbrev pub IsFound : DocumentStatus → Db → Document → Type 0
IsFound s db d = status_eq d.status s ≡ true → text_in d.id (ids (swept_docs s db)) ≡ true

all-IsFound :
    (s : DocumentStatus) (db : Db) → length db.documents ≤ 10000 → All (IsFound s db) db.documents
all-IsFound s db few =
    let rows = filter (has_status (some s)) db.documents in
    let page =
      list_documents-all 10000 s db
        (omega (arith, length-filter (has_status (some s)) db.documents)) in
    All-imp (λ (d : Document). status_eq d.status s ≡ true → text_in d.id (ids rows) ≡ true)
      (IsFound s db)
      (λ d h k.
        oldest_first-has d.id (list_documents 0 10000 (some s) db).0
        ∙ ap (λ l. text_in d.id (ids l)) page
        ∙ newest_first-has d.id rows
        ∙ h k)
      db.documents (filter-has s db.documents)

All-both :
    (P Q R : Document → Type 0)
    → ((d : Document) → P d → Q d → R d)
    → (ds : List Document) → All P ds
    → All Q ds
    → All R ds
All-both P Q R f [] h k = tt
All-both P Q R f (d ∷ ds) (h, hs) (k, ks) = (f d h k, All-both P Q R f ds hs ks)

-- At most ten thousand documents, swept of the statuses.
abbrev pub IsSweptOf : List DocumentStatus → World → Type 0
IsSweptOf gs w = (length w.db.documents ≤ 10000) × Swept gs w

sweep-IsSweptOf :
    (s : DocumentStatus) (gs : List DocumentStatus) (w : World)
    → status_eq s queued ≡ false
    → status_eq queued s ≡ false
    → HasNone gs queued
    → IsSweptOf gs w
    → IsSweptOf (s ∷ gs) (sweep s w)
unfolding sweep
sweep-IsSweptOf s gs w other not_s not_gs (few, swept) =
    let docs = swept_docs s w.db in
    rw other (
      omega (arith, length-requeue_all docs w),
      requeue_all-Swept s gs not_s not_gs docs w (
          All-both (IsFound s w.db) _ (Sweeping s gs (ids docs) w.waiting)
            (λ d found k. (found, k.0, k.1)) w.db.documents (all-IsFound s w.db few) swept),
    )

sweep_queued-IsSweptOf :
    (gs : List DocumentStatus) (w : World)
    → length w.db.documents ≤ 10000
    → All (λ (d : Document). HasNone gs d.status) w.db.documents
    → IsSweptOf gs (sweep queued w)
unfolding sweep status_eq
sweep_queued-IsSweptOf gs w few free =
    let docs = swept_docs queued w.db in
    rw (wait_all-db docs w, wait_all-waiting docs w)
      (
        few,
        All-both (IsFound queued w.db) (λ (d : Document). HasNone gs d.status)
            (λ (d : Document).
              (status_eq d.status queued ≡ true → text_in d.id (w.waiting ++ ids docs) ≡ true)
              × HasNone gs d.status)
            (λ d found k.
              ((λ q. text_in-append d.id w.waiting (ids docs) ∙ ground (arith, found q)), k))
            w.db.documents (all-IsFound queued w.db few) free,
      )

pub recover-IsSweptOf :
    (gs : List DocumentStatus) (w : World)
    → HasNone gs queued
    → length w.db.documents ≤ 10000
    → All (λ (d : Document). HasNone gs d.status) w.db.documents
    → IsSweptOf (indexing ∷ embedding ∷ chunking ∷ parsing ∷ gs) (recover w)
unfolding recover status_eq
recover-IsSweptOf gs w not_gs few free =
    sweep-IsSweptOf indexing (embedding ∷ chunking ∷ parsing ∷ gs) _ refl refl
      (refl, (refl, (refl, not_gs)))
      (sweep-IsSweptOf embedding (chunking ∷ parsing ∷ gs) _ refl refl (refl, (refl, not_gs))
        (sweep-IsSweptOf chunking (parsing ∷ gs) _ refl refl (refl, not_gs)
          (sweep-IsSweptOf parsing gs _ refl refl not_gs (sweep_queued-IsSweptOf gs w few free))))
