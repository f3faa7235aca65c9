-- ===== src/Ingest/Startup/Settled.antt =====
-- What the start leaves.
use docmesh.Prelude.{
  ◌≤◌, ◌≡◌, ◌⊎◌, refl, sym, ap, ◌∙◌, true, false, ◌==◌, eq_of_==, none, some, List, [], ◌∷◌, All,
  All-imp, filter, length, length-filter, length-map, arith, Bool-cases, inl, inr,
}
use docmesh.Text.{Text, text_in}
use docmesh.Storage.{
  Db, Document, DocumentStatus, queued, parsing, chunking, embedding, indexing, done, failed,
  status_eq, has_status, update_status, delete_by_document, list_documents,
}
use docmesh.Storage.Listed.{ids, list_documents-all, newest_first-has}
use docmesh.Ingest.Exec.{World}
use docmesh.Ingest.Startup.{
  mapped, list_non_duplicates, relabel, load, reset_document, reset_documents, reconcile, recover,
  startup,
}
use docmesh.Ingest.Startup.Rows.{update_documents-All, length-update_documents, filter-has}
use docmesh.Ingest.Startup.Recovered.{HasNone, recover-IsSweptOf}

-- One that is done is among those that are left.
abbrev Left : List Text → Document → Type 0
Left is d = status_eq d.status done ≡ true → text_in d.id is ≡ true

reset_documents-done :
    (docs : List Document) (w : World)
    → All (Left (ids docs)) w.db.documents
    → All (λ (d : Document). HasNone (done ∷ []) d.status) (reset_documents docs w).db.documents
unfolding reset_documents update_status delete_by_document text_in status_eq
reset_documents-done [] w h =
    All-imp (Left []) (λ (d : Document). HasNone (done ∷ []) d.status) (λ d k. (none_left d k, tt))
      w.db.documents h
  where
    none_left :
        (d : Document)
        → (status_eq d.status done ≡ true → false ≡ true)
        → status_eq d.status done ≡ false
    none_left d k = elim (Bool-cases (status_eq d.status done)) [
      | inl bad ↦ let no : false ≡ true = k bad in absurd cc
      | inr good ↦ good
    ]
reset_documents-done (doc ∷ docs) w h = reset_documents-done docs (reset_document doc w) (
    update_documents-All (Left (doc.id ∷ ids docs)) (Left (ids docs))
      (λ d. record d { status = queued; error_message = none; updated_at = w.now }) doc.id
      (λ d e k bad. absurd cc) (λ d e k q. ground (arith, e, k q)) w.db.documents h)

length-reset_documents :
    (docs : List Document) (w : World)
    → length (reset_documents docs w).db.documents ≡ length w.db.documents
unfolding reset_documents update_status delete_by_document
length-reset_documents [] w = refl
length-reset_documents (doc ∷ docs) w =
    length-reset_documents docs (reset_document doc w)
    ∙ length-update_documents
        (λ d. record d { status = queued; error_message = none; updated_at = w.now }) doc.id
        w.db.documents

-- The vectors of the file are as many as those that the chunks have.
abbrev pub Fits : World → Type 0
Fits w = length w.persisted ≡ length (mapped (list_non_duplicates w.db))

all-Left :
    (db : Db)
    → length db.documents ≤ 10000
    → All (Left (ids (list_documents 0 10000 (some done) db).0)) db.documents
all-Left db few =
    let rows = filter (has_status (some done)) db.documents in
    let page =
      list_documents-all 10000 done db
        (omega (arith, length-filter (has_status (some done)) db.documents)) in
    All-imp (λ (d : Document). status_eq d.status done ≡ true → text_in d.id (ids rows) ≡ true)
      (Left (ids (list_documents 0 10000 (some done) db).0))
      (λ d h k. ap (λ l. text_in d.id (ids l)) page ∙ newest_first-has d.id rows ∙ h k) db.documents
      (filter-has done db.documents)

any_status : (docs : List Document) → All (λ (d : Document). HasNone [] d.status) docs
any_status [] = tt
any_status (d ∷ docs) = (tt, any_status docs)

-- The file fits, or no document is done any more.
reconcile-Fits :
    (w : World)
    → length w.db.documents ≤ 10000
    → (length (reconcile w).db.documents ≤ 10000)
      × (Fits w ⊎ All (λ (d : Document). HasNone (done ∷ []) d.status) (reconcile w).db.documents)
unfolding reconcile load
reconcile-Fits w few =
    let mappings = mapped (list_non_duplicates w.db) in
    let docs = (list_documents 0 10000 (some done) w.db).0 in
    let same = length-map (relabel mappings) w.persisted in
    let cleared : World = record (load mappings w) { index = [] } in
    elim (Bool-cases (length (load mappings w).index == length mappings)) [
      | inl fits ↦ rw fits (few, inl (sym same ∙ eq_of_== _ _ fits))
      | inr lost ↦ rw lost (
        omega (arith, few, length-reset_documents docs cleared),
        inr (reset_documents-done docs cleared (all-Left w.db few)),
      )
    ]

-- It is done, or failed, or it is queued and waits.
abbrev pub SettledOrWaits : World → Document → Type 0
SettledOrWaits w d =
    (d.status ≡ done)
    ⊎ (d.status ≡ failed)
    ⊎ ((d.status ≡ queued) × (text_in d.id w.waiting ≡ true))

settled_or_waits :
    (status : DocumentStatus) (i : Text) (waiting : List Text)
    → (status_eq status queued ≡ true → text_in i waiting ≡ true)
    → HasNone (indexing ∷ embedding ∷ chunking ∷ parsing ∷ []) status
    → (status ≡ done) ⊎ (status ≡ failed) ⊎ ((status ≡ queued) × (text_in i waiting ≡ true))
unfolding status_eq
settled_or_waits queued i waiting h k = inr (inr (refl, h refl))
settled_or_waits parsing i waiting h k = let bad = k.1.1.1.0 in absurd cc
settled_or_waits chunking i waiting h k = let bad = k.1.1.0 in absurd cc
settled_or_waits embedding i waiting h k = let bad = k.1.0 in absurd cc
settled_or_waits indexing i waiting h k = let bad = k.0 in absurd cc
settled_or_waits done i waiting h k = inl refl
settled_or_waits failed i waiting h k = inr (inl refl)

-- With at most ten thousand documents: after the start each document is done, or failed, or it is
-- queued and waits for the worker; the vectors are persisted as they are in memory; and if the file
-- of vectors did not have as many as the chunks, no document is left done.
pub startup-SettledOrWaits :
    (w : World)
    → length w.db.documents ≤ 10000
    → All (SettledOrWaits (startup w)) (startup w).db.documents
      × ((startup w).persisted ≡ (startup w).index)
      × (Fits w ⊎ All (λ (d : Document). status_eq d.status done ≡ false) (startup w).db.documents)
unfolding startup status_eq
startup-SettledOrWaits w few =
    let (still_few, fits) = reconcile-Fits w few in
    let start = reconcile w in
    let swept = recover-IsSweptOf [] start tt still_few (any_status start.db.documents) in
    (
      All-imp _ (SettledOrWaits (startup w))
          (λ (d : Document) k. settled_or_waits d.status d.id (recover start).waiting k.0 k.1)
          (recover start).db.documents swept.1,
      refl,
      elim fits [
        | inl fit ↦ inl fit
        | inr undone ↦ inr (
            All-imp _ (λ (d : Document). status_eq d.status done ≡ false)
              (λ (d : Document) k. k.1.1.1.1.1.0) (recover start).db.documents
              (recover-IsSweptOf (done ∷ []) start (refl, tt) still_few undone).1)
      ],
    )
