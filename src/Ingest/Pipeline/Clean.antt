-- ===== src/Ingest/Pipeline/Clean.antt =====
-- What a failed run leaves of its document, where the cleanup calls themselves succeed.
use docmesh.Prelude.{
  ◌≡◌, refl, sym, subst, Bool, true, false, not, List, [], ◌∷◌, map, filter, All, some, Bool-cases,
  inl, inr,
}
use docmesh.Text.{Text, text_eq, text_in}
use docmesh.Storage.{
  failed, Document, Chunk, update_status, update_documents, list_by_document, delete_by_document,
  append_event,
}
use docmesh.Ingest.Exec.{VectorRow, World, Result, raised, ◌>>=◌, act, suppress, handle, try_except}
use docmesh.Ingest.Pipeline.{
  Config, emit_event, stages, purge_vectors, purge_chunks, corpus_remove, index_delete, on_failure,
  ingest_found,
}

-- From the state in which the pipeline raised: the document has no chunk row, no vector in memory or
-- on file, and no chunk of it is in the BM25 corpus; the chunk rows of other documents are
-- unchanged; and the document's row says `failed`.
pub record IsClean (doc_id : Text) (before after : World) : Type 0 where
  pub chunks :
      after.db.chunks ≡ filter (λ (c : Chunk). not (text_eq c.document_id doc_id)) before.db.chunks
  pub no_chunks : All (λ (c : Chunk). text_eq c.document_id doc_id ≡ false) after.db.chunks
  pub no_vectors : All (λ (r : VectorRow). text_eq r.doc_id doc_id ≡ false) after.index
  pub saved : after.persisted ≡ after.index
  pub no_corpus :
      All
        (λ (e : Text × Text).
          text_in e.0 (map (λ (c : Chunk). c.id) (list_by_document doc_id before.db)) ≡ false)
        after.corpus
  pub status :
      All (λ (d : Document). text_eq d.id doc_id ≡ true → d.status ≡ failed) after.db.documents

pub All-filter {ℓ} :
    {A : Type ℓ} (p : A → Bool) (xs : List A) → All (λ x. p x ≡ false) (filter (λ x. not (p x)) xs)
All-filter p [] = tt
All-filter p (x ∷ xs) = elim (Bool-cases (p x)) [
  | inl e ↦ rw e (All-filter p xs)
  | inr e ↦ rw e (e, All-filter p xs)
]

All-update_documents :
    (f : Document → Document) (doc_id : Text) (ds : List Document)
    → ((d : Document) → (f d).status ≡ failed)
    → All
        (λ (d : Document). text_eq d.id doc_id ≡ true → d.status ≡ failed)
        (update_documents f doc_id ds)
unfolding update_documents
All-update_documents f doc_id [] h = tt
All-update_documents f doc_id (d ∷ ds) h = elim (Bool-cases (text_eq d.id doc_id)) [
  | inl e ↦ rw e ((λ _. h d), All-update_documents f doc_id ds h)
  | inr e ↦ rw e ((λ same. cc), All-update_documents f doc_id ds h)
]

abbrev calm : World → World
calm w = record w { faults = [] }

on_failure-IsClean :
    (message doc_id : Text) (w : World) → IsClean doc_id w (on_failure message doc_id (calm w)).1
unfolding on_failure purge_vectors purge_chunks suppress emit_event act ◌>>=◌ update_status
    delete_by_document append_event corpus_remove index_delete
on_failure-IsClean message doc_id w = record {
  chunks = refl;
  no_chunks = All-filter (λ (c : Chunk). text_eq c.document_id doc_id) w.db.chunks;
  no_vectors = All-filter (λ (r : VectorRow). text_eq r.doc_id doc_id) w.index;
  saved = refl;
  no_corpus =
      All-filter
        (λ (e : Text × Text).
          text_in e.0 (map (λ (c : Chunk). c.id) (list_by_document doc_id w.db)))
        w.corpus;
  status = All-update_documents _ doc_id w.db.documents (λ d. refl);
}

-- If the stages of a document raise, and no call of the cleanup raises, the run leaves a clean
-- state.
pub ingest_found-IsClean :
    (g : Config) (message doc_id : Text) (doc : Document) (w : World)
    → (stages g doc_id doc w).0 ≡ raised
    → (stages g doc_id doc w).1.faults ≡ []
    → IsClean doc_id (stages g doc_id doc w).1 (ingest_found g message doc_id (some doc) w).1
unfolding ingest_found try_except
ingest_found-IsClean g message doc_id doc w r calm_after =
    let v = (stages g doc_id doc w).1 in
    subst (λ (r' : Result (Unit {0})). IsClean doc_id v (handle r' (on_failure message doc_id) v).1)
      (sym r)
      (subst (λ fs. IsClean doc_id v (on_failure message doc_id (record v { faults = fs })).1)
        (sym calm_after) (on_failure-IsClean message doc_id v))
