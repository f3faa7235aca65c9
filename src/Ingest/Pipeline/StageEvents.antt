-- ===== src/Ingest/Pipeline/StageEvents.antt =====
-- What each part of `_run_pipeline` (backend/app/ingestion/queue.py) appends to the audit log.
use docmesh.Prelude.{ℕ, ◌≡◌, refl, List, [], ◌∷◌, ◌++◌, none, some, length, Bool}
use docmesh.Text.{Text}
use docmesh.Chunker.Document.{DraftChunk}
use docmesh.Extract.{ExtractedDoc}
use docmesh.Storage.{
  DocumentStatus, parsing, chunking, embedding, indexing, done, failed, Document, Chunk,
  next_vector_id, update_status, set_stats, bulk_create, assign_vector_ids, delete_by_document,
}
use docmesh.Ingest.Exec.{Vector, World, Result, ok, raised, Exec, suppress}
use docmesh.Ingest.Pipeline.{
  Config, enter_stage, set_status, create_rows, assign, upsert, persist, add_corpus, record_stats,
  drop_vectors, drop_chunks, drop_corpus, chunk_creates, kept_rows, vector_rows, store_vectors,
  index_chunks, stages, purge_vectors, purge_chunks, on_failure,
}
use docmesh.Ingest.Pipeline.Emits.{
  Report, Emits, statuses, Emits-act, Emits-silent, Emits-stage, Emits-modify, Emits-emit_event,
  Emits-call, Emits-ask,
}

-- The plan of the `try` statement.
abbrev pub plan : List DocumentStatus
plan = parsing ∷ chunking ∷ embedding ∷ indexing ∷ done ∷ []

prefix_nil : (seen rest : List DocumentStatus) → [] ≡ seen ++ rest → seen ≡ []
prefix_nil [] rest e = refl
prefix_nil (s ∷ seen) rest e = cc

module _ (doc_id : Text) where
  Emits-enter_stage :
      (status : DocumentStatus) → Emits doc_id (status ∷ []) (enter_stage doc_id status)
  unfolding enter_stage update_status
  Emits-enter_stage status =
      Emits-silent doc_id
        (Emits-modify doc_id (λ w. record w { stage = status }) (λ w. refl) (λ w. refl))
        λ _.
          Emits-silent doc_id
            (Emits-call doc_id (set_status doc_id status none) (λ w. refl) (λ w. refl))
            λ _. Emits-emit_event doc_id status

  Emits-store_vectors :
      (chosen : List (Chunk × Vector)) (vids : List (Text × ℕ)) (pages n : ℕ)
      → Emits doc_id [] (store_vectors doc_id chosen vids pages n)
  unfolding store_vectors assign_vector_ids set_stats
  Emits-store_vectors chosen vids pages n =
      Emits-silent doc_id (Emits-call doc_id (assign vids) (λ w. refl) (λ w. refl)) λ _.
        Emits-silent doc_id
          (Emits-call doc_id (upsert (vector_rows doc_id vids chosen)) (λ w. refl) (λ w. refl))
          λ _. Emits-silent doc_id (Emits-call doc_id persist (λ w. refl) (λ w. refl)) λ _.
            Emits-silent doc_id (Emits-call doc_id (add_corpus chosen) (λ w. refl) (λ w. refl))
              λ _. Emits-call doc_id (record_stats doc_id pages n) (λ w. refl) (λ w. refl)

  Emits-index_chunks :
      (new_id : ℕ → Text) (extracted : ExtractedDoc) (drafts : List DraftChunk) (flags : List Bool)
      (kept : List (ℕ × Vector))
      → Emits doc_id [] (index_chunks new_id doc_id extracted drafts flags kept)
  unfolding index_chunks bulk_create
  Emits-index_chunks new_id extracted drafts flags kept =
      Emits-silent doc_id
        (Emits-act doc_id (create_rows (chunk_creates new_id doc_id 0 drafts flags)) (λ w. refl)
          (λ w. refl))
        λ rows.
          Emits-silent doc_id (Emits-ask doc_id (λ w. next_vector_id w.db.chunks))
            λ next. Emits-store_vectors (kept_rows rows kept) _ _ (length rows)

  pub Emits-stages : (g : Config) (doc : Document) → Emits doc_id plan (stages g doc_id doc)
  unfolding stages
  Emits-stages g doc = Emits-stage doc_id (Emits-enter_stage parsing) λ _.
      Emits-silent doc_id (Emits-ask doc_id _) λ extracted.
        Emits-stage doc_id (Emits-enter_stage chunking) λ _.
          Emits-silent doc_id (Emits-ask doc_id _) λ drafts.
            Emits-stage doc_id (Emits-enter_stage embedding) λ _.
              Emits-silent doc_id (Emits-ask doc_id _) λ existing.
                Emits-silent doc_id (Emits-ask doc_id _) λ found.
                  Emits-stage doc_id (Emits-enter_stage indexing) λ _.
                    Emits-silent doc_id
                      (Emits-index_chunks g.new_id extracted drafts found.0 found.1)
                      λ _. Emits-enter_stage done

  Emits-suppress : (m : Exec (Unit {0})) → Emits doc_id [] m → Emits doc_id [] (suppress m)
  unfolding suppress
  Emits-suppress m h = record { at = λ w. swallow w (m w).0 (m w).1 (h.at w) }
    where
      swallow :
          (w : World) (r : Result (Unit {0})) (v : World)
          → Report doc_id [] w r v
          → Report doc_id [] w (ok tt) v
      swallow w (ok a) v k = record {
        new = k.new;
        events = k.events;
        published = k.published;
        owned = k.owned;
        outcome = k.outcome;
      }
      swallow w raised v k = record {
        new = k.new;
        events = k.events;
        published = k.published;
        owned = k.owned;
        outcome = prefix_nil (statuses k.new) k.outcome.0 k.outcome.1;
      }

  pub Emits-on_failure : (message : Text) → Emits doc_id (failed ∷ []) (on_failure message doc_id)
  unfolding on_failure purge_vectors purge_chunks update_status delete_by_document
  Emits-on_failure message = Emits-silent doc_id (Emits-suppress _ vectors) λ _.
      Emits-silent doc_id (Emits-suppress _ chunks) λ _.
        Emits-silent doc_id
          (Emits-call doc_id (set_status doc_id failed (some message)) (λ w. refl) (λ w. refl))
          λ _. Emits-emit_event doc_id failed
    where
      vectors : Emits doc_id [] (purge_vectors doc_id)
      vectors =
          Emits-silent doc_id (Emits-call doc_id (drop_vectors doc_id) (λ w. refl) (λ w. refl))
            λ _. Emits-call doc_id persist (λ w. refl) (λ w. refl)

      chunks : Emits doc_id [] (purge_chunks doc_id)
      chunks = Emits-silent doc_id (Emits-ask doc_id _) λ removed.
          Emits-silent doc_id (Emits-call doc_id (drop_chunks doc_id) (λ w. refl) (λ w. refl))
            λ _. Emits-call doc_id (drop_corpus removed) (λ w. refl) (λ w. refl)
