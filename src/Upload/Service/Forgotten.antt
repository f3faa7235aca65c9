-- ===== src/Upload/Service/Forgotten.antt =====
-- What a deletion leaves of a document.
use docmesh.Prelude.{
  ◌≡◌, refl, sym, ap, subst, Bool, true, false, not, some, List, [], ◌∷◌, map, filter, All,
}
use docmesh.Text.{Text, text_eq, text_in}
use docmesh.Storage.{Document, Chunk, IngestionEvent, get, delete, list_by_document}
use docmesh.Ingest.Exec.{VectorRow, World, Result, ok, act, ◌>>=◌}
use docmesh.Ingest.Pipeline.{corpus_remove, index_delete}
use docmesh.Ingest.Pipeline.Clean.{All-filter}
use docmesh.Upload.Service.{purge, delete_document}

-- The document has no row, no chunk, no event, no vector in memory or on file, and no chunk of it is in
-- the keyword corpus; its file is gone; and the rows of other documents are unchanged.
pub record IsForgotten (doc_id : Text) (document : Document) (before after : World) : Type 0 where
  pub documents :
      after.db.documents ≡ filter (λ (d : Document). not (text_eq d.id doc_id)) before.db.documents
  pub chunks :
      after.db.chunks ≡ filter (λ (c : Chunk). not (text_eq c.document_id doc_id)) before.db.chunks
  pub events :
      after.db.events
      ≡ filter (λ (e : IngestionEvent). not (text_eq e.document_id doc_id)) before.db.events
  pub index : after.index ≡ filter (λ (r : VectorRow). not (text_eq r.doc_id doc_id)) before.index
  pub files : after.files ≡ filter (λ f. not (text_eq f document.stored_filename)) before.files
  pub no_document : All (λ (d : Document). text_eq d.id doc_id ≡ false) after.db.documents
  pub no_chunks : All (λ (c : Chunk). text_eq c.document_id doc_id ≡ false) after.db.chunks
  pub no_events : All (λ (e : IngestionEvent). text_eq e.document_id doc_id ≡ false) after.db.events
  pub no_vectors : All (λ (r : VectorRow). text_eq r.doc_id doc_id ≡ false) after.index
  pub saved : after.persisted ≡ after.index
  pub no_corpus :
      All
        (λ (e : Text × Text).
          text_in e.0 (map (λ (c : Chunk). c.id) (list_by_document doc_id before.db)) ≡ false)
        after.corpus
  pub no_file : All (λ f. text_eq f document.stored_filename ≡ false) after.files

-- What `forget` changes is the corpus.
abbrev kept_corpus : List Text → List (Text × Text) → List (Text × Text)
kept_corpus [] m = m
kept_corpus (i ∷ ids) m = corpus_remove (i ∷ ids) m

abbrev calm : World → World
calm w = record w { faults = [] }

deleted :
    (doc_id : Text) (document : Document) (w : World)
    → get doc_id w.db ≡ some document
    → (delete doc_id w.db).0 ≡ true
unfolding delete
deleted doc_id document w found = rw found refl

-- The state behind a deletion in which no call raises.
abbrev swept : Text → Document → List Text → World → World
swept doc_id document ids w = record w {
  db = (delete doc_id w.db).1;
  index = index_delete doc_id w.index;
  persisted = index_delete doc_id w.index;
  corpus = kept_corpus ids w.corpus;
  files = filter (λ f. not (text_eq f document.stored_filename)) w.files;
  faults = [];
}

purge-swept :
    (doc_id : Text) (document : Document) (ids : List Text) (w : World) (b : Bool)
    → b ≡ true
    → purge b doc_id ids (record w {
      db = (delete doc_id w.db).1;
      files = filter (λ f. not (text_eq f document.stored_filename)) w.files;
      faults = [];
    })
      ≡ (ok true, swept doc_id document ids w)
unfolding act ◌>>=◌
purge-swept doc_id document [] w true e = refl
purge-swept doc_id document (i ∷ ids) w true e = refl
purge-swept doc_id document ids w false e = cc

kept_corpus-All :
    (ids : List Text) (m : List (Text × Text))
    → All (λ (e : Text × Text). text_in e.0 ids ≡ false) (kept_corpus ids m)
unfolding text_in corpus_remove
kept_corpus-All [] [] = tt
kept_corpus-All [] (e ∷ m) = (refl, kept_corpus-All [] m)
kept_corpus-All (i ∷ ids) m = All-filter (λ (e : Text × Text). text_in e.0 (i ∷ ids)) m

swept-IsForgotten :
    (doc_id : Text) (document : Document) (w : World)
    → IsForgotten doc_id document w
        (swept doc_id document (map (λ (c : Chunk). c.id) (list_by_document doc_id w.db)) w)
unfolding delete index_delete
swept-IsForgotten doc_id document w = record {
  documents = refl;
  chunks = refl;
  events = refl;
  index = refl;
  files = refl;
  no_document = All-filter (λ (d : Document). text_eq d.id doc_id) w.db.documents;
  no_chunks = All-filter (λ (c : Chunk). text_eq c.document_id doc_id) w.db.chunks;
  no_events = All-filter (λ (e : IngestionEvent). text_eq e.document_id doc_id) w.db.events;
  no_vectors = All-filter (λ (r : VectorRow). text_eq r.doc_id doc_id) w.index;
  saved = refl;
  no_corpus = kept_corpus-All _ w.corpus;
  no_file = All-filter (λ f. text_eq f document.stored_filename) w.files;
}

delete_document-swept :
    (doc_id : Text) (document : Document) (w : World)
    → get doc_id w.db ≡ some document
    → delete_document doc_id (calm w) ≡ (
      ok true,
      swept doc_id document (map (λ (c : Chunk). c.id) (list_by_document doc_id w.db)) (calm w),
    )
unfolding delete_document act ◌>>=◌
delete_document-swept doc_id document w found = rw found (
    purge-swept doc_id document _ (calm w) (delete doc_id w.db).0 (deleted doc_id document w found))

-- The deletion of a document that is there, in which no call raises, says that it deleted: no row,
-- chunk or event of the document is left, no vector in memory or on file, no chunk of it in the keyword
-- corpus, and no stored file; the rows, vectors and files of the others are as before.
pub delete_document-IsForgotten :
    (doc_id : Text) (document : Document) (w : World)
    → w.faults ≡ []
    → get doc_id w.db ≡ some document
    → ((delete_document doc_id w).0 ≡ ok true)
      × IsForgotten doc_id document w (delete_document doc_id w).1
delete_document-IsForgotten doc_id document w none_raise found =
    let run = delete_document-swept doc_id document w found in
    subst
      (λ fs.
        ((delete_document doc_id (record w { faults = fs })).0 ≡ ok true)
        × IsForgotten doc_id document (record w { faults = fs })
            (delete_document doc_id (record w { faults = fs })).1)
      (sym none_raise)
      (
        ap (λ (p : Result Bool × World). p.0) run,
        rw run (swept-IsForgotten doc_id document (calm w)),
      )
