-- ===== src/Vectors/Deleted.antt =====
-- The deletion of a document's vectors.
use docmesh.Prelude.{
  ℕ, ◌+◌, ◌≡◌, refl, sym, ap, subst, ◌∙◌, not, some, List, [], ◌∷◌, All, All-imp, map, filter,
  length, length-map, if◌then◌else◌, if_both, arith,
}
use docmesh.Text.{Text, text_eq}
use docmesh.Dict.{text_key, nat_key, pop}
use docmesh.Ingest.Exec.{Vector, VectorRow}
use docmesh.Ingest.Pipeline.{index_delete}
use docmesh.Vectors.Faiss.{Faiss, IsFaiss, id_in}
use docmesh.Vectors.Store.{FaissVectorStore, entry, vids_of, delete_by_document, remove_in, pop_all}
use docmesh.Vectors.Rows.{find_row, IsDistinct, owns, filter-IsDistinct, find_row_self}
use docmesh.Vectors.Dicts.{Maps, pop_all-Maps}
use docmesh.Vectors.Represents.{Represents}

-- The vectors of rows, without the documents that are dropped.
filter-entries :
    (doc_id : Text) (ids : List ℕ) (rows : List VectorRow)
    → All (λ (r : VectorRow). id_in r.vector_id ids ≡ text_eq r.doc_id doc_id) rows
    → filter (λ (e : ℕ × Vector). not (id_in e.0 ids)) (map entry rows)
      ≡ map entry (index_delete doc_id rows)
unfolding index_delete
filter-entries doc_id ids [] hs = refl
filter-entries doc_id ids (r ∷ rows) (h, hs) =
    rw (h, filter-entries doc_id ids rows hs)
      (if_both
        (λ l.
          (if not (text_eq r.doc_id doc_id)
            then entry r ∷ map entry (index_delete doc_id rows)
            else map entry (index_delete doc_id rows))
          ≡ map entry l)
        (not (text_eq r.doc_id doc_id)) (λ k. rw k refl) (λ k. rw k refl))

filter-all : (es : List (ℕ × Vector)) → filter (λ (e : ℕ × Vector). not (id_in e.0 [])) es ≡ es
unfolding id_in
filter-all [] = refl
filter-all (e ∷ es) = ap (λ l. e ∷ l) (filter-all es)

index_delete-IsDistinct :
    (doc_id : Text) (rows : List VectorRow)
    → IsDistinct rows
    → IsDistinct (index_delete doc_id rows)
unfolding index_delete
index_delete-IsDistinct doc_id rows d =
    filter-IsDistinct (λ r. not (text_eq r.doc_id doc_id)) rows d

module _ {I W : Type 0} (f : Faiss I W) (laws : IsFaiss f) where
  -- The ids of a document are those of its rows.
  ids_match :
      (st : FaissVectorStore I) (rows persisted : List VectorRow) (doc_id : Text)
      → Represents f laws st rows persisted
      → All
          (λ (r : VectorRow).
            id_in r.vector_id (vids_of doc_id st.vids_by_doc) ≡ text_eq r.doc_id doc_id)
          rows
  ids_match st rows persisted doc_id h =
      All-imp (λ (r : VectorRow). find_row r.vector_id rows ≡ some r)
        (λ (r : VectorRow).
          id_in r.vector_id (vids_of doc_id st.vids_by_doc) ≡ text_eq r.doc_id doc_id)
        (λ r found. h.maps.vids_eq doc_id r.vector_id ∙ ap (owns doc_id) found) rows
        (find_row_self rows h.distinct)

  dropped-Maps :
      (st : FaissVectorStore I) (rows persisted : List VectorRow) (doc_id : Text) (ids : List ℕ)
      → vids_of doc_id st.vids_by_doc ≡ ids
      → Represents f laws st rows persisted
      → Maps
          (index_delete doc_id rows)
          (pop_all ids st.chunk_by_vid)
          (pop_all ids st.doc_by_vid)
          (pop doc_id st.vids_by_doc)
  dropped-Maps st rows persisted doc_id ids e h =
      subst
        (λ l.
          Maps (index_delete doc_id rows) (pop_all l st.chunk_by_vid) (pop_all l st.doc_by_vid)
            (pop doc_id st.vids_by_doc))
        e (pop_all-Maps doc_id rows st.chunk_by_vid st.doc_by_vid st.vids_by_doc h.distinct h.maps)

  -- What FAISS holds without the ids of a document.
  dropped_entries :
      (st : FaissVectorStore I) (rows persisted : List VectorRow) (doc_id : Text) (ids : List ℕ)
      → vids_of doc_id st.vids_by_doc ≡ ids
      → Represents f laws st rows persisted
      → filter (λ (e : ℕ × Vector). not (id_in e.0 ids)) (map entry rows)
        ≡ map entry (index_delete doc_id rows)
  dropped_entries st rows persisted doc_id ids e h = filter-entries doc_id ids rows (
      subst (λ l. All (λ (r : VectorRow). id_in r.vector_id l ≡ text_eq r.doc_id doc_id) rows) e
        (ids_match st rows persisted doc_id h))

  delete_in :
      (st : FaissVectorStore I) (rows persisted : List VectorRow) (doc_id : Text) (ids : List ℕ)
      → vids_of doc_id st.vids_by_doc ≡ ids
      → Represents f laws st rows persisted
      → (n : ℕ) × (st' : FaissVectorStore I) × (remove_in f ids st.index
            (record st { vids_by_doc = pop doc_id st.vids_by_doc })
          ≡ some (n, st'))
        × (n + length (index_delete doc_id rows) ≡ length rows)
        × Represents f laws st' (index_delete doc_id rows) persisted
  unfolding pop_all
  delete_in st rows persisted doc_id [] none_yet h =
      let (i, found, held, dim) = h.index_eq in
      let same : map entry rows ≡ map entry (index_delete doc_id rows) =
        sym (filter-all (map entry rows))
        ∙ dropped_entries st rows persisted doc_id [] none_yet h in
      (
        0,
        record st { vids_by_doc = pop doc_id st.vids_by_doc },
        refl,
        omega (
          arith,
          ap length same,
          length-map entry rows,
          length-map entry (index_delete doc_id rows),
        ),
        record {
          index_eq = (i, found, held ∙ same, dim);
          maps = dropped-Maps st rows persisted doc_id [] none_yet h;
          distinct = index_delete-IsDistinct doc_id rows h.distinct;
          file_eq = h.file_eq;
          persisted_distinct = h.persisted_distinct;
        },
      )
  delete_in st rows persisted doc_id (j ∷ js) owned h =
      let (i, found, held, dim) = h.index_eq in
      let left : laws.contents (f.remove_ids (j ∷ js) i).1 ≡ map entry (index_delete doc_id rows) =
        laws.contents-remove (j ∷ js) i
        ∙ ap (filter (λ (e : ℕ × Vector). not (id_in e.0 (j ∷ js)))) held
        ∙ dropped_entries st rows persisted doc_id (j ∷ js) owned h in
      (
        (f.remove_ids (j ∷ js) i).0,
        record st {
          index = some (f.remove_ids (j ∷ js) i).1;
          chunk_by_vid = pop_all (j ∷ js) st.chunk_by_vid;
          doc_by_vid = pop_all (j ∷ js) st.doc_by_vid;
          vids_by_doc = pop doc_id st.vids_by_doc;
        },
        ap (λ o. remove_in f (j ∷ js) o (record st { vids_by_doc = pop doc_id st.vids_by_doc }))
            found,
        omega (
          arith,
          laws.removed (j ∷ js) i,
          ap length left,
          ap length held,
          length-map entry rows,
          length-map entry (index_delete doc_id rows),
        ),
        record {
          index_eq = ((f.remove_ids (j ∷ js) i).1, refl, left, laws.dim-remove (j ∷ js) i ∙ dim);
          maps = dropped-Maps st rows persisted doc_id (j ∷ js) owned h;
          distinct = index_delete-IsDistinct doc_id rows h.distinct;
          file_eq = h.file_eq;
          persisted_distinct = h.persisted_distinct;
        },
      )

  pub delete-Represents :
      (st : FaissVectorStore I) (rows persisted : List VectorRow) (doc_id : Text)
      → Represents f laws st rows persisted
      → (n : ℕ) × (st' : FaissVectorStore I) × (delete_by_document f doc_id st ≡ some (n, st'))
        × (n + length (index_delete doc_id rows) ≡ length rows)
        × Represents f laws st' (index_delete doc_id rows) persisted
  unfolding delete_by_document
  delete-Represents st rows persisted doc_id h =
      delete_in st rows persisted doc_id (vids_of doc_id st.vids_by_doc) refl h
