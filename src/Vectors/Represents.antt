-- ===== src/Vectors/Represents.antt =====
-- The state of the store, and the rows and the file that it stands for.
use docmesh.Prelude.{
  ℕ, ◌≡◌, refl, sym, ap, subst, ◌∙◌, true, Option, none, some, List, [], ◌∷◌, ◌++◌, append-nil, map,
  ◌==◌, arith,
}
use docmesh.Text.{Text}
use docmesh.Dict.{Dict, text_key, nat_key}
use docmesh.Ingest.Exec.{VectorRow}
use docmesh.Vectors.Faiss.{Faiss, IsFaiss}
use docmesh.Vectors.Store.{
  FaissVectorStore, entry, new_store, load, reset, upsert, persist, hydrate_maps, upsert_in,
  write_index, read_index, with_index, mapped_row, put_chunks, put_docs, put_vids,
}
use docmesh.Vectors.Rows.{
  IsDistinct, IsFresh, append-IsDistinct, bare, mapping, chunk_of-bare, doc_of-bare, owns-bare,
  bare-IsDistinct, distinct-IsFresh,
}
use docmesh.Vectors.Dicts.{Maps, empty-Maps, put_all-Maps}

map-append : (rows rs : List VectorRow) → map entry (rows ++ rs) ≡ map entry rows ++ map entry rs
map-append [] rs = refl
map-append (r ∷ rows) rs = ap (λ l. entry r ∷ l) (map-append rows rs)

bare-Maps :
    (rows : List VectorRow) (chunks docs : Dict ℕ Text) (vids : Dict Text (List ℕ))
    → Maps (map bare rows) chunks docs vids
    → Maps rows chunks docs vids
bare-Maps rows chunks docs vids m = record {
  chunks_eq = λ v. m.chunks_eq v ∙ chunk_of-bare v rows;
  docs_eq = λ v. m.docs_eq v ∙ doc_of-bare v rows;
  vids_eq = λ doc_id v. m.vids_eq doc_id v ∙ owns-bare doc_id v rows;
}

mapped_rows : (rows : List VectorRow) → map mapped_row (map mapping rows) ≡ map bare rows
mapped_rows [] = refl
mapped_rows (r ∷ rows) = ap (λ l. bare r ∷ l) (mapped_rows rows)

module _ {I W : Type 0} (f : Faiss I W) (laws : IsFaiss f) where
  -- The file holds the vectors of the rows that were persisted; without a file, there are none.
  abbrev pub IsFile : ℕ → Option I → List VectorRow → Type 0
  IsFile dim none rows = rows ≡ []
  IsFile dim (some i) rows = (laws.contents i ≡ map entry rows) × (f.dim_of i ≡ dim)

  pub record Represents (st : FaissVectorStore I) (rows persisted : List VectorRow) : Type 0 where
    pub index_eq :
        (i : I) × (st.index ≡ some i) × (laws.contents i ≡ map entry rows) × (f.dim_of i ≡ st.dim)
    pub maps : Maps rows st.chunk_by_vid st.doc_by_vid st.vids_by_doc
    pub distinct : IsDistinct rows
    pub file_eq : IsFile st.dim st.file persisted
    pub persisted_distinct : IsDistinct persisted

  pub reset-Represents :
      (st : FaissVectorStore I) (rows persisted : List VectorRow)
      → Represents st rows persisted
      → Represents (reset f st) [] persisted
  unfolding reset
  reset-Represents st rows persisted h = record {
    index_eq = (f.new_index st.dim, refl, laws.contents-new st.dim, laws.dim-new st.dim);
    maps = empty-Maps;
    distinct = tt;
    file_eq = h.file_eq;
    persisted_distinct = h.persisted_distinct;
  }

  pub upsert-Represents :
      (st : FaissVectorStore I) (rows persisted rs : List VectorRow)
      → IsFresh rows rs
      → Represents st rows persisted
      → (st' : FaissVectorStore I) × (upsert f rs st ≡ some st')
        × Represents st' (rows ++ rs) persisted
  unfolding upsert
  upsert-Represents st rows persisted [] fresh h = (st, refl, rw (append-nil rows) h)
  upsert-Represents st rows persisted (r ∷ rs) fresh h =
      let (i, found, held, dim) = h.index_eq in
      (
        _,
        ap (λ o. upsert_in f (r ∷ rs) o st) found,
        record {
          index_eq = (
            f.add_with_ids (map entry (r ∷ rs)) i,
            refl,
            laws.contents-add (map entry (r ∷ rs)) i ∙ rw held (sym (map-append rows (r ∷ rs))),
            laws.dim-add (map entry (r ∷ rs)) i ∙ dim,
          );
          maps =
              put_all-Maps rows (r ∷ rs) st.chunk_by_vid st.doc_by_vid st.vids_by_doc fresh h.maps;
          distinct = append-IsDistinct rows (r ∷ rs) h.distinct fresh;
          file_eq = h.file_eq;
          persisted_distinct = h.persisted_distinct;
        },
      )

  pub persist-Represents :
      (st : FaissVectorStore I) (rows persisted : List VectorRow)
      → Represents st rows persisted
      → (st' : FaissVectorStore I) × (persist f st ≡ some st') × Represents st' rows rows
  unfolding persist
  persist-Represents st rows persisted h =
      let (i, found, held, dim) = h.index_eq in
      (
        record st { file = some i },
        ap (λ o. write_index f o st) found,
        record {
          index_eq = (i, found, held, dim);
          maps = h.maps;
          distinct = h.distinct;
          file_eq = (held, dim);
          persisted_distinct = h.distinct;
        },
      )

  read_file :
      (dim : ℕ) (file : Option I) (persisted : List VectorRow)
      → IsFile dim file persisted
      → (i : I) × (read_index f dim file ≡ some i)
        × (laws.contents i ≡ map entry persisted)
        × (f.dim_of i ≡ dim)
  read_file dim none persisted h =
      (f.new_index dim, refl, laws.contents-new dim ∙ rw h refl, laws.dim-new dim)
  read_file dim (some i) persisted (held, same) =
      let fits : (f.dim_of i == dim) ≡ true = ground arith in (i, rw fits refl, held, same)

  -- A store that is made anew reads what was persisted.
  pub load-Represents :
      (dim : ℕ) (file : Option I) (persisted : List VectorRow)
      → IsFile dim file persisted
      → IsDistinct persisted
      → (st' : FaissVectorStore I) × (load f (map mapping persisted) (new_store f dim file)
          ≡ some st')
        × Represents st' persisted persisted
  unfolding load new_store
  load-Represents dim file persisted h distinct =
      let (i, found, held, same) = read_file dim file persisted h in
      (
        _,
        ap (λ o. with_index f o (hydrate_maps (map mapping persisted) (new_store f dim file)))
            found,
        record {
          index_eq = (i, refl, held, same);
          maps =
              subst (λ l. Maps persisted (put_chunks l []) (put_docs l []) (put_vids l []))
                (sym (mapped_rows persisted))
                (bare-Maps persisted (put_chunks (map bare persisted) [])
                  (put_docs (map bare persisted) []) (put_vids (map bare persisted) [])
                  (put_all-Maps [] (map bare persisted) [] [] []
                    (distinct-IsFresh [] (map bare persisted) (bare-IsDistinct persisted distinct))
                    empty-Maps));
          distinct = distinct;
          file_eq = h;
          persisted_distinct = distinct;
        },
      )
