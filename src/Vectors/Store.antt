-- ===== src/Vectors/Store.antt =====
-- `FaissVectorStore`, over what it calls of FAISS. `none` is an exception.
use docmesh.Prelude.{
  ℕ, ◌*◌, Bool, true, false, Option, none, some, List, [], ◌∷◌, ◌++◌, map, take, length, min, ◌==◌,
  if◌then◌else◌,
}
use docmesh.Text.{Text, text_in}
use docmesh.Dict.{Dict, nat_key, text_key, find, put, pop}
use docmesh.Ingest.Exec.{Vector, VectorRow}
use docmesh.Graph.Query.{VectorHit}
use docmesh.Vectors.Faiss.{Faiss, id_in}

-- `health`, without its constant and its path.
pub record Health : Type 0 where
  pub ntotal : ℕ
  pub dim : ℕ
  pub mapped : ℕ

-- `file` is what is read at the path of the index.
pub record FaissVectorStore (I : Type 0) : Type 0 where
  pub dim : ℕ
  pub file : Option I
  pub index : Option I
  pub chunk_by_vid : Dict ℕ Text
  pub doc_by_vid : Dict ℕ Text
  pub vids_by_doc : Dict Text (List ℕ)

-- `_vids_by_doc[doc_id]` of a `defaultdict(set)`.
abbrev pub ids_or_none : Option (List ℕ) → List ℕ
ids_or_none none = []
ids_or_none (some ids) = ids

unfoldable pub vids_of : Text → Dict Text (List ℕ) → List ℕ
unfolding find
vids_of doc_id d = ids_or_none (find doc_id d)

-- `set.add`
abbrev pub add_id : ℕ → List ℕ → List ℕ
add_id i ids = if id_in i ids then ids else ids ++ i ∷ []

abbrev pub entry : VectorRow → ℕ × Vector
entry r = (r.vector_id, r.vector)

unfoldable pub put_chunks : List VectorRow → Dict ℕ Text → Dict ℕ Text
unfolding put
put_chunks [] d = d
put_chunks (r ∷ rs) d = put_chunks rs (put r.vector_id r.chunk_id d)

unfoldable pub put_docs : List VectorRow → Dict ℕ Text → Dict ℕ Text
unfolding put
put_docs [] d = d
put_docs (r ∷ rs) d = put_docs rs (put r.vector_id r.doc_id d)

unfoldable pub put_vids : List VectorRow → Dict Text (List ℕ) → Dict Text (List ℕ)
unfolding put vids_of id_in
put_vids [] d = d
put_vids (r ∷ rs) d = put_vids rs (put r.doc_id (add_id r.vector_id (vids_of r.doc_id d)) d)

unfoldable pub pop_all : List ℕ → Dict ℕ Text → Dict ℕ Text
unfolding pop
pop_all [] d = d
pop_all (i ∷ is) d = pop_all is (pop i d)

-- A mapping as a row: its vector is not looked at.
abbrev pub mapped_row : ℕ × Text × Text → VectorRow
mapped_row (vid, chunk_id, doc_id) = record {
  vector_id = vid;
  chunk_id = chunk_id;
  doc_id = doc_id;
  vector = [];
}

module _ {I : Type 0} where
  unfoldable pub hydrate_maps : List (ℕ × Text × Text) → FaissVectorStore I → FaissVectorStore I
  unfolding put_chunks put_docs put_vids
  hydrate_maps mappings st =
      let rows = map mapped_row mappings in
      record st {
        chunk_by_vid = put_chunks rows [];
        doc_by_vid = put_docs rows [];
        vids_by_doc = put_vids rows [];
      }

-- `doc_id_set is None or self._doc_by_vid[int(vid)] in doc_id_set`
abbrev pub allows : Option (List Text) → Option Text → Option Bool
allows none doc = some true
allows (some ids) none = none
allows (some ids) (some doc) = some (text_in doc ids)

-- `4 if doc_ids is not None else 1`
abbrev pub overfetch : Option (List Text) → ℕ
overfetch none = 1
overfetch (some ids) = 4

module _ {W : Type 0} where
  abbrev pub keep_hit :
      Text → W → Option Bool → Option (List (VectorHit W)) → Option (List (VectorHit W))
  keep_hit chunk_id score none hits = none
  keep_hit chunk_id score (some false) hits = hits
  keep_hit chunk_id score (some true) none = none
  keep_hit chunk_id score (some true) (some hits) =
      some (record { chunk_id = chunk_id; score = score } ∷ hits)

  abbrev pub keep_result :
      Option (List Text)
      → W
      → Option Text
      → Option Text
      → Option (List (VectorHit W))
      → Option (List (VectorHit W))
  keep_result doc_ids score none doc hits = hits
  keep_result doc_ids score (some chunk_id) doc hits =
      keep_hit chunk_id score (allows doc_ids doc) hits

  abbrev pub first_hits : ℕ → Option (List (VectorHit W)) → Option (List (VectorHit W))
  first_hits top_k none = none
  first_hits top_k (some hits) = some (take top_k hits)

module _ {I W : Type 0} where
  unfoldable pub hits_of :
      Option (List Text) → FaissVectorStore I → List (W × Option ℕ) → Option (List (VectorHit W))
  unfolding find text_in
  hits_of doc_ids st [] = some []
  hits_of doc_ids st ((score, none) ∷ r) = hits_of doc_ids st r
  hits_of doc_ids st ((score, some vid) ∷ r) =
      keep_result doc_ids score (find vid st.chunk_by_vid) (find vid st.doc_by_vid)
        (hits_of doc_ids st r)

module _ {I W : Type 0} (f : Faiss I W) where
  -- `FaissVectorStore(path, dim)`
  unfoldable pub new_store : ℕ → Option I → FaissVectorStore I
  new_store dim file = record {
    dim = dim;
    file = file;
    index = none;
    chunk_by_vid = [];
    doc_by_vid = [];
    vids_by_doc = [];
  }

  abbrev pub read_index : ℕ → Option I → Option I
  read_index dim none = some (f.new_index dim)
  read_index dim (some i) = if f.dim_of i == dim then some i else none

  abbrev pub with_index : Option I → FaissVectorStore I → Option (FaissVectorStore I)
  with_index none st = none
  with_index (some i) st = some (record st { index = some i })

  unfoldable pub load : List (ℕ × Text × Text) → FaissVectorStore I → Option (FaissVectorStore I)
  unfolding hydrate_maps
  load mappings st = with_index (read_index st.dim st.file) (hydrate_maps mappings st)

  unfoldable pub reset : FaissVectorStore I → FaissVectorStore I
  reset st = record st {
    index = some (f.new_index st.dim);
    chunk_by_vid = [];
    doc_by_vid = [];
    vids_by_doc = [];
  }

  abbrev pub upsert_in :
      List VectorRow → Option I → FaissVectorStore I → Option (FaissVectorStore I)
  upsert_in rows none st = none
  upsert_in rows (some i) st = some (record st {
    index = some (f.add_with_ids (map entry rows) i);
    chunk_by_vid = put_chunks rows st.chunk_by_vid;
    doc_by_vid = put_docs rows st.doc_by_vid;
    vids_by_doc = put_vids rows st.vids_by_doc;
  })

  unfoldable pub upsert : List VectorRow → FaissVectorStore I → Option (FaissVectorStore I)
  unfolding put_chunks put_docs put_vids
  upsert [] st = some st
  upsert (r ∷ rs) st = upsert_in (r ∷ rs) st.index st

  -- The count of what is removed, with the new state. The ids of the document are popped first.
  abbrev pub remove_in : List ℕ → Option I → FaissVectorStore I → Option (ℕ × FaissVectorStore I)
  remove_in [] index st = some (0, st)
  remove_in (i ∷ is) none st = none
  remove_in (i ∷ is) (some index) st =
      let (removed, index') = f.remove_ids (i ∷ is) index in
      some (
        removed,
        record st {
          index = some index';
          chunk_by_vid = pop_all (i ∷ is) st.chunk_by_vid;
          doc_by_vid = pop_all (i ∷ is) st.doc_by_vid;
        },
      )

  unfoldable pub delete_by_document : Text → FaissVectorStore I → Option (ℕ × FaissVectorStore I)
  unfolding vids_of pop pop_all
  delete_by_document doc_id st =
      remove_in (vids_of doc_id st.vids_by_doc) st.index
        (record st { vids_by_doc = pop doc_id st.vids_by_doc })

  abbrev pub write_index : Option I → FaissVectorStore I → Option (FaissVectorStore I)
  write_index none st = none
  write_index (some i) st = some (record st { file = some i })

  unfoldable pub persist : FaissVectorStore I → Option (FaissVectorStore I)
  persist st = write_index st.index st

  abbrev pub total : Option I → ℕ
  total none = 0
  total (some i) = f.ntotal i

  unfoldable pub count : FaissVectorStore I → ℕ
  count st = total st.index

  abbrev pub query_in :
      Vector → ℕ → Option (List Text) → Option I → FaissVectorStore I → Option (List (VectorHit W))
  query_in vector top_k doc_ids none st = some []
  query_in vector top_k doc_ids (some i) st =
      if f.ntotal i == 0
      then some []
      else first_hits top_k
          (hits_of doc_ids st (f.search vector (min (f.ntotal i) (top_k * overfetch doc_ids)) i))

  unfoldable pub query :
      Vector → ℕ → Option (List Text) → FaissVectorStore I → Option (List (VectorHit W))
  unfolding hits_of
  query vector top_k doc_ids st = query_in vector top_k doc_ids st.index st

  abbrev pub reconstruct_in : List ℕ → Option I → List (Option Vector)
  reconstruct_in ids none = map (λ _. none) ids
  reconstruct_in ids (some i) = map (λ id. f.reconstruct id i) ids

  unfoldable pub reconstruct : List ℕ → FaissVectorStore I → List (Option Vector)
  reconstruct ids st = reconstruct_in ids st.index

  unfoldable pub health : FaissVectorStore I → Health
  unfolding count
  health st = record { ntotal = count st; dim = st.dim; mapped = length st.chunk_by_vid }
