-- ===== src/Tests/Hydrating.antt =====
-- Two documents, of whose chunks the store lacks one.
use docmesh.Prelude.{ℕ, ◌≡◌, refl, false, none, some, List, [], ◌∷◌, map}
use docmesh.Vectors.Faiss.{vector_of}
use docmesh.Text.{Text, codes, text_eq}
use docmesh.Dict.{Dict}
use docmesh.Storage.{Db, Document, Chunk, empty_db}
use docmesh.Vectors.Store.{FaissVectorStore, entry}
use docmesh.Graph.Hydrate.{build_doc_vectors}
use docmesh.Tests.Samples.{ascii, hundredths}
use docmesh.Tests.Storing.{Flat, flat, rows}
use docmesh.Tests.Graphing.{doc}

abbrev chunk : ℕ → Text → Text → Chunk
chunk i c d = record {
  id = c;
  document_id = d;
  chunk_index = i;
  text = c;
  token_count = 1;
  page_start = none;
  page_end = none;
  section = none;
  char_start = 0;
  char_end = 1;
  content_hash = c;
  vector_id = some i;
  is_duplicate = false;
  created_at = 1;
}

abbrev docs : List Document
docs = doc (codes "a") ∷ doc (codes "b") ∷ []

-- The store has no vector 4.
abbrev db : Db
db = record empty_db {
  documents = docs;
  chunks =
      chunk 1 (codes "c1") (codes "a")
      ∷ chunk 2 (codes "c2") (codes "a")
      ∷ chunk 3 (codes "c3") (codes "b")
      ∷ chunk 4 (codes "c4") (codes "b")
      ∷ [];
}

abbrev store : FaissVectorStore Flat
store = record {
  dim = 1;
  file = none;
  index = some (1, map entry rows);
  chunk_by_vid = [];
  doc_by_vid = [];
  vids_by_doc = [];
}

three_vectors :
    build_doc_vectors flat store db docs
    ≡ some (
        record {
          doc_id = codes "a";
          chunk_ids = codes "c1" ∷ codes "c2" ∷ [];
          matrix = (1 ∷ []) ∷ (2 ∷ []) ∷ [];
        }
        ∷ record { doc_id = codes "b"; chunk_ids = codes "c3" ∷ []; matrix = (3 ∷ []) ∷ [] }
        ∷ [])
unfolding build_doc_vectors text_eq vector_of
three_vectors = refl
