-- ===== src/Storage/Chunks.antt =====
-- backend/app/storage/sql/chunk_repo.py
use docmesh.Prelude.{
  ℕ, suc, not, ◌&&◌, Option, none, some, List, [], ◌∷◌, ◌++◌, map, filter, flat_map, leb, max,
  if◌then◌else◌,
}
use docmesh.Text.{Text, text_eq, text_in}
use docmesh.Storage.Schemas.{ChunkCreate, Chunk, Db}

abbrev pub new_chunk : ℕ → ChunkCreate → Chunk
new_chunk now item = record {
  id = item.id;
  document_id = item.document_id;
  chunk_index = item.chunk_index;
  text = item.text;
  token_count = item.token_count;
  page_start = item.page_start;
  page_end = item.page_end;
  section = item.section;
  char_start = item.char_start;
  char_end = item.char_end;
  content_hash = item.content_hash;
  vector_id = none;
  is_duplicate = item.is_duplicate;
  created_at = now;
}

-- `bulk_create`: the new rows, and the table with them.
unfoldable pub bulk_create : ℕ → List ChunkCreate → Db → List Chunk × Db
bulk_create now items db =
    let rows = map (new_chunk now) items in (rows, record db { chunks = db.chunks ++ rows })

unfoldable pub find_chunk : Text → List Chunk → Option Chunk
find_chunk i [] = none
find_chunk i (c ∷ cs) = if text_eq c.id i then some c else find_chunk i cs

abbrev pub option_list {ℓ} : {A : Type ℓ} → Option A → List A
option_list none = []
option_list (some a) = a ∷ []

-- `get_many`: in the order of the ids; an id that is not there is dropped.
unfoldable pub get_many : List Text → Db → List Chunk
unfolding find_chunk
get_many ids db = flat_map (λ i. option_list (find_chunk i db.chunks)) ids

-- ORDER BY chunk_index
unfoldable pub insert_chunk : Chunk → List Chunk → List Chunk
insert_chunk c [] = c ∷ []
insert_chunk c (d ∷ ds) =
    if leb c.chunk_index d.chunk_index then c ∷ d ∷ ds else d ∷ insert_chunk c ds

unfoldable pub by_index : List Chunk → List Chunk
unfolding insert_chunk
by_index [] = []
by_index (c ∷ cs) = insert_chunk c (by_index cs)

unfoldable pub list_by_document : Text → Db → List Chunk
unfolding by_index
list_by_document doc_id db =
    by_index (filter (λ (c : Chunk). text_eq c.document_id doc_id) db.chunks)

-- `max_vector_id() + 1`: the query gives -1 where no row has a vector id, so the number one above
-- it is a natural number.
abbrev pub above : Option ℕ → ℕ → ℕ
above none n = n
above (some v) n = max (suc v) n

unfoldable pub next_vector_id : List Chunk → ℕ
next_vector_id [] = 0
next_vector_id (c ∷ cs) = above c.vector_id (next_vector_id cs)

-- `mapping.get(c.id)`
unfoldable pub lookup_vid : Text → List (Text × ℕ) → Option ℕ
lookup_vid i [] = none
lookup_vid i ((j, v) ∷ m) = if text_eq j i then some v else lookup_vid i m

abbrev pub assign_one : Option ℕ → Chunk → Chunk
assign_one none c = c
assign_one (some v) c = record c { vector_id = some v }

-- `assign_vector_ids`
unfoldable pub assign_vector_ids : List (Text × ℕ) → Db → Db
unfolding lookup_vid
assign_vector_ids mapping db = record db {
  chunks = map (λ c. assign_one (lookup_vid c.id mapping) c) db.chunks;
}

-- `existing_content_hashes`: the given hashes that a row which is no duplicate has.
unfoldable pub existing_content_hashes : List Text → Db → List Text
unfolding text_in
existing_content_hashes hashes db =
    map (λ (c : Chunk). c.content_hash)
      (filter (λ (c : Chunk). text_in c.content_hash hashes && not c.is_duplicate) db.chunks)

unfoldable pub vector_ids_for_document : Text → Db → List ℕ
unfolding list_by_document
vector_ids_for_document doc_id db =
    flat_map (λ (c : Chunk). option_list c.vector_id) (list_by_document doc_id db)

unfoldable pub delete_by_document : Text → Db → Db
delete_by_document doc_id db = record db {
  chunks = filter (λ (c : Chunk). not (text_eq c.document_id doc_id)) db.chunks;
}
