-- ===== src/Tests/Searching.antt =====
-- Two rankings that share a chunk, and a query with two terms.
use docmesh.Prelude.{
  ℕ, ◌*◌, ◌≤◌, ◌≡◌, ◌⊎◌, refl, true, if_both, ◌||◌, some, none, Option, map, take, false, List, [],
  ◌∷◌, All, length, arith, if◌then◌else◌,
}
use docmesh.Text.{Text, Span, codes, text_eq}
use docmesh.Search.Fusion.{FusedHit, is_present, rrf_fuse}
use docmesh.Search.Fusion.Ranks.{one_if, occurrences, best_rank}
use docmesh.Search.Fusion.Once.{ids, hit_at, InOrder, rrf_fuse-InOrder}
use docmesh.Search.Highlights.{term_highlights, best_sentence_by_terms}
use docmesh.Search.Highlights.Merged.{IsSpan, Separated, covers, matches, term_highlights-Separated}
use docmesh.Search.{SearchHit, SearchRequest, SearchDebug, SearchResponse, SearchSettings}
use docmesh.Search.Service.{Retrieval, search}
use docmesh.Search.Service.Hits.{Answers, search-Answers}
use docmesh.Storage.{Db, Chunk, empty_db}
use docmesh.Tests.Samples.{ascii, hundredths}

abbrev dense : List (Text × ℕ)
dense = (codes "a", 90) ∷ (codes "b", 80) ∷ (codes "a", 70) ∷ []

abbrev sparse : List (Text × ℕ)
sparse = (codes "c", 4) ∷ (codes "b", 3) ∷ []

fused_ids : ids (rrf_fuse (λ n. n * 100) dense sparse 1 50) ≡ codes "b" ∷ codes "a" ∷ codes "c" ∷ []
unfolding rrf_fuse
fused_ids = refl

rrf_fuse-InOrder_example :
    ((i : Text)
      → occurrences i (ids (rrf_fuse (λ n. n * 100) dense sparse 1 50))
        ≡ one_if (is_present (best_rank 1 i dense) || is_present (best_rank 1 i sparse)))
    × All
        (λ (h : FusedHit ℕ). h ≡ hit_at (λ n. n * 100) dense sparse 1 50 h.chunk_id)
        (rrf_fuse (λ n. n * 100) dense sparse 1 50)
    × InOrder (rrf_fuse (λ n. n * 100) dense sparse 1 50)
rrf_fuse-InOrder_example = rrf_fuse-InOrder (λ n. n * 100) dense sparse 1 50 (λ x y h. ground arith)

-- Where the terms of the query stand in the text.
abbrev text : Text
text = codes "Big cats purr. Dogs bark."

abbrev find_term : Text → Text → List Span
find_term t s =
    if text_eq t (codes "cats")
    then (4, 8) ∷ []
    else (if text_eq t (codes "purr") then (9, 13) ∷ [] else [])

find_term-IsSpan : (t s : Text) → All IsSpan (find_term t s)
find_term-IsSpan t s =
    if_both (All IsSpan) (text_eq t (codes "cats")) (λ _. (omega arith, tt))
      (λ _. if_both (All IsSpan) (text_eq t (codes "purr")) (λ _. (omega arith, tt)) (λ _. tt))

found : term_highlights find_term (codes "purr, cats") text ≡ (4, 8) ∷ (9, 13) ∷ []
unfolding term_highlights
found = refl

best : best_sentence_by_terms (codes "purr, cats") text ≡ some (0, 14)
unfolding best_sentence_by_terms
best = refl

term_highlights-Separated_example :
    Separated 0 (term_highlights find_term (codes "purr, cats") text)
    × (length (term_highlights find_term (codes "purr, cats") text) ≤ 20)
    × ((i : ℕ)
        → covers i (term_highlights find_term (codes "purr, cats") text) ≡ true
        → covers i (matches find_term (codes "purr, cats") text) ≡ true)
    × ((length (term_highlights find_term (codes "purr, cats") text) ≡ 20)
        ⊎ ((i : ℕ)
            → covers i (term_highlights find_term (codes "purr, cats") text)
              ≡ covers i (matches find_term (codes "purr, cats") text)))
term_highlights-Separated_example =
    term_highlights-Separated find_term find_term-IsSpan (codes "purr, cats") text

abbrev chunk : Text → Text → Chunk
chunk i body = record {
  id = i;
  document_id = codes "d";
  chunk_index = 0;
  text = body;
  token_count = 1;
  page_start = none;
  page_end = none;
  section = none;
  char_start = 0;
  char_end = 0;
  content_hash = [];
  vector_id = some 0;
  is_duplicate = false;
  created_at = 1;
}

-- The third chunk that is ranked is not there any more.
abbrev db : Db
db = record empty_db {
  chunks = chunk (codes "a") text ∷ chunk (codes "b") (codes "Owls hoot.") ∷ [];
}

abbrev calls : Retrieval ℕ
calls = record {
  query_vectors = λ query n. dense;
  search_keywords = λ query n. sparse;
  predict = λ query body. length body;
  cosine = λ query sentence. length sentence;
  find_term = find_term;
  of_nat = λ n. n * 100;
}

abbrev cfg : SearchSettings ℕ
cfg = record {
  rrf_k = 1;
  dense_weight = 50;
  retrieve_n = 30;
  return_n = 10;
  semantic_highlights = true;
}

abbrev req : SearchRequest ℕ
req = record {
  query = codes "purr";
  top_k = none;
  dense_weight = none;
  rrf_k = none;
  debug = false;
}

abbrev hits_of : Option (SearchResponse ℕ) → List (Text × Option Span)
hits_of none = []
hits_of (some res) = map (λ (h : SearchHit ℕ). (h.chunk_id, h.best_sentence)) res.hits

two_hits :
    hits_of (search cfg calls req db db)
    ≡ (codes "a", some (0, 14)) ∷ (codes "b", some (0, 10)) ∷ []
unfolding search
two_hits = refl

search-Answers_example :
    (hits : List (SearchHit ℕ)) × (debug : Option (SearchDebug ℕ)) × (search cfg calls req db db
      ≡ some (record { query = codes "purr"; hits = hits; debug = debug }))
    × Answers cfg calls
        (codes "purr")
        10
        (take 30 (rrf_fuse (λ n. n * 100) dense sparse 1 50))
        db.chunks
        hits
search-Answers_example = search-Answers cfg calls req db db
