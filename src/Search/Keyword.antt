-- ===== src/Search/Keyword.antt =====
-- `BM25Index` of backend/app/search/bm25.py. BM25Okapi and numpy are parameters; `none` is an
-- IndexError. The lock of the writers is left out: each operation is one step.
pub mod Found
use docmesh.Prelude.{
  ℕ, Option, none, some, List, [], ◌∷◌, map, length, min, get_elem?, cons_option, and_then,
  if◌then◌else◌,
}
use docmesh.Text.{Text, Unicode}
use docmesh.Dict.{Dict, text_key, put, pop}
use docmesh.Graph.{Scores}
use docmesh.Graph.Semantic.{NumPy, top_of}
use docmesh.Search.Highlights.{tokenize}

-- The constructor, and `get_scores`.
pub record Okapi (B W : Type 0) : Type 0 where
  pub fit : List (List Text) → B
  pub get_scores : List Text → B → List W

-- `_corpus`, and the two parts of `_state`.
pub record Bm25Index (B : Type 0) : Type 0 where
  pub corpus : Dict Text (List Text)
  pub bm25 : Option B
  pub ids : List Text

module _ {B W : Type 0} ⦃u : Unicode⦄ (okapi : Okapi B W) where
  -- The fit of the library is taken as total. The one of rank_bm25 divides by the number of the tokens,
  -- which is 0 where no chunk of the corpus has a token.
  abbrev pub fit_or_none : List (List Text) → Option B
  fit_or_none [] = none
  fit_or_none (d ∷ docs) = some (okapi.fit (d ∷ docs))

  -- `_swap`, with the corpus before it.
  unfoldable pub swap : Dict Text (List Text) → Bm25Index B
  swap corpus = record {
    corpus = corpus;
    bm25 = fit_or_none (map (λ (e : Text × List Text). e.1) corpus);
    ids = map (λ (e : Text × List Text). e.0) corpus;
  }

  abbrev pub empty_index : Bm25Index B
  empty_index = record { corpus = []; bm25 = none; ids = [] }

  unfoldable pub tokenize_items : List (Text × Text) → Dict Text (List Text) → Dict Text (List Text)
  unfolding put tokenize
  tokenize_items [] d = d
  tokenize_items ((chunk_id, text) ∷ items) d =
      tokenize_items items (put chunk_id (tokenize text) d)

  unfoldable pub update : Dict Text (List Text) → Dict Text (List Text) → Dict Text (List Text)
  unfolding put
  update [] corpus = corpus
  update ((chunk_id, tokens) ∷ d) corpus = update d (put chunk_id tokens corpus)

  unfoldable pub pop_chunks : List Text → Dict Text (List Text) → Dict Text (List Text)
  unfolding pop
  pop_chunks [] corpus = corpus
  pop_chunks (i ∷ is) corpus = pop_chunks is (pop i corpus)

  unfoldable pub rebuild : List (Text × Text) → Bm25Index B → Bm25Index B
  unfolding swap tokenize_items
  rebuild items index = swap (tokenize_items items [])

  unfoldable pub add_items : List (Text × Text) → Bm25Index B → Bm25Index B
  unfolding swap tokenize_items update
  add_items items index = swap (update (tokenize_items items []) index.corpus)

  unfoldable pub remove : List Text → Bm25Index B → Bm25Index B
  unfolding swap pop_chunks
  remove chunk_ids index = swap (pop_chunks chunk_ids index.corpus)

module _ {W : Type 0} ⦃s : Scores W⦄ where
  abbrev pub with_score : Option Text → W → Option (Text × W)
  with_score none w = none
  with_score (some i) w = some (i, w)

  abbrev pub keep_positive :
      Option Text → Option W → Option (List (Text × W)) → Option (List (Text × W))
  keep_positive i none rest = none
  keep_positive i (some w) rest =
      if s.lt s.nought w then cons_option (with_score i w) rest else rest

  unfoldable pub scored_at : List Text → List W → List ℕ → Option (List (Text × W))
  scored_at ids scores [] = some []
  scored_at ids scores (p ∷ ps) =
      keep_positive (get_elem? ids p) (get_elem? scores p) (scored_at ids scores ps)

  unfoldable pub best_of : NumPy W → List Text → List W → ℕ → Option (List (Text × W))
  unfolding top_of scored_at
  best_of np ids scores top_n =
      and_then (top_of np scores (min top_n (length ids))) (λ top. scored_at ids scores top)

module _ {B W : Type 0} ⦃s : Scores W⦄ where
  abbrev pub search_tokens :
      Okapi B W → NumPy W → List Text → ℕ → Option B → List Text → Option (List (Text × W))
  search_tokens okapi np query_tokens top_n none ids = some []
  search_tokens okapi np [] top_n (some b) ids = some []
  search_tokens okapi np (t ∷ tokens) top_n (some b) ids =
      best_of np ids (okapi.get_scores (t ∷ tokens) b) top_n

  unfoldable pub search :
      ⦃u : Unicode⦄ → Okapi B W → NumPy W → Text → ℕ → Bm25Index B → Option (List (Text × W))
  unfolding tokenize best_of
  search okapi np query top_n index =
      search_tokens okapi np (tokenize query) top_n index.bm25 index.ids
