-- ===== src/Search/Service.antt =====
-- `SearchService` of backend/app/services/search_service.py, and `rerank` of
-- backend/app/search/reranker.py. Timings are left out.
pub mod Known
pub mod Sentences
pub mod Hits
use docmesh.Prelude.{
  ℕ, suc, Bool, not, ◌&&◌, ◌||◌, Option, none, some, List, [], ◌∷◌, map, take, slice, if◌then◌else◌,
}
use docmesh.Text.{Text, Unicode, Span, text_eq, codes}
use docmesh.Chunker.Sentences.{split_sentences}
use docmesh.Storage.{Db, Document, Chunk, find_chunk, get as get_document, get_many}
use docmesh.Graph.{Scores}
use docmesh.Graph.Order.{text_lt}
use docmesh.Search.Schemas.{
  SearchHit, SearchRequest, RankedItem, SearchDebug, SearchResponse, SearchSettings,
}
use docmesh.Search.Highlights.{term_highlights, best_sentence_by_terms}
use docmesh.Search.Fusion.{FusedHit, rrf_fuse}

-- What the service calls: the ranking of the vectors by a query, the ranking of the keyword index,
-- the score of the cross-encoder for a query and a text, the cosine of a query and a sentence, the
-- matches of a term in a text, and the float of an integer.
pub record Retrieval (W : Type 0) : Type 0 where
  pub query_vectors : Text → ℕ → List (Text × W)
  pub search_keywords : Text → ℕ → List (Text × W)
  pub predict : Text → Text → W
  pub cosine : Text → Text → W
  pub find_term : Text → Text → List Span
  pub of_nat : ℕ → W

-- `x if x is not None else y`
abbrev pub or_setting {ℓ} : {A : Type ℓ} → Option A → A → A
or_setting none a = a
or_setting (some b) a = b

module _ {W : Type 0} where
  unfoldable pub ranked_from : ℕ → List (Text × W) → List (RankedItem W)
  ranked_from rank [] = []
  ranked_from rank ((i, score) ∷ r) =
      record { rank = rank; chunk_id = i; score = score } ∷ ranked_from (suc rank) r

  -- `fused_by_id[i]`, of fused hits with distinct ids.
  unfoldable pub find_fused : Text → List (FusedHit W) → Option (FusedHit W)
  unfolding text_eq
  find_fused i [] = none
  find_fused i (f ∷ fs) =
      let rest = find_fused i fs in if text_eq f.chunk_id i then some f else rest

module _ {W : Type 0} ⦃s : Scores W⦄ where
  -- `(-pair[1], pair[0])`
  unfoldable pub ranks_before : Text × W → Text × W → Bool
  unfolding text_lt
  ranks_before (i, x) (j, y) = s.lt y x || (not (s.lt x y) && text_lt i j)

  unfoldable pub insert_scored : Text × W → List (Text × W) → List (Text × W)
  unfolding ranks_before
  insert_scored a [] = a ∷ []
  insert_scored a (b ∷ r) =
      let rest = insert_scored a r in if ranks_before b a then b ∷ rest else a ∷ b ∷ r

  unfoldable pub sort_scored : List (Text × W) → List (Text × W)
  unfolding insert_scored
  sort_scored [] = []
  sort_scored (a ∷ r) = insert_scored a (sort_scored r)

  unfoldable pub rerank : (Text → Text → W) → Text → List (Text × Text) → ℕ → List (Text × W)
  unfolding sort_scored
  rerank predict query candidates top_n =
      take top_n
        (sort_scored (map (λ ((i, text) : Text × Text). (i, predict query text)) candidates))

  -- The loop over the sentences of one hit, with the best so far: `score > best[chunk_id][0]`.
  unfoldable pub best_cosine : (Text → W) → Text → Option (W × Span) → List Span → Option (W × Span)
  best_cosine cosine text best [] = best
  best_cosine cosine text best ((b, e) ∷ spans) =
      let x = cosine (slice text b e) in
      let taken = best_cosine cosine text (some (x, (b, e))) spans in
      let passed = best_cosine cosine text best spans in
      elim best [ none ↦ taken | some (y, span) ↦ if s.lt y x then taken else passed ]

abbrev pub first_span : List Span → Option Span
first_span [] = none
first_span (a ∷ r) = some a

abbrev pub scored_span : {W : Type 0} → Option (W × Span) → Option Span
scored_span none = none
scored_span (some (x, span)) = some span

abbrev pub filename_of : Option Document → Text
filename_of none = codes "(deleted)"
filename_of (some doc) = doc.original_filename

module _ {W : Type 0} ⦃s : Scores W⦄ ⦃u : Unicode⦄ (cfg : SearchSettings W)
    (calls : Retrieval W) where
  unfoldable pub hit_of : Text → Text → ℕ → W → FusedHit W → Chunk → Text → SearchHit W
  unfolding term_highlights best_sentence_by_terms
  hit_of query i rank score fused chunk filename = record {
    rank = rank;
    chunk_id = i;
    document_id = chunk.document_id;
    filename = filename;
    text = chunk.text;
    page_start = chunk.page_start;
    page_end = chunk.page_end;
    section = chunk.section;
    dense_score = fused.dense_score;
    bm25_score = fused.bm25_score;
    fused_score = fused.fused_score;
    rerank_score = score;
    term_highlights = term_highlights calls.find_term query chunk.text;
    best_sentence = best_sentence_by_terms query chunk.text;
  }

  -- The dictionaries raise for an id that they do not have.
  abbrev pub hit_for :
      Text → Db → Text → ℕ → W → Option Chunk → Option (FusedHit W) → Option (SearchHit W)
  hit_for query db i rank score none f = none
  hit_for query db i rank score (some chunk) none = none
  hit_for query db i rank score (some chunk) (some f) =
      some (hit_of query i rank score f chunk (filename_of (get_document chunk.document_id db)))

  abbrev pub add_hit :
      Option (SearchHit W) → Option (List (SearchHit W)) → Option (List (SearchHit W))
  add_hit none hits = none
  add_hit (some hit) none = none
  add_hit (some hit) (some hits) = some (hit ∷ hits)

  unfoldable pub hits_from :
      Text → List (FusedHit W) → List Chunk → Db → ℕ → List (Text × W) → Option (List (SearchHit W))
  unfolding find_fused find_chunk get_document hit_of
  hits_from query fused chunks db rank [] = some []
  hits_from query fused chunks db rank ((i, score) ∷ r) =
      add_hit (hit_for query db i rank score (find_chunk i chunks) (find_fused i fused))
        (hits_from query fused chunks db (suc rank) r)

  -- `_fill_semantic_sentences`, of one hit that has no best sentence.
  unfoldable pub semantic_sentence : Text → Text → Option Span
  unfolding best_cosine split_sentences
  semantic_sentence query text =
      if cfg.semantic_highlights
      then scored_span (best_cosine (calls.cosine query) text none (split_sentences text))
      else first_span (split_sentences text)

  abbrev pub filled : SearchHit W → Option Span → Option Span → SearchHit W
  filled hit none span = record hit { best_sentence = span }
  filled hit (some b) span = hit

  unfoldable pub fill_sentence : Text → SearchHit W → SearchHit W
  unfolding semantic_sentence
  fill_sentence query hit = filled hit hit.best_sentence (semantic_sentence query hit.text)

  abbrev pub debug_of : SearchRequest W → List (Text × W) → List (Text × W) → Option (SearchDebug W)
  debug_of req dense sparse =
      if req.debug
      then some
          (record { dense_ranking = ranked_from 1 dense; bm25_ranking = ranked_from 1 sparse })
      else none

  abbrev pub fill_all : Text → Option (List (SearchHit W)) → Option (List (SearchHit W))
  fill_all query none = none
  fill_all query (some hits) = some (map (fill_sentence query) hits)

  abbrev pub response :
      Text → Option (SearchDebug W) → Option (List (SearchHit W)) → Option (SearchResponse W)
  response query debug none = none
  response query debug (some hits) = some (record { query = query; hits = hits; debug = debug })

  -- What follows the fusion. The chunks are read from one state of the tables, the documents from a
  -- later one.
  unfoldable pub hydrate : Text → ℕ → List (FusedHit W) → Db → Db → Option (List (SearchHit W))
  unfolding get_many rerank hits_from fill_sentence
  hydrate query top_k [] db later = some []
  hydrate query top_k (f ∷ fs) db later =
      let chunks = get_many (map (λ (h : FusedHit W). h.chunk_id) (f ∷ fs)) db in
      let candidates = map (λ (c : Chunk). (c.id, c.text)) chunks in
      fill_all query
        (hits_from query (f ∷ fs) chunks later 1 (rerank calls.predict query candidates top_k))

  unfoldable pub search : SearchRequest W → Db → Db → Option (SearchResponse W)
  unfolding rrf_fuse hydrate ranked_from
  search req db later =
      let k = or_setting req.rrf_k cfg.rrf_k in
      let weight = or_setting req.dense_weight cfg.dense_weight in
      let top_k = or_setting req.top_k cfg.return_n in
      let dense = calls.query_vectors req.query cfg.retrieve_n in
      let sparse = calls.search_keywords req.query cfg.retrieve_n in
      let fused = take cfg.retrieve_n (rrf_fuse calls.of_nat dense sparse k weight) in
      response req.query (debug_of req dense sparse) (hydrate req.query top_k fused db later)
