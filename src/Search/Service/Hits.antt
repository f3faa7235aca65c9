-- ===== src/Search/Service/Hits.antt =====
-- What a search answers.
use docmesh.Prelude.{
  ℕ, suc, ◌≤◌, ◌≡◌, refl, sym, ap, ◌∙◌, Option, none, some, List, [], ◌∷◌, All, All-imp, map,
  length, length-map, take, arith,
}
use docmesh.Text.{Text, Unicode, Span}
use docmesh.Chunker.Sentences.{split_sentences}
use docmesh.Storage.{Db, Chunk, find_chunk, get as get_document, get_many}
use docmesh.Graph.{Scores}
use docmesh.Search.Schemas.{SearchHit, SearchRequest, SearchDebug, SearchSettings}
use docmesh.Search.Highlights.{term_highlights}
use docmesh.Search.Fusion.{FusedHit, rrf_fuse}
use docmesh.Search.Service.{
  Retrieval, or_setting, find_fused, rerank, hit_of, hits_from, semantic_sentence, filled,
  fill_sentence, hydrate, search, filename_of, debug_of,
}
use docmesh.Search.Service.Sentences.{sentence-none}
use docmesh.Search.Service.Known.{
  IsRow, InFusion, get_many-All, IsRow-self, ids-InFusion, rerank-All, length-rerank,
}

module _ {W : Type 0} where
  -- The hits count up.
  abbrev pub Numbered : ℕ → List (SearchHit W) → Type 0
  Numbered n [] = Unit
  Numbered n (hit ∷ hits) = (hit.rank ≡ n) × Numbered (suc n) hits

  -- The hit without its best sentence shows a chunk of the rows, with the highlights of its text, and
  -- the scores of its fusion.
  abbrev pub Shows :
      ⦃u : Unicode⦄
      → (Text → Text → List Span)
      → Text
      → List (FusedHit W)
      → List Chunk
      → SearchHit W
      → Type 0
  Shows find_term query fused rows hit =
      ((c : Chunk) × (find_chunk hit.chunk_id rows ≡ some c)
        × (hit.text ≡ c.text)
        × (hit.document_id ≡ c.document_id)
        × (hit.term_highlights ≡ term_highlights find_term query c.text))
      × ((f : FusedHit W) × (find_fused hit.chunk_id fused ≡ some f)
          × (hit.fused_score ≡ f.fused_score)
          × (hit.dense_score ≡ f.dense_score)
          × (hit.bm25_score ≡ f.bm25_score))

  -- A hit lacks a best sentence only if its text has no sentence.
  abbrev pub HasSentence : ⦃u : Unicode⦄ → SearchHit W → Type 0
  HasSentence hit = hit.best_sentence ≡ none → split_sentences hit.text ≡ []

  abbrev Known : List (FusedHit W) → List Chunk → List Chunk → Text → Type 0
  Known fused chunks rows i =
      ((c : Chunk) × (find_chunk i chunks ≡ some c) × (find_chunk i rows ≡ some c))
      × InFusion fused i

module _ {W : Type 0} ⦃s : Scores W⦄ ⦃u : Unicode⦄ (cfg : SearchSettings W)
    (calls : Retrieval W) where
  hits_from-Shows :
      (query : Text) (fused : List (FusedHit W)) (chunks : List Chunk) (rows : List Chunk) (db : Db)
      (rank : ℕ) (r : List (Text × W))
      → All (λ (p : Text × W). Known fused chunks rows p.0) r
      → (hits : List (SearchHit W)) × (hits_from cfg calls query fused chunks db rank r ≡ some hits)
        × (length hits ≡ length r)
        × Numbered rank hits
        × All (Shows calls.find_term query fused rows) hits
  unfolding hits_from hit_of
  hits_from-Shows query fused chunks rows db rank [] ks = ([], refl, refl, tt, tt)
  hits_from-Shows query fused chunks rows db rank ((i, score) ∷ r)
        (((c, in_chunks, in_rows), (f, in_fused)), ks) =
      let (hits, eq, len, numbered, shown) =
        hits_from-Shows query fused chunks rows db (suc rank) r ks in
      (
        hit_of cfg calls query i rank score f c (filename_of (get_document c.document_id db))
            ∷ hits,
        rw (in_chunks, in_fused, eq) refl,
        ap suc len,
        (refl, numbered),
        (((c, in_rows, refl, refl, refl), (f, in_fused, refl, refl, refl)), shown),
      )

  semantic_sentence-none :
      (query text : Text)
      → semantic_sentence cfg calls query text ≡ none
      → split_sentences text ≡ []
  unfolding semantic_sentence
  semantic_sentence-none query text h =
      sentence-none cfg.semantic_highlights (calls.cosine query) text (split_sentences text) h

  filled-Shows :
      (query : Text) (fused : List (FusedHit W)) (rows : List Chunk) (hit : SearchHit W)
      (b span : Option Span)
      → Shows calls.find_term query fused rows hit
      → Shows calls.find_term query fused rows (filled cfg calls hit b span)
  filled-Shows query fused rows hit none span h = h
  filled-Shows query fused rows hit (some b) span h = h

  filled-rank :
      (hit : SearchHit W) (b span : Option Span) → (filled cfg calls hit b span).rank ≡ hit.rank
  filled-rank hit none span = refl
  filled-rank hit (some b) span = refl

  filled-HasSentence :
      (query : Text) (hit : SearchHit W) (b : Option Span)
      → hit.best_sentence ≡ b
      → HasSentence (filled cfg calls hit b (semantic_sentence cfg calls query hit.text))
  filled-HasSentence query hit none h k = semantic_sentence-none query hit.text k
  filled-HasSentence query hit (some b) h k = let bad : some b ≡ none = sym h ∙ k in absurd cc

  fill-Numbered :
      (query : Text) (n : ℕ) (hits : List (SearchHit W))
      → Numbered n hits
      → Numbered n (map (fill_sentence cfg calls query) hits)
  unfolding fill_sentence
  fill-Numbered query n [] h = tt
  fill-Numbered query n (hit ∷ hits) (h, hs) = (
    filled-rank hit hit.best_sentence (semantic_sentence cfg calls query hit.text) ∙ h,
    fill-Numbered query (suc n) hits hs,
  )

  -- A hit that is shown whole.
  abbrev pub IsShown : Text → List (FusedHit W) → List Chunk → SearchHit W → Type 0
  IsShown query fused rows hit = Shows calls.find_term query fused rows hit × HasSentence hit

  fill-IsShown :
      (query : Text) (fused : List (FusedHit W)) (rows : List Chunk) (hits : List (SearchHit W))
      → All (Shows calls.find_term query fused rows) hits
      → All (IsShown query fused rows) (map (fill_sentence cfg calls query) hits)
  unfolding fill_sentence
  fill-IsShown query fused rows [] hs = tt
  fill-IsShown query fused rows (hit ∷ hits) (h, hs) = (
    (
      filled-Shows query fused rows hit hit.best_sentence
          (semantic_sentence cfg calls query hit.text) h,
      filled-HasSentence query hit hit.best_sentence refl,
    ),
    fill-IsShown query fused rows hits hs,
  )

  abbrev pub Answers : Text → ℕ → List (FusedHit W) → List Chunk → List (SearchHit W) → Type 0
  Answers query top_k fused rows hits =
      (length hits ≤ top_k) × Numbered 1 hits × All (IsShown query fused rows) hits

  hydrate-Answers :
      (query : Text) (top_k : ℕ) (fused : List (FusedHit W)) (db later : Db)
      → (hits : List (SearchHit W)) × (hydrate cfg calls query top_k fused db later ≡ some hits)
        × Answers query top_k fused db.chunks hits
  unfolding hydrate
  hydrate-Answers query top_k [] db later = ([], refl, (omega arith, tt, tt))
  hydrate-Answers query top_k (f ∷ fs) db later =
      let is = map (λ (h : FusedHit W). h.chunk_id) (f ∷ fs) in
      let chunks = get_many is db in
      let candidates = map (λ (c : Chunk). (c.id, c.text)) chunks in
      let known : All (λ (c : Chunk). Known (f ∷ fs) chunks db.chunks c.id) chunks =
        All-imp (λ (c : Chunk). IsRow chunks c × (IsRow db.chunks c × InFusion (f ∷ fs) c.id))
          (λ (c : Chunk). Known (f ∷ fs) chunks db.chunks c.id) (λ c (h, kq). ((c, h, kq.0), kq.1))
          chunks
          (IsRow-self (InFusion (f ∷ fs)) db.chunks chunks
            (get_many-All (InFusion (f ∷ fs)) db is (ids-InFusion (f ∷ fs)))) in
      let (hits, eq, len, numbered, shown) =
        hits_from-Shows query (f ∷ fs) chunks db.chunks later 1
          (rerank calls.predict query candidates top_k)
          (rerank-All (Known (f ∷ fs) chunks db.chunks) calls.predict query top_k chunks known) in
      (
        map (fill_sentence cfg calls query) hits,
        rw eq refl,
        (
          omega (
            arith,
            length-map (fill_sentence cfg calls query) hits,
            len,
            length-rerank calls.predict query candidates top_k,
          ),
          fill-Numbered query 1 hits numbered,
          fill-IsShown query (f ∷ fs) db.chunks hits shown,
        ),
      )

  -- A search raises nothing. Its hits are at most as many as it is to return, and are numbered from 1.
  -- Each is a chunk of the table, with its text, document and highlights, and has the scores of its
  -- fusion. It lacks a best sentence only if its text has no sentence.
  pub search-Answers :
      (req : SearchRequest W) (db later : Db)
      → (hits : List (SearchHit W)) × (debug : Option (SearchDebug W)) × (search cfg calls req db
            later
          ≡ some (record { query = req.query; hits = hits; debug = debug }))
        × Answers req.query
            (or_setting req.top_k cfg.return_n)
            (take cfg.retrieve_n (
              rrf_fuse calls.of_nat
                (calls.query_vectors req.query cfg.retrieve_n)
                (calls.search_keywords req.query cfg.retrieve_n)
                (or_setting req.rrf_k cfg.rrf_k)
                (or_setting req.dense_weight cfg.dense_weight)))
            db.chunks
            hits
  unfolding search
  search-Answers req db later =
      let dense = calls.query_vectors req.query cfg.retrieve_n in
      let sparse = calls.search_keywords req.query cfg.retrieve_n in
      let (hits, eq, answers) =
        hydrate-Answers req.query (or_setting req.top_k cfg.return_n)
          (take cfg.retrieve_n (
            rrf_fuse calls.of_nat dense sparse (or_setting req.rrf_k cfg.rrf_k)
              (or_setting req.dense_weight cfg.dense_weight)))
          db later in
      (hits, debug_of cfg calls req dense sparse, rw eq refl, answers)
