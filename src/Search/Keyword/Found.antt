-- ===== src/Search/Keyword/Found.antt =====
-- What a search by keywords finds.
use docmesh.Prelude.{
  ℕ, suc, ◌≤◌, ◌<◌, ◌≡◌, refl, sym, ◌∙◌, true, Option, some, List, [], ◌∷◌, All, map, length,
  length-map, min, get_elem?, get_elem?-some, if_both, arith,
}
use docmesh.Text.{Text, Unicode}
use docmesh.Dict.{Dict, text_key}
use docmesh.Graph.{Scores}
use docmesh.Graph.Semantic.{NumPy}
use docmesh.Graph.Semantic.Top.{IsNumPy, top_of-valid}
use docmesh.Search.Highlights.{tokenize}
use docmesh.Search.Keyword.{
  Okapi, Bm25Index, swap, rebuild, add_items, remove, scored_at, best_of, search_tokens, search,
}

-- A score for each document of the corpus.
abbrev pub IsOkapi : {B W : Type 0} → Okapi B W → Type 0
IsOkapi {B} {W} okapi =
    (tokens : List Text) (docs : List (List Text))
    → length (okapi.get_scores tokens (okapi.fit docs)) ≡ length docs

-- What an index is asked to do.
pub data Change : Type 0 where
  rebuilt added : List (Text × Text) → Change
  removed : List Text → Change

module _ {W : Type 0} ⦃s : Scores W⦄ where
  abbrev IsBelow : ℕ → (Text × W → Type 0) → Option (List (Text × W)) → Type 0
  IsBelow n P o = (hits : List (Text × W)) × (o ≡ some hits) × (length hits ≤ n) × All P hits

  module _ (ids : List Text) (scores : List W) where
    abbrev IsScored : Text × W → Type 0
    IsScored hit =
        (p : ℕ) × (get_elem? ids p ≡ some hit.0)
        × (get_elem? scores p ≡ some hit.1)
        × (s.lt s.nought hit.1 ≡ true)

    scored_at-IsBelow :
        (ps : List ℕ)
        → length scores ≡ length ids
        → All (λ p. p < length scores) ps
        → IsBelow (length ps) IsScored (scored_at ids scores ps)
    unfolding scored_at
    scored_at-IsBelow [] same h = ([], refl, omega arith, tt)
    scored_at-IsBelow (p ∷ ps) same (h, hs) =
        let (i, at_i) = get_elem?-some ids p (omega arith) in
        let (w, at_w) = get_elem?-some scores p h in
        let (hits, eq, few, good) = scored_at-IsBelow ps same hs in
        rw (at_i, at_w, eq)
          (if_both (IsBelow (suc (length ps)) IsScored) (s.lt s.nought w)
            (λ pos. ((i, w) ∷ hits, refl, omega arith, ((p, at_i, at_w, pos), good)))
            (λ _. (hits, refl, omega arith, good)))

    best_of-IsBelow :
        (np : NumPy W) (laws : IsNumPy np) (top_n : ℕ)
        → 0 < top_n
        → 0 < length ids
        → length scores ≡ length ids
        → IsBelow top_n IsScored (best_of np ids scores top_n)
    unfolding best_of
    best_of-IsBelow np laws top_n pos some_id same =
        let n = min top_n (length ids) in
        let (top, eq, len, valid) = top_of-valid np laws scores n (omega arith) (omega arith) in
        let (hits, found, few, good) = scored_at-IsBelow top same valid in
        (hits, rw eq found, omega arith, good)

module _ {B W : Type 0} ⦃s : Scores W⦄ ⦃u : Unicode⦄ (okapi : Okapi B W) where
  unfoldable pub change : Change → Bm25Index B → Bm25Index B
  unfolding rebuild add_items remove
  change (rebuilt items) index = rebuild okapi items index
  change (added items) index = add_items okapi items index
  change (removed ids) index = remove okapi ids index

  -- The hit has a positive score, at the place of its chunk among those of the corpus.
  abbrev pub IsFound : Bm25Index B → List W → Text × W → Type 0
  IsFound index scores hit =
      (p : ℕ) × (get_elem? (map (λ (e : Text × List Text). e.0) index.corpus) p ≡ some hit.0)
      × (get_elem? scores p ≡ some hit.1)
      × (s.lt s.nought hit.1 ≡ true)

  -- The scores of a corpus that is not empty.
  abbrev pub corpus_scores : Text → Bm25Index B → List W
  corpus_scores query index =
      okapi.get_scores (tokenize query)
        (okapi.fit (map (λ (e : Text × List Text). e.1) index.corpus))

  swap-IsBelow :
      (np : NumPy W) (query : Text) (top_n : ℕ) (corpus : Dict Text (List Text))
      → IsNumPy np
      → IsOkapi okapi
      → 0 < top_n
      → IsBelow top_n
          (IsFound (swap okapi corpus) (corpus_scores query (swap okapi corpus)))
          (search okapi np query top_n (swap okapi corpus))
  unfolding search swap
  swap-IsBelow np query top_n [] laws okapi_laws pos = ([], refl, omega arith, tt)
  swap-IsBelow np query top_n ((i, d) ∷ corpus) laws okapi_laws pos = go (tokenize query)
    where
      rest : Dict Text (List Text)
      rest = (i, d) ∷ corpus

      names : List Text
      names = map (λ (e : Text × List Text). e.0) rest

      docs : List (List Text)
      docs = map (λ (e : Text × List Text). e.1) rest

      go :
          (tokens : List Text)
          → IsBelow top_n
              (IsScored names (okapi.get_scores tokens (okapi.fit docs)))
              (search_tokens okapi np tokens top_n (some (okapi.fit docs)) names)
      go [] = ([], refl, omega arith, tt)
      go (t ∷ tokens) =
          best_of-IsBelow names (okapi.get_scores (t ∷ tokens) (okapi.fit docs)) np laws top_n pos
            (omega arith)
            (okapi_laws (t ∷ tokens) docs
              ∙ length-map (λ (e : Text × List Text). e.1) rest
              ∙ sym (length-map (λ (e : Text × List Text). e.0) rest))

  -- If a hit at least is asked for: a search behind a change of the index raises no IndexError. It
  -- gives at most as many hits as are asked for, each a chunk of the corpus with its score for the
  -- query, which is positive.
  pub search-AreFound :
      (np : NumPy W) (query : Text) (top_n : ℕ) (c : Change) (index : Bm25Index B)
      → IsNumPy np
      → IsOkapi okapi
      → 0 < top_n
      → (hits : List (Text × W)) × (search okapi np query top_n (change c index) ≡ some hits)
        × (length hits ≤ top_n)
        × All (IsFound (change c index) (corpus_scores query (change c index))) hits
  unfolding change rebuild add_items remove
  search-AreFound np query top_n (rebuilt items) index = swap-IsBelow np query top_n _
  search-AreFound np query top_n (added items) index = swap-IsBelow np query top_n _
  search-AreFound np query top_n (removed ids) index = swap-IsBelow np query top_n _
