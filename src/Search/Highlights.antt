-- ===== src/Search/Highlights.antt =====
-- `tokenize` of backend/app/search/bm25.py, and `_term_highlights` and `_best_sentence_by_terms` of
-- backend/app/services/search_service.py. The matches of a term as a whole word, case ignored, are
-- a parameter: regular expressions with a text that is escaped.
pub mod Merged
use docmesh.Prelude.{
  ℕ, max, Bool, ◌&&◌, ◌||◌, Option, none, some, List, [], ◌∷◌, map, filter, flat_map, take, length,
  slice, leb, ltb, ◌==◌, if◌then◌else◌,
}
use docmesh.Text.{Text, Unicode, Span, text_in, runs}
use docmesh.Chunker.Sentences.{split_sentences}

abbrev pub is_token : ℕ → Bool
is_token c = (leb b'a' c && leb c b'z') || (leb b'0' c && leb c b'9')

-- A set of texts as a list without repetitions, the later ones kept.
unfoldable pub unique : List Text → List Text
unfolding text_in
unique [] = []
unique (t ∷ ts) = let rest = unique ts in if text_in t ts then rest else t ∷ rest

-- `spans.sort()`
abbrev pub span_le : Span → Span → Bool
span_le (s, e) (s', e') = ltb s s' || (s == s' && leb e e')

unfoldable pub insert_span : Span → List Span → List Span
insert_span a [] = a ∷ []
insert_span a (b ∷ bs) = let rest = insert_span a bs in if span_le a b then a ∷ b ∷ bs else b ∷ rest

unfoldable pub sort_spans : List Span → List Span
unfolding insert_span
sort_spans [] = []
sort_spans (a ∷ r) = insert_span a (sort_spans r)

-- The loop, with `merged[-1]`: a span that begins within it, or at its end, is taken into it.
unfoldable pub merge_from : Span → List Span → List Span
merge_from a [] = a ∷ []
merge_from (s, e) ((s', e') ∷ rest) =
    let joined = merge_from (s, max e e') rest in
    let kept = merge_from (s', e') rest in if leb s' e then joined else (s, e) ∷ kept

unfoldable pub merge : List Span → List Span
unfolding merge_from
merge [] = []
merge (a ∷ r) = merge_from a r

module _ ⦃u : Unicode⦄ where
  unfoldable pub tokenize : Text → List Text
  unfolding runs
  tokenize text = let t = u.lower text in map (λ ((s, e) : Span). slice t s e) (runs is_token t)

  -- `{t for t in tokenize(query) if len(t) >= 2}`
  unfoldable pub query_terms : Text → List Text
  unfolding unique tokenize
  query_terms query = unique (filter (λ t. leb 2 (length t)) (tokenize query))

  unfoldable pub term_highlights : (Text → Text → List Span) → Text → Text → List Span
  unfolding query_terms sort_spans merge
  term_highlights find_term query text =
      take 20 (merge (sort_spans (flat_map (λ t. find_term t text) (query_terms query))))

  -- `len(terms & set(tokenize(sentence)))`
  unfoldable pub overlap : List Text → Text → ℕ
  unfolding tokenize text_in
  overlap terms sentence =
      let tokens = tokenize sentence in length (filter (λ t. text_in t tokens) terms)

  -- The loop over the sentences, with the best so far and its overlap.
  unfoldable pub best_from : List Text → Text → Option (ℕ × Span) → List Span → Option (ℕ × Span)
  unfolding overlap
  best_from terms text best [] = best
  best_from terms text best ((s, e) ∷ spans) =
      let n = overlap terms (slice text s e) in
      let taken = best_from terms text (some (n, (s, e))) spans in
      let passed = best_from terms text best spans in
      elim best [
        | none ↦ if ltb 0 n then taken else passed
        | some (m, b) ↦ if ltb 0 n && ltb m n then taken else passed
      ]

  abbrev pub span_of : Option (ℕ × Span) → Option Span
  span_of none = none
  span_of (some (n, span)) = some span

  abbrev pub best_with : List Text → Text → Option Span
  best_with [] text = none
  best_with (t ∷ ts) text = span_of (best_from (t ∷ ts) text none (split_sentences text))

  unfoldable pub best_sentence_by_terms : Text → Text → Option Span
  unfolding query_terms best_from split_sentences
  best_sentence_by_terms query text = best_with (query_terms query) text
