-- ===== src/Graph/Query/Best.antt =====
-- The relevance of a document, by its own hits.
use docmesh.Prelude.{
  suc, ◌+◌, ◌≡◌, refl, ap, ◌∙◌, Option, none, some, List, [], ◌∷◌, map, filter, length,
  if◌then◌else◌, arith, Bool-cases, inl, inr,
}
use docmesh.Text.{Text, text_eq}
use docmesh.Storage.{Chunk, find_chunk}
use docmesh.Graph.Schemas.{Scores, GraphSettings}
use docmesh.Graph.Combiner.{max_score}
use docmesh.Graph.Query.{
  VectorHit, Relevance, score_of, is_match, note, note_owner, annotate, unrelated,
}

module _ {W : Type 0} ⦃s : Scores W⦄ (g : GraphSettings W) (hit_chunks : List Chunk) where
  -- The scores of the hits in a document.
  abbrev owned : Text → Option Chunk → W → List W → List W
  owned doc_id none score rest = rest
  owned doc_id (some c) score rest = if text_eq doc_id c.document_id then score ∷ rest else rest

  abbrev pub scores_in : Text → List (VectorHit W) → List W
  scores_in doc_id [] = []
  scores_in doc_id (hit ∷ hits) =
      owned doc_id (find_chunk hit.chunk_id hit_chunks) (score_of g hit) (scores_in doc_id hits)

  -- The largest of the scores and a first one.
  abbrev pub best : W → List W → W
  best x [] = x
  best x (y ∷ ys) = best (max_score x y) ys

  -- What scores make of the entries of a document.
  abbrev after_scores : List W → Relevance W → Relevance W
  after_scores scores r = record r {
    relevance = best r.relevance scores;
    match_count = r.match_count + length (filter (is_match g) scores);
  }

  abbrev after : List (VectorHit W) → Relevance W → Relevance W
  after hits r = after_scores (scores_in r.doc_id hits) r

  after_scores-cons :
      (score : W) (scores : List W) (r : Relevance W)
      → after_scores scores (record r {
        relevance = max_score r.relevance score;
        match_count = if is_match g score then suc r.match_count else r.match_count;
      })
        ≡ after_scores (score ∷ scores) r
  after_scores-cons score scores r =
      let rest = length (filter (is_match g) scores) in
      let counts : (if is_match g score then suc r.match_count else r.match_count) + rest
          ≡ r.match_count + length (filter (is_match g) (score ∷ scores)) =
        ground arith in
      ap (λ n. record r { relevance = best r.relevance (score ∷ scores); match_count = n }) counts

  -- The entries after a hit, by whose chunk it is of.
  abbrev after_hit : VectorHit W → List (VectorHit W) → Relevance W → Option Chunk → Relevance W
  after_hit hit hits r o =
      after_scores (owned r.doc_id o (score_of g hit) (scores_in r.doc_id hits)) r

  after-note :
      (hit : VectorHit W) (hits : List (VectorHit W)) (c : Chunk) (r : Relevance W)
      → after hits (note g c.document_id (score_of g hit) r) ≡ after_hit hit hits r (some c)
  unfolding note
  after-note hit hits c r = elim (Bool-cases (text_eq r.doc_id c.document_id)) [
    | inl own ↦ rw own (after_scores-cons (score_of g hit) (scores_in r.doc_id hits) r)
    | inr other ↦ rw other refl
  ]

  map-note_owner :
      (hit : VectorHit W) (hits : List (VectorHit W)) (o : Option Chunk) (rs : List (Relevance W))
      → map (after hits) (note_owner g o (score_of g hit) rs) ≡ map (λ r. after_hit hit hits r o) rs
  map-note_owner hit hits none rs = refl
  map-note_owner hit hits (some c) [] = refl
  map-note_owner hit hits (some c) (r ∷ rs) =
      let head = after-note hit hits c r in
      let rest = map-note_owner hit hits (some c) rs in
      ap (λ x. x ∷ map (after hits) (map (note g c.document_id (score_of g hit)) rs)) head
      ∙ ap (λ l. after_hit hit hits r (some c) ∷ l) rest

  no_hits : (rs : List (Relevance W)) → rs ≡ map (after []) rs
  no_hits [] = refl
  no_hits (r ∷ rs) =
      let same : r.match_count ≡ r.match_count + 0 = omega arith in
      ap (λ n. record r { match_count = n } ∷ rs) same ∙ ap (λ l. after [] r ∷ l) (no_hits rs)

  annotate-after :
      (hits : List (VectorHit W)) (rs : List (Relevance W))
      → annotate g hit_chunks hits rs ≡ map (after hits) rs
  unfolding annotate
  annotate-after [] rs = no_hits rs
  annotate-after (hit ∷ hits) rs =
      let o = find_chunk hit.chunk_id hit_chunks in
      annotate-after hits (note_owner g o (score_of g hit) rs) ∙ map-note_owner hit hits o rs

  -- The entries of a document, by its own hits.
  abbrev pub entries_of : List (VectorHit W) → Text → Relevance W
  entries_of hits i = record {
    doc_id = i;
    relevance = best s.nought (scores_in i hits);
    match_count = length (filter (is_match g) (scores_in i hits));
  }

  by_document :
      (hits : List (VectorHit W)) (docs : List Text)
      → map (after hits) (map unrelated docs) ≡ map (entries_of hits) docs
  by_document hits [] = refl
  by_document hits (i ∷ is) =
      let count = length (filter (is_match g) (scores_in i hits)) in
      let zero_left : 0 + count ≡ count = omega arith in
      ap (λ n. record (entries_of hits i) { match_count = n } ∷ map (after hits) (map unrelated is))
        zero_left
      ∙ ap (λ l. entries_of hits i ∷ l) (by_document hits is)

  -- By a query, each done document has the largest of the scores of the hits in it, or 0, for its
  -- relevance, and for its matches the number of those that reach the threshold.
  pub annotate-eq-best :
      (hits : List (VectorHit W)) (docs : List Text)
      → annotate g hit_chunks hits (map unrelated docs) ≡ map (entries_of hits) docs
  annotate-eq-best hits docs = annotate-after hits (map unrelated docs) ∙ by_document hits docs
