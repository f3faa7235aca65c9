-- ===== src/Graph/Entities/Overlap.antt =====
-- What `EntityScorer.score` shows of two documents of the corpus it was made of.
use docmesh.Prelude.{
  ℕ, suc, ◌≡◌, refl, ap, ◌∙◌, true, not, some, List, [], ◌∷◌, All, All-append, All-imp, filter,
  take, take-All, length, length-take, length-append, length-filter, sort_by, sort_by-All,
  length-sort_by, ◌≤◌, min, if_both, arith,
}
use docmesh.Text.{Text}
use docmesh.Dict.{Dict, text_key, find}
use docmesh.Graph.Schemas.{Scores, EntityWeight}
use docmesh.Graph.Build.{SharedEntityScore, EntityOverlap}
use docmesh.Graph.Entities.{Counts}
use docmesh.Graph.Entities.Scorer.{
  counts_or_empty, entity_keys, document_frequency, is_in, shared_keys, union_keys, new_scorer,
  sum_idf, shared_scores, shared_before, weight_before, weights_of, top_entities, score,
  overlap_over, jaccard, max_shared_entities,
}
use docmesh.Graph.Entities.Keys.{EntityKey, entity_key}
use docmesh.Graph.Entities.Weighted.{
  Has, map-Has, document_frequency-All, entity_keys-All, filter-All, is_in-Has,
}

module _ {W : Type 0} where
  -- The counts that are shown are those of the two documents.
  abbrev pub IsCounted : Counts → Counts → SharedEntityScore W → Type 0
  IsCounted a b x =
      (find (x.text, x.label) a ≡ some x.count_a) × (find (x.text, x.label) b ≡ some x.count_b)

  abbrev IsShared : Dict EntityKey W → Counts → Counts → EntityKey → Type 0
  IsShared weights a b k = Has weights k × Has a k × Has b k

shared_keys-All :
    {W : Type 0} (weights : Dict EntityKey W) (a b : Counts)
    → All (Has weights) (entity_keys a)
    → All (IsShared weights a b) (shared_keys a b)
unfolding shared_keys
shared_keys-All weights a b h =
    filter-All (λ k. Has weights k × Has a k) (IsShared weights a b) (λ k. is_in (find k b))
      (λ k held yes. (held.0, held.1, is_in-Has b k yes)) (entity_keys a)
      (All-both (Has weights) (Has a) (entity_keys a) h (entity_keys-All a))
  where
    All-both :
        (P Q : EntityKey → Type 0) (ks : List EntityKey)
        → All P ks
        → All Q ks
        → All (λ k. P k × Q k) ks
    All-both P Q [] p q = tt
    All-both P Q (k ∷ ks) (p, ps) (q, qs) = ((p, q), All-both P Q ks ps qs)

union_keys-All :
    {W : Type 0} (weights : Dict EntityKey W) (a b : Counts)
    → All (Has weights) (entity_keys a)
    → All (Has weights) (entity_keys b)
    → All (Has weights) (union_keys a b)
unfolding union_keys
union_keys-All weights a b ha hb =
    let test = λ (k : EntityKey). not (is_in (find k a)) in
    All-append (Has weights) (entity_keys a) (filter test (entity_keys b)) ha
      (filter-All (Has weights) (Has weights) test (λ k held yes. held) (entity_keys b) hb)

-- No more entities are shared than there are.
fewer : (a b : Counts) → length (shared_keys a b) ≤ length (union_keys a b)
unfolding shared_keys union_keys
fewer a b =
    let ka = entity_keys a in
    let others = filter (λ k. not (is_in (find k a))) (entity_keys b) in
    omega (arith, length-filter (λ k. is_in (find k b)) ka, length-append ka others)

module _ {W : Type 0} ⦃s : Scores W⦄ where
  sum_idf-some :
      (weights : Dict EntityKey W) (ks : List EntityKey) (total : W)
      → All (Has weights) ks
      → (x : W) × (sum_idf weights total ks ≡ some x)
  unfolding sum_idf
  sum_idf-some weights [] total h = (total, refl)
  sum_idf-some weights (k ∷ ks) total ((w, found), h) =
      rw found (sum_idf-some weights ks (s.add total w) h)

  shared_scores-some :
      (weights : Dict EntityKey W) (a b : Counts) (ks : List EntityKey)
      → All (IsShared weights a b) ks
      → (xs : List (SharedEntityScore W)) × (shared_scores weights a b ks ≡ some xs)
        × (length xs ≡ length ks)
        × All (IsCounted a b) xs
  unfolding shared_scores
  shared_scores-some weights a b [] h = ([], refl, refl, tt)
  shared_scores-some weights a b ((t, l) ∷ ks) (((w, weight), (n, in_a), (m, in_b)), h) =
      let (xs, eq, len, good) = shared_scores-some weights a b ks h in
      (
        record { text = t; label = l; idf = s.round w 4; count_a = n; count_b = m } ∷ xs,
        rw (weight, in_a, in_b, eq) refl,
        ap suc len,
        ((in_a, in_b), good),
      )

  overlap_over-IsCounted :
      (weights : Dict EntityKey W) (a b : Counts) (ks : List EntityKey)
      → All (Has weights) ks
      → All (IsShared weights a b) (shared_keys a b)
      → length (shared_keys a b) ≤ length ks
      → (overlap : EntityOverlap W) × (overlap_over weights a b ks ≡ some overlap)
        × (length overlap.shared ≡ min 25 (length (shared_keys a b)))
        × All (IsCounted a b) overlap.shared
  overlap_over-IsCounted weights a b [] union shared fewer =
      (record { score = s.nought; shared = [] }, refl, omega arith, tt)
  overlap_over-IsCounted weights a b (k ∷ ks) union shared fewer =
      let both = shared_keys a b in
      let (x, sum_both) =
        sum_idf-some weights both s.nought
          (All-imp (IsShared weights a b) (Has weights) (λ k h. h.0) both shared) in
      let (y, sum_all) = sum_idf-some weights (k ∷ ks) s.nought union in
      let (xs, eq, len, good) = shared_scores-some weights a b both shared in
      (
        record {
          score = jaccard x y;
          shared = take max_shared_entities (sort_by shared_before xs);
        },
        rw (sum_both, sum_all, eq) refl,
        omega (
          arith,
          length-take 25 (sort_by shared_before xs),
          length-sort_by shared_before xs,
          len,
        ),
        take-All (IsCounted a b) 25 (sort_by shared_before xs)
            (sort_by-All shared_before (IsCounted a b) xs good),
      )

  -- Each entity of a document has a weight.
  new_scorer-All :
      (log : W → W) (of_nat : ℕ → W) (docs : Dict Text Counts) (doc_id : Text)
      → All
          (Has (new_scorer log of_nat docs).idf_by_key)
          (entity_keys (counts_or_empty (find doc_id docs)))
  unfolding new_scorer
  new_scorer-All log of_nat docs doc_id =
      let df = document_frequency docs [] in
      let weight = λ (n : ℕ). log (s.add s.one (s.div (of_nat (length docs)) (of_nat n))) in
      All-imp (Has df) (Has (new_scorer log of_nat docs).idf_by_key) (map-Has weight df)
        (entity_keys (counts_or_empty (find doc_id docs))) (document_frequency-All doc_id docs [])

  -- The score of two documents by the scorer of a corpus raises no `KeyError`, whether the corpus has
  -- them or not. It lists as many entities as the two share, 25 at most, each with the counts that
  -- the two documents have of it.
  pub score-IsCounted :
      (log : W → W) (of_nat : ℕ → W) (docs : Dict Text Counts) (doc_a doc_b : Text)
      → (overlap : EntityOverlap W) × (score doc_a doc_b (new_scorer log of_nat docs)
          ≡ some overlap)
        × (length overlap.shared
            ≡ min 25 (
                length (
                  shared_keys
                    (counts_or_empty (find doc_a docs))
                    (counts_or_empty (find doc_b docs)))))
        × All
            (IsCounted (counts_or_empty (find doc_a docs)) (counts_or_empty (find doc_b docs)))
            overlap.shared
  unfolding score new_scorer
  score-IsCounted log of_nat docs doc_a doc_b =
      let a = counts_or_empty (find doc_a docs) in
      let b = counts_or_empty (find doc_b docs) in
      let scorer = new_scorer log of_nat docs in
      let weighted = new_scorer-All log of_nat docs in
      overlap_over-IsCounted scorer.idf_by_key a b (union_keys a b)
        (union_keys-All scorer.idf_by_key a b (weighted doc_a) (weighted doc_b))
        (shared_keys-All scorer.idf_by_key a b (weighted doc_a)) (fewer a b)

  weights_of-some :
      (weights : Dict EntityKey W) (counts : Counts)
      → All (Has weights) (entity_keys counts)
      → (ws : List (EntityWeight W)) × (weights_of weights counts ≡ some ws)
        × (length ws ≡ length counts)
  unfolding weights_of
  weights_of-some weights [] h = ([], refl, refl)
  weights_of-some weights (((t, l), n) ∷ counts) ((w, weight), h) =
      let (ws, eq, len) = weights_of-some weights counts h in
      (
        record { text = t; label = l; idf = s.round w 4; count = n } ∷ ws,
        rw (weight, eq) refl,
        ap suc len,
      )

  -- The list of the entities of a document raises no `KeyError`, and has each of them.
  pub length-top_entities :
      (log : W → W) (of_nat : ℕ → W) (docs : Dict Text Counts) (doc_id : Text)
      → (ws : List (EntityWeight W)) × (top_entities doc_id (new_scorer log of_nat docs) ≡ some ws)
        × (length ws ≡ length (counts_or_empty (find doc_id docs)))
  unfolding top_entities new_scorer
  length-top_entities log of_nat docs doc_id =
      let (ws, eq, len) =
        weights_of-some (new_scorer log of_nat docs).idf_by_key (counts_or_empty (find doc_id docs))
          (new_scorer-All log of_nat docs doc_id) in
      (sort_by weight_before ws, rw eq refl, length-sort_by weight_before ws ∙ len)

  overlap_over-apart :
      (div_nought : (x : W) → s.lt s.nought x ≡ true → s.div s.nought x ≡ s.nought)
      (weights : Dict EntityKey W) (a b : Counts) (ks : List EntityKey)
      → All (Has weights) ks
      → shared_keys a b ≡ []
      → overlap_over weights a b ks ≡ some (record { score = s.nought; shared = [] })
  unfolding sum_idf shared_scores
  overlap_over-apart div_nought weights a b [] union none_shared = refl
  overlap_over-apart div_nought weights a b (k ∷ ks) union none_shared =
      let (y, sum_all) = sum_idf-some weights (k ∷ ks) s.nought union in
      rw (none_shared, sum_all)
        (ap (λ x. some (record { score = x; shared = [] }))
          (if_both (λ x. x ≡ s.nought) (s.lt s.nought y) (div_nought y) (λ _. refl)))

  -- If nought divided by a positive number is nought: two documents that share no entity have the
  -- score nought, with no entities.
  pub score-apart :
      (log : W → W) (of_nat : ℕ → W) (docs : Dict Text Counts) (doc_a doc_b : Text)
      → ((x : W) → s.lt s.nought x ≡ true → s.div s.nought x ≡ s.nought)
      → shared_keys (counts_or_empty (find doc_a docs)) (counts_or_empty (find doc_b docs)) ≡ []
      → score doc_a doc_b (new_scorer log of_nat docs)
        ≡ some (record { score = s.nought; shared = [] })
  unfolding score new_scorer
  score-apart log of_nat docs doc_a doc_b div_nought none_shared =
      let a = counts_or_empty (find doc_a docs) in
      let b = counts_or_empty (find doc_b docs) in
      let scorer = new_scorer log of_nat docs in
      let weighted = new_scorer-All log of_nat docs in
      overlap_over-apart div_nought scorer.idf_by_key a b (union_keys a b)
        (union_keys-All scorer.idf_by_key a b (weighted doc_a) (weighted doc_b)) none_shared
