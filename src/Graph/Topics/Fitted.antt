-- ===== src/Graph/Topics/Fitted.antt =====
-- What `fit_topics` gives.
use docmesh.Prelude.{
  ℕ, ◌+◌, ◌≤◌, ◌<◌, ◌≡◌, ◌⊎◌, inl, inr, refl, ap, subst, sym, Bool-cases, Option, none, some, List,
  [], ◌∷◌, All, take, length, length-take, slice, min, gather-All, reverse-All, take-All, all_units,
  arith,
}
use mathlib.Core.List.{reverse}
use docmesh.Text.{Text}
use docmesh.Dict.{Dict, text_key, find, put, find-put}
use docmesh.Graph.Schemas.{Scores}
use docmesh.Graph.Topics.{
  Tfidf, SkLearn, TopicModel, all_texts, min_df, distribution, add_distributions, terms_of,
  factorize, fit_texts, fit_topics,
}

-- `argsort` gives indices of the array; a component has an entry for each column, which has a name.
pub record IsSkLearn {M W : Type 0} (sk : SkLearn M W) : Type 0 where
  pub sort-valid : (xs : List W) → All (λ p. p < length xs) (sk.argsort xs)
  pub named :
      (least : ℕ) (texts : List Text) (t : Tfidf M)
      → sk.fit_transform least texts ≡ some t
      → length t.feature_names ≡ t.n_columns
  pub wide :
      (least : ℕ) (texts : List Text) (t : Tfidf M) (k seed : ℕ)
      → sk.fit_transform least texts ≡ some t
      → All (λ (c : List W). length c ≡ t.n_columns) (sk.nmf k seed t.matrix).1

abbrev Knows : {V : Type 0} → Dict Text V → Text → Type 0
Knows {V} d i = (v : V) × (find i d ≡ some v)

put-Knows : {V : Type 0} (i k : Text) (v : V) (d : Dict Text V) → Knows d i → Knows (put k v d) i
put-Knows i k v d (w, h) = elim (Bool-cases (text_key.same k i)) [
  | inl same ↦ (v, rw (find-put i k v d, same) refl)
  | inr apart ↦ (w, rw (find-put i k v d, apart) h)
]

put-Knows_key : {V : Type 0} (k : Text) (v : V) (d : Dict Text V) → Knows (put k v d) k
put-Knows_key k v d = (v, rw (find-put k k v d, text_key.same_self k) refl)

module _ {M W : Type 0} ⦃s : Scores W⦄ (sk : SkLearn M W) where
  add_distributions-Knows :
      (k : ℕ) (loadings : List (List W)) (row : ℕ) (docs : Dict Text (List Text))
      (out : Dict Text (List W)) (i : Text)
      → Knows out i
      → Knows (add_distributions sk k loadings row docs out) i
  unfolding add_distributions
  add_distributions-Knows k loadings row [] out i h = h
  add_distributions-Knows k loadings row ((doc_id, chunks) ∷ docs) out i h =
      let stop = row + length chunks in
      add_distributions-Knows k loadings stop docs _ i
        (put-Knows i doc_id (distribution sk k (slice loadings row stop)) out h)

  add_distributions-All :
      (k : ℕ) (loadings : List (List W)) (row : ℕ) (docs : Dict Text (List Text))
      (out : Dict Text (List W))
      → All
          (λ (e : Text × List Text). Knows (add_distributions sk k loadings row docs out) e.0)
          docs
  unfolding add_distributions
  add_distributions-All k loadings row [] out = tt
  add_distributions-All k loadings row ((doc_id, chunks) ∷ docs) out =
      let stop = row + length chunks in
      let d = distribution sk k (slice loadings row stop) in
      (
        add_distributions-Knows k loadings stop docs (put doc_id d out) doc_id
            (put-Knows_key doc_id d out),
        add_distributions-All k loadings stop docs (put doc_id d out),
      )

  module _ (laws : IsSkLearn sk) where
    terms_of-some :
        (names : List Text) (components : List (List W))
        → All (λ (c : List W). length c ≡ length names) components
        → (terms : List (List Text)) × (terms_of sk names components ≡ some terms)
          × (length terms ≡ length components)
          × All (λ (ts : List Text). length ts ≤ 5) terms
    unfolding terms_of
    terms_of-some names [] h = ([], refl, refl, tt)
    terms_of-some names (c ∷ components) (h, hs) =
        let valid = subst (λ n. All (λ p. p < n) (sk.argsort c)) h (laws.sort-valid c) in
        let order = take 5 (reverse (sk.argsort c)) in
        let (ts, eq, len, _) =
          gather-All (λ _. Unit) names order (all_units names)
            (take-All (λ p. p < length names) 5 (reverse (sk.argsort c))
              (reverse-All (λ p. p < length names) (sk.argsort c) valid)) in
        let (terms, eqs, as_many, few) = terms_of-some names components hs in
        (
          ts ∷ terms,
          rw (eq, eqs) refl,
          omega (arith, as_many),
          (omega (arith, len, length-take 5 (reverse (sk.argsort c))), few),
        )

    -- No model, where there is no text or no vocabulary; or one of `n_topics` topics at most, with five
    -- terms at most for each component, and a distribution for each document.
    abbrev IsFitted : Dict Text (List Text) → ℕ → Option (TopicModel W) → Type 0
    IsFitted docs n_topics none =
        (all_texts docs ≡ []) ⊎ (sk.fit_transform (min_df (all_texts docs)) (all_texts docs) ≡ none)
    IsFitted docs n_topics (some m) =
        (m.n_components ≤ n_topics)
        × All (λ (ts : List Text). length ts ≤ 5) m.topic_terms
        × All (λ (e : Text × List Text). Knows m.doc_distributions e.0) docs

    factorize-IsFitted :
        (n_topics seed : ℕ) (docs : Dict Text (List Text)) (o : Option (Tfidf M))
        → sk.fit_transform (min_df (all_texts docs)) (all_texts docs) ≡ o
        → (r : Option (TopicModel W)) × (factorize sk n_topics seed docs o ≡ some r)
          × IsFitted docs n_topics r
    unfolding factorize
    factorize-IsFitted n_topics seed docs none fit = (none, refl, inr fit)
    factorize-IsFitted n_topics seed docs (some t) fit =
        let texts = all_texts docs in
        let least = min_df texts in
        let k = min n_topics (min t.n_rows t.n_columns) in
        let factors = sk.nmf k seed t.matrix in
        let (terms, eq, _, few) = terms_of-some t.feature_names factors.1 (
          subst (λ n. All (λ (c : List W). length c ≡ n) factors.1)
            (sym (laws.named least texts t fit)) (laws.wide least texts t k seed fit)) in
        (
          some (record {
            n_components = k;
            doc_distributions = add_distributions sk k factors.0 0 docs [];
            topic_terms = terms;
          }),
          rw eq refl,
          (omega arith, few, add_distributions-All k factors.0 0 docs []),
        )

    fit_texts-IsFitted :
        (n_topics seed : ℕ) (docs : Dict Text (List Text)) (texts : List Text)
        → all_texts docs ≡ texts
        → (r : Option (TopicModel W)) × (fit_texts sk n_topics seed docs texts ≡ some r)
          × IsFitted docs n_topics r
    fit_texts-IsFitted n_topics seed docs [] same = (none, refl, inl same)
    fit_texts-IsFitted n_topics seed docs (t ∷ texts) same =
        factorize-IsFitted n_topics seed docs (sk.fit_transform (min_df (t ∷ texts)) (t ∷ texts))
          (ap (λ (l : List Text). sk.fit_transform (min_df l) l) same)

    -- A fit raises no IndexError. It gives no model only where there is no text, or no vocabulary;
    -- else at most `n_topics` topics, at most five terms for each component, and a distribution for
    -- each document.
    pub fit_topics-IsFitted :
        (docs : Dict Text (List Text)) (n_topics seed : ℕ)
        → (r : Option (TopicModel W)) × (fit_topics sk docs n_topics seed ≡ some r)
          × IsFitted docs n_topics r
    unfolding fit_topics
    fit_topics-IsFitted docs n_topics seed =
        fit_texts-IsFitted n_topics seed docs (all_texts docs) refl
