-- ===== src/Graph/Topics.antt =====
-- backend/app/graph/topics.py. What it calls of scikit-learn, scipy and numpy is a parameter. The outer
-- `none` of `fit_topics` is an IndexError, the inner one its `None`.
pub mod Fitted
use docmesh.Prelude.{
  ℕ, zero, suc, ◌+◌, Bool, not, ◌&&◌, ◌||◌, Option, none, some, List, [], ◌∷◌, map, flat_map, take,
  length, slice, min, leb, gather, cons_option, and_then, if◌then◌else◌,
}
use mathlib.Core.List.{reverse}
use docmesh.Text.{Text}
use docmesh.Dict.{Dict, text_key, put}
use docmesh.Graph.Schemas.{Scores}
use docmesh.Graph.Combiner.{max_score, min_score}

-- The fitted TF-IDF matrix with its numbers of rows and columns, and the names of the columns.
pub record Tfidf (M : Type 0) : Type 0 where
  pub matrix : M
  pub n_rows : ℕ
  pub n_columns : ℕ
  pub feature_names : List Text

-- `fit_transform` gives none where the vocabulary is empty, and `jensenshannon` where it is nan.
-- `nmf k seed` gives the loadings, a row for each text, and the components.
pub record SkLearn (M W : Type 0) : Type 0 where
  pub fit_transform : ℕ → List Text → Option (Tfidf M)
  pub nmf : ℕ → ℕ → M → List (List W) × List (List W)
  pub mean_of_rows : List (List W) → List W
  pub sum : List W → W
  pub argsort : List W → List ℕ
  pub jensenshannon : List W → List W → Option W

pub record TopicModel (W : Type 0) : Type 0 where
  pub n_components : ℕ
  pub doc_distributions : Dict Text (List W)
  pub topic_terms : List (List Text)

abbrev pub terms_per_topic : ℕ
terms_per_topic = 5

abbrev pub all_texts : Dict Text (List Text) → List Text
all_texts doc_chunks = flat_map (λ (e : Text × List Text). e.1) doc_chunks

abbrev pub min_df : List Text → ℕ
min_df texts = if leb 5 (length texts) then 2 else 1

module _ {M W : Type 0} ⦃s : Scores W⦄ (sk : SkLearn M W) where
  -- `np.zeros(k)`
  abbrev pub zeros : ℕ → List W
  zeros zero = []
  zeros (suc k) = s.nought ∷ zeros k

  abbrev pub mean_or_zeros : ℕ → List (List W) → List W
  mean_or_zeros k [] = zeros k
  mean_or_zeros k (row ∷ rows) = sk.mean_of_rows (row ∷ rows)

  abbrev pub normalized : List W → List W
  normalized mean =
      let total = sk.sum mean in if s.lt s.nought total then map (λ x. s.div x total) mean else mean

  unfoldable pub distribution : ℕ → List (List W) → List W
  distribution k rows = normalized (mean_or_zeros k rows)

  unfoldable pub add_distributions :
      ℕ → List (List W) → ℕ → Dict Text (List Text) → Dict Text (List W) → Dict Text (List W)
  unfolding distribution put
  add_distributions k loadings row [] out = out
  add_distributions k loadings row ((doc_id, chunks) ∷ docs) out =
      let stop = row + length chunks in
      add_distributions k loadings stop docs
        (put doc_id (distribution k (slice loadings row stop)) out)

  unfoldable pub terms_of : List Text → List (List W) → Option (List (List Text))
  terms_of names [] = some []
  terms_of names (component ∷ components) =
      cons_option (gather names (take terms_per_topic (reverse (sk.argsort component))))
        (terms_of names components)

  unfoldable pub factorize :
      ℕ → ℕ → Dict Text (List Text) → Option (Tfidf M) → Option (Option (TopicModel W))
  unfolding add_distributions terms_of
  factorize n_topics random_state doc_chunks none = some none
  factorize n_topics random_state doc_chunks (some t) =
      let k = min n_topics (min t.n_rows t.n_columns) in
      let (loadings, components) = sk.nmf k random_state t.matrix in
      and_then (terms_of t.feature_names components) (λ terms. some (
        some (record {
          n_components = k;
          doc_distributions = add_distributions k loadings 0 doc_chunks [];
          topic_terms = terms;
        })))

  abbrev pub fit_texts : ℕ → ℕ → Dict Text (List Text) → List Text → Option (Option (TopicModel W))
  fit_texts n_topics random_state doc_chunks [] = some none
  fit_texts n_topics random_state doc_chunks (t ∷ texts) =
      factorize n_topics random_state doc_chunks (sk.fit_transform (min_df (t ∷ texts)) (t ∷ texts))

  unfoldable pub fit_topics : Dict Text (List Text) → ℕ → ℕ → Option (Option (TopicModel W))
  unfolding factorize
  fit_topics doc_chunks n_topics random_state =
      fit_texts n_topics random_state doc_chunks (all_texts doc_chunks)

  abbrev pub is_nought : W → Bool
  is_nought x = not (s.lt x s.nought) && not (s.lt s.nought x)

  abbrev pub nought_if_nan : Option W → W
  nought_if_nan none = s.nought
  nought_if_nan (some x) = x

  unfoldable pub topic_similarity : Option (List W) → Option (List W) → W
  topic_similarity none q = s.nought
  topic_similarity (some p) none = s.nought
  topic_similarity (some p) (some q) =
      if is_nought (sk.sum p) || is_nought (sk.sum q)
      then s.nought
      else min_score s.one (max_score s.nought (s.sub s.one (nought_if_nan (sk.jensenshannon p q))))
