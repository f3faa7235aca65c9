-- ===== src/Graph/Entities/Scorer.antt =====
-- `EntityScorer` of backend/app/graph/entities.py. A sum over a set is taken in the order of the first
-- document's entities, then the second's.
use docmesh.Prelude.{
  ℕ, ◌+◌, Bool, true, false, not, ◌&&◌, ◌||◌, Option, none, some, List, [], ◌∷◌, ◌++◌, map, filter,
  take, length, sort_by, cons_option, if◌then◌else◌,
}
use docmesh.Text.{Text}
use docmesh.Dict.{Dict, text_key, find, put}
use docmesh.Graph.Schemas.{Scores, EntityWeight}
use docmesh.Graph.Order.{text_lt}
use docmesh.Graph.Build.{SharedEntityScore, EntityOverlap}
use docmesh.Graph.Entities.Keys.{EntityKey, entity_key}
use docmesh.Graph.Entities.{Counts, count_or_0}

abbrev pub max_shared_entities : ℕ
max_shared_entities = 25

abbrev pub entity_keys : Counts → List EntityKey
entity_keys counts = map (λ (e : EntityKey × ℕ). e.0) counts

-- `df[key] = df.get(key, 0) + 1`
unfoldable pub add_keys : List EntityKey → Counts → Counts
unfolding find put
add_keys [] df = df
add_keys (k ∷ ks) df = add_keys ks (put k (count_or_0 (find k df) + 1) df)

unfoldable pub document_frequency : Dict Text Counts → Counts → Counts
unfolding add_keys
document_frequency [] df = df
document_frequency ((doc_id, counts) ∷ docs) df =
    document_frequency docs (add_keys (entity_keys counts) df)

-- `EntityScorer`: the entities of each document, and the weights.
pub record EntityScorer (W : Type 0) : Type 0 where
  pub docs : Dict Text Counts
  pub idf_by_key : Dict EntityKey W

abbrev pub is_in : {A : Type 0} → Option A → Bool
is_in none = false
is_in (some a) = true

abbrev pub counts_or_empty : Option Counts → Counts
counts_or_empty none = []
counts_or_empty (some counts) = counts

-- `set(ents_a) & set(ents_b)`, in the order of the first.
unfoldable pub shared_keys : Counts → Counts → List EntityKey
unfolding find
shared_keys a b = filter (λ k. is_in (find k b)) (entity_keys a)

-- `set(ents_a) | set(ents_b)`
unfoldable pub union_keys : Counts → Counts → List EntityKey
unfolding find
union_keys a b = entity_keys a ++ filter (λ k. not (is_in (find k a))) (entity_keys b)

module _ {W : Type 0} ⦃s : Scores W⦄ where
  -- `log` is `math.log`, and `of_nat` the float of an integer.
  unfoldable pub new_scorer : (W → W) → (ℕ → W) → Dict Text Counts → EntityScorer W
  unfolding document_frequency
  new_scorer log of_nat docs = record {
    docs = docs;
    idf_by_key =
        map
          (λ (e : EntityKey × ℕ).
            (e.0, log (s.add s.one (s.div (of_nat (length docs)) (of_nat e.1)))))
          (document_frequency docs []);
  }

  abbrev pub or_nought : Option W → W
  or_nought none = s.nought
  or_nought (some x) = x

  -- `EntityScorer.idf`
  unfoldable pub idf : EntityKey → EntityScorer W → W
  unfolding find
  idf k scorer = or_nought (find k scorer.idf_by_key)

  -- `sum(self._idf[k] for k in keys)`; `none` is a `KeyError`.
  abbrev pub add_weight : Option W → (W → Option W) → Option W
  add_weight none go = none
  add_weight (some x) go = go x

  unfoldable pub sum_idf : Dict EntityKey W → W → List EntityKey → Option W
  unfolding find
  sum_idf weights total [] = some total
  sum_idf weights total (k ∷ ks) =
      add_weight (find k weights) (λ x. sum_idf weights (s.add total x) ks)

  abbrev pub shared_of : EntityKey → Option W → Option ℕ → Option ℕ → Option (SharedEntityScore W)
  shared_of k none a b = none
  shared_of k (some x) none b = none
  shared_of k (some x) (some a) none = none
  shared_of (text, label) (some x) (some a) (some b) =
      some (record { text = text; label = label; idf = s.round x 4; count_a = a; count_b = b })

  unfoldable pub shared_scores :
      Dict EntityKey W → Counts → Counts → List EntityKey → Option (List (SharedEntityScore W))
  unfolding find
  shared_scores weights a b [] = some []
  shared_scores weights a b (k ∷ ks) =
      cons_option (shared_of k (find k weights) (find k a) (find k b))
        (shared_scores weights a b ks)

  -- `(-s.idf, s.text)`
  unfoldable pub shared_before : SharedEntityScore W → SharedEntityScore W → Bool
  unfolding text_lt
  shared_before x y = s.lt y.idf x.idf || (not (s.lt x.idf y.idf) && text_lt x.text y.text)

  abbrev pub jaccard : W → W → W
  jaccard shared union = if s.lt s.nought union then s.div shared union else s.nought

  abbrev pub overlap_of :
      Option W → Option W → Option (List (SharedEntityScore W)) → Option (EntityOverlap W)
  overlap_of none union shared = none
  overlap_of (some x) none shared = none
  overlap_of (some x) (some y) none = none
  overlap_of (some x) (some y) (some shared) = some (record {
    score = jaccard x y;
    shared = take max_shared_entities (sort_by shared_before shared);
  })

  abbrev pub overlap_over :
      Dict EntityKey W → Counts → Counts → List EntityKey → Option (EntityOverlap W)
  overlap_over weights a b [] = some (record { score = s.nought; shared = [] })
  overlap_over weights a b (k ∷ ks) =
      overlap_of (sum_idf weights s.nought (shared_keys a b)) (sum_idf weights s.nought (k ∷ ks))
        (shared_scores weights a b (shared_keys a b))

  -- `EntityScorer.score`
  unfoldable pub score : Text → Text → EntityScorer W → Option (EntityOverlap W)
  unfolding find union_keys shared_keys sum_idf shared_scores shared_before
  score doc_a doc_b scorer =
      let a = counts_or_empty (find doc_a scorer.docs) in
      let b = counts_or_empty (find doc_b scorer.docs) in
      overlap_over scorer.idf_by_key a b (union_keys a b)

  -- `(-e[2], e[0])`
  unfoldable pub weight_before : EntityWeight W → EntityWeight W → Bool
  unfolding text_lt
  weight_before x y = s.lt y.idf x.idf || (not (s.lt x.idf y.idf) && text_lt x.text y.text)

  abbrev pub weight_of : EntityKey × ℕ → Option W → Option (EntityWeight W)
  weight_of e none = none
  weight_of ((text, label), n) (some x) =
      some (record { text = text; label = label; idf = s.round x 4; count = n })

  unfoldable pub weights_of : Dict EntityKey W → Counts → Option (List (EntityWeight W))
  unfolding find
  weights_of weights [] = some []
  weights_of weights (e ∷ counts) =
      cons_option (weight_of e (find e.0 weights)) (weights_of weights counts)

  abbrev pub sorted_weights : Option (List (EntityWeight W)) → Option (List (EntityWeight W))
  sorted_weights none = none
  sorted_weights (some ws) = some (sort_by weight_before ws)

  -- `EntityScorer.top_entities`
  unfoldable pub top_entities : Text → EntityScorer W → Option (List (EntityWeight W))
  unfolding find weights_of weight_before
  top_entities doc_id scorer =
      sorted_weights (weights_of scorer.idf_by_key (counts_or_empty (find doc_id scorer.docs)))
