-- ===== src/Graph/Entities/Weighted.antt =====
-- Every entity of a document of the corpus has a weight.
use docmesh.Prelude.{
  ℕ, ◌+◌, ◌≡◌, refl, Bool, true, Option, none, some, List, [], ◌∷◌, All, All-imp, map, filter,
  if_both, Bool-cases, inl, inr,
}
use docmesh.Text.{Text}
use docmesh.Dict.{Dict, text_key, find, put, find-put}
use docmesh.Graph.Entities.{Counts, count_or_0}
use docmesh.Graph.Entities.Scorer.{
  counts_or_empty, entity_keys, add_keys, document_frequency, is_in,
}
use docmesh.Graph.Entities.Keys.{EntityKey, entity_key}

-- The dictionary has the key.
abbrev pub Has : {V : Type 0} → Dict EntityKey V → EntityKey → Type 0
Has {V} d k = (v : V) × (find k d ≡ some v)

pub put-Has :
    {V : Type 0} (i k : EntityKey) (v : V) (d : Dict EntityKey V) → Has d i → Has (put k v d) i
put-Has i k v d (u, h) = elim (Bool-cases (entity_key.same k i)) [
  | inl same ↦ (v, rw (find-put i k v d, same) refl)
  | inr apart ↦ (u, rw (find-put i k v d, apart) h)
]

pub put-Has_key : {V : Type 0} (k : EntityKey) (v : V) (d : Dict EntityKey V) → Has (put k v d) k
put-Has_key k v d = (v, rw (find-put k k v d, entity_key.same_self k) refl)

add_keys-Has : (ks : List EntityKey) (d : Counts) (i : EntityKey) → Has d i → Has (add_keys ks d) i
unfolding add_keys
add_keys-Has [] d i h = h
add_keys-Has (k ∷ ks) d i h =
    let n = count_or_0 (find k d) + 1 in add_keys-Has ks (put k n d) i (put-Has i k n d h)

add_keys-All : (ks : List EntityKey) (d : Counts) → All (Has (add_keys ks d)) ks
unfolding add_keys
add_keys-All [] d = tt
add_keys-All (k ∷ ks) d =
    let n = count_or_0 (find k d) + 1 in
    (add_keys-Has ks (put k n d) k (put-Has_key k n d), add_keys-All ks (put k n d))

document_frequency-Has :
    (docs : Dict Text Counts) (d : Counts) (i : EntityKey)
    → Has d i
    → Has (document_frequency docs d) i
unfolding document_frequency
document_frequency-Has [] d i h = h
document_frequency-Has ((doc_id, counts) ∷ docs) d i h =
    let ks = entity_keys counts in
    document_frequency-Has docs (add_keys ks d) i (add_keys-Has ks d i h)

-- Each entity of a document is counted.
pub document_frequency-All :
    (doc_id : Text) (docs : Dict Text Counts) (d : Counts)
    → All (Has (document_frequency docs d)) (entity_keys (counts_or_empty (find doc_id docs)))
unfolding document_frequency find
document_frequency-All doc_id [] d = tt
document_frequency-All doc_id ((j, counts) ∷ docs) d =
    let ks = entity_keys counts in
    let df = add_keys ks d in
    if_both (λ o. All (Has (document_frequency docs df)) (entity_keys (counts_or_empty o)))
      (text_key.same j doc_id)
      (λ _.
        All-imp (Has df) (Has (document_frequency docs df)) (document_frequency-Has docs df) ks
          (add_keys-All ks d))
      (λ _. document_frequency-All doc_id docs df)

pub map-Has :
    {V V' : Type 0} (f : V → V') (d : Dict EntityKey V) (k : EntityKey)
    → Has d k
    → Has (map (λ (e : EntityKey × V). (e.0, f e.1)) d) k
unfolding find
map-Has f [] k (v, h) = absurd cc
map-Has f ((j, u) ∷ d) k (v, h) = elim (Bool-cases (entity_key.same j k)) [
  | inl here ↦ (f u, rw here refl)
  | inr later ↦ let (w, found) = map-Has f d k (v, rw later at h) in (w, rw later found)
]

later-Has :
    {V : Type 0} (e : EntityKey × V) (d : Dict EntityKey V) (k : EntityKey)
    → Has d k
    → Has (e ∷ d) k
unfolding find
later-Has (j, u) d k (v, h) = elim (Bool-cases (entity_key.same j k)) [
  | inl here ↦ (u, rw here refl)
  | inr later ↦ (v, rw later h)
]

pub entity_keys-All : (counts : Counts) → All (Has counts) (entity_keys counts)
unfolding find
entity_keys-All [] = tt
entity_keys-All ((k, n) ∷ counts) = (
  (n, rw (entity_key.same_self k) refl),
  All-imp (Has counts) (Has ((k, n) ∷ counts)) (later-Has (k, n) counts) (entity_keys counts)
      (entity_keys-All counts),
)

module _ (P Q : EntityKey → Type 0) (test : EntityKey → Bool) where
  pub filter-All :
      ((k : EntityKey) → P k → test k ≡ true → Q k)
      → (ks : List EntityKey) → All P ks
      → All Q (filter test ks)
  filter-All good [] h = tt
  filter-All good (k ∷ ks) (h, hs) =
      if_both (All Q) (test k) (λ yes. (good k h yes, filter-All good ks hs))
        (λ _. filter-All good ks hs)

pub is_in-Has : (d : Counts) (k : EntityKey) → is_in (find k d) ≡ true → Has d k
is_in-Has d k h = found (find k d) h
  where
    found : (o : Option ℕ) → is_in o ≡ true → (n : ℕ) × (o ≡ some n)
    found none h = absurd cc
    found (some n) h = (n, refl)
