-- ===== src/Explain/Prompt/Ranked.antt =====
-- `by_similarity` gives the pairs in the order of their similarity, the largest first.
use docmesh.Prelude.{◌≡◌, true, false, List, [], ◌∷◌, All, All-imp, if_both}
use mathlib.Core.List.{Perm}
use mathlib.Core.List.Perm
use docmesh.Graph.{Scores}
use docmesh.Explain.Prompt.{EvidencePair, insert_pair, by_similarity}

-- The scores can be sorted: `<` is asymmetric, and what is not less than either is not less.
pub record IsOrder {W : Type 0} (s : Scores W) : Type 0 where
  pub asym : (x y : W) → s.lt x y ≡ true → s.lt y x ≡ false
  pub not_lt_trans : (x y z : W) → s.lt x y ≡ false → s.lt y z ≡ false → s.lt x z ≡ false

module _ {W : Type 0} ⦃s : Scores W⦄ where
  -- Behind a pair stands none of a larger similarity.
  abbrev pub IsDescending : List (EvidencePair W) → Type 0
  IsDescending [] = Unit
  IsDescending (p ∷ ps) =
      All (λ (q : EvidencePair W). s.lt p.similarity q.similarity ≡ false) ps × IsDescending ps

  module _ (P : EvidencePair W → Type 0) where
    insert_pair-All :
        (p : EvidencePair W) (ps : List (EvidencePair W))
        → P p
        → All P ps
        → All P (insert_pair p ps)
    unfolding insert_pair
    insert_pair-All p [] h hs = (h, tt)
    insert_pair-All p (q ∷ qs) h (k, ks) =
        if_both (All P) (s.lt p.similarity q.similarity) (λ _. (k, insert_pair-All p qs h ks))
          (λ _. (h, (k, ks)))

    pub by_similarity-All : (ps : List (EvidencePair W)) → All P ps → All P (by_similarity ps)
    unfolding by_similarity
    by_similarity-All [] h = tt
    by_similarity-All (p ∷ ps) (h, hs) =
        insert_pair-All p (by_similarity ps) h (by_similarity-All ps hs)

  insert_pair-perm :
      (p : EvidencePair W) (ps : List (EvidencePair W)) → Perm (insert_pair p ps) (p ∷ ps)
  unfolding insert_pair
  insert_pair-perm p [] = Perm.refl (p ∷ [])
  insert_pair-perm p (q ∷ qs) =
      if_both (λ l. Perm l (p ∷ q ∷ qs)) (s.lt p.similarity q.similarity)
        (λ _. Perm.trans (Perm.cons q (insert_pair-perm p qs)) (Perm.swap p q qs))
        (λ _. Perm.refl (p ∷ q ∷ qs))

  pub by_similarity-perm : (ps : List (EvidencePair W)) → Perm (by_similarity ps) ps
  unfolding by_similarity
  by_similarity-perm [] = Perm.refl []
  by_similarity-perm (p ∷ ps) =
      Perm.trans (insert_pair-perm p (by_similarity ps)) (Perm.cons p (by_similarity-perm ps))

  module _ (order : IsOrder s) where
    insert_pair-IsDescending :
        (p : EvidencePair W) (ps : List (EvidencePair W))
        → IsDescending ps
        → IsDescending (insert_pair p ps)
    unfolding insert_pair
    insert_pair-IsDescending p [] h = (tt, tt)
    insert_pair-IsDescending p (q ∷ qs) (h, hs) =
        if_both IsDescending (s.lt p.similarity q.similarity)
          (λ less. (
            insert_pair-All (λ (r : EvidencePair W). s.lt q.similarity r.similarity ≡ false) p qs
                (order.asym p.similarity q.similarity less) h,
            insert_pair-IsDescending p qs hs,
          ))
          (λ first. (
            (
              first,
              All-imp (λ (r : EvidencePair W). s.lt q.similarity r.similarity ≡ false)
                  (λ (r : EvidencePair W). s.lt p.similarity r.similarity ≡ false)
                  (λ r. order.not_lt_trans p.similarity q.similarity r.similarity first) qs h,
            ),
            (h, hs),
          ))

    pub by_similarity-IsDescending : (ps : List (EvidencePair W)) → IsDescending (by_similarity ps)
    unfolding by_similarity
    by_similarity-IsDescending [] = tt
    by_similarity-IsDescending (p ∷ ps) =
        insert_pair-IsDescending p (by_similarity ps) (by_similarity-IsDescending ps)
