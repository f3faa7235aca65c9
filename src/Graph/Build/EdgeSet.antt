-- ===== src/Graph/Build/EdgeSet.antt =====
-- The edges that are built can be stored.
use docmesh.Prelude.{
  ◌≡◌, ◌⊎◌, refl, sym, subst, ◌∙◌, Bool, true, false, ◌||◌, List, [], ◌∷◌, ◌++◌, All, All-append,
  if_both, Bool-cases, inl, inr, arith,
}
use docmesh.Text.{Text, text_eq, text_eq_self, eq_of_text_eq}
use docmesh.Graph.Schemas.{Scores, GraphSettings, EdgeCreate}
use docmesh.Graph.Order.{text_lt, sorted_pair, text_lt_total}
use docmesh.Graph.Edges.{joins}
use docmesh.Graph.Edges.Stored.{IsEdgeSet}
use docmesh.Graph.Build.{Signals, edge_between, combined, edges_from, edges_of}

-- No text stands twice.
abbrev pub IsDistinct : List Text → Type 0
IsDistinct [] = Unit
IsDistinct (i ∷ is) = All (λ j. text_eq i j ≡ false) is × IsDistinct is

differ : (i j : Text) → text_eq i j ≡ false → i ≡ j → ⊥
differ i j h e =
    let same : text_eq i i ≡ false = subst (λ k. text_eq i k ≡ false) (sym e) h in
    let bad : true ≡ false = sym (text_eq_self i) ∙ same in absurd cc

-- The two members of a sorted pair.
sorted_pair-cases : (i j : Text) → (sorted_pair i j ≡ (i, j)) ⊎ (sorted_pair i j ≡ (j, i))
unfolding sorted_pair
sorted_pair-cases i j =
    if_both (λ (p : Text × Text). (p ≡ (i, j)) ⊎ (p ≡ (j, i))) (text_lt j i) (λ _. inr refl)
      (λ _. inl refl)

sorted_pair_lt :
    (i j : Text) → text_eq i j ≡ false → text_lt (sorted_pair i j).0 (sorted_pair i j).1 ≡ true
unfolding sorted_pair
sorted_pair_lt i j h =
    if_both (λ (p : Text × Text). text_lt p.0 p.1 ≡ true) (text_lt j i) (λ less. less)
      (λ not_less. elim (Bool-cases (text_lt i j)) [
        | inl less ↦ less
        | inr same ↦ absurd (differ i j h (text_lt_total i j same not_less))
      ])

text_eq_sym : (a b : Text) → text_eq a b ≡ text_eq b a
unfolding text_eq
text_eq_sym [] [] = refl
text_eq_sym [] (d ∷ t) = refl
text_eq_sym (c ∷ s) [] = refl
text_eq_sym (c ∷ s) (d ∷ t) = ground (arith, text_eq_sym s t)

module _ {W : Type 0} where
  -- Is the text one of the documents of the edge?
  abbrev touches : Text → EdgeCreate W → Bool
  touches x e = text_eq x e.source_doc_id || text_eq x e.target_doc_id

  apart :
      (x : Text) (item other : EdgeCreate W)
      → touches x item ≡ true
      → touches x other ≡ false
      → joins other.source_doc_id other.target_doc_id item ≡ false
  apart x item other h k = elim (Bool-cases (joins other.source_doc_id other.target_doc_id item)) [
    | inl same ↦
        let source_eq : item.source_doc_id ≡ other.source_doc_id =
          eq_of_text_eq _ _ (ground (arith, same)) in
        let target_eq : item.target_doc_id ≡ other.target_doc_id =
          eq_of_text_eq _ _ (ground (arith, same)) in
        let moved : touches x other ≡ true =
          subst (λ t. (text_eq x other.source_doc_id || text_eq x t) ≡ true) target_eq
            (subst (λ t. (text_eq x t || text_eq x item.target_doc_id) ≡ true) source_eq h) in
        absurd (ground (arith, k, moved))
    | inr other_pair ↦ other_pair
  ]

  all_apart :
      (x : Text) (item : EdgeCreate W) (others : List (EdgeCreate W))
      → touches x item ≡ true
      → All (λ e. touches x e ≡ false) others
      → All
          (λ (other : EdgeCreate W). joins other.source_doc_id other.target_doc_id item ≡ false)
          others
  all_apart x item [] h k = tt
  all_apart x item (other ∷ others) h (k, ks) =
      (apart x item other h k, all_apart x item others h ks)

module _ {W : Type 0} ⦃s : Scores W⦄ (g : GraphSettings W) (signals : Signals W)
    (params_hash : Text) where
  touches-edge_between :
      (x i j : Text)
      → touches x (edge_between g signals params_hash i j) ≡ (text_eq x i || text_eq x j)
  unfolding edge_between
  touches-edge_between x i j = elim (sorted_pair-cases i j) [
    | inl straight ↦ rw straight refl
    | inr flipped ↦ rw flipped (ground arith)
  ]

  edges_from-untouched :
      (x i : Text) (js : List Text)
      → text_eq x i ≡ false
      → All (λ j. text_eq x j ≡ false) js
      → All (λ e. touches x e ≡ false) (edges_from g signals params_hash i js)
  unfolding edges_from
  edges_from-untouched x i [] h k = tt
  edges_from-untouched x i (j ∷ js) h (k, ks) =
      let rest = edges_from-untouched x i js h ks in
      if_both (All λ e. touches x e ≡ false)
        (s.lt (combined g signals params_hash i j) g.edge_threshold) (λ _. rest)
        (λ _. (touches-edge_between x i j ∙ ground (arith, h, k), rest))

  edges_of-untouched :
      (x : Text) (is : List Text)
      → All (λ j. text_eq x j ≡ false) is
      → All (λ e. touches x e ≡ false) (edges_of g signals params_hash is)
  unfolding edges_of
  edges_of-untouched x [] h = tt
  edges_of-untouched x (i ∷ is) (h, hs) =
      All-append (λ e. touches x e ≡ false) (edges_from g signals params_hash i is)
        (edges_of g signals params_hash is) (edges_from-untouched x i is h hs)
        (edges_of-untouched x is hs)

  edges_from-IsEdgeSet :
      (i : Text) (js : List Text) (more : List (EdgeCreate W))
      → All (λ j. text_eq i j ≡ false) js
      → IsDistinct js
      → All (λ e. touches i e ≡ false) more
      → IsEdgeSet more
      → IsEdgeSet (edges_from g signals params_hash i js ++ more)
  unfolding edges_from
  edges_from-IsEdgeSet i [] more h d k set = set
  edges_from-IsEdgeSet i (j ∷ js) more (h, hs) (d, ds) k set =
      let e = edge_between g signals params_hash i j in
      let later = edges_from g signals params_hash i js in
      let rest = edges_from-IsEdgeSet i js more hs ds k set in
      let with_i : touches i e ≡ true =
        touches-edge_between i i j ∙ ground (arith, text_eq_self i) in
      let with_j : touches j e ≡ true =
        touches-edge_between j i j ∙ ground (arith, text_eq_self j) in
      let others =
        All-append
          (λ (other : EdgeCreate W). joins other.source_doc_id other.target_doc_id e ≡ false) later
          more (all_apart j e later with_j (edges_from-untouched j i js (text_eq_sym j i ∙ h) d))
          (all_apart i e more with_i k) in
      if_both (λ es. IsEdgeSet (es ++ more))
        (s.lt (combined g signals params_hash i j) g.edge_threshold) (λ _. rest)
        (λ _. (sorted_pair_lt i j h, others, rest))

  -- Of documents with distinct ids, the edges that are built join their documents in order, and
  -- each pair once: the table takes them.
  pub edges_of-IsEdgeSet :
      (is : List Text) → IsDistinct is → IsEdgeSet (edges_of g signals params_hash is)
  unfolding edges_of
  edges_of-IsEdgeSet [] d = tt
  edges_of-IsEdgeSet (i ∷ is) (d, ds) =
      edges_from-IsEdgeSet i is (edges_of g signals params_hash is) d ds (edges_of-untouched i is d)
        (edges_of-IsEdgeSet is ds)
