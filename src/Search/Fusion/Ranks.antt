-- ===== src/Search/Fusion/Ranks.antt =====
-- The ranks by id are the best ones, and the keys of two rankings stand once.
use docmesh.Prelude.{
  ℕ, suc, ◌+◌, ◌≡◌, refl, sym, ap, ◌∙◌, Bool, true, false, not, ◌&&◌, ◌||◌, Option, none, some,
  List, [], ◌∷◌, ◌++◌, filter, if◌then◌else◌, if_both, arith, Bool-cases, inl, inr,
}
use docmesh.Text.{Text, text_eq, text_eq_self, eq_of_text_eq}
use docmesh.Search.Fusion.{Ranks, is_present, find_rank, set_default, rank_from, keys, all_keys}

abbrev pub one_if : Bool → ℕ
one_if true = 1
one_if false = 0

abbrev pub occurrences : Text → List Text → ℕ
occurrences i [] = 0
occurrences i (j ∷ r) = one_if (text_eq j i) + occurrences i r

occurrences-append :
    (i : Text) (xs ys : List Text) → occurrences i (xs ++ ys) ≡ occurrences i xs + occurrences i ys
occurrences-append i [] ys = omega arith
occurrences-append i (x ∷ xs) ys = omega (arith, occurrences-append i xs ys)

occurrences-filter :
    (p : Text → Bool) (i : Text) (xs : List Text)
    → occurrences i (filter p xs) ≡ (if p i then occurrences i xs else 0)
occurrences-filter p i [] = if_both (λ n. 0 ≡ n) (p i) (λ _. refl) (λ _. refl)
occurrences-filter p i (x ∷ xs) = elim (Bool-cases (text_eq x i)) [
  | inl same ↦
      rw (eq_of_text_eq x i same) (ground (arith, occurrences-filter p i xs, text_eq_self i))
  | inr other ↦ ground (arith, other, occurrences-filter p i xs)
]

module _ {W : Type 0} where
  -- The first place of the chunk in the ranking from `rank` on, with its score.
  abbrev pub best_rank : ℕ → Text → List (Text × W) → Option (ℕ × W)
  best_rank rank i [] = none
  best_rank rank i ((j, score) ∷ r) =
      if text_eq j i then some (rank, score) else best_rank (suc rank) i r

  abbrev first_of : Option (ℕ × W) → Option (ℕ × W) → Option (ℕ × W)
  first_of none b = b
  first_of (some a) b = some a

  first_of-none : (a : Option (ℕ × W)) → a ≡ first_of a none
  first_of-none none = refl
  first_of-none (some a) = refl

  first_of_assoc : (a b c : Option (ℕ × W)) → first_of (first_of a b) c ≡ first_of a (first_of b c)
  first_of_assoc none b c = refl
  first_of_assoc (some a) b c = refl

  first_of-if :
      (b : Bool) (v : ℕ × W) (a : Option (ℕ × W))
      → first_of (if b then some v else none) a ≡ (if b then some v else a)
  first_of-if true v a = refl
  first_of-if false v a = refl

  find_rank-set_default :
      (i k : Text) (v : ℕ × W) (d : Ranks W)
      → find_rank k (set_default i v d)
        ≡ first_of (find_rank k d) (if text_eq i k then some v else none)
  unfolding find_rank set_default
  find_rank-set_default i k v [] = refl
  find_rank-set_default i k v ((j, u) ∷ d) = elim (Bool-cases (text_eq j i)) [
    | inl here ↦
        rw (eq_of_text_eq j i here, text_eq_self i)
          (elim (Bool-cases (text_eq i k)) [
            | inl same ↦ rw same refl
            | inr other ↦ rw other (first_of-none (find_rank k d))
          ])
    | inr later ↦ rw later (elim (Bool-cases (text_eq j k)) [
      | inl same ↦ rw same refl
      | inr other ↦ rw other (find_rank-set_default i k v d)
    ])
  ]

  pub find_rank-rank_from :
      (rank : ℕ) (out : Ranks W) (k : Text) (r : List (Text × W))
      → find_rank k (rank_from rank out r) ≡ first_of (find_rank k out) (best_rank rank k r)
  unfolding rank_from
  find_rank-rank_from rank out k [] = first_of-none (find_rank k out)
  find_rank-rank_from rank out k ((i, score) ∷ r) =
      find_rank-rank_from (suc rank) (set_default i (rank, score) out) k r
      ∙ rw (find_rank-set_default i k (rank, score) out) (
          first_of_assoc (find_rank k out) (if text_eq i k then some (rank, score) else none)
            (best_rank (suc rank) k r)
          ∙ ap (first_of (find_rank k out))
              (first_of-if (text_eq i k) (rank, score) (best_rank (suc rank) k r)))

  occurrences-set_default :
      (i k : Text) (v : ℕ × W) (d : Ranks W)
      → occurrences k (keys (set_default i v d))
        ≡ occurrences k (keys d) + one_if (text_eq i k && not (is_present (find_rank i d)))
  unfolding set_default find_rank
  occurrences-set_default i k v [] = ground arith
  occurrences-set_default i k v ((j, u) ∷ d) = elim (Bool-cases (text_eq j i)) [
    | inl here ↦ ground (arith, here)
    | inr later ↦ ground (arith, later, occurrences-set_default i k v d)
  ]

  is_present-first_of :
      (a : Option (ℕ × W)) (v : ℕ × W)
      → one_if (is_present a) + one_if (not (is_present a))
        ≡ one_if (is_present (first_of a (some v)))
  is_present-first_of none v = refl
  is_present-first_of (some a) v = refl

  -- No key stands twice.
  abbrev pub Single : Ranks W → Type 0
  Single d = (k : Text) → occurrences k (keys d) ≡ one_if (is_present (find_rank k d))

  set_default-Single : (i : Text) (v : ℕ × W) (d : Ranks W) → Single d → Single (set_default i v d)
  set_default-Single i v d h k =
      occurrences-set_default i k v d
      ∙ rw (h k, find_rank-set_default i k v d)
          (elim (Bool-cases (text_eq i k)) [
            | inl same ↦
                rw (eq_of_text_eq i k same, text_eq_self k) (is_present-first_of (find_rank k d) v)
            | inr other ↦ rw (other, sym (first_of-none (find_rank k d))) (omega arith)
          ])

  pub rank_from-Single :
      (rank : ℕ) (d : Ranks W) (r : List (Text × W)) → Single d → Single (rank_from rank d r)
  unfolding rank_from
  rank_from-Single rank d [] h = h
  rank_from-Single rank d ((i, score) ∷ r) h =
      rank_from-Single (suc rank) (set_default i (rank, score) d) r
        (set_default-Single i (rank, score) d h)

  pub occurrences-all_keys :
      (d b : Ranks W)
      → Single d
      → Single b
      → (k : Text)
      → occurrences k (all_keys d b)
        ≡ one_if (is_present (find_rank k d) || is_present (find_rank k b))
  unfolding all_keys
  occurrences-all_keys d b h g k = ground (
    arith,
    occurrences-append k (keys d) (filter (λ i. not (is_present (find_rank i d))) (keys b)),
    occurrences-filter (λ i. not (is_present (find_rank i d))) k (keys b),
    h k,
    g k,
  )
