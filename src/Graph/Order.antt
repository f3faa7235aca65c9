-- ===== src/Graph/Order.antt =====
-- Document ids in lexical order, as Python compares texts and as the table's CHECK does.
use docmesh.Prelude.{
  ◌≡◌, refl, Bool, true, false, ◌&&◌, ◌||◌, [], ◌∷◌, ltb, ◌==◌, if◌then◌else◌, arith, Bool-cases,
  inl, inr,
}
use docmesh.Text.{Text}

-- `s < t`
unfoldable pub text_lt : Text → Text → Bool
text_lt [] [] = false
text_lt [] (d ∷ t) = true
text_lt (c ∷ s) [] = false
text_lt (c ∷ s) (d ∷ t) = ltb c d || (c == d && text_lt s t)

-- `sorted((a, b))`
unfoldable pub sorted_pair : Text → Text → Text × Text
unfolding text_lt
sorted_pair a b = if text_lt b a then (b, a) else (a, b)

pub text_lt_asym : (s t : Text) → text_lt s t ≡ true → text_lt t s ≡ false
unfolding text_lt
text_lt_asym [] [] h = refl
text_lt_asym [] (d ∷ t) h = refl
text_lt_asym (c ∷ s) [] h = cc
text_lt_asym (c ∷ s) (d ∷ t) h = ground (arith, text_lt_asym s t)

pub text_lt_total : (s t : Text) → text_lt s t ≡ false → text_lt t s ≡ false → s ≡ t
unfolding text_lt
text_lt_total [] [] h k = refl
text_lt_total [] (d ∷ t) h k = cc
text_lt_total (c ∷ s) [] h k = cc
text_lt_total (c ∷ s) (d ∷ t) h k =
    let head : c ≡ d = ground arith in
    let tail : s ≡ t = text_lt_total s t (ground arith) (ground arith) in rw (head, tail) refl

-- A pair is sorted the same way from either side.
pub sorted_pair_comm : (a b : Text) → sorted_pair a b ≡ sorted_pair b a
unfolding sorted_pair
sorted_pair_comm a b = elim (Bool-cases (text_lt b a)) [
  | inl less ↦ rw (less, text_lt_asym b a less) refl
  | inr not_less ↦ elim (Bool-cases (text_lt a b)) [
    | inl less ↦ rw (less, not_less) refl
    | inr same ↦ rw (not_less, same, text_lt_total b a not_less same) refl
  ]
]
