-- ===== src/Prelude/Gather.antt =====
-- The elements of a list at some indices.
use Prim.Native.Nat.{ℕ, zero, suc, ◌<◌}
use mathlib.Core.Path.{◌≡◌, refl, sym, ap, ◌∙◌, subst}
use mathlib.Core.List.{List, [], ◌∷◌, reverse, reverse-cons}
use mathlib.Core.Option.{some}
use native.Mathlib.Omega.{arith}
use docmesh.Prelude.Lists.{All, All-append, length, length-append, drop, get_elem?, gather}

module _ {A : Type 0} where
  pub reverse-All : (P : A → Type 0) (xs : List A) → All P xs → All P (reverse xs)
  reverse-All P [] h = tt
  reverse-All P (x ∷ xs) (h, hs) =
      subst (All P) (sym (reverse-cons x xs))
        (All-append P (reverse xs) (x ∷ []) (reverse-All P xs hs) (h, tt))

  pub length-reverse : (xs : List A) → length (reverse xs) ≡ length xs
  length-reverse [] = refl
  length-reverse (x ∷ xs) =
      ap length (reverse-cons x xs)
      ∙ omega (arith, length-append (reverse xs) (x ∷ []), length-reverse xs)

  pub drop-All : (P : A → Type 0) (n : ℕ) (xs : List A) → All P xs → All P (drop n xs)
  drop-All P zero xs h = h
  drop-All P (suc n) [] h = tt
  drop-All P (suc n) (x ∷ xs) (h, hs) = drop-All P n xs hs

  pub get_elem?-some : (xs : List A) (i : ℕ) → i < length xs → (x : A) × (get_elem? xs i ≡ some x)
  get_elem?-some [] i h = absurd (omega arith)
  get_elem?-some (x ∷ xs) zero h = (x, refl)
  get_elem?-some (x ∷ xs) (suc i) h = get_elem?-some xs i (omega arith)

  pub get_elem?-All :
      (P : A → Type 0) (xs : List A) (i : ℕ) (x : A) → All P xs → get_elem? xs i ≡ some x → P x
  get_elem?-All P [] i x h e = absurd cc
  get_elem?-All P (y ∷ xs) zero x (h, hs) e = let same : y ≡ x = cc in subst P same h
  get_elem?-All P (y ∷ xs) (suc i) x (h, hs) e = get_elem?-All P xs i x hs e

  pub gather-All :
      (P : A → Type 0) (xs : List A) (ps : List ℕ)
      → All P xs
      → All (λ p. p < length xs) ps
      → (ys : List A) × (gather xs ps ≡ some ys) × (length ys ≡ length ps) × All P ys
  gather-All P xs [] h ok = ([], refl, refl, tt)
  gather-All P xs (p ∷ ps) h (below, ok) =
      let (y, found) = get_elem?-some xs p below in
      let (ys, eq, len, good) = gather-All P xs ps h ok in
      (y ∷ ys, rw (found, eq) refl, ap suc len, (get_elem?-All P xs p y h found, good))

pub all_units : {A : Type 0} (xs : List A) → All {0, 0} (λ _. Unit) xs
all_units [] = tt
all_units (x ∷ xs) = (tt, all_units xs)
