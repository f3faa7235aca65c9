-- ===== src/Graph/Semantic/Blocks.antt =====
-- The block of two documents is the table of their own rows.
use docmesh.Prelude.{
  ℕ, zero, suc, ◌+◌, ◌-◌, ◌*◌, ◌<◌, ◌≡◌, refl, sym, ap, ◌∙◌, some, List, [], ◌∷◌, ◌++◌,
  append_assoc, All, map, length, length-append, length-map, take, drop, slice, slice-append,
  slice_end, get_elem?, get_elem?-append_left, get_elem?-append_right, arith,
}
use mathlib.Core.List.{flatten}
use native.Mathlib.Nat.{suc-mul}
use docmesh.Ingest.Exec.{Vector}
use docmesh.Graph.Semantic.{DocVectors, NumPy, Placed, placed, stack, similarities, block_between}

abbrev pub IsPlaced : List Vector → Placed → Type 0
IsPlaced stacked p =
    (slice stacked p.start p.stop ≡ p.doc.matrix) × (p.stop ≡ p.start + length p.doc.matrix)

module _ (P : DocVectors → Type 0) where
  -- The offsets of each document cut its rows out of the stack.
  pub placed-All :
      (ds : List DocVectors) (stacked pre : List Vector) (n : ℕ)
      → stacked ≡ pre ++ stack ds
      → n ≡ length pre
      → All P ds
      → All (λ p. IsPlaced stacked p × P p.doc) (placed n ds)
  unfolding placed flatten
  placed-All [] stacked pre n split at_n h = tt
  placed-All (d ∷ ds) stacked pre n split at_n (h, hs) =
      let m = d.matrix in
      let split' : stacked ≡ (pre ++ m) ++ stack ds = split ∙ sym (append_assoc pre m (stack ds)) in
      let both = length-append pre m in
      let cut : slice stacked n (n + length m) ≡ m =
        ap (λ (l : List Vector). slice l n (n + length m)) split'
        ∙ slice-append (pre ++ m) (stack ds) n (n + length m) (omega arith) (omega (arith, both))
        ∙ slice_end pre m n (n + length m) at_n (omega arith) in
      (
        ((cut, refl), h),
        placed-All ds stacked (pre ++ m) (n + length m) split' (omega (arith, both)) hs,
      )

module _ {A B : Type 0} (f : A → B) where
  take-map : (n : ℕ) (xs : List A) → take n (map f xs) ≡ map f (take n xs)
  take-map zero xs = refl
  take-map (suc n) [] = refl
  take-map (suc n) (x ∷ xs) = ap (λ l. f x ∷ l) (take-map n xs)

  drop-map : (n : ℕ) (xs : List A) → drop n (map f xs) ≡ map f (drop n xs)
  drop-map zero xs = refl
  drop-map (suc n) [] = refl
  drop-map (suc n) (x ∷ xs) = drop-map n xs

  slice-map : (xs : List A) (a b : ℕ) → slice (map f xs) a b ≡ map f (slice xs a b)
  slice-map xs a b = ap (take (b - a)) (drop-map a xs) ∙ take-map (b - a) (drop a xs)

module _ {W : Type 0} (np : NumPy W) where
  -- The products of each row of the one with each row of the other.
  abbrev pub table : List Vector → List Vector → List (List W)
  table m n = map (λ u. map (np.dot u) n) m

  sliced_rows :
      (stacked m n : List Vector) (a b : ℕ)
      → slice stacked a b ≡ n
      → map (λ (row : List W). slice row a b) (table m stacked) ≡ table m n
  sliced_rows stacked [] n a b h = refl
  sliced_rows stacked (u ∷ m) n a b h =
      rw (slice-map (np.dot u) stacked a b, h, sliced_rows stacked m n a b h) refl

  pub block_between-eq-table :
      (stacked : List Vector) (a b : Placed)
      → IsPlaced stacked a
      → IsPlaced stacked b
      → block_between (similarities np stacked) a b ≡ table a.doc.matrix b.doc.matrix
  unfolding block_between similarities
  block_between-eq-table stacked a b (cut_a, _) (cut_b, _) =
      rw (slice-map (λ u. map (np.dot u) stacked) stacked a.start a.stop, cut_a)
        (sliced_rows stacked a.doc.matrix b.doc.matrix b.start b.stop cut_b)

  pub length-table : (m n : List Vector) → length (flatten (table m n)) ≡ length m * length n
  unfolding flatten
  length-table [] n = omega arith
  length-table (u ∷ m) n =
      let row = map (np.dot u) n in
      length-append row (flatten (table m n))
      ∙ rw (length-map (np.dot u) n, length-table m n)
          (omega (arith, suc-mul (length m) (length n)))

  get_elem?-map :
      (u : Vector) (n : List Vector) (c : ℕ)
      → c < length n
      → (v : Vector) × (get_elem? n c ≡ some v)
        × (get_elem? (map (np.dot u) n) c ≡ some (np.dot u v))
  get_elem?-map u [] c h = absurd (omega arith)
  get_elem?-map u (v ∷ n) zero h = (v, refl, refl)
  get_elem?-map u (v ∷ n) (suc c) h = get_elem?-map u n c (omega arith)

  -- The index `r * nb + c` of the raveled table is row `r` and column `c`.
  pub get_elem?-table :
      (m n : List Vector) (r c : ℕ)
      → r < length m
      → c < length n
      → (u v : Vector) × (get_elem? m r ≡ some u)
        × (get_elem? n c ≡ some v)
        × (get_elem? (flatten (table m n)) (r * length n + c) ≡ some (np.dot u v))
  unfolding flatten
  get_elem?-table [] n r c h k = absurd (omega arith)
  get_elem?-table (u ∷ m) n zero c h k =
      let (v, here, there) = get_elem?-map u n c k in
      let row = map (np.dot u) n in
      let inside : c < length row = omega (arith, length-map (np.dot u) n) in
      (
        u,
        v,
        refl,
        here,
        ap (get_elem? (row ++ flatten (table m n))) (omega arith)
            ∙ get_elem?-append_left row (flatten (table m n)) c inside
            ∙ there,
      )
  get_elem?-table (u ∷ m) n (suc r) c h k =
      let (u', v, row, col, found) = get_elem?-table m n r c (omega arith) k in
      let first = map (np.dot u) n in
      let next : suc r * length n + c ≡ length first + (r * length n + c) =
        omega (arith, length-map (np.dot u) n, suc-mul r (length n)) in
      (
        u',
        v,
        row,
        col,
        get_elem?-append_right first (flatten (table m n)) (suc r * length n + c) (r * length n + c)
              next
            ∙ found,
      )
