-- ===== src/Graph/Semantic/Top.antt =====
-- The chosen indices of a raveled block are indices of it, as many as are asked for.
use docmesh.Prelude.{
  reverse-All, length-reverse, drop-All, gather-All, all_units, ℕ, ◌-◌, ◌≤◌, ◌<◌, ◌≡◌, refl, subst,
  some, false, List, All, length, length-drop, drop, arith, ◌==◌,
}
use mathlib.Core.List.{reverse}
use docmesh.Graph.Semantic.{NumPy, top_of, from_end}

-- `argpartition` and `argsort` give the indices of the array in some order.
pub record IsNumPy {W : Type 0} (np : NumPy W) : Type 0 where
  pub partition-valid :
      (xs : List W) (kth : ℕ) → kth < length xs → All (λ p. p < length xs) (np.argpartition xs kth)
  pub length-partition :
      (xs : List W) (kth : ℕ) → kth < length xs → length (np.argpartition xs kth) ≡ length xs
  pub sort-valid : (xs : List W) → All (λ p. p < length xs) (np.argsort xs)
  pub length-sort : (xs : List W) → length (np.argsort xs) ≡ length xs

module _ {W : Type 0} (np : NumPy W) (laws : IsNumPy np) where
  -- The chosen `k` are `k` indices.
  pub top_of-valid :
      (flat : List W) (k : ℕ)
      → 0 < k
      → k ≤ length flat
      → (top : List ℕ) × (top_of np flat k ≡ some top)
        × (length top ≡ k)
        × All (λ p. p < length flat) top
  unfolding top_of
  top_of-valid flat k pos le =
      let n = length flat in
      let kth = from_end k n in
      let some_k : (k == 0) ≡ false = ground arith in
      let kth_eq : kth ≡ n - k = rw some_k refl in
      let inside : kth < n = omega (arith, kth_eq) in
      let indices = np.argpartition flat kth in
      let top = drop kth indices in
      let below = drop-All (λ p. p < n) kth indices (laws.partition-valid flat kth inside) in
      let (found, eq, len, _) = gather-All (λ _. Unit) flat top (all_units flat) below in
      let order = reverse (np.argsort found) in
      let order_below : All (λ p. p < length top) order =
        reverse-All (λ p. p < length top) (np.argsort found)
          (subst (λ m. All (λ p. p < m) (np.argsort found)) len (laws.sort-valid found)) in
      let (best, best_eq, best_len, good) = gather-All (λ p. p < n) top order below order_below in
      (
        best,
        rw (eq, best_eq) refl,
        omega (
          arith,
          kth_eq,
          best_len,
          length-reverse (np.argsort found),
          laws.length-sort found,
          len,
          length-drop kth indices,
          laws.length-partition flat kth inside,
        ),
        good,
      )
