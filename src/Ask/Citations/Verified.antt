-- ===== src/Ask/Citations/Verified.antt =====
-- The markers that `parse_citations` returns.
use docmesh.Prelude.{
  ℕ, ◌≡◌, refl, ◌∙◌, false, not, ◌&&◌, ◌||◌, List, [], ◌∷◌, ◌++◌, flat_map, length, ◌==◌, if_both,
  arith, Bool-cases, inl, inr,
}
use docmesh.Text.{Text, Unicode}
use docmesh.Llm.Decimal.{Digits}
use docmesh.Ask.Citations.{
  is_valid, member, see, see_all, token_numbers, markers, tokens, parse_citations,
}

-- No number stands twice.
abbrev pub IsDistinct : List ℕ → Type 0
IsDistinct [] = Unit
IsDistinct (n ∷ ns) = (member n ns ≡ false) × IsDistinct ns

member-append : (n : ℕ) (xs : List ℕ) (m : ℕ) → member n (xs ++ m ∷ []) ≡ (member n xs || (n == m))
member-append n [] m = ground arith
member-append n (x ∷ xs) m = ground (arith, member-append n xs m)

append-IsDistinct :
    (xs : List ℕ) (m : ℕ) → IsDistinct xs → member m xs ≡ false → IsDistinct (xs ++ m ∷ [])
append-IsDistinct [] m d h = (refl, tt)
append-IsDistinct (x ∷ xs) m d h =
    (member-append x xs m ∙ ground (arith, d.0), append-IsDistinct xs m d.1 (ground arith))

module _ (valid_max : ℕ) where
  member-see :
      (n : ℕ) (seen : List ℕ) (m : ℕ)
      → member n (see valid_max seen m) ≡ (member n seen || (is_valid valid_max n && (n == m)))
  member-see n seen m = elim (Bool-cases (n == m)) [
    | inl same ↦ ground (arith, member-append n seen m)
    | inr other ↦ ground (arith, member-append n seen m)
  ]

  see-IsDistinct : (seen : List ℕ) (m : ℕ) → IsDistinct seen → IsDistinct (see valid_max seen m)
  see-IsDistinct seen m d =
      if_both IsDistinct (is_valid valid_max m && not (member m seen))
        (λ new. append-IsDistinct seen m d (ground (arith, new))) (λ _. d)

  member-see_all :
      (n : ℕ) (seen ns : List ℕ)
      → member n (see_all valid_max seen ns)
        ≡ (member n seen || (is_valid valid_max n && member n ns))
  unfolding see_all
  member-see_all n seen [] = ground arith
  member-see_all n seen (m ∷ ns) =
      ground (arith, member-see_all n (see valid_max seen m) ns, member-see n seen m)

  see_all-IsDistinct : (seen ns : List ℕ) → IsDistinct seen → IsDistinct (see_all valid_max seen ns)
  unfolding see_all
  see_all-IsDistinct seen [] d = d
  see_all-IsDistinct seen (n ∷ ns) d =
      see_all-IsDistinct (see valid_max seen n) ns (see-IsDistinct seen n d)

module _ ⦃u : Unicode⦄ ⦃d : Digits⦄ where
  -- The citations of an answer are distinct, and they are exactly the numbers of its markers that
  -- count a source: those from 1 to the number of sources.
  pub parse_citations-IsVerified :
      (answer : Text) (valid_max : ℕ)
      → IsDistinct (parse_citations answer valid_max).1
        × ((n : ℕ)
            → member n (parse_citations answer valid_max).1 ≡ (
                is_valid valid_max n
                && member n (flat_map token_numbers (tokens (length answer) answer))))
  unfolding parse_citations markers
  parse_citations-IsVerified answer valid_max =
      let ns = flat_map token_numbers (tokens (length answer) answer) in
      (see_all-IsDistinct valid_max [] ns tt, λ n. member-see_all valid_max n [] ns)
