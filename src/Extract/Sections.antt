-- ===== src/Extract/Sections.antt =====
-- The section tracker: a heading of level L replaces the entries of level L and below, and keeps
-- its ancestors.
use docmesh.Prelude.{
  ℕ, ◌≤◌, ◌<◌, ◌≡◌, refl, [], ◌∷◌, ◌++◌, ltb, filter, All, All-append, All-imp, Bool-cases, inl,
  inr, true, arith, ap, ◌∙◌, if_both,
}
use docmesh.Text.{Text}
use docmesh.Extract.Base.{Stack, pop_cons, pop_from, on_heading}

-- The levels grow from the outermost section to the innermost.
abbrev pub IsNested : Stack → Type 0
IsNested [] = Unit
IsNested (e ∷ s) = All (λ (d : ℕ × Text). e.0 < d.0) s × IsNested s

abbrev pub ancestors : ℕ → Stack → Stack
ancestors level s = filter (λ (e : ℕ × Text). ltb e.0 level) s

filter-none :
    (level : ℕ) (s : Stack) → All (λ (d : ℕ × Text). level ≤ d.0) s → ancestors level s ≡ []
filter-none level [] h = refl
filter-none level (e ∷ s) h = ground (arith, filter-none level s h.1)

pop_cons_kept :
    (level : ℕ) (e : ℕ × Text) (s : Stack) → ltb e.0 level ≡ true → pop_cons level e s ≡ e ∷ s
pop_cons_kept level e [] h = ground arith
pop_cons_kept level e (d ∷ s) h = refl

pop_from-eq : (level : ℕ) (s : Stack) → IsNested s → pop_from level s ≡ ancestors level s
unfolding pop_from
pop_from-eq level [] h = refl
pop_from-eq level (e ∷ s) h =
    ap (pop_cons level e) (pop_from-eq level s h.1) ∙ elim (Bool-cases (ltb e.0 level)) [
      | inl low ↦ rw low (pop_cons_kept level e (ancestors level s) low)
      | inr high ↦
          rw high
            (rw (filter-none level s (All-imp _ _ (λ d l. ground arith) s h.0)) (ground arith))
    ]

-- On a nested stack a heading keeps exactly the entries of a smaller level, in order, and stands
-- behind them.
pub on_heading-eq-ancestors :
    (level : ℕ) (text : Text) (s : Stack)
    → IsNested s
    → on_heading level text s ≡ ancestors level s ++ (level, text) ∷ []
unfolding on_heading
on_heading-eq-ancestors level text s h = ap (λ l. l ++ (level, text) ∷ []) (pop_from-eq level s h)

All-ancestors :
    (k level : ℕ) (s : Stack)
    → All (λ (d : ℕ × Text). k < d.0) s
    → All (λ (d : ℕ × Text). k < d.0) (ancestors level s)
All-ancestors k level [] h = tt
All-ancestors k level (e ∷ s) h =
    if_both (All (λ (d : ℕ × Text). k < d.0)) (ltb e.0 level)
      (λ _. (h.0, All-ancestors k level s h.1)) (λ _. All-ancestors k level s h.1)

ancestors-IsNested :
    (level : ℕ) (text : Text) (s : Stack)
    → IsNested s
    → IsNested (ancestors level s ++ (level, text) ∷ [])
ancestors-IsNested level text [] h = (tt, tt)
ancestors-IsNested level text (e ∷ s) h =
    if_both (λ l. IsNested (l ++ (level, text) ∷ [])) (ltb e.0 level)
      (λ low. (
        All-append _ (ancestors level s) _ (All-ancestors e.0 level s h.0) (ground arith, tt),
        ancestors-IsNested level text s h.1,
      ))
      (λ _. ancestors-IsNested level text s h.1)

-- The tracker keeps the levels of its stack growing.
pub on_heading-IsNested :
    (level : ℕ) (text : Text) (s : Stack) → IsNested s → IsNested (on_heading level text s)
on_heading-IsNested level text s h =
    rw (on_heading-eq-ancestors level text s h) (ancestors-IsNested level text s h)
