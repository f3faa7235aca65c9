-- ===== src/Text/Runs.antt =====
-- `finditer` for `[…]+`: the maximal runs of characters with a property.
pub mod Cover
use docmesh.Prelude.{
  ℕ, ◌+◌, Bool, true, false, not, Option, none, some, List, [], ◌∷◌, map, slice, if◌then◌else◌,
}
use docmesh.Text.Spans.{Text, Unicode, Span}

-- One more character, at index `i`: `b` says whether it has the property, and the option holds the
-- start of a run that is open.
abbrev next : Bool → ℕ → Option ℕ → Option ℕ
next true i none = some i
next true i (some s) = some s
next false i st = none

-- A run that the character ends is put out.
abbrev emit : Bool → ℕ → Option ℕ → List Span → List Span
emit true i st rest = rest
emit false i none rest = rest
emit false i (some s) rest = (s, i) ∷ rest

runs_from : (ℕ → Bool) → ℕ → Option ℕ → Text → List Span
runs_from p i st [] = emit false i st []
runs_from p i st (c ∷ t) = emit (p c) i st (runs_from p (i + 1) (next (p c) i st) t)

unfoldable pub runs : (ℕ → Bool) → Text → List Span
unfolding runs_from
runs p t = runs_from p 0 none t

module _ ⦃u : Unicode⦄ where
  -- `re.finditer(r"\S+", t)`
  unfoldable pub words : Text → List Span
  unfolding runs
  words t = runs (λ c. not (u.is_space c)) t

  -- `re.findall(r"\S+", t)`, which is also `t.split()`
  unfoldable pub split : Text → List Text
  unfolding words
  split t = map (λ ((s, e) : Span). slice t s e) (words t)

  abbrev pub starts_space : Text → Bool
  starts_space [] = false
  starts_space (c ∷ t) = u.is_space c

  -- `re.sub(r"\s+", " ", t)`
  unfoldable pub collapse_space : Text → Text
  collapse_space [] = []
  collapse_space (c ∷ t) =
      let rest = collapse_space t in
      if u.is_space c then (if starts_space t then rest else 32 ∷ rest) else c ∷ rest
