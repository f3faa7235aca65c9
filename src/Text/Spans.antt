-- ===== src/Text/Spans.antt =====
-- Code points, character classes, stripping, and lists of spans (start, end), end-exclusive.
use Prim.Native.Char.{code}
use Prim.Native.String.{String}
use docmesh.Prelude.{
  ℕ, ◌≤◌, ◌<◌, ◌⊎◌, ◌≡◌, refl, Bool, true, false, ◌&&◌, ◌||◌, none, some, List, [], ◌∷◌, ◌++◌, ◌==◌,
  if◌then◌else◌, get_elem?, arith, inl, inr, filter, if_both,
}

abbrev pub Text : Type 0
Text = List ℕ

-- The code points of a literal.
abbrev pub codes : String → Text
codes String.[] = []
codes (String.◌∷◌ c s) = code c ∷ codes s

-- The tables of the Python runtime.
pub record Unicode : Type 0 where
  pub is_space : ℕ → Bool
  pub is_upper : ℕ → Bool
  pub is_lower : ℕ → Bool
  pub lower : Text → Text

-- `s == t` on texts.
unfoldable pub text_eq : Text → Text → Bool
text_eq [] [] = true
text_eq [] (d ∷ t) = false
text_eq (c ∷ s) [] = false
text_eq (c ∷ s) (d ∷ t) = c == d && text_eq s t

pub eq_of_text_eq : (s t : Text) → text_eq s t ≡ true → s ≡ t
unfolding text_eq
eq_of_text_eq [] [] h = refl
eq_of_text_eq [] (d ∷ t) h = cc
eq_of_text_eq (c ∷ s) [] h = cc
eq_of_text_eq (c ∷ s) (d ∷ t) h =
    let head : c ≡ d = ground arith in
    let tail : s ≡ t = eq_of_text_eq s t (ground arith) in rw (head, tail) refl

pub text_eq_self : (t : Text) → text_eq t t ≡ true
unfolding text_eq
text_eq_self [] = refl
text_eq_self (c ∷ t) = ground (arith, text_eq_self t)

-- `s in words`
unfoldable pub text_in : Text → List Text → Bool
unfolding text_eq
text_in s [] = false
text_in s (t ∷ ts) = text_eq s t || text_in s ts

-- `t.startswith(prefix)`
unfoldable pub starts_with : Text → Text → Bool
starts_with [] t = true
starts_with (c ∷ prefix) [] = false
starts_with (c ∷ prefix) (d ∷ t) = c == d && starts_with prefix t

-- Does the character at the index exist, and have the property?
abbrev pub test_at : (ℕ → Bool) → Text → ℕ → Bool
test_at p t i = elim (get_elem? t i) [ none ↦ false | some c ↦ p c ]

-- `t.lstrip(…)`, `t.rstrip(…)`, `t.strip(…)` for the characters with `p`.
unfoldable pub lstrip : (ℕ → Bool) → Text → Text
lstrip p [] = []
lstrip p (c ∷ t) = let rest = lstrip p t in if p c then rest else c ∷ t

abbrev pub rstrip_cons : (ℕ → Bool) → ℕ → Text → Text
rstrip_cons p c [] = if p c then [] else c ∷ []
rstrip_cons p c (d ∷ t) = c ∷ d ∷ t

unfoldable pub rstrip : (ℕ → Bool) → Text → Text
rstrip p [] = []
rstrip p (c ∷ t) = rstrip_cons p c (rstrip p t)

unfoldable pub strip : (ℕ → Bool) → Text → Text
unfolding lstrip rstrip
strip p t = rstrip p (lstrip p t)

-- `sep.join(parts)`
unfoldable pub join : Text → List Text → Text
join sep [] = []
join sep (t ∷ []) = t
join sep (t ∷ t' ∷ ts) = t ++ (sep ++ join sep (t' ∷ ts))

abbrev pub Span : Type 0
Span = ℕ × ℕ

-- The spans are not empty, stand in order, do not overlap, and lie between `lo` and `hi`.
abbrev pub Ordered : ℕ → ℕ → List Span → Type 0
Ordered lo hi [] = lo ≤ hi
Ordered lo hi ((s, e) ∷ r) = (lo ≤ s) × (s < e) × Ordered e hi r

-- The index lies in one of the spans.
abbrev pub InSpans : ℕ → List Span → Type 0
InSpans i [] = ⊥
InSpans i ((s, e) ∷ r) = ((s ≤ i) × (i < e)) ⊎ InSpans i r

pub Ordered-weaken : (lo lo' hi : ℕ) (r : List Span) → lo' ≤ lo → Ordered lo hi r → Ordered lo' hi r
Ordered-weaken lo lo' hi [] h o = omega arith
Ordered-weaken lo lo' hi ((s, e) ∷ r) h o = (omega arith, o.1, o.2)

pub Ordered-le : (lo hi : ℕ) (r : List Span) → Ordered lo hi r → lo ≤ hi
Ordered-le lo hi [] o = o
Ordered-le lo hi ((s, e) ∷ r) o = omega (arith, Ordered-le e hi r o.2)

pub Ordered-append :
    (lo mid hi : ℕ) (r r' : List Span)
    → Ordered lo mid r
    → Ordered mid hi r'
    → Ordered lo hi (r ++ r')
Ordered-append lo mid hi [] r' o o' = Ordered-weaken mid lo hi r' o o'
Ordered-append lo mid hi ((s, e) ∷ r) r' o o' = (o.0, o.1, Ordered-append e mid hi r r' o.2 o')

pub Ordered-filter :
    (p : Span → Bool) (lo hi : ℕ) (r : List Span) → Ordered lo hi r → Ordered lo hi (filter p r)
Ordered-filter p lo hi [] o = o
Ordered-filter p lo hi ((s, e) ∷ r) o =
    if_both (Ordered lo hi) (p (s, e)) (λ _. (o.0, o.1, Ordered-filter p e hi r o.2))
      (λ _. Ordered-weaken e lo hi _ (omega arith) (Ordered-filter p e hi r o.2))

pub InSpans-append_left : (i : ℕ) (r r' : List Span) → InSpans i r → InSpans i (r ++ r')
InSpans-append_left i ((s, e) ∷ r) r' (inl h) = inl h
InSpans-append_left i ((s, e) ∷ r) r' (inr h) = inr (InSpans-append_left i r r' h)
InSpans-append_left i [] r' h = absurd h

pub InSpans-append_right : (i : ℕ) (r r' : List Span) → InSpans i r' → InSpans i (r ++ r')
InSpans-append_right i [] r' h = h
InSpans-append_right i ((s, e) ∷ r) r' h = inr (InSpans-append_right i r r' h)
