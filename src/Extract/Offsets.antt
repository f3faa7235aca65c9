-- ===== src/Extract/Offsets.antt =====
-- `_DocBuilder` keeps exact offsets: each block is the slice of the text that its offsets name, and
-- the text is the blocks' texts joined by a blank line.
use mathlib.Core.List.{flatten}
use docmesh.Prelude.{
  ℕ, ◌+◌, ◌≤◌, ◌<◌, ◌≡◌, ◌≢◌, refl, sym, ap, ◌∙◌, List, [], ◌∷◌, ◌++◌, map, append-nil,
  append_assoc, length, slice, length-append, slice-append, slice_end, All, All-append, All-imp,
  inl, inr, ◌⊎◌, arith,
}
use docmesh.Text.{Text, Unicode, Span, Ordered, Ordered-append, join, strip}
use docmesh.Extract.Base.{
  Block, DocBuilder, Label, separator, empty_builder, separate_at, separate, append_block,
  add_stripped, add,
}

abbrev pub span : Block → Span
span k = (k.char_start, k.char_end)

-- The block's text is the slice that its offsets name, and is not empty.
abbrev pub IsExact : Text → Block → Type 0
IsExact full k =
    (slice full k.char_start k.char_end ≡ k.text)
    × (k.char_start < k.char_end)
    × (k.char_end ≤ length full)

pub record IsLaidOut (full : Text) (blocks : List Block) : Type 0 where
  pub exact : All (IsExact full) blocks
  pub ordered : Ordered 0 (length full) (map span blocks)

IsExact-append : (full t : Text) (k : Block) → IsExact full k → IsExact (full ++ t) k
IsExact-append full t k h = (
  slice-append full t k.char_start k.char_end (omega (arith, h.1)) h.2 ∙ h.0,
  h.1,
  omega (arith, h.2, length-append full t),
)

Ordered-grow : (lo hi hi' : ℕ) (r : List Span) → hi ≤ hi' → Ordered lo hi r → Ordered lo hi' r
Ordered-grow lo hi hi' [] h o = omega arith
Ordered-grow lo hi hi' ((s, e) ∷ r) h o = (o.0, o.1, Ordered-grow e hi hi' r h o.2)

IsLaidOut-append :
    (full t : Text) (blocks : List Block) → IsLaidOut full blocks → IsLaidOut (full ++ t) blocks
IsLaidOut-append full t blocks h = record {
  exact = All-imp _ _ (IsExact-append full t) blocks h.exact;
  ordered = Ordered-grow 0 (length full) _ _ (omega (arith, length-append full t)) h.ordered;
}

map-snoc :
    (blocks : List Block) (k : Block) → map span (blocks ++ k ∷ []) ≡ map span blocks ++ span k ∷ []
map-snoc [] k = refl
map-snoc (b ∷ blocks) k = ap (λ l. span b ∷ l) (map-snoc blocks k)

IsLaidOut-snoc :
    (full : Text) (blocks : List Block) (k : Block)
    → IsLaidOut full blocks
    → k.char_start ≡ length full
    → k.char_end ≡ length full + length k.text
    → 0 < length k.text
    → IsLaidOut (full ++ k.text) (blocks ++ k ∷ [])
IsLaidOut-snoc full blocks k h s e n = record {
  exact =
      All-append _ blocks _ (IsLaidOut-append full k.text blocks h).exact (
        (slice_end full k.text _ _ s e, omega arith, omega (arith, length-append full k.text)),
        tt,
      );
  ordered = rw (map-snoc blocks k) (
      Ordered-append 0 (length full) _ (map span blocks) _ h.ordered
        (omega arith, omega arith, omega (arith, length-append full k.text)));
}

flatten-snoc : (parts : List Text) (t : Text) → flatten (parts ++ t ∷ []) ≡ flatten parts ++ t
unfolding flatten
flatten-snoc [] t = append-nil t
flatten-snoc (p ∷ parts) t =
    ap (λ l. p ++ l) (flatten-snoc parts t) ∙ sym (append_assoc p (flatten parts) t)

-- What `_DocBuilder` keeps.
pub record IsExactBuilder (b : DocBuilder) : Type 0 where
  pub laid_out : IsLaidOut (flatten b.parts) b.blocks
  pub pos_eq : b.pos ≡ length (flatten b.parts)
  pub joined : flatten b.parts ≡ join separator (map (λ (k : Block). k.text) b.blocks)
  pub first : b.parts ≡ [] → b.blocks ≡ []
  pub later : b.parts ≢ [] → b.blocks ≢ []

snoc-ne-nil {ℓ} : {A : Type ℓ} (xs : List A) (x : A) → xs ++ x ∷ [] ≢ []
snoc-ne-nil [] x e = cc
snoc-ne-nil (y ∷ xs) x e = cc

join-snoc :
    (blocks : List Block) (k : Block)
    → blocks ≢ []
    → join separator (map (λ (b : Block). b.text) (blocks ++ k ∷ []))
      ≡ (join separator (map (λ (b : Block). b.text) blocks) ++ separator) ++ k.text
unfolding join
join-snoc [] k h = absurd (h refl)
join-snoc (b ∷ []) k h = sym (append_assoc b.text separator k.text)
join-snoc (b ∷ c ∷ blocks) k h = simp (join-snoc (c ∷ blocks) k (λ e. cc), append_assoc)

-- The builder is ready for one more block, which goes to the end of its text.
record IsReady (b : DocBuilder) : Type 0 where
  laid_out : IsLaidOut (flatten b.parts) b.blocks
  pos_eq : b.pos ≡ length (flatten b.parts)
  joins :
      (k : Block)
      → flatten b.parts ++ k.text
        ≡ join separator (map (λ (c : Block). c.text) (b.blocks ++ k ∷ []))

abbrev separated : DocBuilder → DocBuilder
separated b = record b { parts = b.parts ++ separator ∷ []; pos = b.pos + 2 }

separate_cases :
    (b : DocBuilder)
    → (b.parts ≡ []) × (separate b ≡ b) ⊎ (b.parts ≢ []) × (separate b ≡ separated b)
unfolding separate
separate_cases b = step b.parts refl
  where
    step :
        (parts : List Text)
        → b.parts ≡ parts
        → (b.parts ≡ []) × (separate b ≡ b) ⊎ (b.parts ≢ []) × (separate b ≡ separated b)
    step [] e = inl (e, ap (λ q. separate_at q b) e)
    step (p ∷ ps) e = inr ((λ none_yet. cc), ap (λ q. separate_at q b) e)

separated-IsReady : (b : DocBuilder) → b.parts ≢ [] → IsExactBuilder b → IsReady (separated b)
separated-IsReady b more h = record {
  laid_out =
      rw (flatten-snoc b.parts separator)
        (IsLaidOut-append (flatten b.parts) separator b.blocks h.laid_out);
  pos_eq =
      rw (flatten-snoc b.parts separator)
        (omega (arith, h.pos_eq, length-append (flatten b.parts) separator));
  joins = λ k. rw (flatten-snoc b.parts separator, join-snoc b.blocks k (h.later more), ← h.joined);
}

separate-IsReady : (b : DocBuilder) → IsExactBuilder b → IsReady (separate b)
unfolding join
separate-IsReady b h = elim (separate_cases b) [
  | inl (none_yet, same) ↦ rw same (record {
    laid_out = h.laid_out;
    pos_eq = h.pos_eq;
    joins = λ k. rw (h.joined, h.first none_yet) refl;
  })
  | inr (more, grown) ↦ rw grown (separated-IsReady b more h)
]

append_block-IsExact :
    (l : Label) (c : ℕ) (t : Text) (b : DocBuilder)
    → IsReady b
    → IsExactBuilder (append_block l (c ∷ t) b)
unfolding append_block
append_block-IsExact l c t b h = record {
  laid_out = rw (flatten-snoc b.parts (c ∷ t)) (
      IsLaidOut-snoc (flatten b.parts) b.blocks _ h.laid_out h.pos_eq (omega (arith, h.pos_eq))
        (omega arith));
  pos_eq =
      rw (flatten-snoc b.parts (c ∷ t))
        (omega (arith, h.pos_eq, length-append (flatten b.parts) (c ∷ t)));
  joined = rw (flatten-snoc b.parts (c ∷ t)) (h.joins _);
  first = λ e. absurd (snoc-ne-nil b.parts _ e);
  later = λ _ e. snoc-ne-nil b.blocks _ e;
}

module _ ⦃u : Unicode⦄ where
  -- Whatever text and label is added, the builder stays exact: its blocks are laid out in its
  -- text, its position is the text's length, and the text is the blocks joined by blank lines.
  pub add-IsExactBuilder :
      (text : Text) (l : Label) (b : DocBuilder) → IsExactBuilder b → IsExactBuilder (add text l b)
  unfolding add
  add-IsExactBuilder text l b h = step (strip u.is_space text)
    where
      step : (t : Text) → IsExactBuilder (add_stripped l t b)
      step [] = h
      step (c ∷ t) = append_block-IsExact l c t (separate b) (separate-IsReady b h)

pub empty_builder-IsExactBuilder : IsExactBuilder empty_builder
unfolding flatten join
empty_builder-IsExactBuilder = record {
  laid_out = record { exact = tt; ordered = omega arith };
  pos_eq = refl;
  joined = refl;
  first = λ _. refl;
  later = λ h. absurd (h refl);
}
