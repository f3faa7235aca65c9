-- ===== src/Extract/Docx/Sound.antt =====
-- What the extraction of a DOCX gives.
use docmesh.Prelude.{
  and_then, ℕ, ◌≤◌, ◌<◌, ◌⊎◌, All, ◌≡◌, refl, ap, ◌∙◌, Bool, true, false, Option, none, some, List,
  [], ◌∷◌, min, if_both, arith, inl, inr,
}
use docmesh.Text.{starts_with, Text, Unicode, codes, text_eq, strip}
use docmesh.Llm.Decimal.{Digits}
use docmesh.Extract.Base.{ExtractedDoc, Label, build}
use docmesh.Extract.Offsets.{IsExactBuilder, add-IsExactBuilder, empty_builder-IsExactBuilder}
use docmesh.Extract.Labels.{AreLabelled, IsDocument, add-AreLabelled}
use docmesh.Extract.Paragraphs.{Progress, start}
use docmesh.Extract.Pdf.{extracted}
use docmesh.Extract.Docx.{
  DigitTable, DocxParagraph, opened, style_name, last_part, is_digits, to_int, style_level,
  at_most_3, add_docx_heading, add_leveled, add_title_or_body, add_styled, add_docx_paragraphs,
  finish, extract_docx,
}

-- The block is on no page; a heading has a level from 1 to 3, and a body block none.
abbrev pub HasLevel : Bool → Option ℕ → Type 0
HasLevel true none = ⊥
HasLevel true (some level) = (0 < level) × (level ≤ 3)
HasLevel false none = Unit
HasLevel false (some level) = ⊥

abbrev pub IsPageless : Label → Type 0
IsPageless l = (l.page ≡ none) × HasLevel l.is_heading l.heading_level

module _ ⦃tab : DigitTable⦄ ⦃d : Digits⦄ where
  -- A heading style ends in no number, or in one from 1 on that `int` reads; another style in anything.
  abbrev pub IsStyled : DocxParagraph → Type 0
  IsStyled para =
      let last = last_part [] (style_name para.style) in
      (starts_with (codes "Heading") (style_name para.style) ≡ false)
      ⊎ (is_digits last ≡ false)
      ⊎ ((n : ℕ) × (0 < n) × (to_int last ≡ some n))

  abbrev IsLevel : Option ℕ → Type 0
  IsLevel o = (level : ℕ) × (o ≡ some level) × (0 < level) × (level ≤ 3)

  style_level_lem :
      (style : Text)
      → (is_digits (last_part [] style) ≡ false)
        ⊎ ((n : ℕ) × (0 < n) × (to_int (last_part [] style) ≡ some n))
      → IsLevel (style_level style)
  unfolding style_level
  style_level_lem style (inl other) = (1, rw other refl, omega arith, omega arith)
  style_level_lem style (inr (n, pos, value)) =
      if_both IsLevel (is_digits (last_part [] style))
        (λ _. (min n 3, ap at_most_3 value, omega arith, omega arith))
        (λ _. (1, refl, omega arith, omega arith))

module _ ⦃u : Unicode⦄ where
  abbrev IsSound : Progress → Type 0
  IsSound p = IsExactBuilder p.builder × AreLabelled IsPageless p.builder

  add_docx_heading-IsSound :
      (level : ℕ) (text : Text) (p : Progress)
      → 0 < level
      → level ≤ 3
      → IsSound p
      → IsSound (add_docx_heading level text p)
  unfolding add_docx_heading
  add_docx_heading-IsSound level text p pos low (exact, labelled) = (
    add-IsExactBuilder text _ p.builder exact,
    add-AreLabelled IsPageless text _ p.builder (refl, (pos, low)) labelled,
  )

  add_title_or_body-IsSound :
      (b : Bool) (title : Option Text) (text : Text) (p : Progress)
      → IsSound p
      → IsSound (add_title_or_body b title text p)
  add_title_or_body-IsSound true none text p h =
      add_docx_heading-IsSound 1 text p (omega arith) (omega arith) h
  add_title_or_body-IsSound true (some title) text p (exact, labelled) = (
    add-IsExactBuilder text _ p.builder exact,
    add-AreLabelled IsPageless text _ p.builder (refl, tt) labelled,
  )
  add_title_or_body-IsSound false title text p (exact, labelled) = (
    add-IsExactBuilder text _ p.builder exact,
    add-AreLabelled IsPageless text _ p.builder (refl, tt) labelled,
  )

module _ ⦃u : Unicode⦄ ⦃tab : DigitTable⦄ ⦃d : Digits⦄ where
  -- The step goes on, to a state that is sound.
  abbrev GoesOn : Option Progress → Type 0
  GoesOn o = (p : Progress) × (o ≡ some p) × IsSound p

  add_styled-GoesOn :
      (para : DocxParagraph) (text : Text) (p : Progress)
      → IsStyled para
      → IsSound p
      → GoesOn (add_styled (style_name para.style) text p)
  add_styled-GoesOn para [] p styled h = (p, refl, h)
  add_styled-GoesOn para (c ∷ t) p (inl other) h = rw other (
    add_title_or_body (text_eq (style_name para.style) (codes "Title")) p.title (c ∷ t) p,
    refl,
    add_title_or_body-IsSound (text_eq (style_name para.style) (codes "Title")) p.title (c ∷ t) p h,
  )
  add_styled-GoesOn para (c ∷ t) p (inr numbered) h =
      let style = style_name para.style in
      let (level, value, pos, low) = style_level_lem style numbered in
      if_both GoesOn (starts_with (codes "Heading") style)
        (λ _. (
          add_docx_heading level (c ∷ t) p,
          ap (λ o. add_leveled o (c ∷ t) p) value,
          add_docx_heading-IsSound level (c ∷ t) p pos low h,
        ))
        (λ _. (
          add_title_or_body (text_eq style (codes "Title")) p.title (c ∷ t) p,
          refl,
          add_title_or_body-IsSound (text_eq style (codes "Title")) p.title (c ∷ t) p h,
        ))

  add_docx_paragraphs-GoesOn :
      (paras : List DocxParagraph) (p : Progress)
      → All IsStyled paras
      → IsSound p
      → GoesOn (add_docx_paragraphs paras p)
  unfolding add_docx_paragraphs
  add_docx_paragraphs-GoesOn [] p styles h = (p, refl, h)
  add_docx_paragraphs-GoesOn (para ∷ paras) p (styled, styles) h =
      let (p', eq, h') = add_styled-GoesOn para (strip u.is_space para.text) p styled h in
      let (p'', eq', h'') = add_docx_paragraphs-GoesOn paras p' styles h' in
      (p'', ap (λ o. and_then o (λ x. add_docx_paragraphs paras x)) eq ∙ eq', h'')

  -- If the number at the end of a heading style, where it has one, is one from 1 on that `int` reads:
  -- the extraction of a DOCX that can be opened returns a document. Each block's text is the slice of
  -- the full text that its offsets name, the blocks stand in order, and the full text is their texts
  -- joined by a blank line; none is on a page; and a heading has a level from 1 to 3, a body block
  -- none.
  pub extract_docx-IsDocument :
      (paras : List DocxParagraph)
      → All IsStyled paras
      → (doc : ExtractedDoc) × (extract_docx (opened paras) ≡ some (extracted doc))
        × IsDocument IsPageless doc
  unfolding extract_docx build
  extract_docx-IsDocument paras styles =
      let (p, eq, (exact, labelled)) =
        add_docx_paragraphs-GoesOn paras start styles (empty_builder-IsExactBuilder, tt) in
      (build none p.title p.builder, ap finish eq, (exact.laid_out, exact.joined, labelled))
