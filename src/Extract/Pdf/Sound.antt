-- ===== src/Extract/Pdf/Sound.antt =====
-- What the extraction of a PDF gives.
use mathlib.Core.List.{flatten}
use docmesh.Prelude.{
  ℕ, suc, ◌+◌, ◌≤◌, ◌≡◌, refl, Bool, true, false, ◌&&◌, Option, none, some, List, [], ◌∷◌, take,
  length, length-take, ◌==◌, if_both, arith,
}
use docmesh.Text.{Text, Unicode}
use docmesh.Extract.Base.{ExtractedDoc, Label, build}
use docmesh.Extract.Offsets.{IsExactBuilder, add-IsExactBuilder, empty_builder-IsExactBuilder}
use docmesh.Extract.Sections.{IsNested, on_heading-IsNested}
use docmesh.Extract.Labels.{AreLabelled, IsDocument, add-AreLabelled}
use docmesh.Extract.Paragraphs.{Progress, start}
use docmesh.Extract.Pdf.{
  Sizes, PdfSpan, PdfBlock, opened, extracted, heading_sizes, level_from, bold_level, level_or_bold,
  is_heading, heading_level, add_leveled, add_text, collapsed_text, block_spans, add_pdf_blocks,
  add_pages, extract_pages, census, extract_pdf, all_bold,
}

-- A level, where there is one, is 1, 2 or 3.
abbrev pub IsLevel : Option ℕ → Type 0
IsLevel none = Unit
IsLevel (some level) = (1 ≤ level) × (level ≤ 3)

-- A heading has a level, and a body block has none.
abbrev pub HasLevel : Bool → Option ℕ → Type 0
HasLevel true none = ⊥
HasLevel true (some level) = (1 ≤ level) × (level ≤ 3)
HasLevel false none = Unit
HasLevel false (some level) = ⊥

-- The block is on one of `n` pages, and its level is that of a heading or of body text.
abbrev pub IsOnPages : ℕ → Label → Type 0
IsOnPages n l =
    ((page : ℕ) × (l.page ≡ some page) × (1 ≤ page) × (page ≤ n))
    × HasLevel l.is_heading l.heading_level

module _ {W : Type 0} ⦃z : Sizes W⦄ where
  level_from_bounds :
      (level : ℕ) (size : W) (ts : List W)
      → 1 ≤ level
      → level + length ts ≤ 4
      → IsLevel (level_from level size ts)
  unfolding level_from
  level_from_bounds level size [] h k = tt
  level_from_bounds level size (t ∷ ts) h k =
      if_both IsLevel (z.same t size) (λ _. (h, omega arith))
        (λ _. level_from_bounds (suc level) size ts (omega arith) (omega arith))

  length-take_le : (n : ℕ) (ts : List W) → length (take n ts) ≤ n
  length-take_le n ts = omega (arith, length-take n ts)

  length-heading_sizes :
      (body_size : W) (mass : List (W × ℕ)) → length (heading_sizes body_size mass) ≤ 3
  unfolding heading_sizes
  length-heading_sizes body_size mass = length-take_le 3 _

module _ {W : Type 0} ⦃z : Sizes W⦄ ⦃u : Unicode⦄ where
  bold_level_bounds : (ts : List W) → (1 ≤ bold_level ts) × (bold_level ts ≤ 3)
  bold_level_bounds [] = omega arith
  bold_level_bounds (t ∷ ts) = omega arith

  level_or_bold-IsLevel :
      (o : Option ℕ) (bold : Bool) (ts : List W) → IsLevel o → IsLevel (level_or_bold o bold ts)
  level_or_bold-IsLevel (some level) bold ts h = h
  level_or_bold-IsLevel none true ts h = bold_level_bounds ts
  level_or_bold-IsLevel none false ts h = tt

  heading_level-IsLevel :
      (body_size : W) (ts : List W) (text : Text) (x : PdfSpan W) (xs : List (PdfSpan W))
      → length ts ≤ 3
      → IsLevel (heading_level body_size ts text x xs)
  unfolding heading_level
  heading_level-IsLevel body_size ts text x xs h =
      if_both IsLevel ((is_heading text (x ∷ xs)).0 && (is_heading text (x ∷ xs)).1)
        (λ _.
          level_or_bold-IsLevel (level_from 1 (z.round x.size) ts)
            (z.le body_size (z.round x.size) && all_bold (x ∷ xs)) ts
            (level_from_bounds 1 (z.round x.size) ts (omega arith) (omega arith)))
        (λ _. tt)

module _ ⦃u : Unicode⦄ (n : ℕ) where
  -- What the second pass keeps.
  abbrev IsSound : Progress → Type 0
  IsSound p = IsExactBuilder p.builder × IsNested p.stack × AreLabelled (IsOnPages n) p.builder

  add_leveled-IsSound :
      (page : ℕ) (text : Text) (o : Option ℕ) (p : Progress)
      → 1 ≤ page
      → page ≤ n
      → IsLevel o
      → IsSound p
      → IsSound (add_leveled page text o p)
  add_leveled-IsSound page text none p lo hi ok (exact, nested, labelled) = (
    add-IsExactBuilder text _ p.builder exact,
    nested,
    add-AreLabelled (IsOnPages n) text _ p.builder ((page, refl, lo, hi), tt) labelled,
  )
  add_leveled-IsSound page text (some level) p lo hi ok (exact, nested, labelled) = (
    add-IsExactBuilder text _ p.builder exact,
    on_heading-IsNested level text p.stack nested,
    add-AreLabelled (IsOnPages n) text _ p.builder ((page, refl, lo, hi), ok) labelled,
  )

module _ {W : Type 0} ⦃z : Sizes W⦄ ⦃u : Unicode⦄ (n : ℕ) (body_size : W) (ts : List W)
    (few : length ts ≤ 3) where
  add_text-IsSound :
      (page : ℕ) (text : Text) (spans : List (PdfSpan W)) (p : Progress)
      → 1 ≤ page
      → page ≤ n
      → IsSound n p
      → IsSound n (add_text body_size ts page text spans p)
  add_text-IsSound page [] spans p lo hi h = h
  add_text-IsSound page (c ∷ t) [] p lo hi h = h
  add_text-IsSound page (c ∷ t) (x ∷ xs) p lo hi h =
      add_leveled-IsSound n page (c ∷ t) (heading_level body_size ts (c ∷ t) x xs) p lo hi
        (heading_level-IsLevel body_size ts (c ∷ t) x xs few) h

  add_pdf_blocks-IsSound :
      (page : ℕ) (bs : List (PdfBlock W)) (p : Progress)
      → 1 ≤ page
      → page ≤ n
      → IsSound n p
      → IsSound n (add_pdf_blocks body_size ts page bs p)
  unfolding add_pdf_blocks
  add_pdf_blocks-IsSound page [] p lo hi h = h
  add_pdf_blocks-IsSound page (b ∷ bs) p lo hi h = add_pdf_blocks-IsSound page bs _ lo hi (
      if_both (IsSound n) (b.kind == 0)
        (λ _. add_text-IsSound page (collapsed_text b) (block_spans b) p lo hi h) (λ _. h))

  add_pages-IsSound :
      (page : ℕ) (pages : List (List (PdfBlock W))) (p : Progress)
      → 1 ≤ page
      → page + length pages ≤ suc n
      → IsSound n p
      → IsSound n (add_pages body_size ts page pages p)
  unfolding add_pages
  add_pages-IsSound page [] p lo hi h = h
  add_pages-IsSound page (b ∷ bs) p lo hi h =
      add_pages-IsSound (suc page) bs _ (omega arith) (omega arith)
        (add_pdf_blocks-IsSound page b p lo (omega arith) h)

module _ {W : Type 0} ⦃z : Sizes W⦄ ⦃u : Unicode⦄ where
  extract_pages-IsDocument :
      (mass : List (W × ℕ)) (pages : List (List (PdfBlock W))) (page_count : ℕ)
      → IsDocument (IsOnPages (length pages)) (extract_pages mass pages page_count)
  unfolding build
  extract_pages-IsDocument [] pages page_count =
      (empty_builder-IsExactBuilder.laid_out, empty_builder-IsExactBuilder.joined, tt)
  extract_pages-IsDocument (m ∷ mass) pages page_count =
      let (exact, nested, labelled) =
        add_pages-IsSound (length pages) _ (heading_sizes _ (m ∷ mass))
          (length-heading_sizes _ (m ∷ mass)) 1 pages start (omega arith) (omega arith)
          (empty_builder-IsExactBuilder, tt, tt) in
      (exact.laid_out, exact.joined, labelled)

  extract_pages-count :
      (mass : List (W × ℕ)) (pages : List (List (PdfBlock W))) (page_count : ℕ)
      → (extract_pages mass pages page_count).page_count ≡ some page_count
  unfolding build
  extract_pages-count [] pages page_count = refl
  extract_pages-count (m ∷ mass) pages page_count = refl

  -- Of a PDF that can be opened and read: the extraction returns a document. Each block's text is the
  -- slice of the full text that its offsets name, the blocks stand in order, and the full text is
  -- their texts joined by a blank line; each is on one of the pages; and a heading has a level from 1
  -- to 3, a body block none.
  pub extract_pdf-IsDocument :
      (pages : List (List (PdfBlock W))) (page_count : ℕ)
      → (doc : ExtractedDoc) × (extract_pdf (opened pages page_count) ≡ extracted doc)
        × IsDocument (IsOnPages (length pages)) doc
        × (doc.page_count ≡ some page_count)
  unfolding extract_pdf
  extract_pdf-IsDocument pages page_count = (
    extract_pages (census (flatten pages) []) pages page_count,
    refl,
    extract_pages-IsDocument (census (flatten pages) []) pages page_count,
    extract_pages-count (census (flatten pages) []) pages page_count,
  )
