-- ===== src/Extract/Pdf.antt =====
-- backend/app/ingestion/extractors/pdf.py, from what PyMuPDF gives: whether the file can be opened and
-- read, its pages as blocks of lines of spans, and its count of pages.
pub mod Sound
use mathlib.Core.List.{flatten}
use docmesh.Prelude.{
  ℕ, suc, ◌+◌, ◌/◌, ◌%◌, Bool, true, false, not, ◌&&◌, ◌||◌, Option, none, some, List, [], ◌∷◌,
  ◌++◌, map, filter, take, length, last?, leb, ltb, ◌==◌, min, if◌then◌else◌,
}
use docmesh.Text.{Text, Unicode, codes, join, rstrip, split}
use docmesh.Extract.Base.{ExtractedDoc, empty_builder, add, build, on_heading, path}
use docmesh.Extract.Paragraphs.{Progress, start, title_after}

-- The sizes of fonts: `round(x, 1)`, `==`, `<=`, and `x * 1.15`.
pub record Sizes (W : Type 0) : Type 0 where
  pub round : W → W
  pub same : W → W → Bool
  pub le : W → W → Bool
  pub raised : W → W

pub record PdfSpan (W : Type 0) : Type 0 where
  pub text : Text
  pub size : W
  pub flags : ℕ

-- A block of kind 0 is a text block.
pub record PdfBlock (W : Type 0) : Type 0 where
  pub kind : ℕ
  pub lines : List (List (PdfSpan W))

-- A file that PyMuPDF cannot open or read raises, with a message.
pub data PdfFile (W : Type 0) : Type 0 where
  unopened : Text → PdfFile W
  unreadable : Text → PdfFile W
  opened : List (List (PdfBlock W)) → ℕ → PdfFile W

-- The document, or `ExtractionError` with its message.
pub data Extraction : Type 0 where
  extracted : ExtractedDoc → Extraction
  extraction_error : Text → Extraction

abbrev pub bold_flag : ℕ
bold_flag = 16

abbrev pub max_heading_chars : ℕ
max_heading_chars = 120

abbrev pub max_heading_words : ℕ
max_heading_words = 12

module _ {W : Type 0} where
  unfoldable pub block_spans : PdfBlock W → List (PdfSpan W)
  block_spans b = flatten b.lines

  unfoldable pub block_text : PdfBlock W → Text
  unfolding join
  block_text b =
      join (10 ∷ []) (map (λ line. flatten (map (λ (x : PdfSpan W). x.text) line)) b.lines)

  -- `span["flags"] & _BOLD_FLAG`
  abbrev pub is_bold : PdfSpan W → Bool
  is_bold x = x.flags / bold_flag % 2 == 1

  unfoldable pub all_bold : List (PdfSpan W) → Bool
  all_bold [] = true
  all_bold (x ∷ xs) = is_bold x && all_bold xs

-- `text.rstrip().endswith((".", ",", ";"))`
abbrev pub is_punctuation : Option ℕ → Bool
is_punctuation none = false
is_punctuation (some c) = c == b'.' || (c == b',' || c == b';')

module _ {W : Type 0} ⦃z : Sizes W⦄ where
  -- `size_mass[size] += n`
  unfoldable pub add_mass : W → ℕ → List (W × ℕ) → List (W × ℕ)
  add_mass size n [] = (size, n) ∷ []
  add_mass size n ((t, m) ∷ mass) =
      let rest = add_mass size n mass in if z.same t size then (t, m + n) ∷ mass else (t, m) ∷ rest

  unfoldable pub add_spans : List (PdfSpan W) → List (W × ℕ) → List (W × ℕ)
  unfolding add_mass
  add_spans [] mass = mass
  add_spans (x ∷ xs) mass = add_spans xs (add_mass (z.round x.size) (length x.text) mass)

  -- The first pass, over the text blocks of all pages.
  unfoldable pub census : List (PdfBlock W) → List (W × ℕ) → List (W × ℕ)
  unfolding add_spans block_spans
  census [] mass = mass
  census (b ∷ bs) mass = census bs (if b.kind == 0 then add_spans (block_spans b) mass else mass)

  -- `most_common(1)`: the first of the largest.
  unfoldable pub most_common : W × ℕ → List (W × ℕ) → W
  most_common (size, n) [] = size
  most_common (size, n) ((t, m) ∷ mass) = most_common (if ltb n m then (t, m) else (size, n)) mass

  -- `sorted(…, reverse=True)`
  unfoldable pub insert_size : W → List W → List W
  insert_size size [] = size ∷ []
  insert_size size (t ∷ ts) =
      let rest = insert_size size ts in if z.le t size then size ∷ t ∷ ts else t ∷ rest

  unfoldable pub sort_sizes : List W → List W
  unfolding insert_size
  sort_sizes [] = []
  sort_sizes (t ∷ ts) = insert_size t (sort_sizes ts)

  unfoldable pub heading_sizes : W → List (W × ℕ) → List W
  unfolding sort_sizes
  heading_sizes body_size mass =
      take 3
        (sort_sizes (filter (λ t. z.le (z.raised body_size) t) (map (λ (e : W × ℕ). e.0) mass)))

  -- `level_of.get(size)`
  unfoldable pub level_from : ℕ → W → List W → Option ℕ
  level_from level size [] = none
  level_from level size (t ∷ ts) =
      let later = level_from (suc level) size ts in if z.same t size then some level else later

  unfoldable pub all_of_size : W → List (PdfSpan W) → Bool
  all_of_size size [] = true
  all_of_size size (x ∷ xs) = z.same (z.round x.size) size && all_of_size size xs

  abbrev pub is_uniform : List (PdfSpan W) → Bool
  is_uniform [] = false
  is_uniform (x ∷ xs) = all_of_size (z.round x.size) xs

module _ ⦃u : Unicode⦄ where
  -- The body of the second pass, for a text that is not empty.
  abbrev pub add_leveled : ℕ → Text → Option ℕ → Progress → Progress
  add_leveled page text none p = record p {
    builder =
        add text
          (record {
            page = some page;
            section = path p.stack;
            is_heading = false;
            heading_level = none;
          })
          p.builder;
  }
  add_leveled page text (some level) p =
      let stack = on_heading level text p.stack in
      record {
        builder =
            add text
              (record {
                page = some page;
                section = path stack;
                is_heading = true;
                heading_level = some level;
              })
              p.builder;
        stack = stack;
        title = title_after p.title level text;
      }

module _ {W : Type 0} ⦃z : Sizes W⦄ ⦃u : Unicode⦄ where
  unfoldable pub is_heading : Text → List (PdfSpan W) → Bool × Bool
  unfolding all_of_size split rstrip
  is_heading text spans = (
    is_uniform spans,
    leb (length text) max_heading_chars
        && (leb (length (split text)) max_heading_words
            && not (is_punctuation (last? (rstrip u.is_space text)))),
  )

  -- One level deeper than the sized headings.
  abbrev pub bold_level : List W → ℕ
  bold_level [] = 1
  bold_level (t ∷ ts) = min (length (t ∷ ts) + 1) 3

  abbrev pub level_or_bold : Option ℕ → Bool → List W → Option ℕ
  level_or_bold (some level) bold sizes = some level
  level_or_bold none bold sizes = if bold then some (bold_level sizes) else none

  -- The level of a block with a first span, if it is a heading.
  unfoldable pub heading_level : W → List W → Text → PdfSpan W → List (PdfSpan W) → Option ℕ
  unfolding is_heading level_from all_bold
  heading_level body_size sizes text x xs =
      let (uniform, shape_ok) = is_heading text (x ∷ xs) in
      let size = z.round x.size in
      if uniform && shape_ok
      then level_or_bold (level_from 1 size sizes) (z.le body_size size && all_bold (x ∷ xs)) sizes
      else none

  abbrev pub add_text : W → List W → ℕ → Text → List (PdfSpan W) → Progress → Progress
  add_text body_size sizes page [] spans p = p
  add_text body_size sizes page (c ∷ t) [] p = p
  add_text body_size sizes page (c ∷ t) (x ∷ xs) p =
      add_leveled page (c ∷ t) (heading_level body_size sizes (c ∷ t) x xs) p

  -- `" ".join(_block_text(block).split())`
  unfoldable pub collapsed_text : PdfBlock W → Text
  unfolding block_text split join
  collapsed_text b = join (32 ∷ []) (split (block_text b))

  unfoldable pub add_pdf_blocks : W → List W → ℕ → List (PdfBlock W) → Progress → Progress
  unfolding add path on_heading heading_level collapsed_text block_spans
  add_pdf_blocks body_size sizes page [] p = p
  add_pdf_blocks body_size sizes page (b ∷ bs) p = add_pdf_blocks body_size sizes page bs (
      if b.kind == 0 then add_text body_size sizes page (collapsed_text b) (block_spans b) p else p)

  unfoldable pub add_pages : W → List W → ℕ → List (List (PdfBlock W)) → Progress → Progress
  unfolding add_pdf_blocks
  add_pages body_size sizes page [] p = p
  add_pages body_size sizes page (b ∷ bs) p =
      add_pages body_size sizes (suc page) bs (add_pdf_blocks body_size sizes page b p)

  abbrev pub extract_pages : List (W × ℕ) → List (List (PdfBlock W)) → ℕ → ExtractedDoc
  extract_pages [] pages page_count = build (some page_count) none empty_builder
  extract_pages (m ∷ mass) pages page_count =
      let body_size = most_common m mass in
      let p = add_pages body_size (heading_sizes body_size (m ∷ mass)) 1 pages start in
      build (some page_count) p.title p.builder

  unfoldable pub extract_pdf : PdfFile W → Extraction
  unfolding census most_common heading_sizes add_pages build
  extract_pdf (unopened message) = extraction_error (codes "Cannot open PDF: " ++ message)
  extract_pdf (unreadable message) = extraction_error (codes "Cannot read PDF text: " ++ message)
  extract_pdf (opened pages page_count) =
      extracted (extract_pages (census (flatten pages) []) pages page_count)
