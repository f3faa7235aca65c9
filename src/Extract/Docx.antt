-- ===== src/Extract/Docx.antt =====
-- backend/app/ingestion/extractors/docx.py, from what python-docx gives: whether the file can be
-- opened, and its paragraphs with the names of their styles.
pub mod Sound
use docmesh.Prelude.{
  and_then, ℕ, Bool, true, false, ◌&&◌, Option, none, some, List, [], ◌∷◌, ◌++◌, min, ◌==◌,
  if◌then◌else◌,
}
use docmesh.Text.{starts_with, Text, Unicode, codes, text_eq, strip}
use docmesh.Llm.Decimal.{Digits, read_number}
use docmesh.Extract.Base.{Label, add, build, on_heading, path}
use docmesh.Extract.Paragraphs.{Progress, start}
use docmesh.Extract.Pdf.{Extraction, extracted, extraction_error}

-- `str.isdigit` of a character, in the table of the runtime; it knows more than the decimal digits.
pub record DigitTable : Type 0 where
  pub is_digit : ℕ → Bool

pub record DocxParagraph : Type 0 where
  pub text : Text
  pub style : Option Text

-- A file that python-docx cannot open raises, with a message.
pub data DocxFile : Type 0 where
  unopened : Text → DocxFile
  opened : List DocxParagraph → DocxFile

-- `(para.style.name if para.style is not None else None) or ""`
abbrev pub style_name : Option Text → Text
style_name none = []
style_name (some name) = name

-- `style.rsplit(" ", 1)[-1]`
unfoldable pub last_part : Text → Text → Text
last_part acc [] = acc
last_part acc (c ∷ t) = last_part (if c == 32 then [] else acc ++ c ∷ []) t

abbrev pub whole_number : Option (ℕ × Text) → Option ℕ
whole_number none = none
whole_number (some (n, [])) = some n
whole_number (some (n, c ∷ t)) = none

abbrev pub at_most_3 : Option ℕ → Option ℕ
at_most_3 none = none
at_most_3 (some n) = some (min n 3)

module _ ⦃tab : DigitTable⦄ where
  unfoldable pub all_digits : Text → Bool
  all_digits [] = true
  all_digits (c ∷ t) = tab.is_digit c && all_digits t

  -- `last.isdigit()`
  abbrev pub is_digits : Text → Bool
  is_digits [] = false
  is_digits (c ∷ t) = all_digits (c ∷ t)

module _ ⦃tab : DigitTable⦄ ⦃d : Digits⦄ where
  -- `int(last)`; `none` is a `ValueError`.
  unfoldable pub to_int : Text → Option ℕ
  unfolding read_number
  to_int t = whole_number (read_number t)

  unfoldable pub style_level : Text → Option ℕ
  unfolding last_part all_digits to_int
  style_level style =
      let last = last_part [] style in if is_digits last then at_most_3 (to_int last) else some 1

module _ ⦃u : Unicode⦄ where
  abbrev pub heading_label : Option Text → ℕ → Label
  heading_label section level = record {
    page = none;
    section = section;
    is_heading = true;
    heading_level = some level;
  }

  abbrev pub body_label : Option Text → Label
  body_label section = record {
    page = none;
    section = section;
    is_heading = false;
    heading_level = none;
  }

  unfoldable pub add_docx_heading : ℕ → Text → Progress → Progress
  unfolding add path on_heading
  add_docx_heading level text p =
      let stack = on_heading level text p.stack in
      record p { builder = add text (heading_label (path stack) level) p.builder; stack = stack }

  abbrev pub add_leveled : Option ℕ → Text → Progress → Option Progress
  add_leveled none text p = none
  add_leveled (some level) text p = some (add_docx_heading level text p)

  abbrev pub add_title_or_body : Bool → Option Text → Text → Progress → Progress
  add_title_or_body true none text p = record (add_docx_heading 1 text p) { title = some text }
  add_title_or_body true (some title) text p = record p {
    builder = add text (body_label (path p.stack)) p.builder;
  }
  add_title_or_body false title text p = record p {
    builder = add text (body_label (path p.stack)) p.builder;
  }

module _ ⦃u : Unicode⦄ ⦃tab : DigitTable⦄ ⦃d : Digits⦄ where
  abbrev pub add_styled : Text → Text → Progress → Option Progress
  add_styled style [] p = some p
  add_styled style (c ∷ t) p =
      if starts_with (codes "Heading") style
      then add_leveled (style_level style) (c ∷ t) p
      else some (add_title_or_body (text_eq style (codes "Title")) p.title (c ∷ t) p)

  unfoldable pub add_docx_paragraphs : List DocxParagraph → Progress → Option Progress
  unfolding add_docx_heading add path starts_with style_level text_eq strip
  add_docx_paragraphs [] p = some p
  add_docx_paragraphs (para ∷ paras) p =
      and_then (add_styled (style_name para.style) (strip u.is_space para.text) p)
        (λ p'. add_docx_paragraphs paras p')

  abbrev pub finish : Option Progress → Option Extraction
  finish none = none
  finish (some p) = some (extracted (build none p.title p.builder))

  -- `none` is an exception that is no `ExtractionError`.
  unfoldable pub extract_docx : DocxFile → Option Extraction
  unfolding add_docx_paragraphs build
  extract_docx (unopened message) = some (extraction_error (codes "Cannot open DOCX: " ++ message))
  extract_docx (opened paras) = finish (add_docx_paragraphs paras start)
