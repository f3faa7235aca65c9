-- ===== src/Tests/Reading.antt =====
-- A PDF with a heading above body text, and a DOCX with a title, a heading and a paragraph.
use mathlib.Core.List.{flatten}
use docmesh.Prelude.{
  inl, inr, arith, ℕ, ◌*◌, ◌/◌, ◌≡◌, refl, none, some, List, [], ◌∷◌, ◌&&◌, map, length, leb, ◌==◌,
  Option,
}
use docmesh.Text.{Text, codes, text_eq, strip, starts_with}
use docmesh.Extract.{Block, ExtractedDoc}
use docmesh.Extract.Labels.{IsDocument}
use docmesh.Extract.Pdf.{
  Sizes, PdfSpan, PdfBlock, PdfFile, Extraction, extracted, extraction_error, extract_pdf,
}
use docmesh.Extract.Pdf.Sound.{IsOnPages, extract_pdf-IsDocument}
use docmesh.Extract.Docx.{to_int, last_part, DigitTable, DocxParagraph, DocxFile, extract_docx}
use docmesh.Extract.Docx.Sound.{IsPageless, extract_docx-IsDocument}
use docmesh.Tests.Samples.{ascii, ascii_digits}

-- Tenths of a point.
instance abbrev tenths : Sizes ℕ
tenths = record { round = λ x. x; same = λ x y. x == y; le = leb; raised = λ x. x * 115 / 100 }

instance abbrev ascii_table : DigitTable
ascii_table = record { is_digit = λ c. leb b'0' c && leb c b'9' }

abbrev span : Text → ℕ → PdfSpan ℕ
span t size = record { text = t; size = size; flags = 0 }

abbrev text_block : PdfSpan ℕ → PdfBlock ℕ
text_block x = record { kind = 0; lines = (x ∷ []) ∷ [] }

abbrev page : List (PdfBlock ℕ)
page =
    text_block (span (codes "Cats") 160) ∷ text_block (span (codes "Cats  purr at night.") 100) ∷ []

abbrev levels_of : Extraction → List (Text × Option ℕ)
levels_of (extraction_error message) = []
levels_of (extracted doc) = map (λ (k : Block). (k.text, k.heading_level)) doc.blocks

pdf_levels :
    levels_of (extract_pdf (PdfFile.opened (page ∷ []) 1))
    ≡ (codes "Cats", some 1) ∷ (codes "Cats purr at night.", none) ∷ []
unfolding extract_pdf strip flatten
pdf_levels = refl

extract_pdf-IsDocument_example :
    (doc : ExtractedDoc) × (extract_pdf (PdfFile.opened (page ∷ []) 1) ≡ extracted doc)
    × IsDocument (IsOnPages (length (page ∷ []))) doc
    × (doc.page_count ≡ some 1)
extract_pdf-IsDocument_example = extract_pdf-IsDocument (page ∷ []) 1

abbrev para : Text → Text → DocxParagraph
para t style = record { text = t; style = some style }

abbrev paras : List DocxParagraph
paras =
    para (codes "Pets") (codes "Title")
    ∷ para (codes "Cats") (codes "Heading 7")
    ∷ para (codes " They purr. ") (codes "Normal")
    ∷ []

abbrev docx_levels_of : Option Extraction → List (Text × Option ℕ)
docx_levels_of none = []
docx_levels_of (some e) = levels_of e

docx_levels :
    docx_levels_of (extract_docx (DocxFile.opened paras))
    ≡ (codes "Pets", some 1) ∷ (codes "Cats", some 3) ∷ (codes "They purr.", none) ∷ []
unfolding extract_docx strip text_eq
docx_levels = refl

extract_docx-IsDocument_example :
    (doc : ExtractedDoc) × (extract_docx (DocxFile.opened paras) ≡ some (extracted doc))
    × IsDocument IsPageless doc
unfolding to_int starts_with last_part
extract_docx-IsDocument_example =
    extract_docx-IsDocument paras (inl refl, (inr (inr (7, omega arith, refl)), (inl refl, tt)))
