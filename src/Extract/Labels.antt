-- ===== src/Extract/Labels.antt =====
-- What holds of the labels that are added holds of those of the blocks.
use docmesh.Prelude.{◌≡◌, List, [], ◌∷◌, map, All, All-append}
use docmesh.Text.{Text, Unicode, strip, join}
use docmesh.Extract.Base.{
  Block, ExtractedDoc, separator, DocBuilder, Label, separate_at, separate, append_block,
  add_stripped, add,
}
use docmesh.Extract.Offsets.{IsLaidOut}

abbrev pub label_of : Block → Label
label_of k = record {
  page = k.page_number;
  section = k.section;
  is_heading = k.is_heading;
  heading_level = k.heading_level;
}

abbrev pub AreLabelled : (Label → Type 0) → DocBuilder → Type 0
AreLabelled Q b = All (λ (k : Block). Q (label_of k)) b.blocks

-- An extracted document: each block's text is the slice of the full text that its offsets name, the
-- blocks stand in order, the full text is their texts joined by a blank line, and each has such a label.
abbrev pub IsDocument : (Label → Type 0) → ExtractedDoc → Type 0
IsDocument Q doc =
    IsLaidOut doc.full_text doc.blocks
    × (doc.full_text ≡ join separator (map (λ (k : Block). k.text) doc.blocks))
    × All (λ (k : Block). Q (label_of k)) doc.blocks

module _ ⦃u : Unicode⦄ (Q : Label → Type 0) where
  separate-AreLabelled : (b : DocBuilder) → AreLabelled Q b → AreLabelled Q (separate b)
  unfolding separate
  separate-AreLabelled b h = step b.parts
    where
      step : (parts : List Text) → AreLabelled Q (separate_at parts b)
      step [] = h
      step (p ∷ ps) = h

  pub add-AreLabelled :
      (text : Text) (l : Label) (b : DocBuilder)
      → Q l
      → AreLabelled Q b
      → AreLabelled Q (add text l b)
  unfolding add append_block
  add-AreLabelled text l b q h = step (strip u.is_space text)
    where
      step : (t : Text) → AreLabelled Q (add_stripped l t b)
      step [] = h
      step (c ∷ t) =
          All-append (λ (k : Block). Q (label_of k)) (separate b).blocks _
            (separate-AreLabelled b h) (q, tt)
