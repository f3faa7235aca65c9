-- ===== src/Tests/Chunking.antt =====
-- The chunker at small inputs.
use docmesh.Prelude.{◌≡◌, refl, none, [], ◌∷◌, flat_map, length, arith}
use docmesh.Text.{InSpans}
use docmesh.Chunker.Sentences.{split_sentences}
use docmesh.Chunker.Sentences.Cover.{split_sentences-InSpans}
use docmesh.Chunker.Oversized.{Piece, split_oversized}
use docmesh.Chunker.Oversized.Fitting.{Fits, split_oversized-Fits}
use docmesh.Chunker.Packing.{Packed, pack}
use docmesh.Chunker.Packing.Consumed.{pack-consumed}
use docmesh.Chunker.Packing.Overlap.{WellCarried, pack-WellCarried}
use docmesh.Chunker.Packing.Budget.{Packs, pack-Packs}
use docmesh.Tests.Samples.{ascii, piece, five, hello}

hello_sentences : split_sentences hello ≡ (0, 10) ∷ (11, 14) ∷ (16, 17) ∷ []
unfolding split_sentences
hello_sentences = refl

five_packed :
    pack 6 3 five
    ≡ record { carried = []; fresh = piece 0 10 3 ∷ piece 11 20 2 ∷ [] }
      ∷ record { carried = piece 11 20 2 ∷ []; fresh = piece 21 30 2 ∷ [] }
      ∷ record { carried = []; fresh = piece 31 60 9 ∷ [] }
      ∷ record { carried = []; fresh = piece 61 65 1 ∷ [] }
      ∷ []
unfolding pack
five_packed = refl

pack-consumed_example : flat_map (λ (p : Packed). p.fresh) (pack 6 3 five) ≡ five
pack-consumed_example = pack-consumed 6 3 five

pack-WellCarried_example : WellCarried 3 (pack 6 3 five)
pack-WellCarried_example = pack-WellCarried 6 3 five

pack-Packs_example : Packs 6 (pack 6 3 five)
pack-Packs_example = pack-Packs 6 3 five

split_sentences-InSpans_example : InSpans 12 (split_sentences hello)
split_sentences-InSpans_example = split_sentences-InSpans hello 12 (omega arith) refl

-- Six characters, a budget of 2 tokens, and a counter of characters.
abbrev long_unit : Piece
long_unit = record { char_start = 0; char_end = 6; page = none; tokens = 6 }

split_oversized-Fits_example :
    Fits hello 2 length long_unit 3 (split_oversized hello 2 length long_unit)
split_oversized-Fits_example =
    split_oversized-Fits hello 2 length long_unit 3 (omega arith) (omega arith) (omega arith) refl
