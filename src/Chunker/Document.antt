-- ===== src/Chunker/Document.antt =====
-- `_section_units`, `content_hash` and `chunk_document` of backend/app/ingestion/chunker.py.
use docmesh.Prelude.{
  ℕ, ◌+◌, Bool, true, false, Option, none, some, List, [], ◌∷◌, ◌++◌, map, ltb, min, max,
  if◌then◌else◌, slice, flat_map,
}
use docmesh.Text.{Text, Unicode, Span, strip, split, join}
use docmesh.Extract.{Block, ExtractedDoc}
use docmesh.Chunker.Sentences.{split_sentences}
use docmesh.Chunker.Oversized.{Piece, split_oversized}
use docmesh.Chunker.Packing.{Packed, pack}

pub record DraftChunk : Type 0 where
  pub text : Text
  pub token_count : ℕ
  pub char_start : ℕ
  pub char_end : ℕ
  pub page_start : Option ℕ
  pub page_end : Option ℕ
  pub section : Option Text
  pub content_hash : Text

-- A heading cuts before itself: `sections[-1]` is the section that is open.
unfoldable pub sections_from : List Block → List Block → List (List Block)
sections_from current [] = current ∷ []
sections_from current (b ∷ bs) =
    let cut = sections_from (b ∷ []) bs in
    let same = sections_from (current ++ b ∷ []) bs in if b.is_heading then current ∷ cut else same

unfoldable pub sections : List Block → List (List Block)
unfolding sections_from
sections [] = []
sections (b ∷ bs) = sections_from (b ∷ []) bs

abbrev section_path : List Block → Option Text
section_path [] = none
section_path (b ∷ bs) = b.section

abbrev is_empty : Text → Bool
is_empty [] = true
is_empty (c ∷ t) = false

-- `[u.page for u in chunk_units if u.page is not None]`
abbrev add_page : Option ℕ → List ℕ → List ℕ
add_page none ps = ps
add_page (some p) ps = p ∷ ps

unfoldable pub pages : List Piece → List ℕ
pages [] = []
pages (v ∷ vs) = add_page v.page (pages vs)

-- `min(pages) if pages else None`, and `max`.
abbrev fold_page : (ℕ → ℕ → ℕ) → ℕ → Option ℕ → Option ℕ
fold_page f p none = some p
fold_page f p (some q) = some (f p q)

unfoldable pub min_page : List ℕ → Option ℕ
min_page [] = none
min_page (p ∷ ps) = fold_page min p (min_page ps)

unfoldable pub max_page : List ℕ → Option ℕ
max_page [] = none
max_page (p ∷ ps) = fold_page max p (max_page ps)

-- `chunk_units[0].char_start` and `chunk_units[-1].char_end`; a chunk has at least one unit.
abbrev pub first_start : List Piece → ℕ
first_start [] = 0
first_start (v ∷ vs) = v.char_start

abbrev pub last_end : List Piece → ℕ
last_end [] = 0
last_end (v ∷ []) = v.char_end
last_end (v ∷ w ∷ vs) = last_end (w ∷ vs)

module _ ⦃u : Unicode⦄ where
  -- `content_hash`; the argument is SHA-256 of the UTF-8 bytes, in hexadecimal.
  unfoldable pub content_hash : (Text → Text) → Text → Text
  unfolding split join
  content_hash sha256 text = sha256 (join (32 ∷ []) (split (u.lower text)))

-- The document's text, the token budget, and the token counter of the embedding model.
module _ (full_text : Text) (target : ℕ) (count_tokens : Text → ℕ) where
  module _ ⦃u : Unicode⦄ where
    abbrev pub block_units : Block → List Piece
    block_units b =
        if b.is_heading
        then record {
          char_start = b.char_start;
          char_end = b.char_end;
          page = b.page_number;
          tokens = count_tokens b.text;
        }
          ∷ []
        else map
            (λ ((s, e) : Span). record {
              char_start = b.char_start + s;
              char_end = b.char_start + e;
              page = b.page_number;
              tokens = count_tokens (slice full_text (b.char_start + s) (b.char_start + e));
            })
            (split_sentences b.text)

    abbrev pub fit : Piece → List Piece
    fit unit =
        if ltb target unit.tokens
        then split_oversized full_text target count_tokens unit
        else unit ∷ []

    unfoldable pub section_units : List Block → List Piece
    unfolding split_sentences split_oversized
    section_units blocks = flat_map fit (flat_map block_units blocks)

    module _ (sha256 : Text → Text) where
      unfoldable pub make_chunk : Option Text → Packed → DraftChunk
      unfolding content_hash pages min_page max_page
      make_chunk section p =
          let chunk_units = p.carried ++ p.fresh in
          let text = slice full_text (first_start chunk_units) (last_end chunk_units) in
          record {
            text = text;
            token_count = count_tokens text;
            char_start = first_start chunk_units;
            char_end = last_end chunk_units;
            page_start = min_page (pages chunk_units);
            page_end = max_page (pages chunk_units);
            section = section;
            content_hash = content_hash sha256 text;
          }

      unfoldable pub section_chunks : ℕ → List Block → List DraftChunk
      unfolding section_units make_chunk pack
      section_chunks overlap_budget blocks =
          map (make_chunk (section_path blocks)) (pack target overlap_budget (section_units blocks))

-- `chunk_document`; the overlap budget is `floor(target_tokens * overlap_ratio)`.
module _ ⦃u : Unicode⦄ (target overlap_budget : ℕ) (count_tokens : Text → ℕ)
    (sha256 : Text → Text) where
  unfoldable pub chunk_document : ExtractedDoc → List DraftChunk
  unfolding strip sections section_chunks
  chunk_document extracted =
      if is_empty (strip u.is_space extracted.full_text)
      then []
      else flat_map (section_chunks extracted.full_text target count_tokens sha256 overlap_budget)
          (sections extracted.blocks)
