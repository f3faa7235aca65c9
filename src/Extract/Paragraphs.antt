-- ===== src/Extract/Paragraphs.antt =====
-- backend/app/ingestion/extractors/text.py, from the decoded text of the file. `\s` and `strip` read
-- one table of white space.
pub mod Sound
use docmesh.Prelude.{
  ℕ, zero, suc, Bool, true, false, ◌&&◌, Option, none, some, List, [], ◌∷◌, ◌++◌, length, ltb, min,
  ◌==◌, if◌then◌else◌,
}
use docmesh.Text.{Text, Unicode, strip}
use docmesh.Extract.Base.{
  ExtractedDoc, DocBuilder, empty_builder, Label, Stack, add, build, on_heading, path,
}

abbrev or_else {ℓ} : {A : Type ℓ} → Option A → Option A → Option A
or_else none o = o
or_else (some a) o = some a

-- The lines of a paragraph behind the first: `partition("\n")`.
unfoldable pub first_line : Text → Text
first_line [] = []
first_line (c ∷ t) = let line = first_line t in if c == 10 then [] else c ∷ line

unfoldable pub remainder : Text → Text
remainder [] = []
remainder (c ∷ t) = let below = remainder t in if c == 10 then t else below

-- `#{1,6}`: how many there are at the start, and what follows them.
unfoldable pub hashes : Text → ℕ × Text
hashes [] = (0, [])
hashes (c ∷ t) = let (n, rest) = hashes t in if c == b'#' then (suc n, rest) else (0, c ∷ t)

abbrev pub is_nil : Text → Bool
is_nil [] = true
is_nil (c ∷ t) = false

-- The state of the loop: the builder, the tracker's stack, and the title.
pub record Progress : Type 0 where
  pub builder : DocBuilder
  pub stack : Stack
  pub title : Option Text

abbrev pub start : Progress
start = record { builder = empty_builder; stack = []; title = none }

module _ ⦃u : Unicode⦄ where
  -- `\s*\n` behind a line break: what follows the last line break of the white space, if it has one.
  unfoldable pub blank_end : Text → Option Text
  blank_end [] = none
  blank_end (c ∷ t) =
      let later = blank_end t in
      if u.is_space c then or_else later (if c == 10 then some t else none) else none

  -- `re.split(r"\n\s*\n", raw)`. Each round drops a character, so that the length is enough fuel.
  unfoldable pub split_from : ℕ → Text → Text → List Text
  unfolding blank_end
  split_from zero para t = (para ++ t) ∷ []
  split_from (suc fuel) para [] = para ∷ []
  split_from (suc fuel) para (c ∷ t) =
      let longer = split_from fuel (para ++ c ∷ []) t in
      if c == 10
      then elim (blank_end t) [ none ↦ longer | some rest ↦ para ∷ split_from fuel [] rest ]
      else longer

  unfoldable pub paragraphs : Text → List Text
  unfolding split_from
  paragraphs raw = split_from (length raw) [] raw

  -- `_HEADING_RE.match`: the number of hashes, 1 to 6, and the stripped text behind the white space
  -- that has to follow them.
  abbrev pub heading_behind : ℕ × Text → Option (ℕ × Text)
  heading_behind (n, []) = none
  heading_behind (n, c ∷ rest) =
      if ltb 0 n && (ltb n 7 && u.is_space c) then some (n, strip u.is_space rest) else none

  unfoldable pub heading : Text → Option (ℕ × Text)
  unfolding hashes strip
  heading line = heading_behind (hashes line)

  abbrev pub plain : Option Text → Label
  plain section = record {
    page = none;
    section = section;
    is_heading = false;
    heading_level = none;
  }

  abbrev pub title_after : Option Text → ℕ → Text → Option Text
  title_after none level text = if level == 1 then some text else none
  title_after (some title) level text = some title

  -- `if remainder.strip(): builder.add(remainder, …)`
  abbrev pub add_rest : Text → Text → Stack → DocBuilder → DocBuilder
  add_rest [] rest stack b = b
  add_rest (c ∷ t) rest stack b = add rest (plain (path stack)) b

  -- A heading, and the body lines below it.
  unfoldable pub add_heading : ℕ → Text → Text → Progress → Progress
  unfolding add on_heading path strip
  add_heading level text rest p =
      let stack = on_heading level text p.stack in
      let builder =
        add text
          (record {
            page = none;
            section = path stack;
            is_heading = true;
            heading_level = some level;
          })
          p.builder in
      record {
        builder = add_rest (strip u.is_space rest) rest stack builder;
        stack = stack;
        title = title_after p.title level text;
      }

  abbrev pub add_block : Option (ℕ × Text) → Bool → Text → Text → Progress → Progress
  add_block none is_markdown para rest p = record p {
    builder = add para (plain (if is_markdown then path p.stack else none)) p.builder;
  }
  add_block (some (n, text)) is_markdown para rest p = add_heading (min n 3) text rest p

  -- One round of the loop.
  abbrev pub add_stripped_paragraph : Bool → Text → Text → Progress → Progress
  add_stripped_paragraph is_markdown para [] p = p
  add_stripped_paragraph is_markdown para (c ∷ t) p =
      add_block (if is_markdown then heading (first_line (c ∷ t)) else none) is_markdown para
        (remainder (c ∷ t)) p

  unfoldable pub add_paragraph : Bool → Text → Progress → Progress
  unfolding add path add_heading heading first_line remainder strip
  add_paragraph is_markdown para p =
      add_stripped_paragraph is_markdown para (strip u.is_space para) p

  unfoldable pub add_paragraphs : Bool → List Text → Progress → Progress
  unfolding add_paragraph
  add_paragraphs is_markdown [] p = p
  add_paragraphs is_markdown (para ∷ paras) p =
      add_paragraphs is_markdown paras (add_paragraph is_markdown para p)

  unfoldable pub extract : Bool → Text → ExtractedDoc
  unfolding add_paragraphs paragraphs build
  extract is_markdown raw =
      let p = add_paragraphs is_markdown (paragraphs raw) start in build none p.title p.builder
