-- ===== src/Extract/Base.antt =====
-- backend/app/ingestion/extractors/base.py
use mathlib.Core.List.{flatten}
use docmesh.Prelude.{
  ℕ, ◌+◌, Bool, Option, none, some, List, [], ◌∷◌, ◌++◌, map, leb, if◌then◌else◌, length,
}
use docmesh.Text.{Text, Unicode, strip, join}

-- One contiguous unit of source text (a paragraph, or a heading line).
pub record Block : Type 0 where
  pub text : Text
  pub char_start : ℕ
  pub char_end : ℕ
  pub page_number : Option ℕ
  pub section : Option Text
  pub is_heading : Bool
  pub heading_level : Option ℕ

pub record ExtractedDoc : Type 0 where
  pub full_text : Text
  pub blocks : List Block
  pub page_count : Option ℕ
  pub title : Option Text

-- `_DocBuilder`: the parts of the text, the blocks, and the length of the parts.
pub record DocBuilder : Type 0 where
  pub parts : List Text
  pub blocks : List Block
  pub pos : ℕ

abbrev pub empty_builder : DocBuilder
empty_builder = record { parts = []; blocks = []; pos = 0 }

-- The arguments of `_DocBuilder.add` besides the text.
pub record Label : Type 0 where
  pub page : Option ℕ
  pub section : Option Text
  pub is_heading : Bool
  pub heading_level : Option ℕ

-- "\n\n"
abbrev pub separator : Text
separator = 10 ∷ 10 ∷ []

abbrev pub separate_at : List Text → DocBuilder → DocBuilder
separate_at [] b = b
separate_at (_ ∷ _) b = record b { parts = b.parts ++ separator ∷ []; pos = b.pos + 2 }

-- `if self._parts: self._parts.append("\n\n"); self._pos += 2`
unfoldable pub separate : DocBuilder → DocBuilder
separate b = separate_at b.parts b

-- The block goes to the end of the text.
unfoldable pub append_block : Label → Text → DocBuilder → DocBuilder
append_block l [] b = b
append_block l text b = record {
  parts = b.parts ++ text ∷ [];
  blocks =
      b.blocks
      ++ record {
        text = text;
        char_start = b.pos;
        char_end = b.pos + length text;
        page_number = l.page;
        section = l.section;
        is_heading = l.is_heading;
        heading_level = l.heading_level;
      }
        ∷ [];
  pos = b.pos + length text;
}

abbrev pub add_stripped : Label → Text → DocBuilder → DocBuilder
add_stripped l [] b = b
add_stripped l text b = append_block l text (separate b)

module _ ⦃u : Unicode⦄ where
  -- `_DocBuilder.add`
  unfoldable pub add : Text → Label → DocBuilder → DocBuilder
  unfolding append_block separate
  add text l b = add_stripped l (strip u.is_space text) b

-- `_DocBuilder.build`; `"".join(parts)` is `flatten`.
unfoldable pub build : Option ℕ → Option Text → DocBuilder → ExtractedDoc
build page_count title b = record {
  full_text = flatten b.parts;
  blocks = b.blocks;
  page_count = page_count;
  title = title;
}

-- `_SectionTracker`: (level, heading text), the innermost last.
abbrev pub Stack : Type 0
Stack = List (ℕ × Text)

abbrev pub pop_cons : ℕ → ℕ × Text → Stack → Stack
pop_cons level entry [] = if leb level entry.0 then [] else entry ∷ []
pop_cons level entry (e ∷ s) = entry ∷ e ∷ s

-- `while self._stack and self._stack[-1][0] >= level: self._stack.pop()`
unfoldable pub pop_from : ℕ → Stack → Stack
pop_from level [] = []
pop_from level (entry ∷ s) = pop_cons level entry (pop_from level s)

unfoldable pub on_heading : ℕ → Text → Stack → Stack
unfolding pop_from
on_heading level text s = pop_from level s ++ (level, text) ∷ []

-- " > "
abbrev arrow : Text
arrow = 32 ∷ 62 ∷ 32 ∷ []

abbrev pub none_if_empty : Text → Option Text
none_if_empty [] = none
none_if_empty (c ∷ t) = some (c ∷ t)

unfoldable pub path : Stack → Option Text
path s = none_if_empty (join arrow (map (λ (e : ℕ × Text). e.1) s))
