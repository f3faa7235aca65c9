-- ===== src/Extract/Paragraphs/Sound.antt =====
-- What the extraction of plain text and Markdown gives.
use docmesh.Prelude.{ℕ, ◌≡◌, Bool, Option, none, some, List, [], ◌∷◌, map, min}
use docmesh.Text.{Text, Unicode, strip, join}
use docmesh.Extract.Base.{Block, DocBuilder, separator, build, Stack}
use docmesh.Extract.Offsets.{
  IsLaidOut, IsExactBuilder, add-IsExactBuilder, empty_builder-IsExactBuilder,
}
use docmesh.Extract.Sections.{IsNested, on_heading-IsNested}
use docmesh.Extract.Paragraphs.{
  Progress, start, add_rest, add_heading, add_block, add_stripped_paragraph, add_paragraph,
  add_paragraphs, paragraphs, extract,
}

-- What the loop keeps.
abbrev pub IsSound : Progress → Type 0
IsSound p = IsExactBuilder p.builder × IsNested p.stack

module _ ⦃u : Unicode⦄ where
  add_rest-IsExactBuilder :
      (s rest : Text) (stack : Stack) (b : DocBuilder)
      → IsExactBuilder b
      → IsExactBuilder (add_rest s rest stack b)
  add_rest-IsExactBuilder [] rest stack b h = h
  add_rest-IsExactBuilder (c ∷ t) rest stack b h = add-IsExactBuilder rest _ b h

  add_heading-IsSound :
      (level : ℕ) (text rest : Text) (p : Progress)
      → IsSound p
      → IsSound (add_heading level text rest p)
  unfolding add_heading
  add_heading-IsSound level text rest p h = (
    add_rest-IsExactBuilder _ rest _ _ (add-IsExactBuilder text _ p.builder h.0),
    on_heading-IsNested level text p.stack h.1,
  )

  add_block-IsSound :
      (o : Option (ℕ × Text)) (is_markdown : Bool) (para rest : Text) (p : Progress)
      → IsSound p
      → IsSound (add_block o is_markdown para rest p)
  add_block-IsSound none is_markdown para rest p h = (add-IsExactBuilder para _ p.builder h.0, h.1)
  add_block-IsSound (some (n, text)) is_markdown para rest p h =
      add_heading-IsSound (min n 3) text rest p h

  add_paragraph-IsSound :
      (is_markdown : Bool) (para : Text) (p : Progress)
      → IsSound p
      → IsSound (add_paragraph is_markdown para p)
  unfolding add_paragraph
  add_paragraph-IsSound is_markdown para p h = step (strip u.is_space para)
    where
      step : (t : Text) → IsSound (add_stripped_paragraph is_markdown para t p)
      step [] = h
      step (c ∷ t) = add_block-IsSound _ is_markdown para _ p h

  add_paragraphs-IsSound :
      (is_markdown : Bool) (paras : List Text) (p : Progress)
      → IsSound p
      → IsSound (add_paragraphs is_markdown paras p)
  unfolding add_paragraphs
  add_paragraphs-IsSound is_markdown [] p h = h
  add_paragraphs-IsSound is_markdown (para ∷ paras) p h =
      add_paragraphs-IsSound is_markdown paras _ (add_paragraph-IsSound is_markdown para p h)

  -- Of any plain or Markdown text: each block's text is the slice of the full text that its offsets
  -- name, the blocks stand in order, and the full text is their texts joined by a blank line.
  pub extract-IsLaidOut :
      (is_markdown : Bool) (raw : Text)
      → IsLaidOut (extract is_markdown raw).full_text (extract is_markdown raw).blocks
        × ((extract is_markdown raw).full_text
            ≡ join separator (map (λ (k : Block). k.text) (extract is_markdown raw).blocks))
  unfolding extract build
  extract-IsLaidOut is_markdown raw =
      let h =
        add_paragraphs-IsSound is_markdown (paragraphs raw) start
          (empty_builder-IsExactBuilder, tt) in
      (h.0.laid_out, h.0.joined)
