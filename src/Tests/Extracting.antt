-- ===== src/Tests/Extracting.antt =====
-- The extractor's builder and section tracker at small inputs.
use docmesh.Prelude.{true, ◌≡◌, refl, ◌∷◌, [], none, false, some}
use docmesh.Extract.{Block, separator, Label, empty_builder, add, Stack}
use docmesh.Extract.Offsets.{IsLaidOut}
use docmesh.Extract.Paragraphs.{extract}
use docmesh.Extract.Paragraphs.Sound.{extract-IsLaidOut}
use mathlib.Core.List.{flatten, map}
use docmesh.Text.{Text, join, strip}
use docmesh.Tests.Samples.{ascii, hello}

abbrev plain : Label
plain = record { page = some 1; section = none; is_heading = false; heading_level = none }

-- A title, and two sections of level 2 and 4 below it.
abbrev open_sections : Stack
open_sections = (1, b'T' ∷ []) ∷ (2, b'A' ∷ []) ∷ (4, b'B' ∷ []) ∷ []

hello_twice : (add hello plain (add hello plain empty_builder)).pos ≡ 36
unfolding add strip
hello_twice = refl

-- "# T\nx\n \ny"
abbrev markdown : Text
markdown = b'#' ∷ 32 ∷ b'T' ∷ 10 ∷ b'x' ∷ 10 ∷ 32 ∷ 10 ∷ b'y' ∷ []

markdown_text : (extract true markdown).full_text ≡ b'T' ∷ 10 ∷ 10 ∷ b'x' ∷ 10 ∷ 10 ∷ b'y' ∷ []
unfolding extract strip flatten
markdown_text = refl

markdown_title : (extract true markdown).title ≡ some (b'T' ∷ [])
unfolding extract strip
markdown_title = refl

extract-IsLaidOut_example :
    IsLaidOut (extract true markdown).full_text (extract true markdown).blocks
    × ((extract true markdown).full_text
        ≡ join separator (map (λ (k : Block). k.text) (extract true markdown).blocks))
extract-IsLaidOut_example = extract-IsLaidOut true markdown
