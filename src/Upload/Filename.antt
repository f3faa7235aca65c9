-- ===== src/Upload/Filename.antt =====
-- `sanitize_filename` of backend/app/ingestion/validators.py. The two `basename` functions and `upper`
-- are Python's, and are parameters.
pub mod Safe
use docmesh.Prelude.{
  ℕ, ◌-◌, Bool, not, ◌&&◌, ◌||◌, Option, none, some, List, [], ◌∷◌, ◌++◌, map, filter, take, length,
  ltb, leb, ◌==◌, if◌then◌else◌,
}
use docmesh.Text.{Text, Unicode, text_in, join, split, rstrip}

-- "unnamed"
abbrev pub unnamed : Text
unnamed = b'u' ∷ b'n' ∷ b'n' ∷ b'a' ∷ b'm' ∷ b'e' ∷ b'd' ∷ []

abbrev pub digits : List ℕ
digits = b'1' ∷ b'2' ∷ b'3' ∷ b'4' ∷ b'5' ∷ b'6' ∷ b'7' ∷ b'8' ∷ b'9' ∷ []

-- `_WINDOWS_RESERVED`
abbrev pub windows_reserved : List Text
windows_reserved =
    (b'C' ∷ b'O' ∷ b'N' ∷ [])
    ∷ (b'P' ∷ b'R' ∷ b'N' ∷ [])
    ∷ (b'A' ∷ b'U' ∷ b'X' ∷ [])
    ∷ (b'N' ∷ b'U' ∷ b'L' ∷ [])
    ∷ (map (λ d. b'C' ∷ b'O' ∷ b'M' ∷ d ∷ []) digits
        ++ map (λ d. b'L' ∷ b'P' ∷ b'T' ∷ d ∷ []) digits)

-- `ord(ch) >= 0x20 and ch != "\x7f"`
abbrev pub is_printable : ℕ → Bool
is_printable c = leb 32 c && not (c == 127)

-- `name.split(".", 1)[0]`
unfoldable pub stem_of : Text → Text
stem_of [] = []
stem_of (c ∷ t) = let rest = stem_of t in if c == b'.' then [] else c ∷ rest

abbrev pub rpartition_cons : ℕ → Text → Option (Text × Text) → Option (Text × Text)
rpartition_cons c t none = if c == b'.' then some ([], t) else none
rpartition_cons c t (some (stem, ext)) = some (c ∷ stem, ext)

-- `name.rpartition(".")`; `none` where there is no dot.
unfoldable pub rpartition : Text → Option (Text × Text)
rpartition [] = none
rpartition (c ∷ t) = rpartition_cons c t (rpartition t)

abbrev pub truncate_at : Text → Option (Text × Text) → Text
truncate_at name none = take 255 name
truncate_at name (some (stem, ext)) =
    if ltb (length ext) 16 then take (255 - length ext - 1) stem ++ b'.' ∷ ext else take 255 name

-- The name within 255 characters, with its extension if that is short.
unfoldable pub truncate : Text → Text
unfolding rpartition
truncate name = truncate_at name (rpartition name)

abbrev pub or_unnamed : Text → Text
or_unnamed [] = unnamed
or_unnamed (c ∷ t) = c ∷ t

-- A device name of Windows gets an underscore.
unfoldable pub escape_reserved : (Text → Text) → Text → Text
unfolding text_in stem_of
escape_reserved upper name =
    if text_in (upper (stem_of name)) windows_reserved then b'_' ∷ name else name

unfoldable pub cap_length : Text → Text
unfolding truncate
cap_length name = if ltb 255 (length name) then truncate name else name

module _ (nt_basename posix_basename upper : Text → Text) ⦃u : Unicode⦄ where
  -- The basename without control characters, with single spaces, and no dot or space at its end.
  unfoldable pub normalize : Text → Text
  unfolding split join rstrip
  normalize name =
      rstrip (λ c. c == b'.' || c == 32)
        (join (32 ∷ []) (split (filter is_printable (posix_basename (nt_basename name)))))

  unfoldable pub sanitize_filename : Text → Text
  unfolding normalize escape_reserved cap_length
  sanitize_filename name = or_unnamed (cap_length (escape_reserved upper (normalize name)))
