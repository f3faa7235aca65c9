-- ===== src/Upload/Stream.antt =====
-- `stream_to_disk_capped` of backend/app/ingestion/validators.py.
pub mod Capped
use docmesh.Prelude.{
  ℕ, ◌+◌, Option, none, some, List, [], ◌∷◌, ◌++◌, ltb, length, ◌==◌, if◌then◌else◌,
}
use docmesh.Text.{Text}
use docmesh.Upload.Detect.{Checked, valid, invalid, crashed, too_large, empty_file}

-- The loop over `upload.read(…)`, from the total and what the file has. A read that raises is `none`,
-- and behind the last of the list the reads are empty.
unfoldable pub receive : ℕ → ℕ → Text → List (Option Text) → Checked (ℕ × Text)
receive max_bytes total file [] = valid (total, file)
receive max_bytes total file (none ∷ reads) = crashed
receive max_bytes total file (some [] ∷ reads) = valid (total, file)
receive max_bytes total file (some (c ∷ chunk) ∷ reads) =
    let grown = total + length (c ∷ chunk) in
    let rest = receive max_bytes grown (file ++ c ∷ chunk) reads in
    if ltb max_bytes grown then invalid too_large else rest

-- Behind the loop: the result, and the file that stays at `dest`. The digest is that of all bytes.
abbrev pub settle : (Text → Text) → Checked (ℕ × Text) → Checked (ℕ × Text) × Option Text
settle sha256 (valid (total, file)) =
    if total == 0 then (invalid empty_file, none) else (valid (total, sha256 file), some file)
settle sha256 (invalid code) = (invalid code, none)
settle sha256 crashed = (crashed, none)

unfoldable pub stream_to_disk_capped :
    (Text → Text) → ℕ → List (Option Text) → Checked (ℕ × Text) × Option Text
unfolding receive
stream_to_disk_capped sha256 max_bytes reads = settle sha256 (receive max_bytes 0 [] reads)
