-- ===== src/Upload/Stream/Capped.antt =====
-- The byte cap of an upload, and the file that an upload leaves.
use docmesh.Prelude.{
  ℕ, ◌+◌, ◌≤◌, ◌<◌, ◌≡◌, refl, ap, ◌∙◌, Option, none, some, List, [], ◌∷◌, ◌++◌, ltb, length, ◌==◌,
  Bool-cases, inl, inr, if◌then◌else◌, arith, length-append, append-nil, append_assoc, if_both,
}
use docmesh.Text.{Text}
use docmesh.Upload.Detect.{Checked, valid, invalid, crashed, too_large, empty_file}
use docmesh.Upload.Stream.{receive, settle, stream_to_disk_capped}

-- No read raises before the first that is empty.
abbrev pub IsCalm : List (Option Text) → Type 0
IsCalm [] = Unit
IsCalm (none ∷ reads) = ⊥
IsCalm (some [] ∷ reads) = Unit
IsCalm (some (c ∷ chunk) ∷ reads) = IsCalm reads

-- The bytes that the client sends.
abbrev pub content : List (Option Text) → Text
content [] = []
content (none ∷ reads) = []
content (some [] ∷ reads) = []
content (some (c ∷ chunk) ∷ reads) = (c ∷ chunk) ++ content reads

abbrev verdict : ℕ → ℕ → Text → Checked (ℕ × Text)
verdict max_bytes total file =
    if ltb max_bytes total then invalid too_large else valid (total, file)

receive-content :
    (max_bytes total : ℕ) (file : Text) (reads : List (Option Text))
    → IsCalm reads
    → total ≤ max_bytes
    → receive max_bytes total file reads
      ≡ verdict max_bytes (total + length (content reads)) (file ++ content reads)
unfolding receive
receive-content max_bytes total file [] calm h = rw (append-nil file) (ground arith)
receive-content max_bytes total file (none ∷ reads) calm h = absurd calm
receive-content max_bytes total file (some [] ∷ reads) calm h = rw (append-nil file) (ground arith)
receive-content max_bytes total file (some (c ∷ chunk) ∷ reads) calm h =
    let grown = total + length (c ∷ chunk) in
    let size = length-append (c ∷ chunk) (content reads) in
    let sum : grown + length (content reads) ≡ total + length ((c ∷ chunk) ++ content reads) =
      omega (arith, size) in
    elim (Bool-cases (ltb max_bytes grown)) [
      | inl over ↦ ground (arith, size)
      | inr fits ↦ rw fits (
          receive-content max_bytes grown (file ++ c ∷ chunk) reads calm (ground arith)
          ∙ rw sum (ap (verdict max_bytes _) (append_assoc file (c ∷ chunk) (content reads))))
    ]

settle-verdict :
    (sha256 : Text → Text) (max_bytes : ℕ) (bytes : Text)
    → settle sha256 (verdict max_bytes (length bytes) bytes) ≡ (
        if length bytes == 0
        then (invalid empty_file, none)
        else (if ltb max_bytes (length bytes)
            then (invalid too_large, none)
            else (valid (length bytes, sha256 bytes), some bytes)))
settle-verdict sha256 max_bytes [] = ground arith
settle-verdict sha256 max_bytes (c ∷ bytes) = ground arith

-- The total is the size of the file, and within the cap.
abbrev IsBounded : ℕ → Checked (ℕ × Text) → Type 0
IsBounded max_bytes (valid (n, file)) = (n ≡ length file) × (n ≤ max_bytes)
IsBounded max_bytes (invalid code) = Unit
IsBounded max_bytes crashed = Unit

receive-IsBounded :
    (max_bytes total : ℕ) (file : Text) (reads : List (Option Text))
    → total ≡ length file
    → total ≤ max_bytes
    → IsBounded max_bytes (receive max_bytes total file reads)
unfolding receive
receive-IsBounded max_bytes total file [] e h = (e, h)
receive-IsBounded max_bytes total file (none ∷ reads) e h = tt
receive-IsBounded max_bytes total file (some [] ∷ reads) e h = (e, h)
receive-IsBounded max_bytes total file (some (c ∷ chunk) ∷ reads) e h =
    if_both (IsBounded max_bytes) (ltb max_bytes (total + length (c ∷ chunk))) (λ over. tt)
      λ fits.
        receive-IsBounded max_bytes (total + length (c ∷ chunk)) (file ++ c ∷ chunk) reads
          (omega (arith, length-append file (c ∷ chunk))) (ground arith)

settle-kept :
    (sha256 : Text → Text) (max_bytes : ℕ) (r : Checked (ℕ × Text)) (file : Text)
    → IsBounded max_bytes r
    → (settle sha256 r).1 ≡ some file
    → (0 < length file)
      × (length file ≤ max_bytes)
      × ((settle sha256 r).0 ≡ valid (length file, sha256 file))
settle-kept sha256 max_bytes (valid (n, bytes)) file b h = elim (Bool-cases (n == 0)) [
  | inl empty ↦ ground arith
  | inr more ↦ let same : bytes ≡ file = ground arith in rw (← same) (ground arith)
]
settle-kept sha256 max_bytes (invalid code) file b h = cc
settle-kept sha256 max_bytes crashed file b h = cc

-- If no read raises: an upload without bytes is refused as empty, one over the cap as too large, and
-- neither leaves a file; any other is stored whole, with its size and digest.
pub stream_to_disk_capped-content :
    (sha256 : Text → Text) (max_bytes : ℕ) (reads : List (Option Text))
    → IsCalm reads
    → stream_to_disk_capped sha256 max_bytes reads ≡ (
        if length (content reads) == 0
        then (invalid empty_file, none)
        else (if ltb max_bytes (length (content reads))
            then (invalid too_large, none)
            else (valid (length (content reads), sha256 (content reads)), some (content reads))))
unfolding stream_to_disk_capped
stream_to_disk_capped-content sha256 max_bytes reads calm =
    let zero_sum : 0 + length (content reads) ≡ length (content reads) = omega arith in
    let r = receive-content max_bytes 0 [] reads calm (omega arith) in
    ap (settle sha256) (r ∙ ap (λ n. verdict max_bytes n (content reads)) zero_sum)
    ∙ settle-verdict sha256 max_bytes (content reads)

-- Whatever the reads do: a file that stays is within the cap and not empty, and the result tells its
-- size and digest.
pub stream_to_disk_capped-kept :
    (sha256 : Text → Text) (max_bytes : ℕ) (reads : List (Option Text)) (file : Text)
    → (stream_to_disk_capped sha256 max_bytes reads).1 ≡ some file
    → (0 < length file)
      × (length file ≤ max_bytes)
      × ((stream_to_disk_capped sha256 max_bytes reads).0 ≡ valid (length file, sha256 file))
unfolding stream_to_disk_capped
stream_to_disk_capped-kept sha256 max_bytes reads file h =
    settle-kept sha256 max_bytes _ file (receive-IsBounded max_bytes 0 [] reads refl (omega arith))
      h
