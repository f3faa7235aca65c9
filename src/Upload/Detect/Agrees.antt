-- ===== src/Upload/Detect/Agrees.antt =====
-- A file type that is accepted is the one claimed and the one that the content shows.
use docmesh.Prelude.{
  ℕ, ◌≡◌, ◌≢◌, ◌≤◌, ◌⊎◌, refl, sym, subst, ap, ◌∙◌, [], ◌∷◌, Bool, true, false, Option, none, some,
  List, map, length, Bool-cases, Option-cases, inl, inr, arith,
}
use docmesh.Text.{starts_with, Text, Unicode, text_eq, text_in, eq_of_text_eq}
use docmesh.Storage.{FileType, pdf, docx, txt, md}
use docmesh.Upload.Detect.{
  valid, extension, file_type_of, file_type_eq, pdf_magic, zip_magic, content_types, total_size,
  zip_max_entries, zip_max_uncompressed, verify_docx_zip, is_empty, check_claim, check_text,
  detect_content, detect_claimed, detect_file_type, normal_ext,
}

-- An archive within the limits that has the entry of an Office document.
abbrev pub IsSoundZip : Option (List (Text × ℕ)) → Type 0
IsSoundZip none = ⊥
IsSoundZip (some infos) =
    (length infos ≤ zip_max_entries)
    × (total_size infos ≤ zip_max_uncompressed)
    × (text_in content_types (map (λ (i : Text × ℕ). i.0) infos) ≡ true)

module _ (read_zip : Text → Option (List (Text × ℕ))) (is_utf8 : Text → Bool) where
  -- What the bytes are to look like for the type.
  abbrev pub Shows : Text → Text → FileType → Type 0
  Shows header source pdf = starts_with pdf_magic header ≡ true
  Shows header source docx = (starts_with zip_magic header ≡ true) × IsSoundZip (read_zip source)
  Shows header source _ =
      (is_empty header ≡ false)
      × (starts_with pdf_magic header ≡ false)
      × (starts_with zip_magic header ≡ false)
      × (is_utf8 source ≡ true)

  check_none :
      (header source : Text) (t : FileType)
      → detect_claimed read_zip is_utf8 header source none ≢ valid t
  check_none header source t h = cc

  eq_of_file_type_eq : (a b : FileType) → file_type_eq a b ≡ true → a ≡ b
  unfolding file_type_eq
  eq_of_file_type_eq pdf pdf h = refl
  eq_of_file_type_eq docx docx h = refl
  eq_of_file_type_eq txt txt h = refl
  eq_of_file_type_eq md md h = refl
  eq_of_file_type_eq a b h = cc

  file_type_of-extension :
      (ext : Text) (t : FileType) → file_type_of ext ≡ some t → ext ≡ extension t
  unfolding file_type_of
  file_type_of-extension ext t h = elim (Bool-cases (text_eq ext (extension pdf))) [
    | inl e ↦ eq_of_text_eq ext _ e ∙ ap extension {x = pdf} (ground arith)
    | inr a ↦ elim (Bool-cases (text_eq ext (extension docx))) [
      | inl e ↦ eq_of_text_eq ext _ e ∙ ap extension {x = docx} (ground arith)
      | inr b ↦ elim (Bool-cases (text_eq ext (extension txt))) [
        | inl e ↦ eq_of_text_eq ext _ e ∙ ap extension {x = txt} (ground arith)
        | inr c ↦ elim (Bool-cases (text_eq ext (extension md))) [
          | inl e ↦ eq_of_text_eq ext _ e ∙ ap extension {x = md} (ground arith)
          | inr d ↦ ground arith
        ]
      ]
    ]
  ]

  extension-file_type_of : (t : FileType) → file_type_of (extension t) ≡ some t
  unfolding file_type_of text_eq
  extension-file_type_of pdf = refl
  extension-file_type_of docx = refl
  extension-file_type_of txt = refl
  extension-file_type_of md = refl

  verify-IsSoundZip : (z : Option (List (Text × ℕ))) → verify_docx_zip z ≡ none → IsSoundZip z
  unfolding verify_docx_zip
  verify-IsSoundZip none h = cc
  verify-IsSoundZip (some infos) h = (ground arith, ground arith, ground arith)

  sound-verify : (z : Option (List (Text × ℕ))) → IsSoundZip z → verify_docx_zip z ≡ none
  unfolding verify_docx_zip
  sound-verify none h = absurd h
  sound-verify (some infos) h = ground arith

  check_claim-valid :
      (actual claimed t : FileType)
      → check_claim actual claimed ≡ valid t
      → (t ≡ actual) × (t ≡ claimed)
  check_claim-valid actual claimed t h = elim (Bool-cases (file_type_eq actual claimed)) [
    | inl same ↦ let e = eq_of_file_type_eq actual claimed same in (ground arith, ground arith)
    | inr other ↦ ground arith
  ]

  check_text-valid :
      (claimed t : FileType) → check_text claimed ≡ valid t → (t ≡ claimed) × ((t ≡ txt) ⊎ (t ≡ md))
  check_text-valid pdf t h = cc
  check_text-valid docx t h = cc
  check_text-valid txt t h = (ground arith, inl (ground arith))
  check_text-valid md t h = (ground arith, inr (ground arith))

  pdf-nonempty : (header : Text) → starts_with pdf_magic header ≡ true → is_empty header ≡ false
  unfolding starts_with
  pdf-nonempty [] h = cc
  pdf-nonempty (c ∷ t) h = refl

  zip-nonempty : (header : Text) → starts_with zip_magic header ≡ true → is_empty header ≡ false
  unfolding starts_with
  zip-nonempty [] h = cc
  zip-nonempty (c ∷ t) h = refl

  zip-not_pdf :
      (header : Text) → starts_with zip_magic header ≡ true → starts_with pdf_magic header ≡ false
  unfolding starts_with
  zip-not_pdf [] h = refl
  zip-not_pdf (c ∷ t) h = ground arith

  module _ (header source : Text) where
    -- The content's checks accept exactly the claimed type, and that where the bytes look like it.
    content-Shows :
        (claimed t : FileType)
        → detect_content read_zip is_utf8 header source claimed ≡ valid t
        → (t ≡ claimed) × Shows header source t
    unfolding detect_content file_type_eq
    content-Shows claimed t h = elim (Bool-cases (is_empty header)) [
      | inl e ↦ ground arith
      | inr ne ↦ elim (Bool-cases (starts_with pdf_magic header)) [
        | inl p ↦
            let c = check_claim-valid pdf claimed t (ground arith) in
            (c.1, subst (λ x. Shows header source x) (sym c.0) p)
        | inr np ↦ elim (Bool-cases (starts_with zip_magic header)) [
          | inl z ↦ elim (Option-cases (verify_docx_zip (read_zip source))) [
            | inl sound ↦
                let c = check_claim-valid docx claimed t (ground arith) in
                (c.1, subst (λ x. Shows header source x) (sym c.0) (z, verify-IsSoundZip _ sound))
            | inr (code, bad) ↦ ground arith
          ]
          | inr nz ↦ elim (Bool-cases (is_utf8 source)) [
            | inl u ↦
                let c = check_text-valid claimed t (ground arith) in
                (
                  c.0,
                  elim (c.1) [
                    | inl e ↦ subst (λ x. Shows header source x) (sym e) (ne, np, nz, u)
                    | inr e ↦ subst (λ x. Shows header source x) (sym e) (ne, np, nz, u)
                  ],
                )
            | inr nu ↦ ground arith
          ]
        ]
      ]
    ]

    Shows-content :
        (t : FileType)
        → Shows header source t
        → detect_content read_zip is_utf8 header source t ≡ valid t
    unfolding detect_content file_type_eq
    Shows-content pdf h = ground (arith, pdf-nonempty header h)
    Shows-content docx h =
        ground (
          arith,
          zip-nonempty header h.0,
          zip-not_pdf header h.0,
          sound-verify (read_zip source) h.1,
        )
    Shows-content txt h = ground arith
    Shows-content md h = ground arith

  module _ ⦃u : Unicode⦄ where
    -- A file is accepted as a type exactly if the claimed extension, in lower case and without its
    -- dots, is the type's, and the content looks like it: the magic of a PDF; the magic of an archive
    -- within the limits that has the entry of an Office document; or, for text and Markdown, some
    -- UTF-8 content with neither magic.
    pub detect_file_type-Shows :
        (header source claimed_ext : Text) (t : FileType)
        → ((detect_file_type read_zip is_utf8 header source claimed_ext ≡ valid t
              → (normal_ext claimed_ext ≡ extension t) × Shows header source t)
            × ((normal_ext claimed_ext ≡ extension t) × Shows header source t
                → detect_file_type read_zip is_utf8 header source claimed_ext ≡ valid t))
    unfolding detect_file_type
    detect_file_type-Shows header source claimed_ext t = (
      (λ h. elim (Option-cases (file_type_of (normal_ext claimed_ext))) [
        | inl unknown ↦ absurd (
            check_none header source t
              (ap (detect_claimed read_zip is_utf8 header source) (sym unknown) ∙ h))
        | inr (claimed, known) ↦
            let c =
              content-Shows header source claimed t
                (ap (detect_claimed read_zip is_utf8 header source) (sym known) ∙ h) in
            (file_type_of-extension _ claimed known ∙ ap extension (sym c.0), c.1)
      ]),
      (λ h. rw (h.0, extension-file_type_of t) (Shows-content header source t h.1)),
    )
