-- ===== src/Upload/Service/Files.antt =====
-- The folder of uploads behind an upload that fails.
use docmesh.Prelude.{
  ℕ, ◌≡◌, refl, sym, ap, ◌∙◌, subst, Bool, false, not, ◌⊎◌, inl, inr, Option, none, some, List, [],
  ◌∷◌, filter, All, Bool-cases,
}
use docmesh.Text.{Text, Unicode, text_eq, text_eq_self}
use docmesh.Storage.{FileType, Document}
use docmesh.Ingest.Exec.{World, Result, raised, ◌>>=◌, act, call}
use docmesh.Upload.Stream.{stream_to_disk_capped}
use docmesh.Upload.Service.{
  Request, place, replace, unlink, unlink_opt, stored_name, log_queued, enqueue, register,
  receive_upload, on_error, rescue, try_upload,
}
use docmesh.Upload.Service.Leads.{
  Assertion, Leads, Leads-act, Leads-bind, Leads-keep, Leads-pure, Leads-lift, Leads-refuse,
  Leads-created, insert_at-files, insert_at-stored_path,
}

-- Nothing in the folder has the name.
abbrev pub IsAbsent : Text → List Text → Type 0
IsAbsent name files = All (λ f. text_eq f name ≡ false) files

module _ (tmp : Text) (before : List Text) where
  -- Before the file has its name; behind the choice of the name; and from the move on.
  abbrev Early : Assertion
  Early files path = ((files ≡ before) ⊎ (files ≡ tmp ∷ before)) × (path ≡ none)

  abbrev Named : Text → Assertion
  Named name files path = ((files ≡ before) ⊎ (files ≡ tmp ∷ before)) × (path ≡ some name)

  abbrev Left : Assertion
  Left files path =
      Early files path
      ⊎ ((name : Text) × IsAbsent name before
          × (path ≡ some name)
          × ((files ≡ before) ⊎ (files ≡ tmp ∷ before) ⊎ (files ≡ name ∷ before)))

filter_absent :
    (name : Text) (files : List Text)
    → IsAbsent name files
    → filter (λ f. not (text_eq f name)) files ≡ files
filter_absent name [] h = refl
filter_absent name (f ∷ files) h = rw (h.0, filter_absent name files h.1) refl

filter_added :
    (name : Text) (files : List Text)
    → IsAbsent name files
    → filter (λ f. not (text_eq f name)) (name ∷ files) ≡ files
filter_added name files h = rw (text_eq_self name, filter_absent name files h) refl

module _ (tmp : Text) (before : List Text) (tmp_absent : IsAbsent tmp before) where
  Named-Left :
      (name : Text)
      → IsAbsent name before
      → (files : List Text) (path : Option Text) → Named tmp before name files path
      → Left tmp before files path
  Named-Left name absent files path h =
      inr (name, absent, h.1, elim (h.0) [ inl e ↦ inl e | inr e ↦ inr (inl e) ])

  Leads-replace :
      (name : Text)
      → IsAbsent name before
      → Leads (Named tmp before name) (Left tmp before) (call (replace tmp name))
  Leads-replace name absent =
      Leads-act (λ w. (tt, replace tmp name w))
        (λ w h. inr (
          name,
          absent,
          h.1,
          inr (
              inr (
                ap (λ l. name ∷ l)
                  (elim (h.0) [
                    | inl e ↦ rw e (filter_absent tmp before tmp_absent)
                    | inr e ↦ rw e (filter_added tmp before tmp_absent)
                  ]))),
        ))
        (Named-Left name absent)

  Leads-place :
      (bytes : Option Text)
      → Leads
          (λ files path. (files ≡ before) × (path ≡ none))
          (Early tmp before)
          (call (place tmp bytes))
  Leads-place none =
      Leads-act (λ w. (tt, w)) (λ w h. (inl h.0, h.1)) (λ files path h. (inl h.0, h.1))
  Leads-place (some b) =
      Leads-act (λ w. (tt, place tmp (some b) w)) (λ w h. (inr (ap (λ l. tmp ∷ l) h.0), h.1))
        (λ files path h. (inl h.0, h.1))

  module _ (read_zip : Text → Option (List (Text × ℕ))) (is_utf8 : Text → Bool)
      (sha256 : Text → Text) (max_upload_bytes : ℕ) ⦃u : Unicode⦄ where
    Leads-register :
        (r : Request) (file_type : FileType) (sized : ℕ × Text)
        → r.tmp_path ≡ tmp
        → IsAbsent (stored_name r.doc_id file_type) before
        → Leads
            (Early tmp before)
            (Left tmp before)
            (register read_zip is_utf8 sha256 max_upload_bytes r file_type sized)
    unfolding register
    Leads-register r file_type sized e absent =
        let name = stored_name r.doc_id file_type in
        Leads-bind {R = Named tmp before name} (record { at = λ w h. (h.0, refl) })
          (Named-Left name absent)
          λ _.
            Leads-bind {R = Left tmp before}
              (subst (λ t. Leads (Named tmp before name) (Left tmp before) (call (replace t name)))
                (sym e) (Leads-replace name absent))
              (λ files path h. h)
              λ _.
                Leads-bind {R = Left tmp before}
                  (Leads-keep (Left tmp before) _ (λ w. insert_at-files _ w)
                    (λ w. insert_at-stored_path _ w))
                  (λ files path h. h)
                  λ row.
                    Leads-bind {R = Left tmp before} (Leads-created (Left tmp before) row)
                      (λ files path h. h)
                      λ document.
                        Leads-bind {R = Left tmp before}
                          (Leads-keep (Left tmp before) (log_queued r.doc_id) (λ w. refl)
                            (λ w. refl))
                          (λ files path h. h)
                          λ _.
                            Leads-bind {R = Left tmp before}
                              (Leads-keep (Left tmp before) (λ w. (tt, enqueue r.doc_id w))
                                (λ w. refl) (λ w. refl))
                              (λ files path h. h) λ _. Leads-pure (Left tmp before) document

    Leads-receive :
        (r : Request)
        → r.tmp_path ≡ tmp
        → ((t : FileType) → IsAbsent (stored_name r.doc_id t) before)
        → Leads
            (λ files path. (files ≡ before) × (path ≡ none))
            (Left tmp before)
            (receive_upload read_zip is_utf8 sha256 max_upload_bytes r)
    unfolding receive_upload
    Leads-receive r e absent =
        let E = Early tmp before in
        let bytes = (stream_to_disk_capped sha256 max_upload_bytes r.reads).1 in
        let early : (files : List Text) (path : Option Text)
            → E files path
            → Left tmp before files path =
          λ files path h. inl h in
        Leads-bind {R = E}
          (subst
            (λ t. Leads (λ files path. (files ≡ before) × (path ≡ none)) E (call (place t bytes)))
            (sym e) (Leads-place bytes))
          early
          λ _. Leads-bind {R = E} (Leads-lift E _) early λ sized.
            Leads-bind {R = E} (Leads-keep E _ (λ w. refl) (λ w. refl)) early λ header.
              Leads-bind {R = E} (Leads-lift E _) early λ file_type.
                Leads-bind {R = E} (Leads-keep E _ (λ w. refl) (λ w. refl)) early λ existing.
                  Leads-bind {R = E} (Leads-refuse E existing) early
                    λ _. Leads-register r file_type sized e (absent file_type)

  removed :
      (files : List Text)
      → (files ≡ before) ⊎ (files ≡ tmp ∷ before)
      → filter (λ f. not (text_eq f tmp)) files ≡ before
  removed files (inl e) = rw e (filter_absent tmp before tmp_absent)
  removed files (inr e) = rw e (filter_added tmp before tmp_absent)

  removed_both :
      (name : Text) (files : List Text)
      → IsAbsent name before
      → (files ≡ before) ⊎ (files ≡ tmp ∷ before) ⊎ (files ≡ name ∷ before)
      → filter (λ f. not (text_eq f name)) (filter (λ f. not (text_eq f tmp)) files) ≡ before
  removed_both name files absent (inl e) =
      rw (removed files (inl e)) (filter_absent name before absent)
  removed_both name files absent (inr (inl e)) =
      rw (removed files (inr e)) (filter_absent name before absent)
  removed_both name files absent (inr (inr e)) = elim (Bool-cases (text_eq name tmp)) [
    | inl same ↦
        rw (e, same, filter_absent tmp before tmp_absent) (filter_absent name before absent)
    | inr other ↦
        rw (e, other, filter_absent tmp before tmp_absent) (filter_added name before absent)
  ]

  cleaned :
      (w : World)
      → Left tmp before w.files w.stored_path
      → (unlink_opt w.stored_path (unlink tmp w)).files ≡ before
  cleaned w (inl h) = rw (h.1) (removed w.files h.0)
  cleaned w (inr (name, absent, p, h)) = rw p (removed_both name w.files absent h)

abbrev calmed : World → World
calmed w = record w { faults = [] }

module _ (read_zip : Text → Option (List (Text × ℕ))) (is_utf8 : Text → Bool) (sha256 : Text → Text)
    (max_upload_bytes : ℕ) ⦃u : Unicode⦄ where
  on_error-unlink :
      (r : Request) (w : World)
      → (on_error read_zip is_utf8 sha256 max_upload_bytes r (calmed w)).1.files
        ≡ (unlink_opt w.stored_path (unlink r.tmp_path (calmed w))).files
  unfolding on_error act ◌>>=◌
  on_error-unlink r w = refl

-- An upload that fails leaves the folder as it was, where the temporary name and the names for its id
-- are new and no call of the `except` clause raises.
pub try_upload-files :
    (read_zip : Text → Option (List (Text × ℕ))) (is_utf8 : Text → Bool) (sha256 : Text → Text)
    (max_upload_bytes : ℕ) ⦃u : Unicode⦄ (r : Request) (w : World)
    → IsAbsent r.tmp_path w.files
    → ((t : FileType) → IsAbsent (stored_name r.doc_id t) w.files)
    → (receive_upload read_zip is_utf8 sha256 max_upload_bytes r
        (record w { stored_path = none })).0
      ≡ raised
    → (receive_upload read_zip is_utf8 sha256 max_upload_bytes r
        (record w { stored_path = none })).1.faults
      ≡ []
    → (try_upload read_zip is_utf8 sha256 max_upload_bytes r w).1.files ≡ w.files
unfolding try_upload
try_upload-files read_zip is_utf8 sha256 max_upload_bytes r w tmp_absent absent failed calm =
    let v =
      (receive_upload read_zip is_utf8 sha256 max_upload_bytes r
        (record w { stored_path = none })).1 in
    let left : Left r.tmp_path w.files v.files v.stored_path =
      (Leads-receive r.tmp_path w.files tmp_absent read_zip is_utf8 sha256 max_upload_bytes r refl
          absent).at
        (record w { stored_path = none }) (refl, refl) in
    let handler = on_error read_zip is_utf8 sha256 max_upload_bytes r in
    subst
      (λ (o : Result Document).
        (rescue read_zip is_utf8 sha256 max_upload_bytes o handler v).1.files ≡ w.files)
      (sym failed)
      (subst (λ fs. (handler (record v { faults = fs })).1.files ≡ w.files) (sym calm)
        (on_error-unlink read_zip is_utf8 sha256 max_upload_bytes r v
          ∙ cleaned r.tmp_path w.files tmp_absent (calmed v) left))
