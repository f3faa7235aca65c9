-- ===== src/Upload/Service/Leads.antt =====
-- Statements on the folder of uploads that an action of backend/app/services/document_service.py
-- keeps or leads to, however it ends.
use docmesh.Prelude.{◌≡◌, refl, Bool, true, false, Option, none, some, List, [], ◌∷◌}
use docmesh.Text.{Text}
use docmesh.Storage.{Document, Db}
use docmesh.Ingest.Exec.{World, Exec, Result, ok, raised, pure, continue, ◌>>=◌, act_at, act}
use docmesh.Upload.Detect.{Checked, valid, invalid, crashed}
use docmesh.Upload.Service.{throw, lift, refuse, created, insert_at}

-- A statement on the folder and on `stored_path`.
abbrev pub Assertion : Type 1
Assertion = List Text → Option Text → Type 0

-- However the action ends, it leads from `P` to `Q`.
pub record Leads {A : Type 0} (P Q : Assertion) (m : Exec A) : Type 0 where
  pub at : (w : World) → P w.files w.stored_path → Q (m w).1.files (m w).1.stored_path

pub Leads-act :
    {A : Type 0} {P Q : Assertion} (f : World → A × World)
    → ((w : World) → P w.files w.stored_path → Q (f w).1.files (f w).1.stored_path)
    → ((files : List Text) (path : Option Text) → P files path → Q files path)
    → Leads P Q (act f)
unfolding act
Leads-act {A} {P} {Q} f done_well same = record { at = λ w. step w w.faults }
  where
    step :
        (w : World) (r : List Bool)
        → P w.files w.stored_path
        → Q (act_at r f w).1.files (act_at r f w).1.stored_path
    step w [] h = done_well w h
    step w (true ∷ r) h = same w.files w.stored_path h
    step w (false ∷ r) h = done_well (record w { faults = r }) h

pub Leads-bind :
    {A B : Type 0} {P R Q : Assertion} {m : Exec A} {f : A → Exec B}
    → Leads P R m
    → ((files : List Text) (path : Option Text) → R files path → Q files path)
    → ((a : A) → Leads R Q (f a))
    → Leads P Q (m >>= f)
unfolding ◌>>=◌
Leads-bind {A} {B} {P} {R} {Q} {m} {f} hm same hf = record {
  at = λ w h. step (m w).0 (m w).1 (hm.at w h);
}
  where
    step :
        (r : Result A) (v : World)
        → R v.files v.stored_path
        → Q (continue r f v).1.files (continue r f v).1.stored_path
    step (ok a) v h = (hf a).at v h
    step raised v h = same v.files v.stored_path h

pub Leads-keep :
    {A : Type 0} (P : Assertion) (f : World → A × World)
    → ((w : World) → (f w).1.files ≡ w.files)
    → ((w : World) → (f w).1.stored_path ≡ w.stored_path)
    → Leads P P (act f)
Leads-keep P f e e' = Leads-act f (λ w h. rw (e w, e' w) h) (λ files path h. h)

pub Leads-pure : {A : Type 0} (P : Assertion) (a : A) → Leads P P (pure a)
Leads-pure P a = record { at = λ w h. h }

pub Leads-throw : {A : Type 0} (P : Assertion) → Leads {A = A} P P throw
Leads-throw P = record { at = λ w h. h }

pub Leads-lift : {A : Type 0} (P : Assertion) (c : Checked A) → Leads P P (lift c)
Leads-lift P (valid a) = Leads-pure P a
Leads-lift P (invalid code) = Leads-throw P
Leads-lift P crashed = Leads-throw P

pub Leads-refuse : (P : Assertion) (o : Option Document) → Leads P P (refuse o)
Leads-refuse P none = Leads-pure P tt
Leads-refuse P (some d) = Leads-throw P

pub Leads-created : (P : Assertion) (o : Option Document) → Leads P P (created o)
Leads-created P none = Leads-throw P
Leads-created P (some d) = Leads-pure P d

pub insert_at-files : (o : Option (Document × Db)) (w : World) → (insert_at o w).1.files ≡ w.files
insert_at-files none w = refl
insert_at-files (some (d, db)) w = refl

pub insert_at-stored_path :
    (o : Option (Document × Db)) (w : World) → (insert_at o w).1.stored_path ≡ w.stored_path
insert_at-stored_path none w = refl
insert_at-stored_path (some (d, db)) w = refl
