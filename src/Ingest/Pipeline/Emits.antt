-- ===== src/Ingest/Pipeline/Emits.antt =====
-- Reports of what an action of backend/app/ingestion/queue.py appends to the audit log and gives to
-- the broker, and their rules for the combinators.
use mathlib.Core.List.{map-append}
use docmesh.Prelude.{
  ◌≡◌, refl, sym, ap, subst, ◌∙◌, List, [], ◌∷◌, ◌++◌, map, append-nil, append_assoc, All,
  All-append, Bool, true, false,
}
use docmesh.Text.{Text}
use docmesh.Storage.{DocumentStatus, IngestionEvent, append_event}
use docmesh.Ingest.Exec.{
  World, Result, ok, raised, Exec, continue, ◌>>=◌, act_at, act, ask, call, modify,
}
use docmesh.Ingest.Pipeline.{emit_event}

abbrev pub statuses : List IngestionEvent → List DocumentStatus
statuses events = map (λ (e : IngestionEvent). e.status) events

-- A run that returns has appended exactly the planned statuses, and one that raises a prefix.
abbrev pub Outcome {ℓ} :
    {A : Type ℓ} → Result A → List DocumentStatus → List DocumentStatus → Type 0
Outcome (ok a) plan seen = seen ≡ plan
Outcome raised plan seen = (rest : List DocumentStatus) × (plan ≡ seen ++ rest)

-- From `w` to `w'` the same new events were appended to the log and given to the broker, in the same
-- order, all of the document, with statuses as planned.
pub record Report {A : Type 0} (doc_id : Text) (plan : List DocumentStatus) (w : World)
    (r : Result A) (w' : World) : Type 0 where
  pub new : List IngestionEvent
  pub events : w'.db.events ≡ w.db.events ++ new
  pub published : w'.published ≡ w.published ++ new
  pub owned : All (λ (e : IngestionEvent). e.document_id ≡ doc_id) new
  pub outcome : Outcome r plan (map (λ (e : IngestionEvent). e.status) new)

pub record Emits {A : Type 0} (doc_id : Text) (plan : List DocumentStatus) (m : Exec A)
    : Type 0 where
  pub at : (w : World) → Report doc_id plan w (m w).0 (m w).1

silent-Report :
    {A : Type 0} (doc_id : Text) (w w' : World) (a : A)
    → w'.db.events ≡ w.db.events
    → w'.published ≡ w.published
    → Report doc_id [] w (ok a) w'
silent-Report doc_id w w' a e p = record {
  new = [];
  events = e ∙ sym (append-nil w.db.events);
  published = p ∙ sym (append-nil w.published);
  owned = tt;
  outcome = refl;
}

raised-Report :
    {A : Type 0} (doc_id : Text) (plan : List DocumentStatus) (w w' : World)
    → w'.db.events ≡ w.db.events
    → w'.published ≡ w.published
    → Report {A = A} doc_id plan w raised w'
raised-Report doc_id plan w w' e p = record {
  new = [];
  events = e ∙ sym (append-nil w.db.events);
  published = p ∙ sym (append-nil w.published);
  owned = tt;
  outcome = (plan, refl);
}

module _ {A : Type 0} (doc_id : Text) where
  -- A call that touches neither the log nor the broker.
  pub Emits-act :
      (f : World → A × World)
      → ((w : World) → (f w).1.db.events ≡ w.db.events)
      → ((w : World) → (f w).1.published ≡ w.published)
      → Emits doc_id [] (act f)
  unfolding act
  Emits-act f e p = record { at = λ w. step w w.faults }
    where
      step : (w : World) (r : List Bool) → Report doc_id [] w (act_at r f w).0 (act_at r f w).1
      step w [] = silent-Report doc_id w (f w).1 (f w).0 (e w) (p w)
      step w (true ∷ r) = raised-Report doc_id [] w _ refl refl
      step w (false ∷ r) =
          let v : World = record w { faults = r } in
          silent-Report doc_id w (f v).1 (f v).0 (e v) (p v)

join_outcomes :
    {B : Type 0} (r : Result B) (plan plan' hs ks : List DocumentStatus)
    → hs ≡ plan
    → Outcome r plan' ks
    → Outcome r (plan ++ plan') (hs ++ ks)
join_outcomes (ok a) plan plan' hs ks h k = ap (λ l. l ++ ks) h ∙ ap (λ l. plan ++ l) k
join_outcomes raised plan plan' hs ks h (rest, k) = (
  rest,
  ap (λ l. plan ++ l) k ∙ ap (λ l. l ++ (ks ++ rest)) (sym h) ∙ sym (append_assoc hs ks rest),
)

join-Report :
    {A B : Type 0} (doc_id : Text) (plan plan' : List DocumentStatus) (w w' w'' : World) (a : A)
    (r : Result B)
    → Report doc_id plan w (ok a) w'
    → Report doc_id plan' w' r w''
    → Report doc_id (plan ++ plan') w r w''
join-Report doc_id plan plan' w w' w'' a r h k = record {
  new = h.new ++ k.new;
  events = k.events ∙ ap (λ l. l ++ k.new) h.events ∙ append_assoc w.db.events h.new k.new;
  published = k.published ∙ ap (λ l. l ++ k.new) h.published ∙ append_assoc w.published h.new k.new;
  owned = All-append _ h.new k.new h.owned k.owned;
  outcome =
      subst (Outcome r (plan ++ plan'))
        (sym (map-append (λ (e : IngestionEvent). e.status) h.new k.new))
        (join_outcomes r plan plan' _ _ h.outcome k.outcome);
}

stopped-Report :
    {A B : Type 0} (doc_id : Text) (plan plan' : List DocumentStatus) (w w' : World)
    → Report {A = A} doc_id plan w raised w'
    → Report {A = B} doc_id (plan ++ plan') w raised w'
stopped-Report doc_id plan plan' w w' h = record {
  new = h.new;
  events = h.events;
  published = h.published;
  owned = h.owned;
  outcome =
      let (rest, e) = h.outcome in
      (rest ++ plan', ap (λ l. l ++ plan') e ∙ append_assoc (statuses h.new) rest plan');
}

module _ {A B : Type 0} (doc_id : Text) (plan plan' : List DocumentStatus) where
  Emits-bind :
      (m : Exec A) (f : A → Exec B)
      → Emits doc_id plan m
      → ((a : A) → Emits doc_id plan' (f a))
      → Emits doc_id (plan ++ plan') (m >>= f)
  unfolding ◌>>=◌
  Emits-bind m f hm hf = record { at = λ w. step w (m w).0 (m w).1 (hm.at w) }
    where
      step :
          (w : World) (r : Result A) (v : World)
          → Report doc_id plan w r v
          → Report doc_id (plan ++ plan') w (continue r f v).0 (continue r f v).1
      step w (ok a) v h = join-Report doc_id plan plan' w v (f a v).1 a (f a v).0 h ((hf a).at v)
      step w raised v h = stopped-Report doc_id plan plan' w v h

module _ {A B : Type 0} (doc_id : Text) where
  pub Emits-silent :
      {plan : List DocumentStatus} {m : Exec A} {f : A → Exec B}
      → Emits doc_id [] m
      → ((a : A) → Emits doc_id plan (f a))
      → Emits doc_id plan (m >>= f)
  Emits-silent {plan} {m} {f} hm hf = Emits-bind doc_id [] plan m f hm hf

  pub Emits-stage :
      {s : DocumentStatus} {plan : List DocumentStatus} {m : Exec A} {f : A → Exec B}
      → Emits doc_id (s ∷ []) m
      → ((a : A) → Emits doc_id plan (f a))
      → Emits doc_id (s ∷ plan) (m >>= f)
  Emits-stage {s} {plan} {m} {f} hm hf = Emits-bind doc_id (s ∷ []) plan m f hm hf

pub Emits-modify :
    (doc_id : Text) (f : World → World)
    → ((w : World) → (f w).db.events ≡ w.db.events)
    → ((w : World) → (f w).published ≡ w.published)
    → Emits doc_id [] (modify f)
Emits-modify doc_id f e p = record { at = λ w. silent-Report doc_id w (f w) tt (e w) (p w) }

pub Emits-emit_event :
    (doc_id : Text) (status : DocumentStatus)
    → Emits doc_id (status ∷ []) (emit_event doc_id status)
unfolding emit_event act ◌>>=◌ append_event
Emits-emit_event doc_id status = record { at = λ w. step w w.faults }
  where
    after : (r : List Bool) (w : World) → Result (Unit {0}) × World
    after r w =
        continue
          (act_at r
            (λ v. let (e, db) = append_event v.now doc_id status v.db in (e, record v { db = db }))
            w).0
          (λ event. modify (λ v. record v { published = v.published ++ event ∷ [] }))
          (act_at r
            (λ v. let (e, db) = append_event v.now doc_id status v.db in (e, record v { db = db }))
            w).1

    step : (w : World) (r : List Bool) → Report doc_id (status ∷ []) w (after r w).0 (after r w).1
    step w [] = record {
      new = _ ∷ [];
      events = refl;
      published = refl;
      owned = (refl, tt);
      outcome = refl;
    }
    step w (true ∷ r) = raised-Report doc_id (status ∷ []) w _ refl refl
    step w (false ∷ r) = record {
      new = _ ∷ [];
      events = refl;
      published = refl;
      owned = (refl, tt);
      outcome = refl;
    }

pub Emits-call :
    (doc_id : Text) (f : World → World)
    → ((w : World) → (f w).db.events ≡ w.db.events)
    → ((w : World) → (f w).published ≡ w.published)
    → Emits doc_id [] (call f)
Emits-call doc_id f e p = Emits-act doc_id (λ w. (tt, f w)) e p

pub Emits-ask : {A : Type 0} (doc_id : Text) (f : World → A) → Emits doc_id [] (ask f)
Emits-ask doc_id f = Emits-act doc_id (λ w. (f w, w)) (λ w. refl) (λ w. refl)
