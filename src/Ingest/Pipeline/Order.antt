-- ===== src/Ingest/Pipeline/Order.antt =====
-- The audit log of a whole run: which events the pipeline appends, and that the broker is given the same.
use mathlib.Core.List.{map-append}
use docmesh.Prelude.{
  ◌≡◌, refl, sym, ap, subst, ◌∙◌, List, [], ◌∷◌, ◌++◌, map, append_assoc, some, All, All-append,
  ◌⊎◌, inl, inr,
}
use docmesh.Text.{Text}
use docmesh.Storage.{DocumentStatus, failed, IngestionEvent, Document}
use docmesh.Ingest.Exec.{World, Result, ok, raised, handle, try_except}
use docmesh.Ingest.Pipeline.{Config, stages, on_failure, ingest_found}
use docmesh.Ingest.Pipeline.Emits.{Outcome, Report, statuses}
use docmesh.Ingest.Pipeline.StageEvents.{plan, Emits-stages, Emits-on_failure}

-- The statuses that a run of the pipeline for a document leaves in the log. A run that returns has
-- ended in `done` with every stage before it, or in `failed` behind the stages that were entered.
-- A run that raises could not write `failed`.
abbrev pub Ended : Result (Unit {0}) → List DocumentStatus → Type 0
Ended (ok a) seen =
    (seen ≡ plan)
    ⊎ ((before rest : List DocumentStatus) × (plan ≡ before ++ rest)
        × (seen ≡ before ++ failed ∷ []))
Ended raised seen =
    (before rest after later : List DocumentStatus) × (plan ≡ before ++ rest)
    × (failed ∷ [] ≡ after ++ later)
    × (seen ≡ before ++ after)

pub record Logged (doc_id : Text) (w : World) (r : Result (Unit {0})) (w' : World) : Type 0 where
  pub new : List IngestionEvent
  pub events : w'.db.events ≡ w.db.events ++ new
  pub published : w'.published ≡ w.published ++ new
  pub owned : All (λ (e : IngestionEvent). e.document_id ≡ doc_id) new
  pub ended : Ended r (map (λ (e : IngestionEvent). e.status) new)

Logged-failure :
    (doc_id : Text) (w v w' : World) (r : Result (Unit {0}))
    → Report {A = Unit {0}} doc_id plan w raised v
    → Report doc_id (failed ∷ []) v r w'
    → Logged doc_id w r w'
Logged-failure doc_id w v w' r h k = record {
  new = h.new ++ k.new;
  events = k.events ∙ ap (λ l. l ++ k.new) h.events ∙ append_assoc w.db.events h.new k.new;
  published = k.published ∙ ap (λ l. l ++ k.new) h.published ∙ append_assoc w.published h.new k.new;
  owned = All-append _ h.new k.new h.owned k.owned;
  ended =
      subst (Ended r) (sym (map-append (λ (e : IngestionEvent). e.status) h.new k.new))
        (end r k.outcome);
}
  where
    end :
        (r' : Result (Unit {0}))
        → Outcome r' (failed ∷ []) (statuses k.new)
        → Ended r' (statuses h.new ++ statuses k.new)
    end (ok a) e = inr (statuses h.new, h.outcome.0, h.outcome.1, ap (λ l. statuses h.new ++ l) e)
    end raised (later, e) =
        (statuses h.new, h.outcome.0, statuses k.new, later, h.outcome.1, e, refl)

-- Whatever calls raise: the events that a run of the pipeline appends to the log are those that it
-- gives to the broker, in the same order, all of its document. If the run returns, their statuses
-- are parsing, chunking, embedding, indexing, done, or a prefix of these and then failed; if it
-- raises, a prefix of these, and then failed or nothing.
pub ingest_found-Logged :
    (g : Config) (message doc_id : Text) (doc : Document) (w : World)
    → Logged doc_id w
        (ingest_found g message doc_id (some doc) w).0
        (ingest_found g message doc_id (some doc) w).1
unfolding ingest_found try_except
ingest_found-Logged g message doc_id doc w =
    step (stages g doc_id doc w).0 (stages g doc_id doc w).1 ((Emits-stages doc_id g doc).at w)
  where
    step :
        (r : Result (Unit {0})) (v : World)
        → Report doc_id plan w r v
        → Logged doc_id w
            (handle r (on_failure message doc_id) v).0
            (handle r (on_failure message doc_id) v).1
    step (ok a) v h = record {
      new = h.new;
      events = h.events;
      published = h.published;
      owned = h.owned;
      ended = inl h.outcome;
    }
    step raised v h = Logged-failure doc_id w v _ _ h ((Emits-on_failure doc_id message).at v)
