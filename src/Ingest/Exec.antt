-- ===== src/Ingest/Exec.antt =====
-- The state that the worker of backend/app/ingestion/queue.py and the document service read and
-- write, and actions on it that may raise. What was written before an exception stays written.
use docmesh.Prelude.{ℕ, Option, Bool, true, false, List, [], ◌∷◌}
use docmesh.Text.{Text}
use docmesh.Storage.{DocumentStatus, IngestionEvent, Db}

-- A vector stands for its bytes; the arithmetic on vectors is not the program's.
abbrev pub Vector : Type 0
Vector = List ℕ

-- One entry of `FaissVectorStore`: the vector's id, and the chunk and document of the id mappings.
pub record VectorRow : Type 0 where
  pub vector_id : ℕ
  pub chunk_id : Text
  pub doc_id : Text
  pub vector : Vector

-- `index` is the vector store in memory and `persisted` its file; `corpus` is the BM25 corpus (chunk
-- id and text); `published` are the events that the broker was given. `stage` is the pipeline's
-- local variable, and `now` a clock. `files` are the names in the folder of uploads, `waiting` the
-- queue of document ids, and `stored_path` is the local variable of `DocumentService.upload`.
-- `faults` are the outcomes of the external calls to come: `true` for a call that raises.
pub record World : Type 0 where
  pub db : Db
  pub index : List VectorRow
  pub persisted : List VectorRow
  pub corpus : List (Text × Text)
  pub published : List IngestionEvent
  pub stage : DocumentStatus
  pub now : ℕ
  pub files : List Text
  pub waiting : List Text
  pub stored_path : Option Text
  pub faults : List Bool

pub data Result {ℓ} (A : Type ℓ) : Type ℓ where
  ok : A → Result A
  raised : Result A

abbrev pub Exec : Type 0 → Type 0
Exec A = World → Result A × World

module _ {A : Type 0} where
  abbrev pub pure : A → Exec A
  pure a w = (ok a, w)

module _ {A B : Type 0} where
  abbrev pub continue : Result A → (A → Exec B) → Exec B
  continue (ok a) f w = f a w
  continue raised f w = (raised, w)

  infixl 10 ◌>>=◌
  unfoldable pub ◌>>=◌ : Exec A → (A → Exec B) → Exec B
  ◌>>=◌ m f w = continue (m w).0 f (m w).1

module _ {B : Type 0} where
  infixl 10 ◌>>◌
  abbrev pub ◌>>◌ : Exec (Unit {0}) → Exec B → Exec B
  m >> n = m >>= λ _. n

module _ {A : Type 0} where
  abbrev pub act_at : List Bool → (World → A × World) → Exec A
  act_at [] f w = (ok (f w).0, (f w).1)
  act_at (true ∷ r) f w = (raised, record w { faults = r })
  act_at (false ∷ r) f w = let v = record w { faults = r } in (ok (f v).0, (f v).1)

  -- An external call: it raises before it has an effect, or has it whole. The next of `faults` says
  -- which; with none left the calls succeed.
  unfoldable pub act : (World → A × World) → Exec A
  act f w = act_at w.faults f w

  abbrev pub ask : (World → A) → Exec A
  ask f = act (λ w. (f w, w))

abbrev pub call : (World → World) → Exec (Unit {0})
call f = act (λ w. (tt, f w))

-- An assignment, which never raises.
abbrev pub modify : (World → World) → Exec (Unit {0})
modify f w = (ok tt, f w)

-- `try: m except Exception: log`
unfoldable pub suppress : Exec (Unit {0}) → Exec (Unit {0})
suppress m w = (ok tt, (m w).1)

-- `try: m except Exception: handler`
abbrev pub handle : Result (Unit {0}) → Exec (Unit {0}) → Exec (Unit {0})
handle (ok _) handler w = (ok tt, w)
handle raised handler w = handler w

unfoldable pub try_except : Exec (Unit {0}) → Exec (Unit {0}) → Exec (Unit {0})
try_except m handler w = handle (m w).0 handler (m w).1
