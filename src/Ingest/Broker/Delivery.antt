-- ===== src/Ingest/Broker/Delivery.antt =====
-- What a subscriber of the broker has buffered.
use docmesh.Prelude.{
  ℕ, suc, ◌≤◌, ◌<◌, ◌≡◌, refl, sym, ap, ◌∙◌, subst, true, false, List, [], ◌∷◌, ◌++◌, length, leb,
  if◌then◌else◌, Bool-cases, inl, inr, arith, length-append, append_assoc, append-nil, All,
}
use docmesh.Storage.{IngestionEvent}
use docmesh.Ingest.Broker.{StatusBroker, listens, put_newest, publish, publish_all}

-- The last `m` of the events.
abbrev pub newest : ℕ → List IngestionEvent → List IngestionEvent
newest m [] = []
newest m (e ∷ es) = if leb (suc (length es)) m then e ∷ es else newest m es

newest_id : (m : ℕ) (es : List IngestionEvent) → length es ≤ m → newest m es ≡ es
newest_id m [] h = refl
newest_id m (e ∷ es) h = ground arith

newest-append :
    (m : ℕ) (q es : List IngestionEvent) → newest m (newest m q ++ es) ≡ newest m (q ++ es)
newest-append m [] es = refl
newest-append m (e ∷ q) es = elim (Bool-cases (leb (suc (length q)) m)) [
  | inl fits ↦ rw fits refl
  | inr over ↦ rw over (ground (arith, newest-append m q es, length-append q es))
]

put_newest_lem :
    (m : ℕ) (e : IngestionEvent) (q : List IngestionEvent)
    → 0 < m
    → length q ≤ m
    → put_newest m e q ≡ newest m (q ++ e ∷ [])
unfolding put_newest
put_newest_lem m e [] pos h = ground arith
put_newest_lem m e (d ∷ q) pos h =
    let size = length-append q (e ∷ []) in
    let same : length (q ++ e ∷ []) ≤ m → newest m (q ++ e ∷ []) ≡ q ++ e ∷ [] = newest_id m _ in
    ground (arith, size, same)

length-put_newest :
    (m : ℕ) (e : IngestionEvent) (q : List IngestionEvent)
    → 0 < m
    → length q ≤ m
    → length (put_newest m e q) ≤ m
unfolding put_newest
length-put_newest m e [] pos h = ground arith
length-put_newest m e (d ∷ q) pos h = ground (arith, length-append q (e ∷ []))

-- With a bound, a queue that listens to each of the events that are published has, behind them,
-- the last `maxsize` of what it had and what came, in order.
pub publish_all-newest :
    (es : List IngestionEvent) (b : StatusBroker) (k : ℕ)
    → 0 < b.maxsize
    → length (b.queues k) ≤ b.maxsize
    → All (λ e. listens b e k ≡ true) es
    → (publish_all es b).queues k ≡ newest b.maxsize (b.queues k ++ es)
unfolding publish_all publish listens
publish_all-newest [] b k pos h heard =
    sym (ap (newest b.maxsize) (append-nil (b.queues k)) ∙ newest_id b.maxsize (b.queues k) h)
publish_all-newest (e ∷ es) b k pos h heard =
    let q = b.queues k in
    let now : (publish e b).queues k ≡ put_newest b.maxsize e q = rw (heard.0) refl in
    publish_all-newest es (publish e b) k pos
      (subst (λ l. length l ≤ b.maxsize) (sym now) (length-put_newest b.maxsize e q pos h)) heard.1
    ∙ ap (λ l. newest b.maxsize (l ++ es)) (now ∙ put_newest_lem b.maxsize e q pos h)
    ∙ newest-append b.maxsize (q ++ e ∷ []) es
    ∙ ap (newest b.maxsize) (append_assoc q (e ∷ []) es)

-- A queue that listens to none of the events keeps what it had.
pub publish_all-other :
    (es : List IngestionEvent) (b : StatusBroker) (k : ℕ)
    → All (λ e. listens b e k ≡ false) es
    → (publish_all es b).queues k ≡ b.queues k
unfolding publish_all publish listens
publish_all-other [] b k deaf = refl
publish_all-other (e ∷ es) b k deaf = publish_all-other es (publish e b) k deaf.1 ∙ rw (deaf.0) refl
