-- ===== src/Statd/Store/Batch.antt =====
-- `record_batch` of crates/servers/statd/src/store.rs against the log of the events recorded.
use termblog.Prelude.{
  ℕ, ◌≡◌, ap, sym, ◌∙◌, subst, ◌⊎◌, inl, inr, List, [], ◌∷◌, ok, err, length, arith, Result-cases,
}
use termblog.Statd.Protocol.{RecordEvent}
use termblog.Statd.Validate.{Env, StatdError, ValidEvent, validate_event, validate_events}
use termblog.Statd.Database.{Database, DatabaseLaws}
use termblog.Statd.Store.{record_event, record_events, batch, rolled_back, record_batch}
use termblog.Statd.Store.Counts.{Represents, record_event-Represents}

-- the log with the events behind it, the last one first
abbrev pub logged : List ValidEvent → List ValidEvent → List ValidEvent
logged [] log = log
logged (e ∷ es) log = logged es (e ∷ log)

pub validate_events-length :
    (env : Env) (requested : List RecordEvent) (events : List ValidEvent)
    → validate_events env requested ≡ ok events
    → length events ≡ length requested
unfolding validate_events
validate_events-length env [] events h = ground arith
validate_events-length env (r ∷ rs) events h = elim (Result-cases (validate_event env r)) [
  | inr (x, k) ↦ absurd (ground arith)
  | inl (e, k) ↦ elim (Result-cases (validate_events env rs)) [
    | inr (x, l) ↦ absurd (ground arith)
    | inl (es, l) ↦ ground (arith, validate_events-length env rs es l)
  ]
]

module _ (env : Env) (secret : List ℕ) (db : Database) where
  -- what a batch that succeeds has done
  batch-eq-ok :
      (requested : List RecordEvent) (s s' : db.State) (n : ℕ)
      → batch env db secret requested s ≡ ok (n, s')
      → (events : List ValidEvent) × (validate_events env requested ≡ ok events)
        × (record_events env db secret events s ≡ ok s')
        × (n ≡ length events)
  unfolding batch
  batch-eq-ok requested s s' n h = elim (Result-cases (validate_events env requested)) [
    | inr (x, k) ↦ absurd (ground arith)
    | inl (events, k) ↦ elim (Result-cases (record_events env db secret events s)) [
      | inr (x, l) ↦ absurd (ground arith)
      | inl (t, l) ↦ (events, k, ground arith, ground arith)
    ]
  ]

module _ (env : Env) (secret : List ℕ) (db : Database) (laws : DatabaseLaws db) where
  record_events-Represents :
      (es log : List ValidEvent) (s s' : db.State)
      → Represents env secret db log s
      → record_events env db secret es s ≡ ok s'
      → Represents env secret db (logged es log) s'
  unfolding record_events
  record_events-Represents [] log s s' r h = subst (Represents env secret db log) (ground arith) r
  record_events-Represents (e ∷ es) log s s' r h =
      elim (Result-cases (record_event env db secret e s)) [
        | inr (x, k) ↦ absurd (ground arith)
        | inl (t, k) ↦
            record_events-Represents es (e ∷ log) t s'
              (record_event-Represents env secret db laws e log s t r k) (ground arith)
      ]

  -- Given the laws of the database, and a database that holds the counts of a log: either
  -- `record_batch` accepts every event, answers their number, and leaves the counts of the log with
  -- these events behind it, or it fails and leaves the database as it was.
  pub record_batch-Represents :
      (requested : List RecordEvent) (log : List ValidEvent) (s : db.State)
      → Represents env secret db log s
      → ((events : List ValidEvent) × (validate_events env requested ≡ ok events)
          × ((record_batch env db secret requested s).0 ≡ ok (length requested))
          × Represents env secret db (logged events log) (record_batch env db secret requested s).1)
        ⊎ ((e : StatdError) × (record_batch env db secret requested s ≡ (err e, s)))
  unfolding record_batch
  record_batch-Represents requested log s r =
      elim (Result-cases (batch env db secret requested s)) [
        | inr (e, k) ↦ inr (e, ap (rolled_back env db s) k)
        | inl ((n, s'), k) ↦
            let (events, v, h, same) = batch-eq-ok env secret db requested s s' n k in
            let run : record_batch env db secret requested s ≡ (ok n, s') =
              ap (rolled_back env db s) k in
            inl (
              events,
              v,
              ap (λ p. p.0) run ∙ ap ok (same ∙ validate_events-length env requested events v),
              subst (λ p. Represents env secret db (logged events log) p.1) (sym run)
                  (record_events-Represents events log s s' r h),
            )
      ]
