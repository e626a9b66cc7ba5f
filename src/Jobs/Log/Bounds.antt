-- ===== src/Jobs/Log/Bounds.antt =====
-- The bounds of the log store, crates/jobs/src/log.rs.
use overseerd.Base.{
  ℕ, ◌+◌, ◌-◌, ◌≤◌, ◌≡◌, ◌≢◌, ◌⊎◌, inl, inr, refl, Bool-cases, true, false, List, [], ◌∷◌, ◌++◌,
  length, All, All-keep_if, All-remove, keep_if, has_key, has_key-remove, has_key-keep_if, ◌||◌,
  Bool, remove, mem, mem-append, mem-keep_if, distinct, distinct-keep_if, distinct-snoc, ltb, ◌==◌,
  if◌then◌else◌, arith,
}
use overseerd.Jobs.Log.{
  JobLogRecord, JobLogConfig, RunLog, Store, new, size, is_live, shed, add_record, upsert, evict,
  store_record, record_event,
}

-- The bytes of some records
abbrev pub sizes : List JobLogRecord → ℕ
sizes [] = 0
sizes (r ∷ records) = size r + sizes records

module _ (config : JobLogConfig) where
  -- A log counts its bytes, is never empty, and is within its bytes unless it is a single record.
  pub record IsLog (log : RunLog) : Type 0 where
    pub counted : log.bytes ≡ sizes log.records
    pub some_record : log.records ≢ []
    pub fits : (log.bytes ≤ config.max_bytes_per_run) ⊎ (length log.records ≤ 1)

  -- The stored runs are those in `order`, which names no run twice and at most `max_runs`.
  pub record IsBounded (store : Store) : Type 0 where
    pub logs : All (λ (entry : ℕ × RunLog). IsLog entry.1) store.runs
    pub same : (id : ℕ) → has_key id store.runs ≡ mem id store.order
    pub once : distinct store.order ≡ true
    pub few : length store.order ≤ config.max_runs

  abbrev IsShed : ℕ × List JobLogRecord → Type 0
  IsShed (bytes, records) =
      (bytes ≡ sizes records)
      × (records ≢ [])
      × ((bytes ≤ config.max_bytes_per_run) ⊎ (length records ≤ 1))

  shed-IsShed :
      (bytes : ℕ) (records : List JobLogRecord)
      → bytes ≡ sizes records
      → records ≢ []
      → IsShed (shed config bytes records)
  unfolding shed
  shed-IsShed bytes [] e h = absurd (h refl)
  shed-IsShed bytes (r ∷ []) e h = (e, h, inr (omega arith))
  shed-IsShed bytes (r ∷ s ∷ rest) e h = ground (arith, shed-IsShed (bytes - size r) (s ∷ rest))

  sizes-append : (xs ys : List JobLogRecord) → sizes (xs ++ ys) ≡ sizes xs + sizes ys
  sizes-append [] ys = omega arith
  sizes-append (x ∷ xs) ys = omega (arith, sizes-append xs ys)

  snoc-ne-nil : (xs : List JobLogRecord) (x : JobLogRecord) → xs ++ x ∷ [] ≢ []
  snoc-ne-nil [] x = λ p. cc
  snoc-ne-nil (y ∷ xs) x = λ p. cc

  add_record-IsLog :
      (event : JobLogRecord) (log : RunLog)
      → log.bytes ≡ sizes log.records
      → IsLog (add_record config event log)
  unfolding add_record
  add_record-IsLog event log e =
      let kept =
        shed-IsShed (log.bytes + size event) (log.records ++ event ∷ [])
          (omega (arith, sizes-append log.records (event ∷ []))) (snoc-ne-nil log.records event) in
      record { counted = kept.0; some_record = kept.1; fits = kept.2 }

  upsert-logs :
      (event : JobLogRecord) (runs : List (ℕ × RunLog))
      → All (λ (entry : ℕ × RunLog). IsLog entry.1) runs
      → All (λ (entry : ℕ × RunLog). IsLog entry.1) (upsert config event runs)
  unfolding upsert
  upsert-logs event [] h = (
    add_record-IsLog event (record { records = []; bytes = 0; first_seen = event.timestamp }) refl,
    tt,
  )
  upsert-logs event ((id, log) ∷ runs) h = elim (Bool-cases (id == event.run_id)) [
    | inl here ↦ rw here (add_record-IsLog event log h.0.counted, h.1)
    | inr on ↦ rw on (h.0, upsert-logs event runs h.1)
  ]

  has_key-upsert :
      (event : JobLogRecord) (runs : List (ℕ × RunLog)) (id : ℕ)
      → has_key id (upsert config event runs) ≡ (has_key id runs || (event.run_id == id))
  unfolding upsert
  has_key-upsert event [] id = ground arith
  has_key-upsert event ((j, log) ∷ runs) id = ground (arith, has_key-upsert event runs id)

  evict-IsBounded :
      (order : List ℕ) (runs : List (ℕ × RunLog))
      → All (λ (entry : ℕ × RunLog). IsLog entry.1) runs
      → ((id : ℕ) → has_key id runs ≡ mem id order)
      → distinct order ≡ true
      → IsBounded (evict config order runs)
  unfolding evict
  evict-IsBounded [] runs logs same once = record {
    logs = logs;
    same = same;
    once = refl;
    few = omega arith;
  }
  evict-IsBounded (id ∷ order) runs logs same once =
      elim (Bool-cases (ltb config.max_runs (length (id ∷ order)))) [
        | inl over ↦ rw over (
            evict-IsBounded order (remove id runs) (All-remove _ id runs logs)
              (λ j. ground (arith, has_key-remove id j runs, same j)) (ground arith))
        | inr under ↦
            rw under (record { logs = logs; same = same; once = once; few = ground arith })
      ]

  live_same :
      (p : ℕ × RunLog → Bool) (store : Store) (id : ℕ)
      → has_key id store.runs ≡ mem id store.order
      → has_key id (keep_if p store.runs)
        ≡ mem id (keep_if (λ j. has_key j (keep_if p store.runs)) store.order)
  live_same p store id same = ground (
    arith,
    mem-keep_if (λ j. has_key j (keep_if p store.runs)) id store.order,
    has_key-keep_if p id store.runs,
  )

  store_record-IsBounded :
      (store : Store) (event : JobLogRecord)
      → IsBounded store
      → IsBounded (store_record config store event)
  unfolding store_record
  store_record-IsBounded store event b =
      let live = keep_if (is_live config event.timestamp) store.runs in
      let order = keep_if (λ id. has_key id live) store.order in
      let logs =
        upsert-logs event live (All-keep_if _ (is_live config event.timestamp) store.runs b.logs) in
      let once = distinct-keep_if (λ id. has_key id live) store.order b.once in
      let same = λ (id : ℕ). live_same (is_live config event.timestamp) store id (b.same id) in
      elim (Bool-cases (has_key event.run_id live)) [
        | inl known ↦ rw known (
            evict-IsBounded order (upsert config event live) logs
              (λ id. ground (arith, has_key-upsert event live id, same id)) once)
        | inr fresh ↦ rw fresh (
            evict-IsBounded (order ++ event.run_id ∷ []) (upsert config event live) logs
              (λ id. ground (
                arith,
                has_key-upsert event live id,
                same id,
                mem-append id order (event.run_id ∷ []),
              ))
              (distinct-snoc order event.run_id once (ground (arith, same event.run_id))))
      ]

  record_event-IsBounded :
      (store : Store) (event : JobLogRecord)
      → IsBounded store
      → IsBounded (record_event config store event)
  unfolding record_event
  record_event-IsBounded store event b =
      elim config.enabled
        as (λ on. IsBounded (if on then store_record config store event else store)) [
          | true ↦ store_record-IsBounded store event b
          | false ↦ b
        ]

  -- The store after some events
  abbrev pub record_all : Store → List JobLogRecord → Store
  record_all store [] = store
  record_all store (event ∷ events) = record_all (record_event config store event) events

  record_all-IsBounded_from :
      (store : Store) (events : List JobLogRecord)
      → IsBounded store
      → IsBounded (record_all store events)
  record_all-IsBounded_from store [] b = b
  record_all-IsBounded_from store (event ∷ events) b =
      record_all-IsBounded_from (record_event config store event) events
        (record_event-IsBounded store event b)

  -- Whatever is recorded, a store that began empty keeps its bounds: every run's log counts its
  -- bytes, is not empty, and is within `max_bytes_per_run` unless it is one record; the stored
  -- runs are those in `order`, which has no run twice and at most `max_runs`.
  pub record_all-IsBounded : (events : List JobLogRecord) → IsBounded (record_all new events)
  record_all-IsBounded events =
      record_all-IsBounded_from new events
        (record { logs = tt; same = λ id. refl; once = refl; few = omega arith })
