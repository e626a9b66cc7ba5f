-- ===== src/Jobs/Log.antt =====
-- crates/jobs/src/log.rs: the bounded in-memory store of captured log records.
-- Run ids and instants are numbers; `runs` is an association list and `order` a list, oldest first.
-- A record's size is below the memory that holds it, so no sum here passes a `usize`.
pub mod Bounds
pub mod Recent
mod Tests
use overseerd.Base.{
  ℕ, ◌+◌, ◌-◌, Bool, true, false, Option, none, some, List, [], ◌∷◌, ◌++◌, length, drop, keep_if,
  has_key, get, remove, leb, ltb, ◌==◌, if◌then◌else◌,
}

-- `JobLogRecord`: the fields that the store reads, and `body` for the others.
pub record JobLogRecord : Type 0 where
  pub run_id : ℕ
  pub timestamp : ℕ
  pub target_len : ℕ
  pub message_len : ℕ
  pub body : ℕ

-- `JobLogRecord::size`
pub size : JobLogRecord → ℕ
size r = r.message_len + r.target_len

-- `JobLogConfig`
pub record JobLogConfig : Type 0 where
  pub enabled : Bool
  pub max_runs : ℕ
  pub max_bytes_per_run : ℕ
  pub ttl : ℕ

-- `RunLog`
pub record RunLog : Type 0 where
  pub records : List JobLogRecord
  pub bytes : ℕ
  pub first_seen : ℕ

-- `InMemoryJobLogStore`, but for its configuration
pub record Store : Type 0 where
  pub runs : List (ℕ × RunLog)
  pub order : List ℕ

-- `InMemoryJobLogStore::new`
abbrev pub new : Store
new = record { runs = []; order = [] }

module _ (config : JobLogConfig) where
  -- The test of `runs.retain`: a clock that went back keeps the run.
  pub is_live : ℕ → ℕ × RunLog → Bool
  is_live now entry =
      if ltb now entry.1.first_seen then true else leb (now - entry.1.first_seen) config.ttl

  -- The first `while`: the oldest records go, the last one never.
  pub shed : ℕ → List JobLogRecord → ℕ × List JobLogRecord
  unfolding size
  shed bytes [] = (bytes, [])
  shed bytes (r ∷ []) = (bytes, r ∷ [])
  shed bytes (r ∷ s ∷ rest) =
      let shorter = shed (bytes - size r) (s ∷ rest) in
      if ltb config.max_bytes_per_run bytes then shorter else (bytes, r ∷ s ∷ rest)

  -- `push_back`, the byte count, and the first `while`
  pub add_record : JobLogRecord → RunLog → RunLog
  unfolding shed
  add_record event log =
      let (bytes, records) = shed (log.bytes + size event) (log.records ++ event ∷ []) in
      record log { records = records; bytes = bytes }

  -- `runs.entry(run_id).or_insert_with(..)`, with what is then done to the log
  pub upsert : JobLogRecord → List (ℕ × RunLog) → List (ℕ × RunLog)
  unfolding add_record
  upsert event [] =
      (
        event.run_id,
        add_record event (record { records = []; bytes = 0; first_seen = event.timestamp }),
      )
      ∷ []
  upsert event ((id, log) ∷ runs) =
      if id == event.run_id
      then (id, add_record event log) ∷ runs
      else (id, log) ∷ upsert event runs

  -- The second `while`: the oldest runs go.
  pub evict : List ℕ → List (ℕ × RunLog) → Store
  evict [] runs = record { runs = runs; order = [] }
  evict (id ∷ order) runs =
      let rest = evict order (remove id runs) in
      if ltb config.max_runs (length (id ∷ order))
      then rest
      else record { runs = runs; order = id ∷ order }

  -- `record`, once capture is enabled
  pub store_record : Store → JobLogRecord → Store
  unfolding is_live upsert evict
  store_record store event =
      let live = keep_if (is_live event.timestamp) store.runs in
      let order = keep_if (λ id. has_key id live) store.order in
      evict (if has_key event.run_id live then order else order ++ event.run_id ∷ [])
        (upsert event live)

  -- `JobLogSink::record`
  pub record_event : Store → JobLogRecord → Store
  unfolding store_record
  record_event store event = if config.enabled then store_record store event else store

abbrev newest : Option RunLog → ℕ → List JobLogRecord
newest none limit = []
newest (some log) limit = drop (length log.records - limit) log.records

-- `JobLogSink::records`
pub records : Store → ℕ → ℕ → List JobLogRecord
records store run_id limit = newest (get run_id store.runs) limit
