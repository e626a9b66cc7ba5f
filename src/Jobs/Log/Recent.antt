-- ===== src/Jobs/Log/Recent.antt =====
-- Reading the log store back, crates/jobs/src/log.rs.
use overseerd.Base.{
  ℕ, zero, suc, ◌∙◌, distinct-keep_if, distinct-snoc, mem-keep_if, ◌+◌, ◌-◌, ◌≤◌, ◌<◌, ◌≡◌, inl,
  inr, refl, Bool-cases, Bool, true, false, Option, none, some, List, [], ◌∷◌, ◌++◌, length, drop,
  length-drop, get, remove, get-remove, keep_if, has_key, mem-append, distinct, ltb, ◌==◌, ==_refl,
  arith,
}
use overseerd.Jobs.Log.{
  JobLogRecord, JobLogConfig, RunLog, Store, size, is_live, shed, add_record, upsert, evict,
  store_record, record_event, records, newest,
}
use overseerd.Jobs.Log.Bounds.{IsBounded}

abbrev pub get_last? {ℓ} : {A : Type ℓ} → List A → Option A
get_last? [] = none
get_last? (x ∷ []) = some x
get_last? (x ∷ y ∷ xs) = get_last? (y ∷ xs)

get_last?-snoc {ℓ} : {A : Type ℓ} (xs : List A) (x : A) → get_last? (xs ++ x ∷ []) ≡ some x
get_last?-snoc [] x = refl
get_last?-snoc (y ∷ []) x = refl
get_last?-snoc (y ∷ z ∷ xs) x = get_last?-snoc (z ∷ xs) x

get_last?-drop {ℓ} :
    {A : Type ℓ} (n : ℕ) (xs : List A) → n < length xs → get_last? (drop n xs) ≡ get_last? xs
get_last?-drop zero xs h = refl
get_last?-drop (suc n) [] h = absurd (omega arith)
get_last?-drop (suc zero) (x ∷ []) h = absurd (omega arith)
get_last?-drop (suc (suc n)) (x ∷ []) h = absurd (omega arith)
get_last?-drop (suc n) (x ∷ y ∷ xs) h = get_last?-drop n (y ∷ xs) (omega arith)

length-pos {ℓ} : {A : Type ℓ} (xs : List A) (x : A) → get_last? xs ≡ some x → 0 < length xs
length-pos [] x h = cc
length-pos (y ∷ xs) x h = omega arith

module _ (config : JobLogConfig) where
  get_last?-shed :
      (bytes : ℕ) (rs : List JobLogRecord) → get_last? (shed config bytes rs).1 ≡ get_last? rs
  unfolding shed
  get_last?-shed bytes [] = refl
  get_last?-shed bytes (r ∷ []) = refl
  get_last?-shed bytes (r ∷ s ∷ rest) = ground (arith, get_last?-shed (bytes - size r) (s ∷ rest))

  abbrev last_of : Option RunLog → Option JobLogRecord
  last_of none = none
  last_of (some log) = get_last? log.records

  last-add_record :
      (event : JobLogRecord) (log : RunLog)
      → get_last? (add_record config event log).records ≡ some event
  unfolding add_record
  last-add_record event log =
      get_last?-shed (log.bytes + size event) (log.records ++ event ∷ [])
      ∙ get_last?-snoc log.records event

  last-upsert :
      (event : JobLogRecord) (runs : List (ℕ × RunLog))
      → last_of (get event.run_id (upsert config event runs)) ≡ some event
  unfolding upsert
  last-upsert event [] =
      rw (==_refl event.run_id)
        (last-add_record event (record { records = []; bytes = 0; first_seen = event.timestamp }))
  last-upsert event ((id, log) ∷ runs) = elim (Bool-cases (id == event.run_id)) [
    | inl here ↦ rw (here, here) (last-add_record event log)
    | inr on ↦ rw (on, on) (last-upsert event runs)
  ]

  -- The newest run is evicted only if no run may stay.
  get-evict :
      (order : List ℕ) (id : ℕ) (runs : List (ℕ × RunLog))
      → 0 < config.max_runs
      → distinct (order ++ id ∷ []) ≡ true
      → get id (evict config (order ++ id ∷ []) runs).runs ≡ get id runs
  unfolding evict
  get-evict [] id runs room once =
      let fits : ltb config.max_runs 1 ≡ false = ground arith in rw fits
  get-evict (x ∷ order) id runs room once =
      elim (Bool-cases (ltb config.max_runs (length (x ∷ order ++ id ∷ [])))) [
        | inl over ↦ rw over (
            get-evict order id (remove x runs) room (ground arith)
            ∙ ground (arith, get-remove x id runs, mem-append x order (id ∷ [])))
        | inr under ↦ rw under
      ]

  evict_idle :
      (order : List ℕ) (runs : List (ℕ × RunLog))
      → length order ≤ config.max_runs
      → (evict config order runs).runs ≡ runs
  unfolding evict
  evict_idle [] runs few = refl
  evict_idle (x ∷ order) runs few = ground arith

  length-keep_if-le {ℓ} :
      {A : Type ℓ} (p : A → Bool) (xs : List A) → length (keep_if p xs) ≤ length xs
  length-keep_if-le p [] = omega arith
  length-keep_if-le p (x ∷ xs) = ground (arith, length-keep_if-le p xs)

  last-store_record :
      (store : Store) (event : JobLogRecord)
      → IsBounded config store
      → 0 < config.max_runs
      → last_of (get event.run_id (store_record config store event).runs) ≡ some event
  unfolding store_record
  last-store_record store event b room =
      let live = keep_if (is_live config event.timestamp) store.runs in
      let order = keep_if (λ id. has_key id live) store.order in
      let once = distinct-keep_if (λ id. has_key id live) store.order b.once in
      let few = length-keep_if-le (λ id. has_key id live) store.order in
      elim (Bool-cases (has_key event.run_id live)) [
        | inl known ↦ rw known (
            rw (evict_idle order (upsert config event live) (omega (arith, b.few)))
              (last-upsert event live))
        | inr fresh ↦ rw fresh (
            rw
              (get-evict order event.run_id (upsert config event live) room (
                distinct-snoc order event.run_id once
                  (ground (arith, mem-keep_if (λ id. has_key id live) event.run_id store.order))))
              (last-upsert event live))
      ]

  last-newest :
      (o : Option RunLog) (limit : ℕ) (event : JobLogRecord)
      → 0 < limit
      → last_of o ≡ some event
      → (get_last? (newest o limit) ≡ some event) × (length (newest o limit) ≤ limit)
  last-newest none limit event h e = cc
  last-newest (some log) limit event h e = (
    get_last?-drop (length log.records - limit) log.records
          (omega (arith, length-pos log.records event e))
        ∙ e,
    omega (arith, length-drop (length log.records - limit) log.records),
  )

  -- After a record in a store that is within its bounds, what is read back for its run ends with it,
  -- and has `limit` records at most, if capture is enabled, a run may be stored, and `limit` is not
  -- zero.
  pub record_event-records :
      (store : Store) (event : JobLogRecord) (limit : ℕ)
      → IsBounded config store
      → config.enabled ≡ true
      → 0 < config.max_runs
      → 0 < limit
      → let read = records (record_event config store event) event.run_id limit in
        (get_last? read ≡ some event) × (length read ≤ limit)
  unfolding record_event records
  record_event-records store event limit b on room h = simp on (
      last-newest (get event.run_id (store_record config store event).runs) limit event h
        (last-store_record store event b room))
