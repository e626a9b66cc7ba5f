-- ===== src/Jobs/Log/Tests.antt =====
-- Runs of the store, and its theorems at concrete events.
use overseerd.Base.{ℕ, ◌≡◌, refl, ◌≤◌, true, some, List, [], ◌∷◌, length, arith}
use overseerd.Jobs.Log.{JobLogRecord, JobLogConfig, new, record_event, records}
use overseerd.Jobs.Log.Bounds.{IsBounded, record_all, record_all-IsBounded}
use overseerd.Jobs.Log.Recent.{get_last?, record_event-records}

abbrev config : JobLogConfig
config = record { enabled = true; max_runs = 2; max_bytes_per_run = 10; ttl = 100 }

abbrev line : ℕ → ℕ → ℕ → JobLogRecord
line run_id timestamp bytes = record {
  run_id = run_id;
  timestamp = timestamp;
  target_len = 0;
  message_len = bytes;
  body = 0;
}

abbrev lines : List JobLogRecord
lines = line 1 5 4 ∷ line 2 6 4 ∷ line 1 7 7 ∷ line 3 8 99 ∷ []

-- Run 1 is evicted, with the two records that would have been shed to one.
lines_order : (record_all config new lines).order ≡ 2 ∷ 3 ∷ []
unfolding record_event
lines_order = refl

record_all-IsBounded_example : IsBounded config (record_all config new lines)
record_all-IsBounded_example = record_all-IsBounded config lines

record_event-records_example :
    (get_last? (records (record_event config new (line 3 8 99)) 3 5) ≡ some (line 3 8 99))
    × (length (records (record_event config new (line 3 8 99)) 3 5) ≤ 5)
record_event-records_example =
    record_event-records config new (line 3 8 99) 5 (record_all-IsBounded config []) refl
      (omega arith) (omega arith)
