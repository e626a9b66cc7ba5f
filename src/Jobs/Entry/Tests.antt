-- ===== src/Jobs/Entry/Tests.antt =====
-- The failures that the bookkeeping of runs counts, and a pause.
use overseerd.Base.{◌≡◌, refl, true, []}
use overseerd.Jobs.Entry.{JobEntry, new, pause, record_finish}
use overseerd.Jobs.Summary.{skip, JobRunOutcome}

entry_starts_unpaused : (pause (new 7 skip)).1 ≡ true
unfolding pause new
entry_starts_unpaused = refl

-- Four runs of the outcomes that there are
abbrev finished : JobEntry
finished = record_finish 4 40 JobRunOutcome.timed_out (
    record_finish 3 30 (JobRunOutcome.failed []) (
      record_finish 2 20 JobRunOutcome.cancelled
        (record_finish 1 10 JobRunOutcome.success (new 7 skip))))

failures_counted : finished.failure_count ≡ 2
unfolding record_finish new
failures_counted = refl

runs_counted : finished.run_count ≡ 4
unfolding record_finish new
runs_counted = refl
