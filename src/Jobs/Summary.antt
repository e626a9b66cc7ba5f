-- ===== src/Jobs/Summary.antt =====
-- crates/jobs/src/registry.rs: the states of a job, and what is kept of a run.
use overseerd.Base.{ℕ, Option, Text}

-- `JobState`
pub data JobState : Type 0 where
  scheduled : JobState
  running : ℕ → JobState
  paused : JobState
  cancelling : JobState
  cancelled : JobState

-- `JobTrigger`
pub data JobTrigger : Type 0 where
  schedule manual : JobTrigger

-- `JobRunOutcome`
pub data JobRunOutcome : Type 0 where
  running : JobRunOutcome
  success : JobRunOutcome
  failed : Text → JobRunOutcome
  timed_out : JobRunOutcome
  cancelled : JobRunOutcome

-- `JobRunSummary`
pub record JobRunSummary : Type 0 where
  pub run_id : ℕ
  pub trigger : JobTrigger
  pub started_at : ℕ
  pub finished_at : Option ℕ
  pub outcome : JobRunOutcome

-- `OverlapPolicy`, of crates/jobs/src/schedule.rs
pub data OverlapPolicy : Type 0 where
  skip queue_one allow cancel_previous : OverlapPolicy
