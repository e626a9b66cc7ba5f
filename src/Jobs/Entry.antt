-- ===== src/Jobs/Entry.antt =====
-- crates/jobs/src/registry.rs: the shared record of one scheduled job and its operations. A
-- method takes the entry and gives it back; each stands for its critical sections and atomic
-- operations in their order, but `begin_cancel`, whose two are apart. `mark_cancelled` also cancels
-- `done`, which nothing here reads. Ids and instants are numbers. A run's token is named by the run's
-- id: it is cancelled if that id is in `cancelled_runs` or the job's token is. The notifications that
-- wake the loop are left out: the loop may take a step at any time.
pub mod Bookkeeping
mod Tests
use overseerd.Jobs.Summary.{
  JobState, scheduled, running, paused, cancelling, cancelled, JobTrigger, schedule, manual,
  JobRunOutcome, success, failed, timed_out, JobRunSummary, OverlapPolicy, skip, queue_one, allow,
  cancel_previous,
}
use overseerd.Base.{
  inc64, dec64, ℕ, zero, suc, ◌+◌, ◌-◌, ◌%◌, ◌^◌, Bool, true, false, Option, none, some, List, [],
  ◌∷◌, ◌++◌, Text, length, drop, map, mem, leb, ltb, ◌==◌, if◌then◌else◌,
}

-- `JobEntry` with its `Shared`. `plan` stands for the schedule and `progress` for the snapshot.
pub record JobEntry : Type 0 where
  pub state : JobState
  pub plan : ℕ
  pub overlap : OverlapPolicy
  pub next_run_at : Option ℕ
  pub run_count : ℕ
  pub failure_count : ℕ
  pub skipped_count : ℕ
  pub last_run : Option JobRunSummary
  pub recent : List JobRunSummary
  pub is_paused : Bool
  pub progress : Option ℕ
  pub manual : List ℕ
  pub active : ℕ
  pub pending : Option (ℕ × JobTrigger)
  pub run_token : Option ℕ
  pub cancelled_runs : List ℕ
  pub token_cancelled : Bool
  pub done : Bool

-- `RECENT_RUNS_CAP`
abbrev pub recent_runs_cap : ℕ
recent_runs_cap = 32

-- `JobEntry::new`
unfoldable pub new : ℕ → OverlapPolicy → JobEntry
new plan overlap = record {
  state = scheduled;
  plan = plan;
  overlap = overlap;
  next_run_at = none;
  run_count = 0;
  failure_count = 0;
  skipped_count = 0;
  last_run = none;
  recent = [];
  is_paused = false;
  progress = none;
  manual = [];
  active = 0;
  pending = none;
  run_token = none;
  cancelled_runs = [];
  token_cancelled = false;
  done = false;
}

-- `begin_cancel`, its critical section; the call then cancels the token, a step of its own.
unfoldable pub begin_cancel : JobEntry → JobEntry
begin_cancel e = record e { state = JobState.cancelling }

-- `token.cancel()`
abbrev pub cancel_token : JobEntry → JobEntry
cancel_token e = record e { token_cancelled = true }

-- `mark_cancelled`
unfoldable pub mark_cancelled : JobEntry → JobEntry
mark_cancelled e = record e { state = JobState.cancelled; done = true }

abbrev pub pause_state : JobState → JobState
pause_state scheduled = paused
pause_state s = s

-- `pause`, with whether the state changed
unfoldable pub pause : JobEntry → JobEntry × Bool
pause e =
    if e.is_paused
    then (e, false)
    else (record e { is_paused = true; state = pause_state e.state }, true)

abbrev pub resume_state : JobState → JobState
resume_state paused = scheduled
resume_state s = s

-- `resume`
unfoldable pub resume : JobEntry → JobEntry × Bool
resume e =
    if e.is_paused
    then (record e { is_paused = false; state = resume_state e.state }, true)
    else (e, false)

-- `reschedule`
unfoldable pub reschedule : ℕ → JobEntry → JobEntry
reschedule plan e = record e { plan = plan }

-- `set_next_run_at`
unfoldable pub set_next_run_at : Option ℕ → JobEntry → JobEntry
set_next_run_at at e = record e { next_run_at = at }

-- `next_run_id`, on the counter that the scheduler's jobs share: the id, and the counter after.
abbrev pub next_run_id : ℕ → ℕ × ℕ
next_run_id run_ids = (run_ids, inc64 run_ids)

-- `trigger_manual`: the entry, the counter after, and the id that the caller is given.
unfoldable pub trigger_manual : ℕ → JobEntry → JobEntry × ℕ × ℕ
trigger_manual run_ids e =
    let (run_id, after) = next_run_id run_ids in
    (record e { manual = e.manual ++ run_id ∷ [] }, after, run_id)

-- `take_manual`
unfoldable pub take_manual : JobEntry → JobEntry × List ℕ
take_manual e = (record e { manual = [] }, e.manual)

-- `enter_run`
unfoldable pub enter_run : JobEntry → JobEntry
enter_run e = record e { active = inc64 e.active }

-- `exit_run`, with the firing that was deferred
unfoldable pub exit_run : JobEntry → JobEntry × Option (ℕ × JobTrigger)
exit_run e = (record e { active = dec64 e.active; pending = none }, e.pending)

abbrev or_pending : Option (ℕ × JobTrigger) → ℕ × JobTrigger → ℕ × JobTrigger
or_pending none firing = firing
or_pending (some first) firing = first

-- `mark_pending`: the first deferred firing stays.
unfoldable pub mark_pending : ℕ → JobTrigger → JobEntry → JobEntry
mark_pending run_id trigger e = record e { pending = some (or_pending e.pending (run_id, trigger)) }

-- `set_run_token`
unfoldable pub set_run_token : ℕ → JobEntry → JobEntry
set_run_token run_id e = record e { run_token = some run_id }

abbrev clear_owner : ℕ → Option ℕ → Option ℕ
clear_owner run_id none = none
clear_owner run_id (some owner) = if owner == run_id then none else some owner

-- `clear_run_token`
unfoldable pub clear_run_token : ℕ → JobEntry → JobEntry
clear_run_token run_id e = record e { run_token = clear_owner run_id e.run_token }

abbrev cancel_owner : Option ℕ → List ℕ → List ℕ
cancel_owner none runs = runs
cancel_owner (some owner) runs = owner ∷ runs

-- `cancel_active_run`
unfoldable pub cancel_active_run : JobEntry → JobEntry
cancel_active_run e = record e { cancelled_runs = cancel_owner e.run_token e.cancelled_runs }

-- `run_token.is_cancelled()`
abbrev pub is_run_cancelled : ℕ → JobEntry → Bool
is_run_cancelled run_id e = if e.token_cancelled then true else mem run_id e.cancelled_runs

-- `record_skipped`
unfoldable pub record_skipped : JobEntry → JobEntry
record_skipped e = record e { skipped_count = inc64 e.skipped_count }

-- A state that the bookkeeping of runs leaves alone
abbrev pub is_ending : JobState → Bool
is_ending cancelling = true
is_ending cancelled = true
is_ending _ = false

-- `while shared.recent.len() > RECENT_RUNS_CAP { pop_front }`
unfoldable pub trim : List JobRunSummary → List JobRunSummary
trim [] = []
trim (x ∷ rest) =
    let shorter = trim rest in if ltb recent_runs_cap (length (x ∷ rest)) then shorter else x ∷ rest

-- `record_start`
unfoldable pub record_start : ℕ → JobTrigger → ℕ → JobEntry → JobEntry
unfolding trim
record_start run_id trigger started_at e =
    let summary : JobRunSummary = record {
      run_id = run_id;
      trigger = trigger;
      started_at = started_at;
      finished_at = none;
      outcome = JobRunOutcome.running;
    } in
    record e {
      progress = none;
      state = if is_ending e.state then e.state else running run_id;
      last_run = some summary;
      recent = trim (e.recent ++ summary ∷ []);
    }

abbrev pub is_failure : JobRunOutcome → Bool
is_failure (failed _) = true
is_failure timed_out = true
is_failure _ = false

-- The closure `finalize`
abbrev pub finalize : ℕ → ℕ → JobRunOutcome → JobRunSummary → JobRunSummary
finalize run_id finished_at outcome summary =
    if summary.run_id == run_id
    then record summary { finished_at = some finished_at; outcome = outcome }
    else summary

abbrev on_last : (JobRunSummary → JobRunSummary) → Option JobRunSummary → Option JobRunSummary
on_last f none = none
on_last f (some s) = some (f s)

-- `record_finish`
unfoldable pub record_finish : ℕ → ℕ → JobRunOutcome → JobEntry → JobEntry
record_finish run_id finished_at outcome e =
    let last_active = leb e.active 1 in
    record e {
      progress = if last_active then none else e.progress;
      run_count = inc64 e.run_count;
      failure_count = if is_failure outcome then inc64 e.failure_count else e.failure_count;
      last_run = on_last (finalize run_id finished_at outcome) e.last_run;
      recent = map (finalize run_id finished_at outcome) e.recent;
      state =
          if is_ending e.state
          then e.state
          else if last_active
          then (if e.is_paused then paused else scheduled)
          else e.state;
    }
