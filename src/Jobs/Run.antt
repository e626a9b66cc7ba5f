-- ===== src/Jobs/Run.antt =====
-- crates/jobs/src/run.rs: the loop that drives one job, and the tasks that execute its runs.
-- A world is a job's entry, the counter of run ids, the tasks in being and the loop. An event is a
-- call of the scheduler's, a turn of the loop or a step of one task, and any order of events is
-- allowed. A call of `cancel` is two events. The operations of one turn of the loop, of another call or
-- of one part of a task (`record_finish` and `clear_run_token`, the two operations of `exit_run`) are
-- one step. What the clock, the schedule and the job's body give is part of the event.
mod Preservation
mod Tasks
mod Overlap
mod Lifecycle
mod Tests
use overseerd.Base.{
  ℕ, zero, suc, ◌+◌, Bool, true, false, not, ◌&&◌, Option, none, some, List, [], ◌∷◌, ◌++◌, ltb,
  if◌then◌else◌, inc64,
}
use overseerd.Jobs.Entry.{
  JobEntry, new, begin_cancel, cancel_token, mark_cancelled, pause, resume, reschedule,
  set_next_run_at, next_run_id, trigger_manual, take_manual, enter_run, exit_run, mark_pending,
  set_run_token, clear_run_token, cancel_active_run, is_run_cancelled, record_skipped, record_start,
  record_finish,
}
use overseerd.Jobs.Summary.{
  JobTrigger, schedule, manual, JobRunOutcome, success, OverlapPolicy, skip, queue_one, allow,
  cancel_previous,
}

-- Where a task of `execute_run` stands: before `record_start`, in the body, after `record_finish`
-- and `clear_run_token`, and after `exit_run` with what that returned; or ended by a panic of the
-- body, which nothing catches: no later statement of `execute_run` is run for it.
pub data Phase : Type 0 where
  waiting in_body recorded panicked : Phase
  left : Option (ℕ × JobTrigger) → Phase

pub record Task : Type 0 where
  pub run_id : ℕ
  pub trigger : JobTrigger
  pub phase : Phase

-- Where `drive_job` stands: at its start with `run_on_startup`, in `select!`, or after its end.
pub data Loop : Type 0 where
  starting : Bool → Loop
  selecting ended : Loop

pub record World : Type 0 where
  pub entry : JobEntry
  pub run_ids : ℕ
  pub tasks : List Task
  pub loop : Loop
  pub cancels : ℕ

-- `start_run`: the entry, and the task that it spawns
abbrev pub token_of : OverlapPolicy → ℕ → JobEntry → JobEntry
token_of cancel_previous run_id e = set_run_token run_id e
token_of _ run_id e = e

unfoldable pub start_run : JobTrigger → ℕ → JobEntry → JobEntry × Task
start_run trigger run_id e = (
  token_of e.overlap run_id (enter_run e),
  record { run_id = run_id; trigger = trigger; phase = waiting },
)

-- `start_run`, with the task among the world's
unfoldable pub spawn_run : JobTrigger → ℕ → World → World
spawn_run trigger run_id w =
    let (e, task) = start_run trigger run_id w.entry in
    record w { entry = e; tasks = w.tasks ++ task ∷ [] }

-- The match on the policy of `maybe_start_run`, with a run active
unfoldable pub on_overlap : OverlapPolicy → JobTrigger → ℕ → World → World
on_overlap skip trigger run_id w = record w { entry = record_skipped w.entry }
on_overlap queue_one trigger run_id w = record w { entry = mark_pending run_id trigger w.entry }
on_overlap cancel_previous trigger run_id w =
    spawn_run trigger run_id (record w { entry = cancel_active_run w.entry })
on_overlap allow trigger run_id w = spawn_run trigger run_id w

-- `manual_id.unwrap_or_else(|| entry.next_run_id())`, with the counter after
abbrev pub run_id_or_next : Option ℕ → ℕ → ℕ × ℕ
run_id_or_next none run_ids = next_run_id run_ids
run_id_or_next (some run_id) run_ids = (run_id, run_ids)

-- `maybe_start_run`
unfoldable pub maybe_start_run : JobTrigger → Option ℕ → World → World
maybe_start_run trigger manual_id w =
    let (run_id, run_ids) = run_id_or_next manual_id w.run_ids in
    let w1 : World = record w { run_ids = run_ids } in
    if ltb 0 w.entry.active
    then on_overlap w.entry.overlap trigger run_id w1
    else spawn_run trigger run_id w1

-- The end of `execute_run`: a deferred firing starts, unless the job is cancelled.
unfoldable pub start_pending : Option (ℕ × JobTrigger) → JobEntry → List Task × JobEntry
start_pending none e = ([], e)
start_pending (some (run_id, trigger)) e =
    let (e1, task) = start_run trigger run_id e in
    if e.token_cancelled then ([], e) else (task ∷ [], e1)

-- `execute_run`, up to the next point where another task may come between: the tasks that are left
-- of this one, and the entry. A body has the outcome `cancelled` only if its token is cancelled.
unfoldable pub execute_run : ℕ → JobRunOutcome → Task → JobEntry → List Task × JobEntry
execute_run now outcome task e = elim task.phase [
  | waiting ↦ (record task { phase = in_body } ∷ [], record_start task.run_id task.trigger now e)
  | in_body ↦
      let over : List Task × JobEntry = (
        record task { phase = recorded } ∷ [],
        clear_run_token task.run_id (record_finish task.run_id now outcome e),
      ) in
      let on : List Task × JobEntry = (task ∷ [], e) in
      elim outcome [
        | JobRunOutcome.cancelled ↦ if is_run_cancelled task.run_id e then over else on
        | JobRunOutcome.running ↦ on
        | _ ↦ over
      ]
  | panicked ↦ (task ∷ [], e)
  | recorded ↦ let (e1, pending) = exit_run e in (record task { phase = left pending } ∷ [], e1)
  | left pending ↦ start_pending pending e
]

-- One task of the list takes its step.
unfoldable pub execute_at : ℕ → ℕ → JobRunOutcome → List Task → JobEntry → List Task × JobEntry
execute_at n now outcome [] e = ([], e)
execute_at zero now outcome (task ∷ tasks) e =
    let (mine, e1) = execute_run now outcome task e in (mine ++ tasks, e1)
execute_at (suc n) now outcome (task ∷ tasks) e =
    let (rest, e1) = execute_at n now outcome tasks e in (task ∷ rest, e1)

abbrev pub panic_in : Phase → Phase
panic_in in_body = panicked
panic_in phase = phase

-- `run_body` panics in one task of the list, if that task is in its body.
unfoldable pub panic_at : ℕ → List Task → List Task
panic_at n [] = []
panic_at zero (task ∷ tasks) = record task { phase = panic_in task.phase } ∷ tasks
panic_at (suc n) (task ∷ tasks) = let rest = panic_at n tasks in task ∷ rest

-- `for run_id in entry.take_manual()`
unfoldable pub start_manual : List ℕ → World → World
start_manual [] w = w
start_manual (run_id ∷ ids) w = start_manual ids (maybe_start_run manual (some run_id) w)

-- The branches of `select!` but the first
pub data Wakeup : Type 0 where
  woken triggered fired : Wakeup

unfoldable pub serve : Wakeup → World → World
serve woken w = w
serve triggered w = let (e, ids) = take_manual w.entry in start_manual ids (record w { entry = e })
serve fired w = if w.entry.is_paused then w else maybe_start_run schedule none w

-- `entry.set_next_run_at(next.as_wall_clock(&entry))`
unfoldable pub announce : Option ℕ → World → World
announce wall w = record w {
  entry = set_next_run_at (if w.entry.is_paused then none else wall) w.entry;
}

-- One turn of `drive_job`, from where it stands
unfoldable pub turn : Loop → Wakeup → Option ℕ → World → World
turn (starting run_on_startup) wakeup wall w =
    let started = maybe_start_run schedule none w in
    let w1 = if run_on_startup && not w.entry.token_cancelled then started else w in
    announce wall (record w1 { loop = selecting })
turn selecting wakeup wall w =
    let served = announce wall (serve wakeup w) in
    if w.entry.token_cancelled
    then record w { entry = mark_cancelled w.entry; loop = ended }
    else served
turn ended wakeup wall w = w

unfoldable pub drive_job : Wakeup → Option ℕ → World → World
drive_job wakeup wall w = turn w.loop wakeup wall w

-- What may happen next. `other_job` is another job that takes an id; `dropped` is the scheduler's
-- `Drop`, which cancels the job's token. A call of `cancel` is two events: `cancel_called` sets the
-- state, and `token_cancelled` cancels the token for one of the calls in between.
pub data Event : Type 0 where
  paused resumed cancel_called token_cancelled run_now other_job dropped : Event
  rescheduled body_panicked : ℕ → Event
  turned : Wakeup → Option ℕ → Event
  executed : ℕ → ℕ → JobRunOutcome → Event

-- The second step of `begin_cancel`, if a call is between its two
unfoldable pub end_cancel : ℕ → World → World
end_cancel zero w = w
end_cancel (suc cancels) w = record w { entry = cancel_token w.entry; cancels = cancels }

unfoldable pub step : Event → World → World
step paused w = record w { entry = (pause w.entry).0 }
step resumed w = record w { entry = (resume w.entry).0 }
step cancel_called w = record w { entry = begin_cancel w.entry; cancels = suc w.cancels }
step token_cancelled w = end_cancel w.cancels w
step run_now w =
    let (e, run_ids, run_id) = trigger_manual w.run_ids w.entry in
    record w { entry = e; run_ids = run_ids }
step other_job w = record w { run_ids = inc64 w.run_ids }
step dropped w = record w { entry = cancel_token w.entry }
step (rescheduled plan) w = record w { entry = reschedule plan w.entry }
step (body_panicked n) w = record w { tasks = panic_at n w.tasks }
step (turned wakeup wall) w = drive_job wakeup wall w
step (executed n now outcome) w =
    let (tasks, e) = execute_at n now outcome w.tasks w.entry in
    record w { entry = e; tasks = tasks }

-- `spawn` of crates/jobs/src/scheduler.rs: a new entry and its loop
unfoldable pub spawn : ℕ → OverlapPolicy → Bool → ℕ → World
spawn plan overlap run_on_startup run_ids = record {
  entry = new plan overlap;
  run_ids = run_ids;
  tasks = [];
  loop = starting run_on_startup;
  cancels = 0;
}

-- The worlds that a job of the policy gets into
pub data Reachable (overlap : OverlapPolicy) : World → Type 0 where
  spawned :
      (plan : ℕ) (run_on_startup : Bool) (run_ids : ℕ)
      → Reachable overlap (spawn plan overlap run_on_startup run_ids)
  stepped : (w : World) (event : Event) → Reachable overlap w → Reachable overlap (step event w)

-- Events, the first first
unfoldable pub run : List Event → World → World
run [] w = w
run (event ∷ events) w = run events (step event w)
