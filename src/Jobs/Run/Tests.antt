-- ===== src/Jobs/Run/Tests.antt =====
-- Jobs driven through some events, and the theorems at the worlds that they reach.
use overseerd.Base.{arith, ◌+◌, ◌≡◌, ◌≤◌, refl, false, none, some, List, [], ◌∷◌}
use overseerd.Jobs.Entry.{
  set_next_run_at, trigger_manual, enter_run, take_manual, exit_run, mark_pending, record_start,
  record_finish, clear_run_token, trim, new, record_skipped,
}
use overseerd.Jobs.Summary.{JobState, skip, queue_one, schedule, manual, JobRunOutcome}
use overseerd.Jobs.Entry.Bookkeeping.{IsConsistent}
use overseerd.Jobs.Run.{
  execute_at, drive_job, turn, announce, serve, maybe_start_run, spawn_run, start_run, start_manual,
  on_overlap, execute_run, World, left, selecting, ended, Event, turned, cancel_called,
  token_cancelled, body_panicked, panic_at, executed, run_now, fired, triggered, step, run, spawn,
  Reachable, spawned, stepped,
}
use overseerd.Jobs.Run.Overlap.{
  task_at, in_flight, broken, at_most_one_run, no_run_after_panic, fires_beside_deferred,
}
use overseerd.Jobs.Run.Lifecycle.{is_called, entry-IsConsistent, cancel_after_end}

-- The schedule fires, a manual run is asked for, and the loop serves it while the first is in
-- flight.
abbrev busy : World
busy =
    step (turned triggered none)
      (step run_now (step (turned fired none) (step (turned fired none) (spawn 7 skip false 0))))

busy-Reachable : Reachable skip busy
busy-Reachable = stepped _ (turned triggered none) (
    stepped _ run_now
      (stepped _ (turned fired none) (stepped _ (turned fired none) (spawned 7 false 0))))

at_most_one_run_example :
    (busy.entry.active ≡ in_flight busy.tasks + broken busy.tasks) × (busy.entry.active ≤ 1)
at_most_one_run_example = at_most_one_run busy busy-Reachable

-- The body of the run panics; the manual run that is served after that is skipped.
abbrev panicked : World
panicked = step (body_panicked 0) (step (executed 0 5 JobRunOutcome.success) busy)

panicked-Reachable : Reachable skip panicked
panicked-Reachable =
    stepped _ (body_panicked 0) (stepped _ (executed 0 5 JobRunOutcome.success) busy-Reachable)

no_run_after_panic_example :
    in_flight (run (run_now ∷ turned triggered none ∷ turned fired none ∷ []) panicked).tasks ≡ 0
unfolding step panic_at execute_at execute_run drive_job turn announce serve maybe_start_run
    on_overlap spawn_run start_run start_manual spawn set_next_run_at new trigger_manual enter_run
    take_manual record_skipped record_start trim
no_run_after_panic_example =
    no_run_after_panic panicked (run_now ∷ turned triggered none ∷ turned fired none ∷ [])
      panicked-Reachable (omega arith)

-- A call of `cancel` has set the state, and has yet to cancel the token.
abbrev called : World
called = step cancel_called busy

entry-IsConsistent_example : IsConsistent (is_called called) called.entry
entry-IsConsistent_example = entry-IsConsistent skip called (stepped _ cancel_called busy-Reachable)

-- The run of id 0 has left, with the manual run of id 1 deferred.
abbrev between : World
between = record {
  entry = new 7 queue_one;
  run_ids = 2;
  tasks = task_at 0 schedule (left (some (1, manual))) ∷ [];
  loop = selecting;
  cancels = 0;
}

fires_beside_deferred_example :
    in_flight (step (executed 0 9 JobRunOutcome.success) (step (turned fired none) between)).tasks
    ≡ 2
unfolding new
fires_beside_deferred_example =
    fires_beside_deferred between none 9 JobRunOutcome.success 1 0 manual schedule refl refl refl
      refl refl refl

-- A world between the two is reached: one run leaves while a manual run is deferred.
abbrev deferring : List Event
deferring =
    turned fired none
    ∷ turned fired none
    ∷ run_now
    ∷ turned triggered none
    ∷ executed 0 5 JobRunOutcome.success
    ∷ executed 0 6 JobRunOutcome.success
    ∷ executed 0 7 JobRunOutcome.success
    ∷ []

deferring_tasks :
    (run deferring (spawn 7 queue_one false 0)).tasks
    ≡ task_at 0 schedule (left (some (1, manual))) ∷ []
unfolding run step spawn execute_at drive_job turn announce serve maybe_start_run spawn_run
    start_run start_manual on_overlap execute_run set_next_run_at new trigger_manual enter_run
    take_manual exit_run mark_pending record_start record_finish clear_run_token trim
deferring_tasks = refl

abbrev over : World
over = record {
  entry = record (new 7 skip) { state = JobState.cancelled };
  run_ids = 0;
  tasks = [];
  loop = ended;
  cancels = 0;
}

cancel_after_end_example :
    (run
      (token_cancelled ∷ turned fired none ∷ run_now ∷ [])
      (step Event.cancel_called over)).entry.state
    ≡ JobState.cancelling
cancel_after_end_example =
    cancel_after_end over (token_cancelled ∷ turned fired none ∷ run_now ∷ []) refl
