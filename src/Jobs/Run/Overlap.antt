-- ===== src/Jobs/Run/Overlap.antt =====
-- The overlap guard, crates/jobs/src/run.rs: how many runs of one job are in flight.
use overseerd.Base.{
  ℕ, zero, suc, ◌+◌, ◌≤◌, ◌<◌, ◌≡◌, refl, Bool, true, false, ◌&&◌, Option, none, some, List, [],
  ◌∷◌, ◌++◌, ltb, arith, inl, inr, Bool-cases,
}
use overseerd.Jobs.Entry.{
  JobEntry, new, begin_cancel, mark_cancelled, pause, resume, reschedule, set_next_run_at,
  trigger_manual, take_manual, enter_run, exit_run, clear_run_token, record_skipped, record_start,
  record_finish, cancel_active_run,
}
use overseerd.Jobs.Summary.{
  JobTrigger, manual, JobRunOutcome, OverlapPolicy, skip, queue_one, allow, cancel_previous,
}
use overseerd.Jobs.Entry.Bookkeeping.{pause-ind, resume-ind}
use overseerd.Jobs.Run.{
  turn, Phase, waiting, in_body, recorded, panicked, left, Task, World, start_run, spawn_run,
  on_overlap, maybe_start_run, start_pending, execute_run, execute_at, run_id_or_next, start_manual,
  fired, executed, turned, selecting, serve, announce, drive_job, step, spawn, Reachable, stepped,
  panic_at, panic_in, Event, run, turn,
}
use overseerd.Jobs.Run.Preservation.{IsKept, Reachable-IsKept, step-IsKept}

-- The tasks between `enter_run` and `exit_run` that no panic has ended
abbrev pub flies : Phase → ℕ
flies (left _) = 0
flies panicked = 0
flies _ = 1

abbrev pub in_flight : List Task → ℕ
in_flight [] = 0
in_flight (task ∷ tasks) = flies task.phase + in_flight tasks

-- The tasks that a panic has ended
abbrev pub breaks : Phase → ℕ
breaks panicked = 1
breaks _ = 0

abbrev pub broken : List Task → ℕ
broken [] = 0
broken (task ∷ tasks) = breaks task.phase + broken tasks

abbrev brings_none : Phase → Bool
brings_none (left (some _)) = false
brings_none _ = true

abbrev bring_none : List Task → Bool
bring_none [] = true
bring_none (task ∷ tasks) = brings_none task.phase && bring_none tasks

in_flight-append : (xs ys : List Task) → in_flight (xs ++ ys) ≡ in_flight xs + in_flight ys
in_flight-append [] ys = omega arith
in_flight-append (x ∷ xs) ys = omega (arith, in_flight-append xs ys)

broken-append : (xs ys : List Task) → broken (xs ++ ys) ≡ broken xs + broken ys
broken-append [] ys = omega arith
broken-append (x ∷ xs) ys = omega (arith, broken-append xs ys)

bring_none-append :
    (xs ys : List Task) → bring_none xs ≡ true → bring_none ys ≡ true → bring_none (xs ++ ys) ≡ true
bring_none-append [] ys h k = k
bring_none-append (x ∷ xs) ys h k = ground (arith, bring_none-append xs ys)

-- The invariant, with `others` runs of tasks that are not in the list.
abbrev IsSkipping : ℕ → JobEntry → List Task → Type 0
IsSkipping others e tasks =
    (e.overlap ≡ skip)
    × (e.pending ≡ none)
    × (e.active ≡ others + (in_flight tasks + broken tasks))
    × (e.active ≤ 1)
    × (bring_none tasks ≡ true)

start_pending-IsSkipping :
    (others : ℕ) (p : Option (ℕ × JobTrigger)) (tasks : List Task) (e : JobEntry)
    (brings : brings_none (left p) ≡ true)
    → IsSkipping others e tasks
    → IsSkipping others (start_pending p e).1 ((start_pending p e).0 ++ tasks)
unfolding start_pending
start_pending-IsSkipping others none tasks e brings h = h
start_pending-IsSkipping others (some p) tasks e brings h = absurd (ground arith)

abbrev pub task_at : ℕ → JobTrigger → Phase → Task
task_at id trigger phase = record { run_id = id; trigger = trigger; phase = phase }

execute_run-IsSkipping :
    (now : ℕ) (outcome : JobRunOutcome) (others id : ℕ) (trigger : JobTrigger) (phase : Phase)
    (tasks : List Task) (e : JobEntry)
    → IsSkipping others e (task_at id trigger phase ∷ tasks)
    → IsSkipping others
        (execute_run now outcome (task_at id trigger phase) e).1
        ((execute_run now outcome (task_at id trigger phase) e).0 ++ tasks)
unfolding execute_run record_start record_finish clear_run_token exit_run
execute_run-IsSkipping now outcome others id trigger waiting tasks e h = h
execute_run-IsSkipping now outcome others id trigger in_body tasks e h = ground arith
execute_run-IsSkipping now outcome others id trigger panicked tasks e h = h
execute_run-IsSkipping now outcome others id trigger recorded tasks e h =
    (h.0, refl, ground arith, ground arith, rw h.1 h.4)
execute_run-IsSkipping now outcome others id trigger (left p) tasks e h =
    start_pending-IsSkipping others p tasks e (ground arith) (ground arith)

execute_at-IsSkipping :
    (n now : ℕ) (outcome : JobRunOutcome) (others : ℕ) (tasks : List Task) (e : JobEntry)
    → IsSkipping others e tasks
    → IsSkipping others (execute_at n now outcome tasks e).1 (execute_at n now outcome tasks e).0
unfolding execute_at
execute_at-IsSkipping n now outcome others [] e h = h
execute_at-IsSkipping zero now outcome others (task ∷ tasks) e h =
    execute_run-IsSkipping now outcome others task.run_id task.trigger task.phase tasks e h
execute_at-IsSkipping (suc n) now outcome others (task ∷ tasks) e h =
    let rest =
      execute_at-IsSkipping n now outcome (others + (flies task.phase + breaks task.phase)) tasks e
        (ground arith) in
    ground arith

panic_in-IsSkipping :
    (others id : ℕ) (trigger : JobTrigger) (phase : Phase) (tasks : List Task) (e : JobEntry)
    → IsSkipping others e (task_at id trigger phase ∷ tasks)
    → IsSkipping others e (task_at id trigger (panic_in phase) ∷ tasks)
panic_in-IsSkipping others id trigger waiting tasks e h = h
panic_in-IsSkipping others id trigger in_body tasks e h = ground arith
panic_in-IsSkipping others id trigger recorded tasks e h = h
panic_in-IsSkipping others id trigger panicked tasks e h = h
panic_in-IsSkipping others id trigger (left p) tasks e h = h

panic_at-IsSkipping :
    (n others : ℕ) (tasks : List Task) (e : JobEntry)
    → IsSkipping others e tasks
    → IsSkipping others e (panic_at n tasks)
unfolding panic_at
panic_at-IsSkipping n others [] e h = h
panic_at-IsSkipping zero others (task ∷ tasks) e h =
    panic_in-IsSkipping others task.run_id task.trigger task.phase tasks e h
panic_at-IsSkipping (suc n) others (task ∷ tasks) e h =
    let rest =
      panic_at-IsSkipping n (others + (flies task.phase + breaks task.phase)) tasks e
        (ground arith) in
    ground arith

token_of-skip :
    (e : JobEntry) (trigger : JobTrigger) (run_id : ℕ)
    → e.overlap ≡ skip
    → (start_run trigger run_id e).0 ≡ enter_run e
unfolding start_run
token_of-skip e trigger run_id h = rw h refl

spawn_run-IsSkipping :
    (trigger : JobTrigger) (run_id : ℕ) (w : World)
    → ltb 0 w.entry.active ≡ false
    → IsSkipping 0 w.entry w.tasks
    → IsSkipping 0 (spawn_run trigger run_id w).entry (spawn_run trigger run_id w).tasks
unfolding spawn_run start_run enter_run
spawn_run-IsSkipping trigger run_id w idle h =
    let here : Task = task_at run_id trigger waiting in
    let idle0 : w.entry.active ≡ 0 = ground arith in
    let more = in_flight-append w.tasks (here ∷ []) in
    let same = broken-append w.tasks (here ∷ []) in
    let quiet = bring_none-append w.tasks (here ∷ []) h.4 refl in
    rw (h.0, idle0) (refl, h.1, omega arith, omega arith, quiet)

abbrev WorldSkips : World → Type 0
WorldSkips w = IsSkipping 0 w.entry w.tasks

maybe_start_run-WorldSkips :
    (trigger : JobTrigger) (manual_id : Option ℕ) (w : World)
    → WorldSkips w
    → WorldSkips (maybe_start_run trigger manual_id w)
unfolding maybe_start_run on_overlap spawn_run start_run enter_run record_skipped
maybe_start_run-WorldSkips trigger manual_id w h = elim (Bool-cases (ltb 0 w.entry.active)) [
  | inl busy ↦ rw (busy, h.0) (refl, h.1, h.2, h.3, h.4)
  | inr idle ↦ rw idle (
      spawn_run-IsSkipping trigger (run_id_or_next manual_id w.run_ids).0
        (record w { run_ids = (run_id_or_next manual_id w.run_ids).1 }) idle h)
]

start_manual-WorldSkips :
    (ids : List ℕ) (w : World) → WorldSkips w → WorldSkips (start_manual ids w)
unfolding start_manual
start_manual-WorldSkips [] w h = h
start_manual-WorldSkips (id ∷ ids) w h =
    start_manual-WorldSkips ids (maybe_start_run manual (some id) w)
      (maybe_start_run-WorldSkips manual (some id) w h)

WorldSkips-IsKept : IsKept WorldSkips
unfolding pause resume begin_cancel reschedule trigger_manual take_manual set_next_run_at
    mark_cancelled
WorldSkips-IsKept = record {
  on_start = maybe_start_run-WorldSkips;
  on_pause = λ w h. pause-ind (λ e. IsSkipping 0 e w.tasks) w.entry h h;
  on_resume = λ w h. resume-ind (λ e. IsSkipping 0 e w.tasks) w.entry h h;
  on_cancel = λ w h. h;
  on_token = λ cancels w h. h;
  on_panic = λ n w h. panic_at-IsSkipping n 0 w.tasks w.entry h;
  on_drop = λ w h. h;
  on_reschedule = λ plan w h. h;
  on_trigger = λ w h. h;
  on_other = λ w h. h;
  on_take = λ w h. h;
  on_next = λ at w h. h;
  on_loop = λ loop w h. h;
  on_end = λ w over h. h;
  on_execute = λ n now outcome w h. execute_at-IsSkipping n now outcome 0 w.tasks w.entry h;
}

-- Whatever happens to a job whose policy is `skip`, the count of the guard is the number of runs in
-- flight and of those that a panic of the body has ended, and it is 1 at most.
pub at_most_one_run :
    (w : World)
    → Reachable skip w
    → (w.entry.active ≡ in_flight w.tasks + broken w.tasks) × (w.entry.active ≤ 1)
unfolding spawn new
at_most_one_run w reached =
    let kept =
      Reachable-IsKept WorldSkips WorldSkips-IsKept
        (λ plan on run_ids. (refl, refl, refl, omega arith, refl)) w reached in
    ground arith

-- A panic's task stays as it is.
broken-execute_run :
    (now : ℕ) (outcome : JobRunOutcome) (id : ℕ) (trigger : JobTrigger) (phase : Phase)
    (e : JobEntry)
    → breaks phase ≤ broken (execute_run now outcome (task_at id trigger phase) e).0
unfolding execute_run
broken-execute_run now outcome id trigger panicked e = omega arith
broken-execute_run now outcome id trigger waiting e = omega arith
broken-execute_run now outcome id trigger in_body e = omega arith
broken-execute_run now outcome id trigger recorded e = omega arith
broken-execute_run now outcome id trigger (left p) e = omega arith

broken-execute_at :
    (n now : ℕ) (outcome : JobRunOutcome) (tasks : List Task) (e : JobEntry)
    → broken tasks ≤ broken (execute_at n now outcome tasks e).0
unfolding execute_at
broken-execute_at n now outcome [] e = omega arith
broken-execute_at zero now outcome (task ∷ tasks) e =
    let kept = broken-execute_run now outcome task.run_id task.trigger task.phase e in
    let more = broken-append (execute_run now outcome task e).0 tasks in omega arith
broken-execute_at (suc n) now outcome (task ∷ tasks) e =
    omega (arith, broken-execute_at n now outcome tasks e)

broken-panic_in : (phase : Phase) → breaks phase ≤ breaks (panic_in phase)
broken-panic_in waiting = omega arith
broken-panic_in in_body = omega arith
broken-panic_in recorded = omega arith
broken-panic_in panicked = omega arith
broken-panic_in (left p) = omega arith

broken-panic_at : (n : ℕ) (tasks : List Task) → broken tasks ≤ broken (panic_at n tasks)
unfolding panic_at
broken-panic_at n [] = omega arith
broken-panic_at zero (task ∷ tasks) = omega (arith, broken-panic_in task.phase)
broken-panic_at (suc n) (task ∷ tasks) = omega (arith, broken-panic_at n tasks)

broken-spawn_run :
    (trigger : JobTrigger) (run_id : ℕ) (w : World)
    → broken w.tasks ≤ broken (spawn_run trigger run_id w).tasks
unfolding spawn_run start_run
broken-spawn_run trigger run_id w =
    omega (arith, broken-append w.tasks (task_at run_id trigger waiting ∷ []))

broken-on_overlap :
    (overlap : OverlapPolicy) (trigger : JobTrigger) (run_id : ℕ) (w : World)
    → broken w.tasks ≤ broken (on_overlap overlap trigger run_id w).tasks
unfolding on_overlap
broken-on_overlap skip trigger run_id w = omega arith
broken-on_overlap queue_one trigger run_id w = omega arith
broken-on_overlap allow trigger run_id w = broken-spawn_run trigger run_id w
broken-on_overlap cancel_previous trigger run_id w =
    broken-spawn_run trigger run_id (record w { entry = cancel_active_run w.entry })

broken-maybe_start_run :
    (trigger : JobTrigger) (manual_id : Option ℕ) (w : World)
    → broken w.tasks ≤ broken (maybe_start_run trigger manual_id w).tasks
unfolding maybe_start_run
broken-maybe_start_run trigger manual_id w =
    let (run_id, run_ids) = run_id_or_next manual_id w.run_ids in
    let w1 : World = record w { run_ids = run_ids } in
    elim (Bool-cases (ltb 0 w.entry.active)) [
      | inl busy ↦ rw busy (broken-on_overlap w.entry.overlap trigger run_id w1)
      | inr idle ↦ rw idle (broken-spawn_run trigger run_id w1)
    ]

abbrev IsBroken : World → Type 0
IsBroken w = 1 ≤ broken w.tasks

IsBroken-IsKept : IsKept IsBroken
IsBroken-IsKept = record {
  on_start = λ trigger manual_id w h. omega (arith, broken-maybe_start_run trigger manual_id w);
  on_pause = λ w h. h;
  on_resume = λ w h. h;
  on_cancel = λ w h. h;
  on_token = λ cancels w h. h;
  on_panic = λ n w h. omega (arith, broken-panic_at n w.tasks);
  on_drop = λ w h. h;
  on_reschedule = λ plan w h. h;
  on_trigger = λ w h. h;
  on_other = λ w h. h;
  on_take = λ w h. h;
  on_next = λ at w h. h;
  on_loop = λ loop w h. h;
  on_end = λ w over h. h;
  on_execute = λ n now outcome w h. omega (arith, broken-execute_at n now outcome w.tasks w.entry);
}

run_past_panic :
    (events : List Event) (w : World)
    → Reachable skip w
    → IsBroken w
    → in_flight (run events w).tasks ≡ 0
unfolding run
run_past_panic [] w reached h = let held = at_most_one_run w reached in omega arith
run_past_panic (event ∷ events) w reached h =
    run_past_panic events (step event w) (stepped w event reached)
      (step-IsKept IsBroken IsBroken-IsKept event w h)

-- Once the body of a run of a job whose policy is `skip` has panicked, no run of the job is ever in
-- flight again, whatever happens.
pub no_run_after_panic :
    (w : World) (events : List Event)
    → Reachable skip w
    → 0 < broken w.tasks
    → in_flight (run events w).tasks ≡ 0
no_run_after_panic w events reached h = run_past_panic events w reached (omega arith)

-- A job of the policy `queue_one` whose run has just left with a deferred firing, and which is
-- neither paused nor cancelled: if the schedule fires before the run's task starts the deferred
-- firing, two runs are in flight.
pub fires_beside_deferred :
    (w : World) (wall : Option ℕ) (now : ℕ) (outcome : JobRunOutcome) (id old : ℕ)
    (trigger cause : JobTrigger)
    → w.entry.overlap ≡ queue_one
    → w.loop ≡ selecting
    → w.entry.is_paused ≡ false
    → w.entry.token_cancelled ≡ false
    → w.entry.active ≡ 0
    → w.tasks ≡ task_at old cause (left (some (id, trigger))) ∷ []
    → in_flight (step (executed 0 now outcome) (step (turned fired wall) w)).tasks ≡ 2
unfolding step drive_job turn serve maybe_start_run spawn_run start_run announce set_next_run_at
    enter_run execute_at execute_run start_pending
fires_beside_deferred w wall now outcome id old trigger cause policy at awake live idle tasks =
    simp (policy, at, awake, live, idle, tasks)
