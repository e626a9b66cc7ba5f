-- ===== src/Jobs/Run/Tasks.antt =====
-- Properties that a run's task keeps, crates/jobs/src/run.rs.
use overseerd.Base.{ℕ, zero, suc, true, false, Option, none, some, List, [], ◌∷◌, if◌then◌else◌}
use overseerd.Jobs.Entry.{
  JobEntry, exit_run, clear_run_token, is_run_cancelled, record_start, record_finish,
}
use overseerd.Jobs.Summary.{JobTrigger, JobRunOutcome}
use overseerd.Jobs.Run.{
  Phase, waiting, in_body, recorded, panicked, left, Task, start_run, start_pending, execute_run,
  execute_at,
}

pub record IsKeptByTasks (P : JobEntry → Type 0) : Type 0 where
  pub on_record_start :
      (id : ℕ) (trigger : JobTrigger) (at : ℕ) (e : JobEntry)
      → P e
      → P (record_start id trigger at e)
  pub on_finish :
      (id at : ℕ) (outcome : JobRunOutcome) (e : JobEntry)
      → P e
      → P (clear_run_token id (record_finish id at outcome e))
  pub on_exit : (e : JobEntry) → P e → P (exit_run e).0
  pub on_run : (trigger : JobTrigger) (id : ℕ) (e : JobEntry) → P e → P (start_run trigger id e).0

module _ (P : JobEntry → Type 0) (kept : IsKeptByTasks P) where
  start_pending-keeps :
      (pending : Option (ℕ × JobTrigger)) (e : JobEntry) → P e → P (start_pending pending e).1
  unfolding start_pending
  start_pending-keeps none e h = h
  start_pending-keeps (some (id, trigger)) e h =
      let Result : Type 0 = List Task × JobEntry in
      elim e.token_cancelled
        as (λ b.
          P
            (if◌then◌else◌ {A = Result} b ([], e)
              ((start_run trigger id e).1 ∷ [], (start_run trigger id e).0)).1) [
                | true ↦ h
                | false ↦ kept.on_run trigger id e h
              ]

  execute_phase-keeps :
      (now : ℕ) (outcome : JobRunOutcome) (id : ℕ) (trigger : JobTrigger) (phase : Phase)
      (e : JobEntry)
      → P e
      → P (execute_run now outcome (record { run_id = id; trigger = trigger; phase = phase }) e).1
  unfolding execute_run
  execute_phase-keeps now outcome id trigger waiting e h = kept.on_record_start id trigger now e h
  execute_phase-keeps now JobRunOutcome.running id trigger in_body e h = h
  execute_phase-keeps now JobRunOutcome.success id trigger in_body e h =
      kept.on_finish id now JobRunOutcome.success e h
  execute_phase-keeps now (JobRunOutcome.failed why) id trigger in_body e h =
      kept.on_finish id now (JobRunOutcome.failed why) e h
  execute_phase-keeps now JobRunOutcome.timed_out id trigger in_body e h =
      kept.on_finish id now JobRunOutcome.timed_out e h
  execute_phase-keeps now JobRunOutcome.cancelled id trigger in_body e h =
      let Result : Type 0 = List Task × JobEntry in
      let task : Phase → Task = λ phase. record { run_id = id; trigger = trigger; phase = phase } in
      let over = clear_run_token id (record_finish id now JobRunOutcome.cancelled e) in
      elim (is_run_cancelled id e)
        as (λ b.
          P (if◌then◌else◌ {A = Result} b (task recorded ∷ [], over) (task in_body ∷ [], e)).1) [
            | true ↦ kept.on_finish id now JobRunOutcome.cancelled e h
            | false ↦ h
          ]
  execute_phase-keeps now outcome id trigger panicked e h = h
  execute_phase-keeps now outcome id trigger recorded e h = kept.on_exit e h
  execute_phase-keeps now outcome id trigger (left pending) e h = start_pending-keeps pending e h

  pub execute_at-keeps :
      (n now : ℕ) (outcome : JobRunOutcome) (tasks : List Task) (e : JobEntry)
      → P e
      → P (execute_at n now outcome tasks e).1
  unfolding execute_at
  execute_at-keeps n now outcome [] e h = h
  execute_at-keeps zero now outcome (task ∷ tasks) e h =
      execute_phase-keeps now outcome task.run_id task.trigger task.phase e h
  execute_at-keeps (suc n) now outcome (task ∷ tasks) e h = execute_at-keeps n now outcome tasks e h
