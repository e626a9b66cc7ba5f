-- ===== src/Jobs/Run/Preservation.antt =====
-- Properties that the loop and the calls keep, crates/jobs/src/run.rs.
use overseerd.Base.{
  ℕ, zero, suc, Bool, true, false, not, ◌&&◌, ◌≡◌, refl, Option, none, some, List, [], ◌∷◌,
  if◌then◌else◌, inc64,
}
use overseerd.Jobs.Entry.{
  begin_cancel, cancel_token, mark_cancelled, pause, resume, reschedule, set_next_run_at,
  trigger_manual, take_manual,
}
use overseerd.Jobs.Summary.{JobTrigger, schedule, manual, JobRunOutcome, OverlapPolicy}
use overseerd.Jobs.Run.{
  World, Loop, starting, selecting, ended, maybe_start_run, execute_at, start_manual, Wakeup, woken,
  triggered, fired, serve, announce, turn, drive_job, Event, step, Reachable, spawned, stepped,
  spawn, panic_at, end_cancel,
}

pub record IsKept (P : World → Type 0) : Type 0 where
  pub on_start :
      (trigger : JobTrigger) (manual_id : Option ℕ) (w : World)
      → P w
      → P (maybe_start_run trigger manual_id w)
  pub on_pause : (w : World) → P w → P (record w { entry = (pause w.entry).0 })
  pub on_resume : (w : World) → P w → P (record w { entry = (resume w.entry).0 })
  pub on_cancel :
      (w : World) → P w → P (record w { entry = begin_cancel w.entry; cancels = suc w.cancels })
  pub on_token :
      (cancels : ℕ) (w : World)
      → P w
      → P (record w { entry = cancel_token w.entry; cancels = cancels })
  pub on_drop : (w : World) → P w → P (record w { entry = cancel_token w.entry })
  pub on_panic : (n : ℕ) (w : World) → P w → P (record w { tasks = panic_at n w.tasks })
  pub on_reschedule :
      (plan : ℕ) (w : World) → P w → P (record w { entry = reschedule plan w.entry })
  pub on_trigger :
      (w : World)
      → P w
      → P (record w {
        entry = (trigger_manual w.run_ids w.entry).0;
        run_ids = (trigger_manual w.run_ids w.entry).1;
      })
  pub on_other : (w : World) → P w → P (record w { run_ids = inc64 w.run_ids })
  pub on_take : (w : World) → P w → P (record w { entry = (take_manual w.entry).0 })
  pub on_next :
      (at : Option ℕ) (w : World) → P w → P (record w { entry = set_next_run_at at w.entry })
  pub on_loop : (loop : Loop) (w : World) → P w → P (record w { loop = loop })
  pub on_end :
      (w : World)
      → w.entry.token_cancelled ≡ true
      → P w
      → P (record w { entry = mark_cancelled w.entry; loop = ended })
  pub on_execute :
      (n now : ℕ) (outcome : JobRunOutcome) (w : World)
      → P w
      → P (record w {
        entry = (execute_at n now outcome w.tasks w.entry).1;
        tasks = (execute_at n now outcome w.tasks w.entry).0;
      })

module _ (P : World → Type 0) (kept : IsKept P) where
  either : (b : Bool) (v w : World) → P v → P w → P (if b then v else w)
  either true v w h k = h
  either false v w h k = k

  choose : (b : Bool) (v w : World) → (b ≡ true → P v) → P w → P (if b then v else w)
  choose true v w h k = h refl
  choose false v w h k = k

  start_manual-IsKept : (ids : List ℕ) (w : World) → P w → P (start_manual ids w)
  unfolding start_manual
  start_manual-IsKept [] w h = h
  start_manual-IsKept (id ∷ ids) w h =
      start_manual-IsKept ids (maybe_start_run manual (some id) w)
        (kept.on_start manual (some id) w h)

  serve-IsKept : (wakeup : Wakeup) (w : World) → P w → P (serve wakeup w)
  unfolding serve
  serve-IsKept woken w h = h
  serve-IsKept triggered w h =
      start_manual-IsKept (take_manual w.entry).1 (record w { entry = (take_manual w.entry).0 })
        (kept.on_take w h)
  serve-IsKept fired w h =
      either w.entry.is_paused w (maybe_start_run schedule none w) h
        (kept.on_start schedule none w h)

  announce-IsKept : (wall : Option ℕ) (w : World) → P w → P (announce wall w)
  unfolding announce
  announce-IsKept wall w h = kept.on_next (if w.entry.is_paused then none else wall) w h

  turn-IsKept :
      (loop : Loop) (wakeup : Wakeup) (wall : Option ℕ) (w : World)
      → P w
      → P (turn loop wakeup wall w)
  unfolding turn
  turn-IsKept (starting on) wakeup wall w h =
      let w1 = if on && not w.entry.token_cancelled then maybe_start_run schedule none w else w in
      let h1 =
        either (on && not w.entry.token_cancelled) (maybe_start_run schedule none w) w
          (kept.on_start schedule none w h) h in
      announce-IsKept wall (record w1 { loop = selecting }) (kept.on_loop selecting w1 h1)
  turn-IsKept selecting wakeup wall w h =
      choose w.entry.token_cancelled (record w { entry = mark_cancelled w.entry; loop = ended })
        (announce wall (serve wakeup w)) (λ over. kept.on_end w over h)
        (announce-IsKept wall (serve wakeup w) (serve-IsKept wakeup w h))
  turn-IsKept ended wakeup wall w h = h

  end_cancel-IsKept : (cancels : ℕ) (w : World) → P w → P (end_cancel cancels w)
  unfolding end_cancel
  end_cancel-IsKept zero w h = h
  end_cancel-IsKept (suc cancels) w h = kept.on_token cancels w h

  pub step-IsKept : (event : Event) (w : World) → P w → P (step event w)
  unfolding step drive_job
  step-IsKept Event.paused w h = kept.on_pause w h
  step-IsKept Event.resumed w h = kept.on_resume w h
  step-IsKept Event.cancel_called w h = kept.on_cancel w h
  step-IsKept Event.token_cancelled w h = end_cancel-IsKept w.cancels w h
  step-IsKept Event.run_now w h = kept.on_trigger w h
  step-IsKept Event.other_job w h = kept.on_other w h
  step-IsKept Event.dropped w h = kept.on_drop w h
  step-IsKept (Event.rescheduled plan) w h = kept.on_reschedule plan w h
  step-IsKept (Event.body_panicked n) w h = kept.on_panic n w h
  step-IsKept (Event.turned wakeup wall) w h = turn-IsKept w.loop wakeup wall w h
  step-IsKept (Event.executed n now outcome) w h = kept.on_execute n now outcome w h

  pub Reachable-IsKept :
      {overlap : OverlapPolicy}
      (start : (plan : ℕ) (on : Bool) (run_ids : ℕ) → P (spawn plan overlap on run_ids)) (w : World)
      → Reachable overlap w
      → P w
  Reachable-IsKept start w (spawned plan on run_ids) = start plan on run_ids
  Reachable-IsKept start w (stepped v event reached) =
      step-IsKept event v (Reachable-IsKept start v reached)
