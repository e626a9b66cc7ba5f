-- ===== src/Jobs/Run/Lifecycle.antt =====
-- A job's entry over its life, crates/jobs/src/run.rs and registry.rs.
use overseerd.Base.{
  zero, suc, subst, sym, inl, inr, Bool-cases, ◌∙◌, ℕ, ◌≡◌, refl, Bool, true, false, Option, List,
  [], ◌∷◌, ltb, arith, if◌then◌else◌,
}
use overseerd.Jobs.Entry.{
  JobEntry, new, begin_cancel, mark_cancelled, reschedule, set_next_run_at, trigger_manual,
  take_manual, enter_run, exit_run, mark_pending, set_run_token, clear_run_token, cancel_active_run,
  record_skipped, record_start, record_finish,
}
use overseerd.Jobs.Summary.{
  JobState, scheduled, running, paused, cancelling, cancelled, JobTrigger, OverlapPolicy, skip,
  queue_one, allow, cancel_previous,
}
use overseerd.Jobs.Entry.Bookkeeping.{
  IsConsistent, state_fits, pause-IsConsistent, resume-IsConsistent, record_start-IsConsistent,
  record_finish-IsConsistent, pause-ind, resume-ind,
}
use overseerd.Jobs.Run.{
  token_of, start_run, spawn_run, on_overlap, run_id_or_next, maybe_start_run, World, Loop, Event,
  step, run, spawn, Reachable, turn, drive_job, end_cancel, panic_at,
}
use overseerd.Jobs.Run.Tasks.{IsKeptByTasks, execute_at-keeps}
use overseerd.Jobs.Run.Preservation.{IsKept, Reachable-IsKept}

token_of-IsConsistent :
    (c : Bool) (overlap : OverlapPolicy) (id : ℕ) (e : JobEntry)
    → IsConsistent c e
    → IsConsistent c (token_of overlap id e)
unfolding set_run_token
token_of-IsConsistent c skip id e h = h
token_of-IsConsistent c queue_one id e h = h
token_of-IsConsistent c allow id e h = h
token_of-IsConsistent c cancel_previous id e h = h

token_of-state :
    (overlap : OverlapPolicy) (id : ℕ) (e : JobEntry) → (token_of overlap id e).state ≡ e.state
unfolding set_run_token
token_of-state skip id e = refl
token_of-state queue_one id e = refl
token_of-state allow id e = refl
token_of-state cancel_previous id e = refl

fitting : (s : JobState) (p c d t : Bool) → state_fits s p c t ≡ true → state_fits s p d true ≡ true
fitting scheduled p c d t h = h
fitting (running _) p c d t h = refl
fitting paused p c d t h = h
fitting cancelling p c d t h = refl
fitting cancelled p c d t h = refl

start_run-IsConsistent :
    (c : Bool) (trigger : JobTrigger) (id : ℕ) (e : JobEntry)
    → IsConsistent c e
    → IsConsistent c (start_run trigger id e).0
unfolding start_run enter_run
start_run-IsConsistent c trigger id e h = token_of-IsConsistent c e.overlap id (enter_run e) h

on_overlap-IsConsistent :
    (c : Bool) (overlap : OverlapPolicy) (trigger : JobTrigger) (id : ℕ) (w : World)
    → IsConsistent c w.entry
    → IsConsistent c (on_overlap overlap trigger id w).entry
unfolding on_overlap spawn_run record_skipped mark_pending cancel_active_run
on_overlap-IsConsistent c skip trigger id w h = h
on_overlap-IsConsistent c queue_one trigger id w h = h
on_overlap-IsConsistent c allow trigger id w h = start_run-IsConsistent c trigger id w.entry h
on_overlap-IsConsistent c cancel_previous trigger id w h =
    start_run-IsConsistent c trigger id (cancel_active_run w.entry) h

maybe_start_run-IsConsistent :
    (c : Bool) (trigger : JobTrigger) (manual_id : Option ℕ) (w : World)
    → IsConsistent c w.entry
    → IsConsistent c (maybe_start_run trigger manual_id w).entry
unfolding maybe_start_run spawn_run
maybe_start_run-IsConsistent c trigger manual_id w h =
    let (run_id, run_ids) = run_id_or_next manual_id w.run_ids in
    let w1 : World = record w { run_ids = run_ids } in
    elim (ltb 0 w.entry.active)
      as (λ b.
        IsConsistent c
          (if b
            then on_overlap w.entry.overlap trigger run_id w1
            else spawn_run trigger run_id w1).entry) [
              | true ↦ on_overlap-IsConsistent c w.entry.overlap trigger run_id w1 h
              | false ↦ start_run-IsConsistent c trigger run_id w.entry h
            ]

cancels-on_overlap :
    (overlap : OverlapPolicy) (trigger : JobTrigger) (id : ℕ) (w : World)
    → (on_overlap overlap trigger id w).cancels ≡ w.cancels
unfolding on_overlap spawn_run
cancels-on_overlap skip trigger id w = refl
cancels-on_overlap queue_one trigger id w = refl
cancels-on_overlap allow trigger id w = refl
cancels-on_overlap cancel_previous trigger id w = refl

cancels-maybe_start_run :
    (trigger : JobTrigger) (manual_id : Option ℕ) (w : World)
    → (maybe_start_run trigger manual_id w).cancels ≡ w.cancels
unfolding maybe_start_run spawn_run
cancels-maybe_start_run trigger manual_id w =
    let (run_id, run_ids) = run_id_or_next manual_id w.run_ids in
    elim (Bool-cases (ltb 0 w.entry.active)) [
      | inl busy ↦
          rw busy
            (cancels-on_overlap w.entry.overlap trigger run_id (record w { run_ids = run_ids }))
      | inr idle ↦ rw idle refl
    ]

IsConsistent-IsKeptByTasks : (c : Bool) → IsKeptByTasks (IsConsistent c)
unfolding clear_run_token exit_run
IsConsistent-IsKeptByTasks c = record {
  on_record_start = record_start-IsConsistent c;
  on_finish = record_finish-IsConsistent c;
  on_exit = λ e h. h;
  on_run = start_run-IsConsistent c;
}

abbrev pub is_some_call : ℕ → Bool
is_some_call zero = false
is_some_call (suc cancels) = true

-- Whether a call of `cancel` is between its two steps
abbrev pub is_called : World → Bool
is_called w = is_some_call w.cancels

abbrev HasConsistent : World → Type 0
HasConsistent w = IsConsistent (is_called w) w.entry

HasConsistent-IsKept : IsKept HasConsistent
unfolding begin_cancel reschedule trigger_manual take_manual set_next_run_at mark_cancelled panic_at
HasConsistent-IsKept = record {
  on_start = λ trigger id w h.
      let kept = maybe_start_run-IsConsistent (is_called w) trigger id w h in
      subst (λ cancels. IsConsistent (is_some_call cancels) (maybe_start_run trigger id w).entry)
        (sym (cancels-maybe_start_run trigger id w)) kept;
  on_pause = λ w h. pause-IsConsistent (is_called w) w.entry h;
  on_resume = λ w h. resume-IsConsistent (is_called w) w.entry h;
  on_cancel = λ w h. (ground arith, h.1);
  on_token = λ cancels w h. (
    fitting w.entry.state w.entry.is_paused (is_called w) (is_some_call cancels)
        w.entry.token_cancelled h.0,
    h.1,
  );
  on_panic = λ n w h. h;
  on_drop = λ w h. (
    fitting w.entry.state w.entry.is_paused (is_called w) (is_called w) w.entry.token_cancelled h.0,
    h.1,
  );
  on_reschedule = λ plan w h. h;
  on_trigger = λ w h. h;
  on_other = λ w h. h;
  on_take = λ w h. h;
  on_next = λ at w h. h;
  on_loop = λ loop w h. h;
  on_end = λ w over h. (over, h.1);
  on_execute = λ n now outcome w h.
      execute_at-keeps (IsConsistent (is_called w)) (IsConsistent-IsKeptByTasks (is_called w)) n now
        outcome w.tasks w.entry h;
}

-- Whatever happens to a job, it waits as scheduled only while it is not paused and as paused only
-- while it is; it is cancelled only with its token cancelled, and cancelling only with its token
-- cancelled or while a call of `cancel` has yet to cancel it; and it keeps 32 summaries at most.
pub entry-IsConsistent :
    (overlap : OverlapPolicy) (w : World) → Reachable overlap w → IsConsistent (is_called w) w.entry
unfolding spawn new
entry-IsConsistent overlap w reached =
    Reachable-IsKept HasConsistent HasConsistent-IsKept (λ plan on run_ids. (refl, omega arith)) w
      reached

abbrev IsStuck : JobEntry → Type 0
IsStuck e = e.state ≡ cancelling

IsStuck-IsKeptByTasks : IsKeptByTasks IsStuck
unfolding record_start record_finish clear_run_token exit_run start_run enter_run
IsStuck-IsKeptByTasks = record {
  on_record_start = λ id trigger at e h. rw h refl;
  on_finish = λ id at outcome e h. rw h refl;
  on_exit = λ e h. h;
  on_run = λ trigger id e h. token_of-state e.overlap id (enter_run e) ∙ h;
}

end_cancel-IsStuck :
    (cancels : ℕ) (w : World)
    → w.loop ≡ Loop.ended
    → IsStuck w.entry
    → ((end_cancel cancels w).loop ≡ Loop.ended) × IsStuck (end_cancel cancels w).entry
unfolding end_cancel
end_cancel-IsStuck zero w over h = (over, h)
end_cancel-IsStuck (suc cancels) w over h = (over, h)

step_past_end :
    (event : Event) (w : World)
    → w.loop ≡ Loop.ended
    → IsStuck w.entry
    → ((step event w).loop ≡ Loop.ended) × IsStuck (step event w).entry
unfolding step drive_job turn begin_cancel reschedule trigger_manual
step_past_end Event.paused w over h = (over, pause-ind IsStuck w.entry h (rw h refl))
step_past_end Event.resumed w over h = (over, resume-ind IsStuck w.entry h (rw h refl))
step_past_end Event.cancel_called w over h = (over, refl)
step_past_end Event.token_cancelled w over h = end_cancel-IsStuck w.cancels w over h
step_past_end Event.run_now w over h = (over, h)
step_past_end Event.other_job w over h = (over, h)
step_past_end Event.dropped w over h = (over, h)
step_past_end (Event.rescheduled plan) w over h = (over, h)
step_past_end (Event.body_panicked n) w over h = (over, h)
step_past_end (Event.turned wakeup wall) w over h = rw over (refl, h)
step_past_end (Event.executed n now outcome) w over h =
    (over, execute_at-keeps IsStuck IsStuck-IsKeptByTasks n now outcome w.tasks w.entry h)

run_past_end :
    (events : List Event) (w : World)
    → w.loop ≡ Loop.ended
    → IsStuck w.entry
    → IsStuck (run events w).entry
unfolding run
run_past_end [] w over h = h
run_past_end (event ∷ events) w over h =
    let next = step_past_end event w over h in run_past_end events (step event w) next.0 next.1

-- A call of `cancel` on a job whose loop has ended makes the job cancelling, and it stays
-- cancelling whatever happens.
pub cancel_after_end :
    (w : World) (events : List Event)
    → w.loop ≡ Loop.ended
    → (run events (step Event.cancel_called w)).entry.state ≡ cancelling
unfolding step begin_cancel
cancel_after_end w events over = run_past_end events (step Event.cancel_called w) over refl
