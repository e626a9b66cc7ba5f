-- ===== src/Jobs/Entry/Bookkeeping.antt =====
-- The states and summaries of one entry, crates/jobs/src/registry.rs.
use overseerd.Base.{
  ◌||◌, ℕ, ◌≡◌, refl, ◌≤◌, Bool, true, false, not, none, List, [], ◌∷◌, ◌++◌, length, map, leb,
  arith, if◌then◌else◌,
}
use overseerd.Jobs.Entry.{
  JobEntry, pause, resume, pause_state, resume_state, trim, record_start, record_finish, finalize,
  is_ending, recent_runs_cap,
}
use overseerd.Jobs.Summary.{
  JobState, scheduled, running, paused, cancelling, cancelled, JobRunSummary, JobTrigger,
  JobRunOutcome,
}

-- A property of `pause`'s result is shown for the entry as it is and for the paused one.
pub pause-ind :
    (P : JobEntry → Type 0) (e : JobEntry)
    → P e
    → P (record e { is_paused = true; state = pause_state e.state })
    → P (pause e).0
unfolding pause
pause-ind P e same changed =
    let Result : Type 0 = JobEntry × Bool in
    elim e.is_paused
      as (λ b.
        P
          (if◌then◌else◌ {A = Result} b (e, false)
            (record e { is_paused = true; state = pause_state e.state }, true)).0) [
              | true ↦ same
              | false ↦ changed
            ]

pub resume-ind :
    (P : JobEntry → Type 0) (e : JobEntry)
    → P e
    → P (record e { is_paused = false; state = resume_state e.state })
    → P (resume e).0
unfolding resume
resume-ind P e same changed =
    let Result : Type 0 = JobEntry × Bool in
    elim e.is_paused
      as (λ b.
        P
          (if◌then◌else◌ {A = Result} b
            (record e { is_paused = false; state = resume_state e.state }, true) (e, false)).0) [
              | true ↦ changed
              | false ↦ same
            ]

-- The states that go with the flag of a pause, with calls of `cancel` that have yet to cancel the
-- job's token, and with the token
abbrev pub state_fits : JobState → Bool → Bool → Bool → Bool
state_fits scheduled is_paused called token_cancelled = not is_paused
state_fits (running _) is_paused called token_cancelled = true
state_fits paused is_paused called token_cancelled = is_paused
state_fits cancelling is_paused called token_cancelled = token_cancelled || called
state_fits cancelled is_paused called token_cancelled = token_cancelled

abbrev pub IsConsistent : Bool → JobEntry → Type 0
IsConsistent called e =
    (state_fits e.state e.is_paused called e.token_cancelled ≡ true)
    × (length e.recent ≤ recent_runs_cap)

length-trim : (recent : List JobRunSummary) → length (trim recent) ≤ recent_runs_cap
unfolding trim
length-trim [] = omega arith
length-trim (x ∷ recent) = ground (arith, length-trim recent)

pub length-finalize :
    (id at : ℕ) (outcome : JobRunOutcome) (recent : List JobRunSummary)
    → length (map (finalize id at outcome) recent) ≡ length recent
length-finalize id at outcome [] = refl
length-finalize id at outcome (x ∷ recent) = ground (arith, length-finalize id at outcome recent)

pausing :
    (s : JobState) (p c t : Bool)
    → state_fits s p c t ≡ true
    → state_fits (pause_state s) true c t ≡ true
pausing scheduled p c t h = refl
pausing (running _) p c t h = refl
pausing paused p c t h = refl
pausing cancelling p c t h = h
pausing cancelled p c t h = h

resuming :
    (s : JobState) (p c t : Bool)
    → state_fits s p c t ≡ true
    → state_fits (resume_state s) false c t ≡ true
resuming scheduled p c t h = refl
resuming (running _) p c t h = refl
resuming paused p c t h = refl
resuming cancelling p c t h = h
resuming cancelled p c t h = h

starting :
    (id : ℕ) (s : JobState) (p c t : Bool)
    → state_fits s p c t ≡ true
    → state_fits (if is_ending s then s else running id) p c t ≡ true
starting id scheduled p c t h = refl
starting id (running _) p c t h = refl
starting id paused p c t h = refl
starting id cancelling p c t h = h
starting id cancelled p c t h = h

settling : (p c t : Bool) → state_fits (if p then paused else scheduled) p c t ≡ true
settling true c t = refl
settling false c t = refl

finishing :
    (last : Bool) (s : JobState) (p c t : Bool)
    → state_fits s p c t ≡ true
    → state_fits
        (if is_ending s then s else if last then (if p then paused else scheduled) else s)
        p
        c
        t
      ≡ true
finishing last cancelling p c t h = h
finishing last cancelled p c t h = h
finishing true scheduled p c t h = settling p c t
finishing true (running _) p c t h = settling p c t
finishing true paused p c t h = settling p c t
finishing false scheduled p c t h = h
finishing false (running _) p c t h = h
finishing false paused p c t h = h

pub pause-IsConsistent : (c : Bool) (e : JobEntry) → IsConsistent c e → IsConsistent c (pause e).0
pause-IsConsistent c e h =
    pause-ind (IsConsistent c) e h (pausing e.state e.is_paused c e.token_cancelled h.0, h.1)

pub resume-IsConsistent : (c : Bool) (e : JobEntry) → IsConsistent c e → IsConsistent c (resume e).0
resume-IsConsistent c e h =
    resume-ind (IsConsistent c) e h (resuming e.state e.is_paused c e.token_cancelled h.0, h.1)

pub record_start-IsConsistent :
    (c : Bool) (id : ℕ) (trigger : JobTrigger) (at : ℕ) (e : JobEntry)
    → IsConsistent c e
    → IsConsistent c (record_start id trigger at e)
unfolding record_start
record_start-IsConsistent c id trigger at e h =
    let summary : JobRunSummary = record {
      run_id = id;
      trigger = trigger;
      started_at = at;
      finished_at = none;
      outcome = JobRunOutcome.running;
    } in
    (
      starting id e.state e.is_paused c e.token_cancelled h.0,
      length-trim (e.recent ++ summary ∷ []),
    )

pub record_finish-IsConsistent :
    (c : Bool) (id at : ℕ) (outcome : JobRunOutcome) (e : JobEntry)
    → IsConsistent c e
    → IsConsistent c (record_finish id at outcome e)
unfolding record_finish
record_finish-IsConsistent c id at outcome e h = (
  finishing (leb e.active 1) e.state e.is_paused c e.token_cancelled h.0,
  omega (arith, length-finalize id at outcome e.recent),
)
