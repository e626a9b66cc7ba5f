-- ===== src/Transport/Stream/Ending.antt =====
-- One final frame for a call and no frame of it afterwards,
-- crates/transport/src/transports/stream.rs.
pub mod Steps
use overseerd.Base.{
  ℕ, zero, suc, ◌+◌, ◌≤◌, ◌≡◌, refl, sym, ap, ◌∙◌, subst, Bool, true, false, not, ◌&&◌, Bool-cases,
  ◌⊎◌, inl, inr, Option, none, some, Option-cases, List, [], ◌∷◌, ◌++◌, ◌==◌, ==_refl, one_if,
  if◌then◌else◌, arith,
}
use overseerd.Transport.Stream.{StreamConnection, ControlTask, Joined, close, deactivate}
use overseerd.Transport.Stream.Recv.{recv_turn}
use overseerd.Transport.Stream.Rejecting.{Answers, Branch}
use overseerd.Transport.Stream.Claims.{waiting, claims, Less, Grows, close-Less, deactivate-le}
use overseerd.Transport.Stream.Claims.Turns.{recv_turn-Grows}
use overseerd.Transport.Stream.Writing.{
  Frame, item, terminal, Shared, Attempt, done, dropped, abandoned, failed, pick, poison, complete,
  begin_terminal, write_terminal, awaits_lock, send_completion, end_winner, end_terminal, joined,
  end_task, run_control, check_item, lock_item, begin_item, abandon_item, finish_item, end_item,
  drop_connection, Step, turn, terminal_won, item_checked, item_begun, item_abandoned,
  terminal_ended, control_run, item_ended, connection_dropped, step, steps,
}

-- How many final frames of a call are among the frames
abbrev pub terminals : ℕ → List Frame → ℕ
terminals n [] = 0
terminals n (item flag ∷ frames) = terminals n frames
terminals n (terminal flag ∷ frames) = one_if (flag == n) + terminals n frames

-- Newest first: no frame of a call comes after a final frame of that call.
abbrev pub IsEnding : List Frame → Type 0
IsEnding [] = Unit
IsEnding (item flag ∷ frames) = (terminals flag frames ≡ 0) × IsEnding frames
IsEnding (terminal flag ∷ frames) = (terminals flag frames ≡ 0) × IsEnding frames

-- The final frames of a call that are written, and those that may still be
abbrev pub endings : ℕ → Shared → ℕ
endings n s = terminals n s.written + waiting n s.winners + claims n s.connection

abbrev pub Unended : Option (ℕ × ℕ) → List Frame → Type 0
Unended none written = Unit
Unended (some (id, flag)) written = terminals flag written ≡ 0

pub record IsOrderly (s : Shared) : Type 0 where
  pub once : (n : ℕ) → endings n s ≤ 1
  pub fresh : (n : ℕ) → s.connection.made ≤ n → endings n s ≡ 0
  pub unended : Unended s.lock s.written
  pub ending : IsEnding s.written

pub waiting-pick :
    (n k : ℕ) (tasks : List ControlTask) {task : ControlTask} {others : List ControlTask}
    → pick k tasks ≡ some (task, others)
    → one_if (task.won == n) + waiting n others ≡ waiting n tasks
unfolding pick
waiting-pick n k [] h = absurd (cc)
waiting-pick n zero (first ∷ tasks) h = ground arith
waiting-pick n (suc k) (first ∷ tasks) h = elim (Option-cases (pick k tasks)) [
  | inl gone ↦ absurd (let bad = rw (gone, pick) at h in cc)
  | inr ((picked, rest), there) ↦
      let on = waiting-pick n k tasks there in
      let here = rw (there, pick) at h in ground (arith, on)
]

-- The connection takes a step by which nothing more may end a call.
pub Less-IsOrderly :
    (s : Shared) (c : StreamConnection) (senders : List ControlTask)
    → Less s.connection c
    → IsOrderly s
    → IsOrderly (record s { connection = c; senders = senders })
Less-IsOrderly s c senders (m, less) o = record {
  once = λ n. let x = less n in let y = o.once n in omega arith;
  fresh = λ n late. let x = less n in let y = o.fresh n (omega (arith, m)) in omega arith;
  unended = o.unended;
  ending = o.ending;
}

pub Grows-IsOrderly :
    (s : Shared) (c : StreamConnection)
    → Grows s.connection c
    → IsOrderly s
    → IsOrderly (record s { connection = c })
Grows-IsOrderly s c (inl less) o = Less-IsOrderly s c s.senders less o
Grows-IsOrderly s c (inr (m, more)) o = record {
  once = λ n. elim (Bool-cases (n == s.connection.made)) [
    | inl here ↦
        let x = more n in
        let y = o.fresh n (ground arith) in
        let z : one_if (n == s.connection.made) ≡ 1 = rw here refl in omega arith
    | inr other ↦
        let x = more n in
        let y = o.once n in
        let z : one_if (n == s.connection.made) ≡ 0 = rw other refl in omega arith
  ];
  fresh = λ n late.
      let x = more n in
      let y = o.fresh n (omega (arith, m)) in
      let z : one_if (n == s.connection.made) ≡ 0 = ground (arith, m) in omega arith;
  unended = o.unended;
  ending = o.ending;
}

-- One of those who may end a call has gone: it writes the final frame, or gives up.
abbrev pub Leaves : ℕ → Shared → Shared → Type 0
Leaves flag s left =
    (left.connection.made ≡ s.connection.made)
    × ((n : ℕ) → one_if (flag == n) + endings n left ≡ endings n s)

left-IsOrderly :
    (s : Shared) (c : StreamConnection) (winners : List ControlTask) (flag : ℕ)
    → Leaves flag s (record s { connection = c; winners = winners })
    → IsOrderly s
    → IsOrderly (record s { connection = c; winners = winners })
left-IsOrderly s c winners flag (m, less) o = record {
  once = λ n. let x = less n in let y = o.once n in omega arith;
  fresh = λ n late. let x = less n in let y = o.fresh n (omega (arith, m)) in omega arith;
  unended = o.unended;
  ending = o.ending;
}

unlocked : (lock : Option (ℕ × ℕ)) → awaits_lock done lock ≡ false → lock ≡ none
unlocked none goes = refl
unlocked (some holder) goes = absurd (let bad : true ≡ false = goes in cc)

wrote-IsOrderly :
    (s : Shared) (c : StreamConnection) (winners : List ControlTask) (flag : ℕ)
    → s.lock ≡ none
    → Leaves flag s (record s { connection = c; winners = winners })
    → IsOrderly s
    → IsOrderly
        (record s { connection = c; winners = winners; written = terminal flag ∷ s.written })
wrote-IsOrderly s c winners flag free (m, less) o = record {
  once = λ n. let x = less n in let y = o.once n in omega arith;
  fresh = λ n late. let x = less n in let y = o.fresh n (omega (arith, m)) in omega arith;
  unended =
      subst (λ (lock : Option (ℕ × ℕ)). Unended lock (terminal flag ∷ s.written)) (sym free) tt;
  ending = (
    (let x = less flag in
        let y = o.once flag in
        let z : one_if (flag == flag) ≡ 1 = rw (==_refl flag) refl in omega arith),
    o.ending,
  );
}

pub write_terminal-IsOrderly :
    (attempt : Attempt) (s : Shared) (c : StreamConnection) (winners : List ControlTask) (flag : ℕ)
    → awaits_lock attempt s.lock ≡ false
    → Leaves flag s (record s { connection = c; winners = winners })
    → IsOrderly s
    → IsOrderly (write_terminal flag attempt (record s { connection = c; winners = winners }))
unfolding write_terminal
write_terminal-IsOrderly done s c winners flag goes leaves o = elim (Bool-cases c.is_closed) [
  | inl shut ↦ simp shut (left-IsOrderly s c winners flag leaves o)
  | inr live ↦ simp live (wrote-IsOrderly s c winners flag (unlocked s.lock goes) leaves o)
]
write_terminal-IsOrderly abandoned s c winners flag goes leaves o =
    left-IsOrderly s c winners flag leaves o
write_terminal-IsOrderly dropped s c winners flag goes leaves o =
    left-IsOrderly s (poison c) winners flag leaves o
write_terminal-IsOrderly (failed why) s c winners flag goes leaves o =
    left-IsOrderly s (poison c) winners flag leaves o
