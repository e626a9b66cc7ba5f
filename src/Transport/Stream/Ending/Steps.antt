-- ===== src/Transport/Stream/Ending/Steps.antt =====
-- Each step of the writers keeps a call's frames in order,
-- crates/transport/src/transports/stream.rs.
use overseerd.Base.{
  ℕ, ◌+◌, ◌≡◌, refl, subst, true, false, not, ◌&&◌, Bool-cases, inl, inr, Option, none, some,
  Option-cases, List, [], ◌∷◌, ◌++◌, ◌==◌, one_if, arith,
}
use overseerd.Transport.Stream.{StreamConnection, ControlTask, deactivate}
use overseerd.Transport.Stream.Recv.{recv_turn}
use overseerd.Transport.Stream.Claims.{claims, Less, close-Less, deactivate-le}
use overseerd.Transport.Stream.Claims.Turns.{recv_turn-Grows}
use overseerd.Transport.Stream.Writing.{
  Shared, Attempt, done, dropped, abandoned, failed, pick, complete, begin_terminal, write_terminal,
  awaits_lock, send_completion, end_winner, end_terminal, joined, end_task, run_control, check_item,
  lock_item, begin_item, finish_item, end_item, drop_connection, Step, turn, terminal_won,
  item_checked, item_begun, item_abandoned, terminal_ended, control_run, item_ended,
  connection_dropped, step, steps,
}
use overseerd.Transport.Stream.Ending.{
  Unended, IsOrderly, waiting-pick, Less-IsOrderly, Grows-IsOrderly, write_terminal-IsOrderly,
}

-- What does not count is changed.
same-IsOrderly :
    (s : Shared) (c : StreamConnection)
    → (c.made ≡ s.connection.made)
      × (c.active ≡ s.connection.active)
      × (c.control_tasks ≡ s.connection.control_tasks)
    → IsOrderly s
    → IsOrderly (record s { connection = c })
same-IsOrderly s c (m, f, t) o =
    Less-IsOrderly s c s.senders
      (m, λ n. let same : claims n c ≡ claims n s.connection = rw (f, t) refl in omega arith) o

send_completion-same :
    (attempt : Attempt) (id flag : ℕ) (c : StreamConnection)
    → ((send_completion attempt id flag c).made ≡ c.made)
      × ((send_completion attempt id flag c).active ≡ c.active)
      × ((send_completion attempt id flag c).control_tasks ≡ c.control_tasks)
unfolding send_completion
send_completion-same dropped id flag c = (refl, refl, refl)
send_completion-same abandoned id flag c = (refl, refl, refl)
send_completion-same done id flag c = (refl, refl, refl)
send_completion-same (failed why) id flag c = (refl, refl, refl)

end_winner-IsOrderly :
    (attempt : Attempt) (k : ℕ) (found : Option (ControlTask × List ControlTask)) (s : Shared)
    → pick k s.winners ≡ found
    → awaits_lock attempt s.lock ≡ false
    → IsOrderly s
    → IsOrderly (end_winner attempt found s)
end_winner-IsOrderly attempt k none s there goes o = o
end_winner-IsOrderly attempt k (some (winner, winners)) s there goes o =
    let w = write_terminal winner.won attempt (record s { winners = winners }) in
    same-IsOrderly w (send_completion attempt winner.id winner.won w.connection)
      (send_completion-same attempt winner.id winner.won w.connection)
      (write_terminal-IsOrderly attempt s s.connection winners winner.won goes
        (refl, λ n. let x = waiting-pick n k s.winners there in omega arith) o)

end_task-IsOrderly :
    (attempt : Attempt) (k : ℕ) (found : Option (ControlTask × List ControlTask)) (s : Shared)
    → pick k s.connection.control_tasks ≡ found
    → awaits_lock attempt s.lock ≡ false
    → IsOrderly s
    → IsOrderly (end_task attempt found s)
end_task-IsOrderly attempt k none s there goes o = o
end_task-IsOrderly attempt k (some (task, tasks)) s there goes o =
    let c = record s.connection { control_tasks = tasks } in
    let w = write_terminal task.won attempt (record s { connection = c }) in
    same-IsOrderly w
      (record w.connection {
        control_done =
            w.connection.control_done ++ joined task.id attempt s.connection.is_closed ∷ [];
      })
      (refl, refl, refl)
      (write_terminal-IsOrderly attempt s c s.winners task.won goes
        (refl, λ n. let x = waiting-pick n k s.connection.control_tasks there in omega arith) o)

begin_terminal-IsOrderly :
    (id flag : ℕ) (s : Shared) → IsOrderly s → IsOrderly (begin_terminal id flag s)
unfolding begin_terminal
begin_terminal-IsOrderly id flag s o = elim (Bool-cases (s.connection.active flag)) [
  | inl won ↦ rw won (record {
    once = λ n. let x = moved n won in let y = o.once n in omega arith;
    fresh = λ n late. let x = moved n won in let y = o.fresh n late in omega arith;
    unended = o.unended;
    ending = o.ending;
  })
  | inr lost ↦ rw lost o
]
  where
    moved :
        (n : ℕ)
        → s.connection.active flag ≡ true
        → one_if (flag == n) + one_if (deactivate flag s.connection.active n)
          ≡ one_if (s.connection.active n)
    moved n won = ground arith

lock_item-IsOrderly :
    (found : Option (ControlTask × List ControlTask)) (s : Shared)
    → IsOrderly s
    → IsOrderly (lock_item found s)
lock_item-IsOrderly none s o = o
lock_item-IsOrderly (some (sender, senders)) s o =
    elim (Bool-cases (not s.connection.is_closed && s.connection.active sender.won)) [
      | inl live ↦ rw live (record {
        once = o.once;
        fresh = o.fresh;
        unended =
            let x = o.once sender.won in
            let z : one_if (s.connection.active sender.won) ≡ 1 = ground arith in omega arith;
        ending = o.ending;
      })
      | inr refused ↦
          let c = record s.connection { active = deactivate sender.won s.connection.active } in
          let less : Less s.connection c = (
            refl,
            λ n. let fewer = deactivate-le sender.won n s.connection.active in omega arith,
          ) in
          rw refused (Less-IsOrderly s (complete sender.id sender.won c) senders less o)
    ]

finish_item-IsOrderly :
    (attempt : Attempt) (holder : ℕ × ℕ) (s : Shared)
    → s.lock ≡ some holder
    → IsOrderly s
    → IsOrderly (finish_item attempt holder s)
unfolding finish_item
finish_item-IsOrderly done (id, flag) s held o = record {
  once = o.once;
  fresh = o.fresh;
  unended = tt;
  ending = (subst (λ (lock : Option (ℕ × ℕ)). Unended lock s.written) held o.unended, o.ending);
}
finish_item-IsOrderly abandoned (id, flag) s held o = record {
  once = o.once;
  fresh = o.fresh;
  unended = tt;
  ending = o.ending;
}
finish_item-IsOrderly dropped (id, flag) s held o = record {
  once = o.once;
  fresh = o.fresh;
  unended = tt;
  ending = o.ending;
}
finish_item-IsOrderly (failed why) (id, flag) s held o =
    let fewer = λ (n : ℕ). deactivate-le flag n s.connection.active in
    record {
      once = λ n. let x = fewer n in let y = o.once n in omega arith;
      fresh = λ n late. let x = fewer n in let y = o.fresh n late in omega arith;
      unended = tt;
      ending = o.ending;
    }

drop_connection-Less : (c : StreamConnection) → Less c (drop_connection c)
unfolding drop_connection
drop_connection-Less c = let (m, less) = close-Less c in (m, λ n. let x = less n in omega arith)

step-IsOrderly : (e : Step) (s : Shared) → IsOrderly s → IsOrderly (step e s)
unfolding step end_terminal run_control check_item begin_item end_item
step-IsOrderly (turn answers branch) s o =
    Grows-IsOrderly s (recv_turn answers branch s.connection).1
      (recv_turn-Grows answers branch s.connection) o
step-IsOrderly (terminal_won id flag) s o = begin_terminal-IsOrderly id flag s o
step-IsOrderly (item_checked id flag) s o = elim (Bool-cases (s.connection.active flag)) [
  | inl live ↦
      rw live (record { once = o.once; fresh = o.fresh; unended = o.unended; ending = o.ending })
  | inr ended ↦ rw ended o
]
step-IsOrderly (item_begun k) s o = elim (Option-cases s.lock) [
  | inl free ↦ rw (free, begin_item) (lock_item-IsOrderly (pick k s.senders) s o)
  | inr (holder, taken) ↦ rw (taken, begin_item) o
]
step-IsOrderly (item_abandoned k) s o = elim (Option-cases (pick k s.senders)) [
  | inl idle ↦ rw idle o
  | inr ((sender, senders), there) ↦
      rw there (record { once = o.once; fresh = o.fresh; unended = o.unended; ending = o.ending })
]
step-IsOrderly (terminal_ended k attempt) s o = elim (Bool-cases (awaits_lock attempt s.lock)) [
  | inl waits ↦ rw waits o
  | inr goes ↦ rw goes (end_winner-IsOrderly attempt k (pick k s.winners) s refl goes o)
]
step-IsOrderly (control_run k attempt) s o = elim (Bool-cases (awaits_lock attempt s.lock)) [
  | inl waits ↦ rw waits o
  | inr goes ↦
      rw goes (end_task-IsOrderly attempt k (pick k s.connection.control_tasks) s refl goes o)
]
step-IsOrderly (item_ended attempt) s o = elim (Option-cases s.lock) [
  | inl free ↦ rw (free, end_item) o
  | inr (holder, taken) ↦ rw (taken, end_item) (finish_item-IsOrderly attempt holder s taken o)
]
step-IsOrderly connection_dropped s o =
    Less-IsOrderly s (drop_connection s.connection) s.senders (drop_connection-Less s.connection) o

-- However the steps of the read loop and of the writers come, a call has at most one final frame on
-- the wire, and after it no frame of that call; what may still end it is counted with it.
pub steps-IsOrderly : (es : List Step) (s : Shared) → IsOrderly s → IsOrderly (steps es s)
unfolding steps
steps-IsOrderly [] s o = o
steps-IsOrderly (e ∷ es) s o = steps-IsOrderly es (step e s) (step-IsOrderly e s o)
