-- ===== src/Transport/Stream/Accounting/Sharing.antt =====
-- The count is kept beside the writers, crates/transport/src/transports/stream.rs.
use overseerd.Base.{
  ℕ, zero, suc, ◌+◌, ◌≡◌, refl, Bool, true, false, not, ◌&&◌, Bool-cases, inl, inr, Option, none,
  some, Option-cases, List, [], ◌∷◌, ◌++◌, length, length-append, if◌then◌else◌, arith,
}
use overseerd.Transport.Stream.{StreamConnection, ControlTask, Joined, deactivate}
use overseerd.Transport.Stream.Accounting.{IsAccounted, close-IsAccounted}
use overseerd.Transport.Stream.Accounting.Control.{carried}
use overseerd.Transport.Stream.Accounting.Turns.{recv_turn-IsAccounted}
use overseerd.Transport.Stream.Writing.{
  Shared, terminal, Attempt, done, dropped, abandoned, failed, pick, poison, complete,
  begin_terminal, write_terminal, awaits_lock, send_completion, end_winner, end_terminal, joined,
  end_task, run_control, check_item, lock_item, begin_item, finish_item, end_item, drop_connection,
  Step, turn, terminal_won, item_checked, item_begun, item_abandoned, terminal_ended, control_run,
  item_ended, connection_dropped, step, steps,
}

pub length-pick :
    (k : ℕ) (tasks : List ControlTask) {task : ControlTask} {others : List ControlTask}
    → pick k tasks ≡ some (task, others)
    → suc (length others) ≡ length tasks
unfolding pick
length-pick k [] h = absurd (cc)
length-pick zero (first ∷ tasks) h = ground arith
length-pick (suc k) (first ∷ tasks) h = elim (Option-cases (pick k tasks)) [
  | inl gone ↦ absurd (let bad = rw (gone, pick) at h in cc)
  | inr ((picked, rest), there) ↦
      let on = length-pick k tasks there in let here = rw (there, pick) at h in ground (arith, on)
]

poison-IsAccounted : (c : StreamConnection) → IsAccounted c → IsAccounted (poison c)
poison-IsAccounted c a = carried c c.completions true c.cancelled c.active c.made a

-- Writing a final frame may close the connection, and does no more to it.
pub write_terminal-connection :
    (flag : ℕ) (attempt : Attempt) (s : Shared)
    → (is_closed : Bool) × ((write_terminal flag attempt s).connection
        ≡ record s.connection { is_closed = is_closed })
unfolding write_terminal
write_terminal-connection flag done s = (
  s.connection.is_closed,
  elim s.connection.is_closed
      as (λ (shut : Bool).
        (if shut then s else record s { written = terminal flag ∷ s.written }).connection
        ≡ s.connection) [ true ↦ refl | false ↦ refl ],
)
write_terminal-connection flag abandoned s = (s.connection.is_closed, refl)
write_terminal-connection flag dropped s = (true, refl)
write_terminal-connection flag (failed why) s = (true, refl)

complete-IsAccounted :
    (id flag : ℕ) (c : StreamConnection) → IsAccounted c → IsAccounted (complete id flag c)
complete-IsAccounted id flag c a =
    carried c (c.completions ++ (record { id = id; active = flag }) ∷ []) c.is_closed c.cancelled
      c.active c.made a

deactivated-IsAccounted :
    (flag : ℕ) (c : StreamConnection)
    → IsAccounted c
    → IsAccounted (record c { active = deactivate flag c.active })
deactivated-IsAccounted flag c a =
    carried c c.completions c.is_closed c.cancelled (deactivate flag c.active) c.made a

send_completion-IsAccounted :
    (attempt : Attempt) (id flag : ℕ) (c : StreamConnection)
    → IsAccounted c
    → IsAccounted (send_completion attempt id flag c)
unfolding send_completion
send_completion-IsAccounted dropped id flag c a = a
send_completion-IsAccounted abandoned id flag c a = a
send_completion-IsAccounted done id flag c a = complete-IsAccounted id flag c a
send_completion-IsAccounted (failed why) id flag c a = complete-IsAccounted id flag c a

end_winner-IsAccounted :
    (attempt : Attempt) (found : Option (ControlTask × List ControlTask)) (s : Shared)
    → IsAccounted s.connection
    → IsAccounted (end_winner attempt found s).connection
end_winner-IsAccounted attempt none s a = a
end_winner-IsAccounted attempt (some (winner, winners)) s a =
    let w = write_terminal winner.won attempt (record s { winners = winners }) in
    let (is_closed, same) =
      write_terminal-connection winner.won attempt (record s { winners = winners }) in
    let c = s.connection in
    send_completion-IsAccounted attempt winner.id winner.won w.connection
      (rw same (carried c c.completions is_closed c.cancelled c.active c.made a))

-- A task that is done counts as one that runs.
task_done-IsAccounted :
    (c : StreamConnection) (tasks : List ControlTask) (ended : List Joined) (is_closed : Bool)
    → suc (length tasks) ≡ length c.control_tasks
    → IsAccounted c
    → length ended ≡ length c.control_done + 1
    → IsAccounted (record c { is_closed = is_closed; control_tasks = tasks; control_done = ended })
task_done-IsAccounted c tasks ended is_closed fewer a more = record {
  slots = a.slots;
  exact = a.exact;
  bounded = a.bounded;
  unique = a.unique;
  few = a.few;
  few_tasks = omega (arith, a.few_tasks);
}

end_task-IsAccounted :
    (attempt : Attempt) (found : Option (ControlTask × List ControlTask)) (k : ℕ) (s : Shared)
    → pick k s.connection.control_tasks ≡ found
    → IsAccounted s.connection
    → IsAccounted (end_task attempt found s).connection
end_task-IsAccounted attempt none k s there a = a
end_task-IsAccounted attempt (some (task, tasks)) k s there a =
    let c = s.connection in
    let left = record s { connection = record c { control_tasks = tasks } } in
    let (is_closed, same) = write_terminal-connection task.won attempt left in
    let ended = c.control_done ++ joined task.id attempt c.is_closed ∷ [] in
    rw same (
      task_done-IsAccounted c tasks ended is_closed (length-pick k c.control_tasks there) a
        (length-append c.control_done (joined task.id attempt c.is_closed ∷ [])))

lock_item-IsAccounted :
    (found : Option (ControlTask × List ControlTask)) (s : Shared)
    → IsAccounted s.connection
    → IsAccounted (lock_item found s).connection
lock_item-IsAccounted none s a = a
lock_item-IsAccounted (some (sender, senders)) s a =
    elim (Bool-cases (not s.connection.is_closed && s.connection.active sender.won)) [
      | inl live ↦ rw live a
      | inr refused ↦ rw refused (
          complete-IsAccounted sender.id sender.won
            (record s.connection { active = deactivate sender.won s.connection.active })
            (deactivated-IsAccounted sender.won s.connection a))
    ]

finish_item-IsAccounted :
    (attempt : Attempt) (holder : ℕ × ℕ) (s : Shared)
    → IsAccounted s.connection
    → IsAccounted (finish_item attempt holder s).connection
unfolding finish_item
finish_item-IsAccounted done (id, flag) s a = a
finish_item-IsAccounted abandoned (id, flag) s a = poison-IsAccounted s.connection a
finish_item-IsAccounted dropped (id, flag) s a = poison-IsAccounted s.connection a
finish_item-IsAccounted (failed why) (id, flag) s a =
    let c = s.connection in
    carried c (c.completions ++ (record { id = id; active = flag }) ∷ []) true c.cancelled
      (deactivate flag c.active) c.made a

drop_connection-IsAccounted :
    (c : StreamConnection) → IsAccounted c → IsAccounted (drop_connection c)
unfolding drop_connection
drop_connection-IsAccounted c a =
    let b = close-IsAccounted c a in
    record {
      slots = b.slots;
      exact = b.exact;
      bounded = b.bounded;
      unique = b.unique;
      few = b.few;
      few_tasks = omega (arith, b.few_tasks);
    }

-- Whatever step is taken, the connection's count stays right.
step-IsAccounted :
    (e : Step) (s : Shared) → IsAccounted s.connection → IsAccounted (step e s).connection
unfolding step begin_terminal end_terminal run_control check_item begin_item end_item
step-IsAccounted (turn answers branch) s a = recv_turn-IsAccounted answers branch s.connection a
step-IsAccounted (terminal_won id flag) s a = elim (Bool-cases (s.connection.active flag)) [
  | inl won ↦ rw won (deactivated-IsAccounted flag s.connection a)
  | inr lost ↦ rw lost a
]
step-IsAccounted (item_checked id flag) s a = elim (Bool-cases (s.connection.active flag)) [
  | inl live ↦ rw live a
  | inr ended ↦ rw ended a
]
step-IsAccounted (item_begun k) s a = elim (Option-cases s.lock) [
  | inl free ↦ rw (free, begin_item) (lock_item-IsAccounted (pick k s.senders) s a)
  | inr (holder, taken) ↦ rw (taken, begin_item) a
]
step-IsAccounted (item_abandoned k) s a = elim (Option-cases (pick k s.senders)) [
  | inl idle ↦ rw idle a
  | inr ((sender, senders), there) ↦ rw there a
]
step-IsAccounted (terminal_ended k attempt) s a = elim (Bool-cases (awaits_lock attempt s.lock)) [
  | inl waits ↦ rw waits a
  | inr goes ↦ rw goes (end_winner-IsAccounted attempt (pick k s.winners) s a)
]
step-IsAccounted (control_run k attempt) s a = elim (Bool-cases (awaits_lock attempt s.lock)) [
  | inl waits ↦ rw waits a
  | inr goes ↦ rw goes (end_task-IsAccounted attempt (pick k s.connection.control_tasks) k s refl a)
]
step-IsAccounted (item_ended attempt) s a = elim (Option-cases s.lock) [
  | inl free ↦ rw (free, end_item) a
  | inr (holder, taken) ↦ rw (taken, end_item) (finish_item-IsAccounted attempt holder s a)
]
step-IsAccounted connection_dropped s a = drop_connection-IsAccounted s.connection a

-- Whatever frames arrive, whatever the channels answer and however the writers' steps come between,
-- a connection's count stays right: each call's bytes are those of the items that it counts and
-- within the limit of a call, their sum is what the connection counts and within its limit, an id
-- has one slot, and there are at most the maximum of calls and of control tasks.
pub steps-IsAccounted :
    (es : List Step) (s : Shared) → IsAccounted s.connection → IsAccounted (steps es s).connection
unfolding steps
steps-IsAccounted [] s a = a
steps-IsAccounted (e ∷ es) s a = steps-IsAccounted es (step e s) (step-IsAccounted e s a)
