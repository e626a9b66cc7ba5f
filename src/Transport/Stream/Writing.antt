-- ===== src/Transport/Stream/Writing.antt =====
-- The writers of a connection, crates/transport/src/transports/stream.rs: `StreamResponder`,
-- `StreamSink` and the control tasks, which share the write half behind a lock, and the read loop
-- beside them. An operation has one step for each stretch between two waits; the steps of all
-- operations come in any order. What was written is kept, newest first, each frame under the flag
-- of its call.
use overseerd.Base.{
  ℕ, zero, suc, Bool, true, false, not, ◌&&◌, ◌||◌, ◌==◌, Option, none, some, List, [], ◌∷◌, ◌++◌,
  if◌then◌else◌,
}
use overseerd.Base
use overseerd.Transport.Wire.{CallId, TransportError}
use overseerd.Transport.Stream.{
  StreamConnection, ControlTask, Joined, completion, join_error, deactivate, close,
}
use overseerd.Transport.Stream.Recv.{recv_turn}
use overseerd.Transport.Stream.Rejecting.{Answers, Branch}

-- A frame of a call: an item, or the frame that ends the call
pub data Frame : Type 0 where
  item terminal : ℕ → Frame

-- How a write ends: the frame is written, the write fails or times out, or its future is dropped,
-- during the write or before it had the lock.
pub data Attempt : Type 0 where
  done dropped abandoned : Attempt
  failed : TransportError → Attempt

-- The connection, who holds the write lock for an item, the calls whose `send` waits for it, the
-- flags that were won and whose final frame is still to be written, and the frames that were written
pub record Shared : Type 0 where
  pub connection : StreamConnection
  pub lock : Option (CallId × ℕ)
  pub senders : List ControlTask
  pub winners : List ControlTask
  pub written : List Frame

-- One of those that wait, and the others: which one goes on is left open.
unfoldable pub pick : ℕ → List ControlTask → Option (ControlTask × List ControlTask)
pick k [] = none
pick zero (task ∷ tasks) = some (task, tasks)
pick (suc k) (task ∷ tasks) = elim (pick k tasks) [
  | none ↦ none
  | some (picked, others) ↦ some (picked, task ∷ others)
]

-- `health.close()`
abbrev pub poison : StreamConnection → StreamConnection
poison c = record c { is_closed = true }

abbrev pub complete : CallId → ℕ → StreamConnection → StreamConnection
complete id flag c = record c {
  completions = c.completions ++ (record { id = id; active = flag }) ∷ [];
}

-- `active.swap(false)` in `respond`, `error` and `finish`: only one of those that end a call goes on.
unfoldable pub begin_terminal : CallId → ℕ → Shared → Shared
begin_terminal id flag s =
    if s.connection.active flag
    then record s {
      connection = record s.connection { active = deactivate flag s.connection.active };
      winners = record { id = id; won = flag } ∷ s.winners;
    }
    else s

-- `write_connection_frame` for a final frame: nothing is written once the connection is closed, and
-- a write that does not come to its end closes it.
unfoldable pub write_terminal : ℕ → Attempt → Shared → Shared
write_terminal flag done s =
    if s.connection.is_closed then s else record s { written = terminal flag ∷ s.written }
write_terminal flag abandoned s = s
write_terminal flag dropped s = record s { connection = poison s.connection }
write_terminal flag (failed why) s = record s { connection = poison s.connection }

-- A write is done only with the lock.
abbrev pub awaits_lock : Attempt → Option (CallId × ℕ) → Bool
awaits_lock done (some holder) = true
awaits_lock _ _ = false

-- A completion is sent unless the future was dropped.
unfoldable pub send_completion : Attempt → CallId → ℕ → StreamConnection → StreamConnection
send_completion dropped id flag c = c
send_completion abandoned id flag c = c
send_completion done id flag c = complete id flag c
send_completion (failed why) id flag c = complete id flag c

-- The writing step of `respond`, `error` or `finish`, for one that has won
abbrev pub end_winner : Attempt → Option (ControlTask × List ControlTask) → Shared → Shared
end_winner attempt none s = s
end_winner attempt (some (winner, winners)) s =
    let w = write_terminal winner.won attempt (record s { winners = winners }) in
    record w { connection = send_completion attempt winner.id winner.won w.connection }

unfoldable pub end_terminal : ℕ → Attempt → Shared → Shared
end_terminal k attempt s =
    if awaits_lock attempt s.lock then s else end_winner attempt (pick k s.winners) s

-- What `join_next` will give for a control task
abbrev pub joined : CallId → Attempt → Bool → Joined
joined id done true = completion id (Base.err TransportError.closed)
joined id done false = completion id (Base.ok tt)
joined id (failed why) is_closed = completion id (Base.err why)
joined id dropped is_closed = join_error
joined id abandoned is_closed = join_error

-- A control task: the error frame is written, and the task is done.
abbrev pub end_task : Attempt → Option (ControlTask × List ControlTask) → Shared → Shared
end_task attempt none s = s
end_task attempt (some (task, tasks)) s =
    let w =
      write_terminal task.won attempt
        (record s { connection = record s.connection { control_tasks = tasks } }) in
    record w {
      connection = record w.connection {
        control_done =
            w.connection.control_done ++ joined task.id attempt s.connection.is_closed ∷ [];
      };
    }

unfoldable pub run_control : ℕ → Attempt → Shared → Shared
run_control k attempt s =
    if awaits_lock attempt s.lock then s else end_task attempt (pick k s.connection.control_tasks) s

-- `StreamSink::send`: the flag is checked first, and again with the health under the lock. A send
-- that is refused there ends its call.
unfoldable pub check_item : CallId → ℕ → Shared → Shared
check_item id flag s =
    if s.connection.active flag
    then record s { senders = record { id = id; won = flag } ∷ s.senders }
    else s

abbrev pub refuse_item : CallId → ℕ → StreamConnection → StreamConnection
refuse_item id flag c = complete id flag (record c { active = deactivate flag c.active })

abbrev pub lock_item : Option (ControlTask × List ControlTask) → Shared → Shared
lock_item none s = s
lock_item (some (sender, senders)) s =
    if not s.connection.is_closed && s.connection.active sender.won
    then record s { lock = some (sender.id, sender.won); senders = senders }
    else record s { connection = refuse_item sender.id sender.won s.connection; senders = senders }

unfoldable pub begin_item : ℕ → Shared → Shared
begin_item k s = elim s.lock [ some holder ↦ s | none ↦ lock_item (pick k s.senders) s ]

-- The future of a `send` is dropped before it has the lock.
abbrev pub abandon_item : Option (ControlTask × List ControlTask) → Shared → Shared
abandon_item none s = s
abandon_item (some (sender, senders)) s = record s { senders = senders }

-- Its write, under the lock
unfoldable pub finish_item : Attempt → CallId × ℕ → Shared → Shared
finish_item done (id, flag) s = record s { written = item flag ∷ s.written; lock = none }
finish_item abandoned (id, flag) s = record s { connection = poison s.connection; lock = none }
finish_item dropped (id, flag) s = record s { connection = poison s.connection; lock = none }
finish_item (failed why) (id, flag) s = record s {
  connection =
      complete id flag
        (record s.connection { is_closed = true; active = deactivate flag s.connection.active });
  lock = none;
}

unfoldable pub end_item : Attempt → Shared → Shared
end_item attempt s = elim s.lock [ none ↦ s | some holder ↦ finish_item attempt holder s ]

-- `drop` of the connection
unfoldable pub drop_connection : StreamConnection → StreamConnection
drop_connection c = record (close c) { control_tasks = [] }

pub data Step : Type 0 where
  turn : Answers → Branch → Step
  terminal_won item_checked : CallId → ℕ → Step
  item_begun item_abandoned : ℕ → Step
  terminal_ended control_run : ℕ → Attempt → Step
  item_ended : Attempt → Step
  connection_dropped : Step

unfoldable pub step : Step → Shared → Shared
step (turn a branch) s = record s { connection = (recv_turn a branch s.connection).1 }
step (terminal_won id flag) s = begin_terminal id flag s
step (item_checked id flag) s = check_item id flag s
step (item_begun k) s = begin_item k s
step (item_abandoned k) s = abandon_item (pick k s.senders) s
step (terminal_ended k attempt) s = end_terminal k attempt s
step (control_run k attempt) s = run_control k attempt s
step (item_ended attempt) s = end_item attempt s
step connection_dropped s = record s { connection = drop_connection s.connection }

unfoldable pub steps : List Step → Shared → Shared
steps [] s = s
steps (first ∷ rest) s = steps rest (step first s)
