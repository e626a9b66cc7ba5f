-- ===== src/Transport/Stream/Rejecting.antt =====
-- crates/transport/src/transports/stream.rs: a turn of `recv` and what it returns, the control tasks,
-- and the rejection of a call whose items are too many.
use overseerd.Base.{
  ℕ, ◌+◌, ◌-◌, ◌^◌, Bool, true, false, Option, none, some, List, [], ◌∷◌, ◌++◌, length, ltb, leb,
  ◌==◌, ◌||◌, ◌&&◌, not, if◌then◌else◌, get, has_key, remove, replace, map_values, Text,
}
use overseerd.Base
use overseerd.Transport.Wire.{
  CallId, TransportError, control_task, control_tasks_saturated, WireMessage,
}
use overseerd.Transport.Stream.{
  StreamConnection, CallSlot, Joined, completion, join_error, deactivate, close,
  reconcile_inbound_bytes, remove_call, without_inbound,
}

-- What `try_send` gives
pub data Sent : Type 0 where
  sent full closed : Sent

-- The free places of the channels when the loop starts a turn, when a message is handled and when a
-- call is rejected, and what a `try_send` gives
pub record Answers : Type 0 where
  pub at_start : ℕ → ℕ
  pub at_message : ℕ → ℕ
  pub at_reject : ℕ → ℕ
  pub try_send : Sent

-- `IncomingCall` with the id and the flag of its `StreamResponder`
pub record IncomingCall : Type 0 where
  pub path : Text
  pub payload : List ℕ
  pub requests : Option ℕ
  pub cancel : ℕ
  pub id : CallId
  pub active : ℕ

-- The branches of the `select!`
pub data Branch : Type 0 where
  call_completed control_joined shut_down reconcile_tick : Branch
  message_read : WireMessage → Branch
  read_failed : TransportError → Branch

-- The loop goes on, or `recv` returns.
pub data Turn : Type 0 where
  continue : Turn
  returned : Base.Result TransportError (Option IncomingCall) → Turn

abbrev pub Fallible : Type 0
Fallible = Base.Result TransportError (Unit {0}) × StreamConnection

-- `?`
abbrev pub and_then : Fallible → (StreamConnection → Fallible) → Fallible
and_then (Base.ok _, c) next = next c
and_then (Base.err why, c) next = (Base.err why, c)

-- `finish_control_task`
unfoldable pub finish_control_task : Joined → StreamConnection → Fallible
finish_control_task join_error c = (Base.err control_task, c)
finish_control_task (completion id (Base.err why)) c = (Base.err why, c)
finish_control_task (completion id (Base.ok _)) c = elim (get id c.calls) [
  | none ↦ (Base.ok tt, c)
  | some slot ↦ if slot.tombstone then (Base.ok tt, remove_call id c) else (Base.ok tt, c)
]

-- The loop over `try_join_next`, with the tasks that are done
unfoldable pub drain_control : List Joined → StreamConnection → Fallible
drain_control [] c = (Base.ok tt, c)
drain_control (joined ∷ control_done) c =
    and_then (finish_control_task joined (record c { control_done = control_done }))
      (drain_control control_done)

-- `reject_inbound_overflow`, after the terminal state was won
unfoldable pub spawn_control : CallId → ℕ → StreamConnection → Fallible
spawn_control id won c = and_then (drain_control c.control_done c) (λ c1.
    if leb c1.config.max_in_flight_calls (length c1.control_tasks + length c1.control_done)
    then (Base.err (control_tasks_saturated c1.config.max_in_flight_calls), close c1)
    else (
      Base.ok tt,
      record c1 { control_tasks = record { id = id; won = won } ∷ c1.control_tasks },
    ))

-- The slot is emptied, its token cancelled and its flag swapped.
unfoldable pub terminate : CallId → CallSlot → StreamConnection → StreamConnection
terminate id slot c = record c {
  calls =
      replace id
        (record (without_inbound slot) {
          tombstone = if c.active slot.active then true else slot.tombstone;
        })
        c.calls;
  cancelled = slot.cancel ∷ c.cancelled;
  active = deactivate slot.active c.active;
  inbound_bytes = c.inbound_bytes - slot.inbound_bytes;
}

unfoldable pub reject_inbound_overflow : (ℕ → ℕ) → CallId → StreamConnection → Fallible
reject_inbound_overflow capacity id c =
    let r = reconcile_inbound_bytes capacity id c in
    elim (get id r.calls) [
      | none ↦ (Base.ok tt, r)
      | some slot ↦
          if r.active slot.active
          then spawn_control id slot.active (terminate id slot r)
          else (Base.ok tt, terminate id slot r)
    ]

-- The caller's `if let Err(error)`: the connection is closed.
abbrev pub or_close : Fallible → Turn × StreamConnection
or_close (Base.ok _, c) = (continue, c)
or_close (Base.err why, c) = (returned (Base.err why), close c)
