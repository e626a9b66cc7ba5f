-- ===== src/Transport/Stream/Shutdown.antt =====
-- How `recv` ends a connection, crates/transport/src/transports/stream.rs.
use overseerd.Base.{
  ℕ, ◌≡◌, refl, Bool, true, false, Bool-cases, inl, inr, Option, none, some, Option-cases, List, [],
  ◌∷◌, ◌==◌, ==_refl, if◌then◌else◌, mem, get, has_key, length, leb, AllValues, arith,
}
use overseerd.Base
use overseerd.Transport.Wire.{
  disconnected, WireMessage, WireRequest, request, response, stream_item, stream_end, stream_error,
  stream_cancel,
}
use overseerd.Transport.Stream.{
  StreamConnection, CallSlot, CallCompletion, Joined, deactivate, cancel_slots, deactivate_slots,
  cancel_all, close, finalize_consumed_inbound_ends, reconcile_all_inbound_bytes,
}
use overseerd.Transport.Stream.Recv.{
  route_item, accepts_items, handle_sent, handle_item, handle_request, handle_message, any_ending,
  handle_branch, recv_turn,
}
use overseerd.Transport.Stream.Rejecting.{
  Answers, Branch, call_completed, control_joined, shut_down, reconcile_tick, message_read,
  read_failed, Turn, continue, returned, Sent, Fallible, finish_control_task,
  reject_inbound_overflow, or_close,
}

-- The token of the call is cancelled and its flag is down.
abbrev pub IsStopped : List ℕ → (ℕ → Bool) → CallSlot → Type 0
IsStopped cancelled active slot = (mem slot.cancel cancelled ≡ true) × (active slot.active ≡ false)

abbrev pub IsShut : StreamConnection → Type 0
IsShut c = (c.is_closed ≡ true) × AllValues (IsStopped c.cancelled c.active) c.calls

-- The loop goes on, `recv` has a call, or the connection is shut.
abbrev pub EndsShut : Turn × StreamConnection → Type 0
EndsShut (continue, c) = Unit
EndsShut (returned (Base.ok (some call)), c) = Unit
EndsShut (returned (Base.ok none), c) = IsShut c
EndsShut (returned (Base.err why), c) = IsShut c

still-IsStopped :
    (cancel flag : ℕ) (cancelled : List ℕ) (active : ℕ → Bool) (calls : List (ℕ × CallSlot))
    → AllValues (IsStopped cancelled active) calls
    → AllValues (IsStopped (cancel ∷ cancelled) (deactivate flag active)) calls
still-IsStopped cancel flag cancelled active [] h = tt
still-IsStopped cancel flag cancelled active ((id, slot) ∷ calls) ((m, a), h) =
    ((ground arith, ground arith), still-IsStopped cancel flag cancelled active calls h)

cancel-IsStopped :
    (calls : List (ℕ × CallSlot)) (cancelled : List ℕ) (active : ℕ → Bool)
    → AllValues (IsStopped (cancel_slots calls cancelled) (deactivate_slots calls active)) calls
unfolding cancel_slots deactivate_slots
cancel-IsStopped [] cancelled active = tt
cancel-IsStopped ((id, slot) ∷ calls) cancelled active = (
  (rw (==_refl slot.cancel) refl, rw (==_refl slot.active) refl),
  still-IsStopped slot.cancel slot.active (cancel_slots calls cancelled)
      (deactivate_slots calls active) calls (cancel-IsStopped calls cancelled active),
)

close-IsShut : (c : StreamConnection) → IsShut (close c)
unfolding close cancel_all
close-IsShut c = (refl, cancel-IsStopped c.calls c.cancelled c.active)

or_close-EndsShut : (r : Fallible) → EndsShut (or_close r)
or_close-EndsShut (Base.ok _, c) = tt
or_close-EndsShut (Base.err why, c) = close-IsShut c

handle_sent-EndsShut :
    (a : Answers) (id len call_bytes connection_bytes : ℕ) (answer : Sent) (c : StreamConnection)
    → EndsShut (handle_sent a id len call_bytes connection_bytes answer c)
unfolding handle_sent
handle_sent-EndsShut a id len call_bytes connection_bytes Sent.sent c = tt
handle_sent-EndsShut a id len call_bytes connection_bytes Sent.full c =
    or_close-EndsShut (reject_inbound_overflow a.at_reject id c)
handle_sent-EndsShut a id len call_bytes connection_bytes Sent.closed c = tt

handle_item-EndsShut :
    (a : Answers) (id len : ℕ) (c : StreamConnection) → EndsShut (handle_item a id len c)
unfolding handle_item
handle_item-EndsShut a id len c = elim (Option-cases (route_item c len (get id c.calls))) [
  | inl refused ↦ elim (Bool-cases (accepts_items (get id c.calls))) [
    | inl open_ended ↦
        rw (refused, handle_item, open_ended)
          (or_close-EndsShut (reject_inbound_overflow a.at_reject id c))
    | inr ended ↦ rw (refused, handle_item, ended) tt
  ]
  | inr ((channel, call_bytes, connection_bytes), routed) ↦
      rw (routed, handle_item)
        (handle_sent-EndsShut a id len call_bytes connection_bytes a.try_send c)
]

handle_request-EndsShut :
    (req : WireRequest) (c : StreamConnection) → EndsShut (handle_request req c)
unfolding handle_request
handle_request-EndsShut req c = elim (Bool-cases (has_key req.id c.calls)) [
  | inl known ↦ rw known (close-IsShut c)
  | inr fresh ↦ elim (Bool-cases (leb c.config.max_in_flight_calls (length c.calls))) [
    | inl many ↦ rw (fresh, many) (close-IsShut c)
    | inr free ↦ rw (fresh, free) tt
  ]
]

handle_message-EndsShut :
    (a : Answers) (message : WireMessage) (c : StreamConnection)
    → EndsShut (handle_message a message c)
unfolding handle_message
handle_message-EndsShut a (request req) c = handle_request-EndsShut req c
handle_message-EndsShut a (stream_item id payload) c =
    handle_item-EndsShut a id (length payload) (reconcile_all_inbound_bytes a.at_message c)
handle_message-EndsShut a (stream_end id) c = tt
handle_message-EndsShut a (stream_cancel id) c = tt
handle_message-EndsShut a (response r) c = close-IsShut c
handle_message-EndsShut a (stream_error id code body) c = close-IsShut c

call_completed-EndsShut :
    (a : Answers) (completions : List CallCompletion) (c : StreamConnection)
    → c.completions ≡ completions
    → EndsShut (handle_branch a call_completed c)
unfolding handle_branch
call_completed-EndsShut a [] c e = rw (e, handle_branch) tt
call_completed-EndsShut a (completed ∷ rest) c e = rw (e, handle_branch) tt

control_joined-EndsShut :
    (a : Answers) (done : List Joined) (c : StreamConnection)
    → c.control_done ≡ done
    → EndsShut (handle_branch a control_joined c)
unfolding handle_branch
control_joined-EndsShut a [] c e = rw (e, handle_branch) tt
control_joined-EndsShut a (joined ∷ done) c e =
    rw (e, handle_branch)
      (or_close-EndsShut (finish_control_task joined (record c { control_done = done })))

handle_branch-EndsShut :
    (a : Answers) (branch : Branch) (c : StreamConnection) → EndsShut (handle_branch a branch c)
unfolding handle_branch
handle_branch-EndsShut a call_completed c = call_completed-EndsShut a c.completions c refl
handle_branch-EndsShut a control_joined c = control_joined-EndsShut a c.control_done c refl
handle_branch-EndsShut a shut_down c = elim (Bool-cases c.is_closed) [
  | inl shut ↦ simp shut (close-IsShut c)
  | inr live ↦ simp live tt
]
handle_branch-EndsShut a reconcile_tick c = elim (Bool-cases (any_ending c.calls)) [
  | inl ending ↦ rw ending tt
  | inr steady ↦ rw steady tt
]
handle_branch-EndsShut a (message_read message) c = handle_message-EndsShut a message c
handle_branch-EndsShut a (read_failed disconnected) c = close-IsShut c
handle_branch-EndsShut a (read_failed why) c = close-IsShut c

-- When `recv` returns an error or the end of the connection, the connection is closed, and each call
-- that it still tracks has its token cancelled and its flag down, so that no handler of it can write.
pub recv_turn-EndsShut :
    (a : Answers) (branch : Branch) (c : StreamConnection) → EndsShut (recv_turn a branch c)
unfolding recv_turn
recv_turn-EndsShut a branch c = elim (Bool-cases (any_ending c.calls)) [
  | inl ending ↦
      rw ending (handle_branch-EndsShut a branch (finalize_consumed_inbound_ends a.at_start c))
  | inr steady ↦ rw steady (handle_branch-EndsShut a branch c)
]
