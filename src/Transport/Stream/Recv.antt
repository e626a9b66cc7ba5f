-- ===== src/Transport/Stream/Recv.antt =====
-- `StreamConnection::recv`, crates/transport/src/transports/stream.rs: one turn of its loop for each
-- branch of the `select!`, a branch that is not ready doing nothing. The order in which the branches
-- are polled is left open. What the channels answer in a turn is an argument.
use overseerd.Base.{
  ℕ, ◌+◌, ◌-◌, ◌^◌, Bool, true, false, Option, none, some, List, [], ◌∷◌, ◌++◌, length, ltb, leb,
  ◌==◌, ◌||◌, ◌&&◌, not, if◌then◌else◌, get, has_key, remove, replace, map_values, Text,
}
use overseerd.Base
use overseerd.Transport.Wire.{
  CallId, TransportError, unexpected_message, disconnected, too_many_calls, duplicate_call_id,
  WireMessage, WireRequest, request, response, stream_item, stream_end, stream_error, stream_cancel,
}
use overseerd.Transport.Stream.{
  StreamConnection, CallSlot, CallCompletion, deactivate, close, reconcile_inbound_bytes,
  reconcile_all_inbound_bytes, remove_call, discard_closed_inbound, is_nil,
  finalize_consumed_inbound_ends,
}
use overseerd.Transport.Stream.Rejecting.{
  Sent, Answers, IncomingCall, Branch, Turn, finish_control_task, reject_inbound_overflow, or_close,
  call_completed, control_joined, shut_down, reconcile_tick, message_read, read_failed, continue,
  returned,
}

-- `checked_add` on a `usize` of 64 bits
unfoldable pub checked_add : ℕ → ℕ → Option ℕ
checked_add a b = if ltb (a + b) (2 ^ 64) then some (a + b) else none

-- What is decided for an item: its channel and the bytes that will be buffered
unfoldable pub route_item : StreamConnection → ℕ → Option CallSlot → Option (ℕ × ℕ × ℕ)
route_item c len none = none
route_item c len (some slot) =
    if slot.inbound_ending then none else elim (checked_add slot.inbound_bytes len) [
      | none ↦ none
      | some call_bytes ↦ elim (checked_add c.inbound_bytes len) [
        | none ↦ none
        | some connection_bytes ↦
            if ltb c.config.max_inbound_bytes_per_call call_bytes
              || ltb c.config.max_inbound_bytes_per_connection connection_bytes
            then none
            else elim slot.inbound [
              | none ↦ none
              | some channel ↦ some (channel, call_bytes, connection_bytes)
            ]
      ]
    ]

-- `Ok(())` of `try_send`
unfoldable pub count_item : CallId → ℕ → ℕ → ℕ → StreamConnection → StreamConnection
count_item id len call_bytes connection_bytes c = elim (get id c.calls) [
  | none ↦ c
  | some slot ↦ record c {
    calls =
        replace id
          (record slot {
            inbound_sizes = slot.inbound_sizes ++ len ∷ [];
            inbound_bytes = call_bytes;
          })
          c.calls;
    inbound_bytes = connection_bytes;
  }
]

abbrev pub accepts_items : Option CallSlot → Bool
accepts_items none = false
accepts_items (some slot) = elim slot.inbound [
  | none ↦ false
  | some channel ↦ not slot.inbound_ending
]

-- The match on `try_send`
unfoldable pub handle_sent :
    Answers → CallId → ℕ → ℕ → ℕ → Sent → StreamConnection → Turn × StreamConnection
handle_sent a id len call_bytes connection_bytes Sent.sent c =
    (continue, count_item id len call_bytes connection_bytes c)
handle_sent a id len call_bytes connection_bytes Sent.full c =
    or_close (reject_inbound_overflow a.at_reject id c)
handle_sent a id len call_bytes connection_bytes Sent.closed c =
    (continue, discard_closed_inbound id c)

-- The arm for `StreamItem`, after the reconciliation
unfoldable pub handle_item : Answers → CallId → ℕ → StreamConnection → Turn × StreamConnection
handle_item a id len c = elim (route_item c len (get id c.calls)) [
  | some (channel, call_bytes, connection_bytes) ↦
      handle_sent a id len call_bytes connection_bytes a.try_send c
  | none ↦
      if accepts_items (get id c.calls)
      then or_close (reject_inbound_overflow a.at_reject id c)
      else (continue, c)
]

-- The arm for `StreamEnd`
abbrev pub end_slot : CallSlot → CallSlot
end_slot slot =
    if is_nil slot.inbound_sizes
    then record slot { inbound = none }
    else record slot { inbound_ending = true }

unfoldable pub handle_end : Answers → CallId → StreamConnection → StreamConnection
handle_end a id c =
    let r = reconcile_inbound_bytes a.at_message id c in
    elim (get id r.calls) [
      | none ↦ r
      | some slot ↦ record r { calls = replace id (end_slot slot) r.calls }
    ]

-- The arm for `StreamCancel`
unfoldable pub cancel_call : CallId → CallSlot → StreamConnection → StreamConnection
cancel_call id slot c =
    let r = remove_call id c in
    record r { cancelled = slot.cancel ∷ r.cancelled; active = deactivate slot.active r.active }

unfoldable pub handle_cancel : CallId → StreamConnection → StreamConnection
handle_cancel id c = elim (get id c.calls) [
  | none ↦ c
  | some slot ↦ if slot.tombstone then c else cancel_call id slot c
]

-- The arm for `Request`
abbrev pub new_slot : Bool → ℕ → CallSlot
new_slot streaming_input made = record {
  inbound = if streaming_input then some made else none;
  inbound_sizes = [];
  inbound_bytes = 0;
  inbound_ending = false;
  cancel = made;
  active = made;
  tombstone = false;
}

abbrev pub incoming_call : WireRequest → ℕ → IncomingCall
incoming_call req made = record {
  path = req.path;
  payload = req.payload;
  requests = if req.streaming_input then some made else none;
  cancel = made;
  id = req.id;
  active = made;
}

abbrev pub accept : WireRequest → StreamConnection → StreamConnection
accept req c = record c {
  calls = (req.id, new_slot req.streaming_input c.made) ∷ c.calls;
  active = λ n. if n == c.made then true else c.active n;
  made = c.made + 1;
}

unfoldable pub handle_request : WireRequest → StreamConnection → Turn × StreamConnection
handle_request req c =
    if has_key req.id c.calls
    then (returned (Base.err (duplicate_call_id req.id)), close c)
    else if leb c.config.max_in_flight_calls (length c.calls)
    then (returned (Base.err (too_many_calls c.config.max_in_flight_calls)), close c)
    else (returned (Base.ok (some (incoming_call req c.made))), accept req c)

unfoldable pub handle_message : Answers → WireMessage → StreamConnection → Turn × StreamConnection
handle_message a (request req) c = handle_request req c
handle_message a (stream_item id payload) c =
    handle_item a id (length payload) (reconcile_all_inbound_bytes a.at_message c)
handle_message a (stream_end id) c = (continue, handle_end a id c)
handle_message a (stream_cancel id) c = (continue, handle_cancel id c)
handle_message a (response r) c = (returned (Base.err unexpected_message), close c)
handle_message a (stream_error id code body) c = (returned (Base.err unexpected_message), close c)

-- The branch of a completion that was received
unfoldable pub handle_completion : CallCompletion → StreamConnection → StreamConnection
handle_completion completed c = elim (get completed.id c.calls) [
  | none ↦ c
  | some slot ↦
      if not slot.tombstone && slot.active == completed.active
      then remove_call completed.id c
      else c
]

abbrev pub any_ending : List (ℕ × CallSlot) → Bool
any_ending [] = false
any_ending ((id, slot) ∷ calls) = slot.inbound_ending || any_ending calls

unfoldable pub handle_branch : Answers → Branch → StreamConnection → Turn × StreamConnection
handle_branch a call_completed c = elim c.completions [
  | [] ↦ (continue, c)
  | completed ∷ completions ↦
      (continue, handle_completion completed (record c { completions = completions }))
]
handle_branch a control_joined c = elim c.control_done [
  | [] ↦ (continue, c)
  | joined ∷ control_done ↦
      or_close (finish_control_task joined (record c { control_done = control_done }))
]
handle_branch a shut_down c =
    if c.is_closed then (returned (Base.err TransportError.closed), close c) else (continue, c)
handle_branch a reconcile_tick c =
    if any_ending c.calls
    then (continue, finalize_consumed_inbound_ends a.at_message c)
    else (continue, c)
handle_branch a (message_read message) c = handle_message a message c
handle_branch a (read_failed disconnected) c = (returned (Base.ok none), close c)
handle_branch a (read_failed why) c = (returned (Base.err why), close c)

-- One turn of the loop of `recv`
unfoldable pub recv_turn : Answers → Branch → StreamConnection → Turn × StreamConnection
recv_turn a branch c =
    if any_ending c.calls
    then handle_branch a branch (finalize_consumed_inbound_ends a.at_start c)
    else handle_branch a branch c
