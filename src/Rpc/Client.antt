-- ===== src/Rpc/Client.antt =====
-- crates/rpc/src/client.rs: the calls of a client connection. An item channel is the items that were
-- sent and not yet received; whether it is full is an argument, as it is for the queue of the
-- writer. The senders and receivers of a call, its `active` flag and its lane have one number.
-- Serialization is a parameter; what the writer does with its queue is left out.
pub mod Elsewhere
pub mod Routing
pub mod Demux
pub mod Receiving
mod Tests
use overseerd.Base.{
  ℕ, ◌+◌, ◌-◌, ◌^◌, Bool, true, false, Option, none, some, List, [], ◌∷◌, ◌++◌, length, ltb, ◌==◌,
  ◌||◌, if◌then◌else◌, get, remove, inc64, Text, Result, ok, err,
}
use overseerd.Transport.Codec.{to_le_bytes}
use overseerd.Transport.Status.{StatusCode}
use overseerd.Transport.Wire.{
  CallId, WireOutcome, WireMessage, request, stream_item, stream_end, stream_error, stream_cancel,
  TransportError, serialization, frame_too_large,
}
use overseerd.Rpc.Lanes.{
  Reply, Lane, ClientError, Client, no_lane, close, at_lane, deactivate, drop_route, remove_call,
  cancel, complete_call, serialize_frame, response, item, end, overflow, error, connection_closed,
  decode, transport, remote, written,
}

-- What `try_send` gives
pub data Sent : Type 0 where
  sent full closed : Sent

abbrev pub push_item : List ℕ → Lane → Lane
push_item payload lane = record lane { items = lane.items ++ payload ∷ [] }

-- The end of `read_loop`: the routes of all calls are dropped.
abbrev pub drop_routes : List (ℕ × ℕ) → (ℕ → Lane) → ℕ → Lane
drop_routes [] lanes = lanes
drop_routes ((id, n) ∷ calls) lanes = at_lane n drop_route (drop_routes calls lanes)

unfoldable pub end_loop : Client → Client
end_loop c = record c {
  is_closed = true;
  is_reading = false;
  calls = [];
  lanes = drop_routes c.calls c.lanes;
}

-- A call that `open` has registered: its id, its number and its frames
pub record Opening : Type 0 where
  pub id : CallId
  pub lane : ℕ
  pub request_frame : List ℕ
  pub cancel_frame : List ℕ

-- `calls.insert`; a route that had the id is dropped.
unfoldable pub register : CallId → Client → Client
register id c =
    let r = remove_call id c in
    record r {
      calls = (id, r.made) ∷ r.calls;
      lanes = at_lane r.made (λ lane. no_lane) r.lanes;
      active = λ n. if n == r.made then true else r.active n;
      made = r.made + 1;
    }

abbrev opening_request : CallId → Text → Bool → List ℕ → WireMessage
opening_request id path streaming_input payload =
    request (record { id = id; path = path; payload = payload; streaming_input = streaming_input })

module _ (to_allocvec : WireMessage → Option (List ℕ)) where
  -- `cancel_overflowed_call`
  unfoldable pub cancel_overflowed_call : Bool → CallId → Client → Client
  cancel_overflowed_call queue_full id c = elim (serialize_frame to_allocvec (stream_cancel id)) [
    | ok frame ↦ cancel queue_full frame c
    | err why ↦ close c
  ]

  -- The arm of `read_loop` for an item, for the route of its call
  unfoldable pub overflow_call : Bool → CallId → Client → Client
  overflow_call queue_full id c =
      let (completed, c1) = complete_call id overflow c in
      if completed then cancel_overflowed_call queue_full id c1 else c1

  unfoldable pub send_item : Sent → Bool → CallId → ℕ → List ℕ → Client → Client
  send_item sent queue_full id n payload c = record c {
    lanes = at_lane n (push_item payload) c.lanes;
  }
  send_item full queue_full id n payload c = overflow_call queue_full id c
  send_item closed queue_full id n payload c = remove_call id c

  unfoldable pub deliver_item : Sent → Bool → CallId → List ℕ → Client → Client
  deliver_item answer queue_full id payload c = elim (get id c.calls) [
    | none ↦ c
    | some n ↦ send_item answer queue_full id n payload c
  ]

  -- One message of `read_loop`
  unfoldable pub read_message : Sent → Bool → WireMessage → Client → Client
  read_message answer queue_full (WireMessage.response r) c =
      (complete_call r.id (Reply.response r.outcome) c).1
  read_message answer queue_full (stream_item id payload) c =
      deliver_item answer queue_full id payload c
  read_message answer queue_full (stream_end id) c = (complete_call id Reply.end c).1
  read_message answer queue_full (stream_error id code body) c =
      (complete_call id (Reply.error code body) c).1
  read_message answer queue_full (request r) c = end_loop c
  read_message answer queue_full (stream_cancel id) c = end_loop c

  -- One turn of `read_loop`, which is over once it has broken off
  unfoldable pub read_turn : Sent → Bool → WireMessage → Client → Client
  read_turn answer queue_full message c =
      if c.is_reading then read_message answer queue_full message c else c

  -- `open`, up to the frame's write
  unfoldable pub open_call : Text → Bool → List ℕ → Client → Result ClientError Opening × Client
  open_call path streaming_input payload c =
      let id = c.next_id in
      let c1 = record c { next_id = inc64 c.next_id } in
      if c.is_closed
      then (err connection_closed, c)
      else elim (serialize_frame to_allocvec (opening_request id path streaming_input payload)) [
        | err why ↦ (err (transport why), c1)
        | ok request_frame ↦ elim (serialize_frame to_allocvec (stream_cancel id)) [
          | err why ↦ (err (transport why), c1)
          | ok cancel_frame ↦ (
            ok (record {
              id = id;
              lane = c.made;
              request_frame = request_frame;
              cancel_frame = cancel_frame;
            }),
            register id c1,
          )
        ]
      ]

-- `drop` of an `OpenGuard` that is armed and of an `RpcSource`
unfoldable pub drop_source : Bool → CallId → ℕ → List ℕ → Client → Client
drop_source queue_full id n cancel_frame c =
    let r = remove_call id c in
    let dropped = record r {
      active = deactivate n r.active;
      lanes = at_lane n (λ lane. record lane { source_dropped = true }) r.lanes;
    } in
    if r.active n then cancel queue_full cancel_frame dropped else dropped

-- `write_frame` up to the acknowledgement: the queue has accepted the frame, or the writer is gone.
unfoldable pub write_frame : Bool → List ℕ → Client → Result ClientError (Unit {0}) × Client
write_frame writer_gone frame c =
    if c.is_closed || writer_gone
    then (err connection_closed, c)
    else (ok tt, record c { queue = c.queue ++ written frame ∷ [] })
