-- ===== src/Rpc/Lanes.antt =====
-- crates/rpc/src/client.rs: the state of a client connection, its calls' lanes, and the frames.
use overseerd.Base.{
  ℕ, ◌-◌, ◌^◌, Bool, true, false, Option, none, some, List, [], ◌∷◌, ◌++◌, length, ltb, ◌==◌,
  if◌then◌else◌, get, remove, Result, ok, err,
}
use overseerd.Transport.Codec.{to_le_bytes}
use overseerd.Transport.Status.{StatusCode}
use overseerd.Transport.Wire.{
  CallId, WireOutcome, WireMessage, TransportError, serialization, frame_too_large,
}

-- `Reply`
pub data Reply : Type 0 where
  response : WireOutcome → Reply
  item : List ℕ → Reply
  end overflow : Reply
  error : StatusCode → List ℕ → Reply

-- The two lanes of a call: items that are queued, and the final reply, each until it is received;
-- whether the senders, which the `CallRoute` holds, are dropped; and whether the receiver is.
pub record Lane : Type 0 where
  pub items : List (List ℕ)
  pub terminal : Option Reply
  pub route_dropped : Bool
  pub source_dropped : Bool

-- `ClientError`
pub data ClientError : Type 0 where
  connection_closed decode encode : ClientError
  transport : TransportError → ClientError
  remote : StatusCode → List ℕ → ClientError

-- `WriteCommand`
pub data WriteCommand : Type 0 where
  written control : List ℕ → WriteCommand

-- `StreamClientTransport` with its `ConnectionState`, its routes by id, the lanes and flags of all
-- calls that were made, and the commands that the writer has accepted
pub record Client : Type 0 where
  pub is_closed : Bool
  pub is_reading : Bool
  pub next_id : ℕ
  pub made : ℕ
  pub calls : List (ℕ × ℕ)
  pub lanes : ℕ → Lane
  pub active : ℕ → Bool
  pub queue : List WriteCommand

-- `new`
abbrev pub no_lane : Lane
no_lane = record { items = []; terminal = none; route_dropped = false; source_dropped = false }

abbrev pub new : Client
new = record {
  is_closed = false;
  is_reading = true;
  next_id = 1;
  made = 0;
  calls = [];
  lanes = λ n. no_lane;
  active = λ n. false;
  queue = [];
}

-- `ConnectionState::close`
abbrev pub close : Client → Client
close c = record c { is_closed = true }

abbrev pub at_lane : ℕ → (Lane → Lane) → (ℕ → Lane) → ℕ → Lane
at_lane n f lanes m = if n == m then f (lanes m) else lanes m

abbrev pub deactivate : ℕ → (ℕ → Bool) → ℕ → Bool
deactivate n active m = if n == m then false else active m

abbrev pub drop_route : Lane → Lane
drop_route lane = record lane { route_dropped = true }

-- `calls.remove(&id)`, by which the route and its senders are dropped
unfoldable pub remove_call : CallId → Client → Client
remove_call id c = elim (get id c.calls) [
  | none ↦ c
  | some n ↦ record c { calls = remove id c.calls; lanes = at_lane n drop_route c.lanes }
]

-- `Writer::cancel`
unfoldable pub cancel : Bool → List ℕ → Client → Client
cancel queue_full frame c =
    if c.is_closed
    then c
    else if queue_full
    then close c
    else record c { queue = c.queue ++ control frame ∷ [] }

-- `complete_call`
abbrev pub end_lane : Reply → Lane → Lane
end_lane reply lane = record lane { terminal = some reply; route_dropped = true }

unfoldable pub complete_call : CallId → Reply → Client → Bool × Client
complete_call id reply c = elim (get id c.calls) [
  | none ↦ (false, c)
  | some n ↦ (
    true,
    record c {
      calls = remove id c.calls;
      lanes = at_lane n (end_lane reply) c.lanes;
      active = deactivate n c.active;
    },
  )
]

-- `serialize_frame`
unfoldable pub serialize_frame :
    (WireMessage → Option (List ℕ)) → WireMessage → Result TransportError (List ℕ)
serialize_frame to_allocvec message = elim (to_allocvec message) [
  | none ↦ err serialization
  | some payload ↦
      if ltb (length payload) (2 ^ 32)
      then ok (to_le_bytes (length payload) ++ payload)
      else err (frame_too_large (length payload) (2 ^ 32 - 1))
]
