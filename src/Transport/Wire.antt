-- ===== src/Transport/Wire.antt =====
-- The messages on the wire and the errors of a transport: crates/transport/src/protocol/mod.rs,
-- crates/transport/src/frame.rs and crates/transport/src/error.rs.
use overseerd.Base.{ℕ, Bool, List, Text}
use overseerd.Transport.Status.{StatusCode}

-- `CallId`
abbrev pub CallId : Type 0
CallId = ℕ

-- `CallResult`
pub data CallResult : Type 0 where
  ok : List ℕ → CallResult
  err : StatusCode → List ℕ → CallResult

-- `WireOutcome`
pub data WireOutcome : Type 0 where
  ok : List ℕ → WireOutcome
  err : StatusCode → List ℕ → WireOutcome

-- `WireRequest`
pub record WireRequest : Type 0 where
  pub id : CallId
  pub path : Text
  pub payload : List ℕ
  pub streaming_input : Bool

-- `WireResponse`
pub record WireResponse : Type 0 where
  pub id : CallId
  pub outcome : WireOutcome

-- `WireMessage`
pub data WireMessage : Type 0 where
  request : WireRequest → WireMessage
  response : WireResponse → WireMessage
  stream_item : CallId → List ℕ → WireMessage
  stream_end : CallId → WireMessage
  stream_error : CallId → StatusCode → List ℕ → WireMessage
  stream_cancel : CallId → WireMessage

-- `WireResponse::new`
abbrev outcome_of : CallResult → WireOutcome
outcome_of (CallResult.ok bytes) = WireOutcome.ok bytes
outcome_of (CallResult.err code body) = WireOutcome.err code body

unfoldable pub wire_response : CallId → CallResult → WireResponse
wire_response id outcome = record { id = id; outcome = outcome_of outcome }

-- `Error`, its texts left out. An I/O error has its kind as a number, or it is a disconnect.
pub data TransportError : Type 0 where
  closed unexpected_message control_task serialization disconnected : TransportError
  io : ℕ → TransportError
  frame_too_large : ℕ → ℕ → TransportError
  frame_allocation read_timeout : ℕ → TransportError
  too_many_calls duplicate_call_id : ℕ → TransportError
  control_write_timeout control_tasks_saturated : ℕ → TransportError
