-- ===== src/Rpc/Source.antt =====
-- crates/rpc/src/client.rs: what the source of a call receives from its lane, and how a reply is
-- decoded.
use overseerd.Base.{ℕ, Option, none, some, List, [], ◌∷◌, if◌then◌else◌, Result, ok, err}
use overseerd.Transport.Wire.{WireOutcome}
use overseerd.Rpc.Lanes.{
  Reply, Lane, ClientError, response, item, end, overflow, error, connection_closed, decode, remote,
}

-- What the source of a call has: a reply, the end, or nothing yet
pub data Received : Type 0 where
  got : Reply → Received
  ended pending : Received

-- `RpcSource::recv`
abbrev pub recv_terminal : Option Reply → Lane → Received × Lane
recv_terminal none lane = (ended, lane)
recv_terminal (some reply) lane = (got reply, record lane { terminal = none })

abbrev pub recv_items : List (List ℕ) → Lane → Received × Lane
recv_items (payload ∷ items) lane = (got (item payload), record lane { items = items })
recv_items [] lane =
    if lane.route_dropped then recv_terminal lane.terminal lane else (pending, lane)

unfoldable pub recv : Lane → Received × Lane
recv lane = recv_items lane.items lane

-- `RpcSource::poll_recv` in its two parts: the items are polled, and then the final reply.
abbrev pub polled_items : List (List ℕ) → Lane → Received × Lane
polled_items (payload ∷ items) lane = (got (item payload), record lane { items = items })
polled_items [] lane = (pending, lane)

unfoldable pub poll_items : Lane → Received × Lane
poll_items lane = polled_items lane.items lane

abbrev pub polled_terminal : Option Reply → Lane → Received × Lane
polled_terminal (some reply) lane = (got reply, record lane { terminal = none })
polled_terminal none lane = if lane.route_dropped then (ended, lane) else (pending, lane)

unfoldable pub poll_terminal : Lane → Received × Lane
poll_terminal lane = polled_terminal lane.terminal lane

module _ {Resp : Type 0} (decode_body : List ℕ → Option Resp) where
  abbrev pub decoded : Option Resp → Result ClientError Resp
  decoded none = err decode
  decoded (some value) = ok value

  unfoldable pub decode_unary : Option Reply → Result ClientError Resp
  decode_unary none = err connection_closed
  decode_unary (some end) = err connection_closed
  decode_unary (some (response (WireOutcome.ok bytes))) = decoded (decode_body bytes)
  decode_unary (some (response (WireOutcome.err code body))) = err (remote code body)
  decode_unary (some (error code body)) = err (remote code body)
  decode_unary (some (item bytes)) = err decode
  decode_unary (some overflow) = err decode

  unfoldable pub decode_item : Option Reply → Option (Result ClientError Resp)
  decode_item none = none
  decode_item (some end) = none
  decode_item (some (item bytes)) = some (decoded (decode_body bytes))
  decode_item (some (error code body)) = some (err (remote code body))
  decode_item (some (response (WireOutcome.err code body))) = some (err (remote code body))
  decode_item (some (response (WireOutcome.ok bytes))) = some (err decode)
  decode_item (some overflow) = some (err decode)
