-- ===== src/Rpc/Client/Tests.antt =====
-- A client with two calls in flight.
use overseerd.Base.{
  ℕ, ◌≡◌, ◌≢◌, ◌++◌, ◌^◌, ◌-◌, ◌%◌, ◌<◌, ◌≤◌, err, refl, true, false, Option, none, some, List, [],
  ◌∷◌, length, ok, arith,
}
use overseerd.Transport.Codec.{write_message, to_le_bytes}
use overseerd.Transport.Wire.{
  frame_too_large, WireMessage, request, stream_item, stream_end, stream_cancel,
}
use overseerd.Rpc.Client.{Sent, end_loop, read_turn, read_message, deliver_item, send_item}
use overseerd.Rpc.Source.{ended, recv, pending, got, poll_items, poll_terminal}
use overseerd.Rpc.Lanes.{Reply, item, Client, new, remove_call, serialize_frame, complete_call}
use overseerd.Rpc.Client.Routing.{Arrival, IsRouted, Holds, read_all}
use overseerd.Rpc.Client.Demux.{items_of, terminal_of, read_all-delivers}
use overseerd.Rpc.Client.Receiving.{
  recv_all, ended_lane, recv_all-lane, end_loop-recv, poll_recv_misses_item,
  serialize_frame-write_message,
}

abbrev to_allocvec : WireMessage → Option (List ℕ)
to_allocvec (request r) = some (0 ∷ r.id ∷ [])
to_allocvec (stream_cancel id) = some (5 ∷ id ∷ [])
to_allocvec _ = none

-- Two calls are registered, with the ids 1 and 2.
abbrev started : Client
started = record new { next_id = 3; made = 2; calls = (2, 1) ∷ (1, 0) ∷ []; active = λ n. true }

-- The second call's items stand between those of the first.
abbrev arrivals : List Arrival
arrivals =
    (Sent.sent, false, stream_item 1 (10 ∷ []))
    ∷ (Sent.closed, false, stream_item 2 (20 ∷ []))
    ∷ (Sent.sent, false, stream_item 1 (11 ∷ []))
    ∷ (Sent.sent, false, stream_end 1)
    ∷ (Sent.sent, false, stream_item 1 (12 ∷ []))
    ∷ []

read : ((read_all to_allocvec arrivals started).lanes 0).items ≡ (10 ∷ []) ∷ (11 ∷ []) ∷ []
unfolding read_turn read_message deliver_item send_item remove_call complete_call
read = refl

started-IsRouted : IsRouted 1 0 started
started-IsRouted = record {
  reading = refl;
  routed = refl;
  only = λ j h. ground arith;
  unended = refl;
}

read_all-delivers_example :
    Holds 0
      ([] ++ items_of 1 arrivals)
      (terminal_of 1 arrivals)
      (read_all to_allocvec arrivals started)
read_all-delivers_example = read_all-delivers to_allocvec 1 0 arrivals started started-IsRouted (
  (λ same. refl),
  (
    (λ same. absurd (let bad : ◌≡◌ {A = ℕ} 2 1 = same in omega arith)),
    ((λ same. refl), ((λ same. refl), tt)),
  ),
)

recv_all-lane_example :
    recv_all 5 (ended_lane ((10 ∷ []) ∷ (11 ∷ []) ∷ []) (some Reply.end) false)
    ≡ got (item (10 ∷ [])) ∷ got (item (11 ∷ [])) ∷ got Reply.end ∷ ended ∷ ended ∷ []
recv_all-lane_example = recv_all-lane ((10 ∷ []) ∷ (11 ∷ []) ∷ []) (some Reply.end) false 2

end_loop-recv_example : (recv ((end_loop started).lanes 1)).0 ≢ pending
end_loop-recv_example = end_loop-recv 2 1 started refl

poll_recv_misses_item_example :
    let c' =
      read_all to_allocvec
        ((Sent.sent, false, stream_item 1 (7 ∷ [])) ∷ (Sent.sent, false, stream_end 1) ∷ [])
        started in
    ((poll_items (started.lanes 0)).0 ≡ pending)
    × ((poll_terminal (c'.lanes 0)).0 ≡ got Reply.end)
    × ((poll_terminal (c'.lanes 0)).1.items ≡ (7 ∷ []) ∷ [])
poll_recv_misses_item_example =
    poll_recv_misses_item to_allocvec 1 0 (7 ∷ []) started started-IsRouted refl

abbrev cancel_payload : List ℕ
cancel_payload = 5 ∷ 1 ∷ []

serialize_frame-write_message_example :
    (length cancel_payload < 2 ^ 32
      → (frame : List ℕ) × (serialize_frame to_allocvec (stream_cancel 1) ≡ ok frame)
        × (write_message to_allocvec (stream_cancel 1) ≡ ok frame))
    × (2 ^ 32 ≤ length cancel_payload
        → (serialize_frame to_allocvec (stream_cancel 1)
            ≡ err (frame_too_large (length cancel_payload) (2 ^ 32 - 1)))
          × (write_message to_allocvec (stream_cancel 1)
              ≡ ok (to_le_bytes (length cancel_payload % 2 ^ 32) ++ cancel_payload)))
serialize_frame-write_message_example =
    serialize_frame-write_message to_allocvec (stream_cancel 1) cancel_payload refl
