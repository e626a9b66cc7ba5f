-- ===== src/Rpc/Client/Receiving.antt =====
-- How the source of a call takes what is in its lane, crates/rpc/src/client.rs.
use overseerd.Base.{
  ℕ, zero, suc, ◌+◌, ◌-◌, ◌%◌, ◌^◌, ◌≤◌, ◌<◌, ◌≡◌, ◌≢◌, refl, ap, ◌∙◌, Bool, true, false,
  Bool-cases, inl, inr, Option, none, some, List, [], ◌∷◌, ◌++◌, length, ltb, ◌==◌, ==_refl, get,
  ok, err, arith,
}
use overseerd.Transport.Codec.{write_message, to_le_bytes}
use overseerd.Transport.Wire.{WireMessage, frame_too_large, stream_item, stream_end}
use overseerd.Rpc.Client.{Sent, drop_routes, end_loop}
use overseerd.Rpc.Source.{
  Received, got, ended, pending, recv, recv_items, poll_items, poll_terminal,
}
use overseerd.Rpc.Lanes.{Reply, item, end, Lane, Client, serialize_frame}
use overseerd.Rpc.Client.Routing.{IsRouted, read_all}
use overseerd.Rpc.Client.Demux.{items_of, terminal_of, read_all-delivers}

-- What so many calls of `recv` give, one after the other
pub recv_all : ℕ → Lane → List Received
recv_all zero lane = []
recv_all (suc calls) lane = (recv lane).0 ∷ recv_all calls (recv lane).1

abbrev pub ends : ℕ → List Received
ends zero = []
ends (suc calls) = ended ∷ ends calls

abbrev pub replies : List (List ℕ) → Option Reply → List Received
replies [] none = []
replies [] (some reply) = got reply ∷ []
replies (payload ∷ items) terminal = got (item payload) ∷ replies items terminal

abbrev pub ended_lane : List (List ℕ) → Option Reply → Bool → Lane
ended_lane items terminal source_dropped = record {
  items = items;
  terminal = terminal;
  route_dropped = true;
  source_dropped = source_dropped;
}

recv_all_ended :
    (calls : ℕ) (source_dropped : Bool)
    → recv_all calls (ended_lane [] none source_dropped) ≡ ends calls
unfolding recv_all recv
recv_all_ended zero source_dropped = refl
recv_all_ended (suc calls) source_dropped =
    ap (λ (rest : List Received). ended ∷ rest) (recv_all_ended calls source_dropped)

-- Once the route of a call is dropped, the calls of `recv` give the items of the lane in order, then
-- its final reply, if there is one, and then the end, as often as it is called: nothing is lost and
-- no call waits.
pub recv_all-lane :
    (items : List (List ℕ)) (terminal : Option Reply) (source_dropped : Bool) (more : ℕ)
    → recv_all (length (replies items terminal) + more) (ended_lane items terminal source_dropped)
      ≡ replies items terminal ++ ends more
unfolding recv_all recv
recv_all-lane [] none source_dropped more =
    let calls : 0 + more ≡ more = omega arith in rw calls (recv_all_ended more source_dropped)
recv_all-lane [] (some reply) source_dropped more =
    let calls : 1 + more ≡ suc more = omega arith in
    rw calls (ap (λ (rest : List Received). got reply ∷ rest) (recv_all_ended more source_dropped))
recv_all-lane (payload ∷ items) terminal source_dropped more =
    let left = length (replies items terminal) in
    let calls : suc left + more ≡ suc (left + more) = omega arith in
    let rest = recv_all-lane items terminal source_dropped more in
    rw calls (ap (λ (rest : List Received). got (item payload) ∷ rest) rest)

drop_routes-dropped :
    (id n : ℕ) (calls : List (ℕ × ℕ)) (lanes : ℕ → Lane)
    → get id calls ≡ some n
    → (drop_routes calls lanes n).route_dropped ≡ true
drop_routes-dropped id n [] lanes h = absurd (let bad : ◌≡◌ {A = Option ℕ} none (some n) = h in cc)
drop_routes-dropped id n ((j, m) ∷ calls) lanes h = elim (Bool-cases (m == n)) [
  | inl same ↦ rw same refl
  | inr differs ↦ rw differs (drop_routes-dropped id n calls lanes (ground arith))
]

never_waits : (lane : Lane) → lane.route_dropped ≡ true → (recv lane).0 ≢ pending
unfolding recv
never_waits lane d = taken lane.items lane.terminal
  where
    taken :
        (items : List (List ℕ)) (terminal : Option Reply)
        → (recv_items items (record lane { terminal = terminal })).0 ≢ pending
    taken (payload ∷ items) terminal h = cc
    taken [] none h = let bad = rw d at h in cc
    taken [] (some reply) h = let bad = rw d at h in cc

-- When the loop is over, `recv` waits for no call that had a route: each has an item, its final
-- reply or the end.
pub end_loop-recv :
    (id n : ℕ) (c : Client) → get id c.calls ≡ some n → (recv ((end_loop c).lanes n)).0 ≢ pending
unfolding end_loop
end_loop-recv id n c routed =
    never_waits ((end_loop c).lanes n) (drop_routes-dropped id n c.calls c.lanes routed)

poll_terminal-got :
    (lane : Lane) (reply : Reply)
    → lane.terminal ≡ some reply
    → ((poll_terminal lane).0 ≡ got reply) × ((poll_terminal lane).1.items ≡ lane.items)
unfolding poll_terminal
poll_terminal-got lane reply t = (rw (t, poll_terminal) refl, rw (t, poll_terminal) refl)

poll_items-pending : (lane : Lane) → lane.items ≡ [] → (poll_items lane).0 ≡ pending
unfolding poll_items
poll_items-pending lane e = rw (e, poll_items) refl

module _ (to_allocvec : WireMessage → Option (List ℕ)) where
  -- If the read loop queues the last item of a call and ends the call between the two polls of
  -- `poll_recv`, on a lane that was empty, the poll gives the end of the stream, and the item stays
  -- in the lane.
  pub poll_recv_misses_item :
      (id n : ℕ) (payload : List ℕ) (c : Client)
      → IsRouted id n c
      → (c.lanes n).items ≡ []
      → let c' =
          read_all to_allocvec
            ((Sent.sent, false, stream_item id payload) ∷ (Sent.sent, false, stream_end id) ∷ [])
            c in
        ((poll_items (c.lanes n)).0 ≡ pending)
        × ((poll_terminal (c'.lanes n)).0 ≡ got end)
        × ((poll_terminal (c'.lanes n)).1.items ≡ payload ∷ [])
  poll_recv_misses_item id n payload c i empty =
      let arrivals =
        (Sent.sent, false, stream_item id payload) ∷ (Sent.sent, false, stream_end id) ∷ [] in
      let (held, last) = read_all-delivers to_allocvec id n arrivals c i ((λ same. refl), tt) in
      let here : (id == id) ≡ true = ==_refl id in
      let kept : (c.lanes n).items ++ items_of id arrivals ≡ payload ∷ [] = rw (empty, here) refl in
      let over : terminal_of id arrivals ≡ some end = rw here refl in
      let (polled, left) =
        poll_terminal-got ((read_all to_allocvec arrivals c).lanes n) end (last ∙ over) in
      (poll_items-pending (c.lanes n) empty, polled, left ∙ held ∙ kept)

  -- The client's frame of a message is what `write_message` writes, if the payload's length fits in
  -- four bytes; otherwise the client refuses it, and `write_message` writes a length that is cut off.
  pub serialize_frame-write_message :
      (message : WireMessage) (payload : List ℕ)
      → to_allocvec message ≡ some payload
      → (length payload < 2 ^ 32
          → (frame : List ℕ) × (serialize_frame to_allocvec message ≡ ok frame)
            × (write_message to_allocvec message ≡ ok frame))
        × (2 ^ 32 ≤ length payload
            → (serialize_frame to_allocvec message
                ≡ err (frame_too_large (length payload) (2 ^ 32 - 1)))
              × (write_message to_allocvec message
                  ≡ ok (to_le_bytes (length payload % 2 ^ 32) ++ payload)))
  unfolding serialize_frame write_message
  serialize_frame-write_message message payload serializes = (
    (λ small.
        let test : ltb (length payload) (2 ^ 32) ≡ true = ground arith in
        let whole : length payload % 2 ^ 32 ≡ length payload = omega arith in
        (
          to_le_bytes (length payload) ++ payload,
          rw (serializes, serialize_frame, test) refl,
          rw (serializes, write_message, whole) refl,
        )),
    λ large.
        let test : ltb (length payload) (2 ^ 32) ≡ false = ground arith in
        (rw (serializes, serialize_frame, test) refl, rw (serializes, write_message) refl),
  )
