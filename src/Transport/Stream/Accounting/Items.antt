-- ===== src/Transport/Stream/Accounting/Items.antt =====
-- Request items keep the count, crates/transport/src/transports/stream.rs.
use overseerd.Base.{
  ℕ, ◌+◌, ◌≤◌, ◌≡◌, refl, Bool-cases, inl, inr, Option, none, some, Option-cases, List, [], ◌∷◌,
  ◌++◌, get, arith,
}
use overseerd.Transport.Stream.{StreamConnection, CallSlot}
use overseerd.Transport.Stream.Recv.{
  checked_add, route_item, count_item, accepts_items, handle_sent, handle_item,
}
use overseerd.Transport.Stream.Rejecting.{Answers, Sent, reject_inbound_overflow}
use overseerd.Transport.Stream.Accounting.{
  sum, IsAccounted, slot_fits, replaced, discard_closed_inbound-IsAccounted,
}
use overseerd.Transport.Stream.Accounting.Control.{
  reject_inbound_overflow-IsAccounted, or_close-IsAccounted,
}

-- An item is routed only within both limits, and to a call.
abbrev Routed : StreamConnection → ℕ → Option CallSlot → ℕ → ℕ → Type 0
Routed c len none call_bytes connection_bytes = ⊥
Routed c len (some slot) call_bytes connection_bytes =
    (call_bytes ≡ slot.inbound_bytes + len)
    × (call_bytes ≤ c.config.max_inbound_bytes_per_call)
    × (connection_bytes ≡ c.inbound_bytes + len)
    × (connection_bytes ≤ c.config.max_inbound_bytes_per_connection)

route_item-Routed :
    (c : StreamConnection) (len channel call_bytes connection_bytes : ℕ) (found : Option CallSlot)
    → route_item c len found ≡ some (channel, call_bytes, connection_bytes)
    → Routed c len found call_bytes connection_bytes
unfolding route_item checked_add
route_item-Routed c len channel call_bytes connection_bytes none h = absurd (cc)
route_item-Routed c len channel call_bytes connection_bytes (some slot) h = ground arith

sum-snoc : (sizes : List ℕ) (len : ℕ) → sum (sizes ++ len ∷ []) ≡ sum sizes + len
sum-snoc [] len = omega arith
sum-snoc (size ∷ sizes) len = omega (arith, sum-snoc sizes len)

count_item-IsAccounted :
    (id len call_bytes connection_bytes : ℕ) (found : Option CallSlot) (c : StreamConnection)
    → get id c.calls ≡ found
    → Routed c len found call_bytes connection_bytes
    → IsAccounted c
    → IsAccounted (count_item id len call_bytes connection_bytes c)
unfolding count_item
count_item-IsAccounted id len call_bytes connection_bytes none c there routed a = absurd routed
count_item-IsAccounted id len call_bytes connection_bytes (some slot) c there (e, h, f, k) a =
    let (fits, part) = slot_fits c id slot a there in
    let more = sum-snoc slot.inbound_sizes len in
    rw (there, count_item)
      (replaced c id connection_bytes slot
        (record slot { inbound_sizes = slot.inbound_sizes ++ len ∷ []; inbound_bytes = call_bytes })
        a there (omega (arith, fits.0), h) (omega arith) k)

handle_sent-IsAccounted :
    (a : Answers) (id len call_bytes connection_bytes : ℕ) (answer : Sent) (c : StreamConnection)
    → Routed c len (get id c.calls) call_bytes connection_bytes
    → IsAccounted c
    → IsAccounted (handle_sent a id len call_bytes connection_bytes answer c).1
unfolding handle_sent
handle_sent-IsAccounted a id len call_bytes connection_bytes Sent.sent c within accounted =
    count_item-IsAccounted id len call_bytes connection_bytes (get id c.calls) c refl within
      accounted
handle_sent-IsAccounted a id len call_bytes connection_bytes Sent.full c within accounted =
    or_close-IsAccounted (reject_inbound_overflow a.at_reject id c)
      (reject_inbound_overflow-IsAccounted a.at_reject id c accounted)
handle_sent-IsAccounted a id len call_bytes connection_bytes Sent.closed c within accounted =
    discard_closed_inbound-IsAccounted id c accounted

pub handle_item-IsAccounted :
    (a : Answers) (id len : ℕ) (c : StreamConnection)
    → IsAccounted c
    → IsAccounted (handle_item a id len c).1
unfolding handle_item
handle_item-IsAccounted a id len c accounted =
    let rejected =
      or_close-IsAccounted (reject_inbound_overflow a.at_reject id c)
        (reject_inbound_overflow-IsAccounted a.at_reject id c accounted) in
    elim (Option-cases (route_item c len (get id c.calls))) [
      | inl refused ↦ elim (Bool-cases (accepts_items (get id c.calls))) [
        | inl open_ended ↦ rw (refused, handle_item, open_ended) rejected
        | inr ended ↦ rw (refused, handle_item, ended) accounted
      ]
      | inr ((channel, call_bytes, connection_bytes), routed) ↦
          let within =
            route_item-Routed c len channel call_bytes connection_bytes (get id c.calls) routed in
          rw (routed, handle_item)
            (handle_sent-IsAccounted a id len call_bytes connection_bytes a.try_send c within
              accounted)
    ]
