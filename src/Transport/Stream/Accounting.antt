-- ===== src/Transport/Stream/Accounting.antt =====
-- The bytes that a connection counts, crates/transport/src/transports/stream.rs.
pub mod Control
pub mod Items
pub mod Turns
pub mod Sharing
use overseerd.Base.{
  ℕ, ◌+◌, ◌-◌, ◌≤◌, ◌<◌, ◌≡◌, refl, sym, ap, ◌∙◌, subst, Bool, true, false, Bool-cases, inl, inr,
  Option, none, some, Option-cases, List, [], ◌∷◌, ◌++◌, length, ltb, get, has_key, remove, replace,
  map_values, total, distinct_keys, AllValues, AllValues-get, AllValues-remove, AllValues-replace,
  AllValues-map_values, total-remove, total-replace, distinct_keys-remove, distinct_keys-replace,
  distinct_keys-map_values, length-remove, length-replace, length-map_values, arith,
}
use overseerd.Transport.Stream.{
  StreamConnection, CallSlot, cancel_all, close, released, unreleased, slot_released,
  reconcile_slot, reconcile_inbound_bytes, all_released, reconcile_all_inbound_bytes, remove_call,
  without_inbound, discard_closed_inbound, end_consumed, finalize_consumed_inbound_ends,
}

abbrev pub sum : List ℕ → ℕ
sum [] = 0
sum (size ∷ sizes) = size + sum sizes

abbrev pub bytes_of : CallSlot → ℕ
bytes_of slot = slot.inbound_bytes

-- The bytes of a slot are those of its items, and within the limit of a call.
abbrev pub SlotFits : ℕ → CallSlot → Type 0
SlotFits limit slot = (slot.inbound_bytes ≡ sum slot.inbound_sizes) × (slot.inbound_bytes ≤ limit)

-- The bytes of the connection are those of its slots, within the limit, one slot for each id; there
-- are at most the maximum of calls and of control tasks.
pub record IsAccounted (c : StreamConnection) : Type 0 where
  pub slots : AllValues (SlotFits c.config.max_inbound_bytes_per_call) c.calls
  pub exact : total bytes_of c.calls ≡ c.inbound_bytes
  pub bounded : c.inbound_bytes ≤ c.config.max_inbound_bytes_per_connection
  pub unique : distinct_keys c.calls ≡ true
  pub few : length c.calls ≤ c.config.max_in_flight_calls
  pub few_tasks : length c.control_tasks + length c.control_done ≤ c.config.max_in_flight_calls

released-sum :
    (queued : ℕ) (sizes : List ℕ)
    → released queued sizes + sum (unreleased queued sizes) ≡ sum sizes
unfolding released unreleased
released-sum queued [] = refl
released-sum queued (size ∷ sizes) = ground (arith, released-sum queued sizes)

pub reconcile_slot-SlotFits :
    (capacity : ℕ → ℕ) (limit : ℕ) (slot : CallSlot)
    → SlotFits limit slot
    → SlotFits limit (reconcile_slot capacity slot)
unfolding reconcile_slot
reconcile_slot-SlotFits capacity limit slot (e, h) = elim (Option-cases slot.inbound) [
  | inl gone ↦ rw (gone, reconcile_slot) (e, h)
  | inr (channel, there) ↦
      let r = released-sum (32 - capacity channel) slot.inbound_sizes in
      rw (there, reconcile_slot) (omega arith, omega arith)
]

slot_released_lem :
    (capacity : ℕ → ℕ) (limit : ℕ) (slot : CallSlot)
    → SlotFits limit slot
    → slot_released capacity slot + bytes_of (reconcile_slot capacity slot) ≡ bytes_of slot
unfolding reconcile_slot slot_released
slot_released_lem capacity limit slot (e, h) = elim (Option-cases slot.inbound) [
  | inl gone ↦ rw (gone, reconcile_slot, slot_released) (omega arith)
  | inr (channel, there) ↦
      let r = released-sum (32 - capacity channel) slot.inbound_sizes in
      rw (there, reconcile_slot, slot_released) (omega arith)
]

all_released_lem :
    (capacity : ℕ → ℕ) (limit : ℕ) (calls : List (ℕ × CallSlot))
    → AllValues (SlotFits limit) calls
    → all_released capacity calls + total bytes_of (map_values (reconcile_slot capacity) calls)
      ≡ total bytes_of calls
unfolding all_released
all_released_lem capacity limit [] h = refl
all_released_lem capacity limit ((id, slot) ∷ calls) (h, hs) =
    omega (arith, slot_released_lem capacity limit slot h, all_released_lem capacity limit calls hs)

-- A slot is replaced by one that fits: what the connection counts changes by as much.
pub replaced :
    (c : StreamConnection) (id n : ℕ) (slot slot' : CallSlot)
    → IsAccounted c
    → get id c.calls ≡ some slot
    → SlotFits c.config.max_inbound_bytes_per_call slot'
    → n + bytes_of slot ≡ c.inbound_bytes + bytes_of slot'
    → n ≤ c.config.max_inbound_bytes_per_connection
    → IsAccounted (record c { calls = replace id slot' c.calls; inbound_bytes = n })
replaced c id n slot slot' a there fits count bound =
    let sums = total-replace bytes_of id slot slot' c.calls a.unique there in
    record {
      slots =
          AllValues-replace (SlotFits c.config.max_inbound_bytes_per_call) id slot' c.calls fits
            a.slots;
      exact = omega (arith, a.exact);
      bounded = bound;
      unique = distinct_keys-replace id slot' c.calls ∙ a.unique;
      few = omega (arith, a.few, length-replace id slot' c.calls);
      few_tasks = a.few_tasks;
    }

pub removed :
    (c : StreamConnection) (id : ℕ) (slot : CallSlot)
    → IsAccounted c
    → get id c.calls ≡ some slot
    → IsAccounted (record c {
      calls = remove id c.calls;
      inbound_bytes = c.inbound_bytes - slot.inbound_bytes;
    })
removed c id slot a there =
    let sums = total-remove bytes_of id slot c.calls a.unique there in
    let short = length-remove id c.calls in
    record {
      slots = AllValues-remove (SlotFits c.config.max_inbound_bytes_per_call) id c.calls a.slots;
      exact = omega (arith, a.exact);
      bounded = omega (arith, a.bounded);
      unique = distinct_keys-remove id c.calls a.unique;
      few = omega (arith, a.few);
      few_tasks = a.few_tasks;
    }

-- What a slot counts is part of what the connection counts.
pub slot_fits :
    (c : StreamConnection) (id : ℕ) (slot : CallSlot)
    → IsAccounted c
    → get id c.calls ≡ some slot
    → SlotFits c.config.max_inbound_bytes_per_call slot × (slot.inbound_bytes ≤ c.inbound_bytes)
slot_fits c id slot a there =
    let sums = total-remove bytes_of id slot c.calls a.unique there in
    (
      AllValues-get (SlotFits c.config.max_inbound_bytes_per_call) id slot c.calls a.slots there,
      omega (arith, a.exact),
    )

pub close-IsAccounted : (c : StreamConnection) → IsAccounted c → IsAccounted (close c)
unfolding close cancel_all
close-IsAccounted c a = record {
  slots = a.slots;
  exact = a.exact;
  bounded = a.bounded;
  unique = a.unique;
  few = a.few;
  few_tasks = a.few_tasks;
}

pub reconcile_inbound_bytes-IsAccounted :
    (capacity : ℕ → ℕ) (id : ℕ) (c : StreamConnection)
    → IsAccounted c
    → IsAccounted (reconcile_inbound_bytes capacity id c)
unfolding reconcile_inbound_bytes
reconcile_inbound_bytes-IsAccounted capacity id c a = elim (Option-cases (get id c.calls)) [
  | inl gone ↦ rw (gone, reconcile_inbound_bytes) a
  | inr (slot, there) ↦
      let limit = c.config.max_inbound_bytes_per_call in
      let (fits, part) = slot_fits c id slot a there in
      let less = slot_released_lem capacity limit slot fits in
      rw (there, reconcile_inbound_bytes)
        (replaced c id (c.inbound_bytes - slot_released capacity slot) slot
          (reconcile_slot capacity slot) a there (reconcile_slot-SlotFits capacity limit slot fits)
          (omega arith) (omega (arith, a.bounded)))
]

pub reconcile_all_inbound_bytes-IsAccounted :
    (capacity : ℕ → ℕ) (c : StreamConnection)
    → IsAccounted c
    → IsAccounted (reconcile_all_inbound_bytes capacity c)
unfolding reconcile_all_inbound_bytes
reconcile_all_inbound_bytes-IsAccounted capacity c a =
    let limit = c.config.max_inbound_bytes_per_call in
    let f = reconcile_slot capacity in
    let less = all_released_lem capacity limit c.calls a.slots in
    record {
      slots =
          AllValues-map_values (SlotFits limit) f (reconcile_slot-SlotFits capacity limit) c.calls
            a.slots;
      exact = omega (arith, a.exact);
      bounded = omega (arith, a.bounded);
      unique = distinct_keys-map_values f c.calls ∙ a.unique;
      few = omega (arith, a.few, length-map_values f c.calls);
      few_tasks = a.few_tasks;
    }

pub remove_call-IsAccounted :
    (id : ℕ) (c : StreamConnection) → IsAccounted c → IsAccounted (remove_call id c)
unfolding remove_call
remove_call-IsAccounted id c a = elim (Option-cases (get id c.calls)) [
  | inl gone ↦ rw (gone, remove_call) a
  | inr (slot, there) ↦ rw (there, remove_call) (removed c id slot a there)
]

pub discard_closed_inbound-IsAccounted :
    (id : ℕ) (c : StreamConnection) → IsAccounted c → IsAccounted (discard_closed_inbound id c)
unfolding discard_closed_inbound
discard_closed_inbound-IsAccounted id c a = elim (Option-cases (get id c.calls)) [
  | inl gone ↦ rw (gone, discard_closed_inbound) a
  | inr (slot, there) ↦
      let (fits, part) = slot_fits c id slot a there in
      rw (there, discard_closed_inbound)
        (replaced c id (c.inbound_bytes - slot.inbound_bytes) slot (without_inbound slot) a there
          (refl, omega arith) (omega arith) (omega (arith, a.bounded)))
]

-- Slots are changed where no byte is counted.
abbrev SameCount : (CallSlot → CallSlot) → Type 0
SameCount f =
    (slot : CallSlot)
    → ((f slot).inbound_bytes ≡ slot.inbound_bytes) × ((f slot).inbound_sizes ≡ slot.inbound_sizes)

total-same :
    (f : CallSlot → CallSlot) (calls : List (ℕ × CallSlot))
    → SameCount f
    → total bytes_of (map_values f calls) ≡ total bytes_of calls
total-same f [] same = refl
total-same f ((id, slot) ∷ calls) same = omega (arith, total-same f calls same, (same slot).0)

end_consumed-SameCount : SameCount end_consumed
end_consumed-SameCount slot = ground arith

end_consumed-SlotFits :
    (limit : ℕ) (slot : CallSlot) → SlotFits limit slot → SlotFits limit (end_consumed slot)
end_consumed-SlotFits limit slot (e, h) = ground arith

pub finalize_consumed_inbound_ends-IsAccounted :
    (capacity : ℕ → ℕ) (c : StreamConnection)
    → IsAccounted c
    → IsAccounted (finalize_consumed_inbound_ends capacity c)
unfolding finalize_consumed_inbound_ends
finalize_consumed_inbound_ends-IsAccounted capacity c a =
    let r = reconcile_all_inbound_bytes capacity c in
    let b = reconcile_all_inbound_bytes-IsAccounted capacity c a in
    let limit = r.config.max_inbound_bytes_per_call in
    record {
      slots =
          AllValues-map_values (SlotFits limit) end_consumed (end_consumed-SlotFits limit) r.calls
            b.slots;
      exact = total-same end_consumed r.calls end_consumed-SameCount ∙ b.exact;
      bounded = b.bounded;
      unique = distinct_keys-map_values end_consumed r.calls ∙ b.unique;
      few = omega (arith, b.few, length-map_values end_consumed r.calls);
      few_tasks = b.few_tasks;
    }
