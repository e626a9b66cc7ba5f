-- ===== src/Transport/Stream/Claims/Frames.antt =====
-- Who may still write the final frame of a call after a frame has been handled,
-- crates/transport/src/transports/stream.rs.
use overseerd.Base.{
  ℕ, ◌+◌, ◌≤◌, ◌≡◌, refl, sym, ap, ◌∙◌, subst, Bool, true, false, not, ◌&&◌, ◌==◌, Bool-cases, ◌⊎◌,
  inl, inr, Option, none, some, Option-cases, List, [], ◌∷◌, one_if, if◌then◌else◌, get, has_key,
  length, leb, ==_refl, arith,
}
use overseerd.Base
use overseerd.Transport.Stream.{
  StreamConnection, CallSlot, Joined, completion, join_error, close, reconcile_inbound_bytes,
  remove_call, discard_closed_inbound,
}
use overseerd.Transport.Stream.Recv.{
  route_item, count_item, accepts_items, handle_sent, handle_item, handle_end, cancel_call,
  handle_cancel,
}
use overseerd.Transport.Stream.Rejecting.{
  Answers, Sent, Fallible, and_then, finish_control_task, drain_control, spawn_control, terminate,
  reject_inbound_overflow, or_close,
}
use overseerd.Transport.Stream.Claims.{
  claims, Less, Less-refl, Less-trans, Untouched, Untouched-trans, Untouched-Less,
  reconcile_inbound_bytes-Untouched, remove_call-Untouched, discard_closed_inbound-Untouched,
  close-Less, deactivate-le,
}

pub finish_control_task-Untouched :
    (joined : Joined) (c : StreamConnection) → Untouched c (finish_control_task joined c).1
unfolding finish_control_task
finish_control_task-Untouched join_error c = (refl, refl, refl)
finish_control_task-Untouched (completion id (Base.err why)) c = (refl, refl, refl)
finish_control_task-Untouched (completion id (Base.ok _)) c = elim (Option-cases (get id c.calls)) [
  | inl gone ↦ rw (gone, finish_control_task) (refl, refl, refl)
  | inr (slot, there) ↦ elim (Bool-cases slot.tombstone) [
    | inl dead ↦ rw (there, finish_control_task) (simp dead (remove_call-Untouched id c))
    | inr alive ↦ rw (there, finish_control_task) (simp alive (refl, refl, refl))
  ]
]

and_then-Untouched :
    (c : StreamConnection) (r : Fallible) (next : StreamConnection → Fallible)
    → Untouched c r.1
    → ((c1 : StreamConnection) → Untouched c1 (next c1).1)
    → Untouched c (and_then r next).1
and_then-Untouched c (Base.ok _, c1) next here later =
    Untouched-trans c c1 (next c1).1 here (later c1)
and_then-Untouched c (Base.err why, c1) next here later = here

drain_control-Untouched :
    (done : List Joined) (c : StreamConnection) → Untouched c (drain_control done c).1
unfolding drain_control
drain_control-Untouched [] c = (refl, refl, refl)
drain_control-Untouched (joined ∷ done) c =
    let popped = record c { control_done = done } in
    and_then-Untouched c (finish_control_task joined popped) (drain_control done)
      (finish_control_task-Untouched joined popped) (drain_control-Untouched done)

-- The flag that was won passes to the task.
abbrev Passes : ℕ → StreamConnection → StreamConnection → Type 0
Passes won c c' = (c'.made ≡ c.made) × ((n : ℕ) → claims n c' ≤ claims n c + one_if (won == n))

and_then-Passes :
    (won : ℕ) (c : StreamConnection) (r : Fallible) (next : StreamConnection → Fallible)
    → Untouched c r.1
    → ((c1 : StreamConnection) → Passes won c1 (next c1).1)
    → Passes won c (and_then r next).1
and_then-Passes won c (Base.ok _, c1) next here later =
    let (m, f) = Untouched-Less c c1 here in
    let (k, g) = later c1 in (k ∙ m, λ n. let x = f n in let y = g n in omega arith)
and_then-Passes won c (Base.err why, c1) next here later =
    let (m, f) = Untouched-Less c c1 here in (m, λ n. let x = f n in omega arith)

spawn_control-Passes : (id won : ℕ) (c : StreamConnection) → Passes won c (spawn_control id won c).1
unfolding spawn_control
spawn_control-Passes id won c =
    and_then-Passes won c (drain_control c.control_done c) _
      (drain_control-Untouched c.control_done c)
      (λ c1.
        elim (Bool-cases
          (leb c1.config.max_in_flight_calls (length c1.control_tasks + length c1.control_done))) [
            | inl saturated ↦
                let (m, f) = close-Less c1 in rw saturated (m, λ n. let x = f n in omega arith)
            | inr free ↦ rw free (refl, λ n. omega arith)
          ])

terminate-won :
    (id : ℕ) (slot : CallSlot) (c : StreamConnection)
    → c.active slot.active ≡ true
    → (n : ℕ) → claims n (terminate id slot c) + one_if (slot.active == n) ≤ claims n c
unfolding terminate
terminate-won id slot c won n = ground arith

terminate-Less : (id : ℕ) (slot : CallSlot) (c : StreamConnection) → Less c (terminate id slot c)
unfolding terminate
terminate-Less id slot c =
    (refl, λ n. let fewer = deactivate-le slot.active n c.active in omega arith)

reject_inbound_overflow-Less :
    (capacity : ℕ → ℕ) (id : ℕ) (c : StreamConnection)
    → Less c (reject_inbound_overflow capacity id c).1
unfolding reject_inbound_overflow
reject_inbound_overflow-Less capacity id c =
    let r = reconcile_inbound_bytes capacity id c in
    let here = Untouched-Less c r (reconcile_inbound_bytes-Untouched capacity id c) in
    elim (Option-cases (get id r.calls)) [
      | inl gone ↦ rw (gone, reject_inbound_overflow) here
      | inr (slot, there) ↦ elim (Bool-cases (r.active slot.active)) [
        | inl won ↦
            let (k, g) = spawn_control-Passes id slot.active (terminate id slot r) in
            let same = (terminate-Less id slot r).0 in
            let last : Less r (spawn_control id slot.active (terminate id slot r)).1 = (
              k ∙ same,
              λ n. let x = g n in let y = terminate-won id slot r won n in omega arith,
            ) in
            rw (there, reject_inbound_overflow, won)
              (Less-trans c r (spawn_control id slot.active (terminate id slot r)).1 here last)
        | inr lost ↦
            rw (there, reject_inbound_overflow, lost)
              (Less-trans c r (terminate id slot r) here (terminate-Less id slot r))
      ]
    ]

pub or_close-Less : (c : StreamConnection) (r : Fallible) → Less c r.1 → Less c (or_close r).1
or_close-Less c (Base.ok _, c1) here = here
or_close-Less c (Base.err why, c1) here = Less-trans c c1 (close c1) here (close-Less c1)

count_item-Untouched :
    (id len call_bytes connection_bytes : ℕ) (c : StreamConnection)
    → Untouched c (count_item id len call_bytes connection_bytes c)
unfolding count_item
count_item-Untouched id len call_bytes connection_bytes c = elim (Option-cases (get id c.calls)) [
  | inl gone ↦ rw (gone, count_item) (refl, refl, refl)
  | inr (slot, there) ↦ rw (there, count_item) (refl, refl, refl)
]

handle_sent-Less :
    (a : Answers) (id len call_bytes connection_bytes : ℕ) (answer : Sent) (c : StreamConnection)
    → Less c (handle_sent a id len call_bytes connection_bytes answer c).1
unfolding handle_sent
handle_sent-Less a id len call_bytes connection_bytes Sent.sent c =
    Untouched-Less c (count_item id len call_bytes connection_bytes c)
      (count_item-Untouched id len call_bytes connection_bytes c)
handle_sent-Less a id len call_bytes connection_bytes Sent.full c =
    or_close-Less c (reject_inbound_overflow a.at_reject id c)
      (reject_inbound_overflow-Less a.at_reject id c)
handle_sent-Less a id len call_bytes connection_bytes Sent.closed c =
    Untouched-Less c (discard_closed_inbound id c) (discard_closed_inbound-Untouched id c)

pub handle_item-Less :
    (a : Answers) (id len : ℕ) (c : StreamConnection) → Less c (handle_item a id len c).1
unfolding handle_item
handle_item-Less a id len c = elim (Option-cases (route_item c len (get id c.calls))) [
  | inl refused ↦ elim (Bool-cases (accepts_items (get id c.calls))) [
    | inl open_ended ↦
        rw (refused, handle_item, open_ended)
          (or_close-Less c (reject_inbound_overflow a.at_reject id c)
            (reject_inbound_overflow-Less a.at_reject id c))
    | inr ended ↦ rw (refused, handle_item, ended) (Less-refl c)
  ]
  | inr ((channel, call_bytes, connection_bytes), routed) ↦
      rw (routed, handle_item) (handle_sent-Less a id len call_bytes connection_bytes a.try_send c)
]

pub handle_end-Untouched :
    (a : Answers) (id : ℕ) (c : StreamConnection) → Untouched c (handle_end a id c)
unfolding handle_end
handle_end-Untouched a id c =
    let r = reconcile_inbound_bytes a.at_message id c in
    let here = reconcile_inbound_bytes-Untouched a.at_message id c in
    elim (Option-cases (get id r.calls)) [
      | inl gone ↦ rw (gone, handle_end) here
      | inr (slot, there) ↦ rw (there, handle_end) here
    ]

cancel_call-Less :
    (id : ℕ) (slot : CallSlot) (c : StreamConnection) → Less c (cancel_call id slot c)
unfolding cancel_call
cancel_call-Less id slot c =
    let r = remove_call id c in
    let (m, f) = Untouched-Less c r (remove_call-Untouched id c) in
    (m, λ n. let x = f n in let y = deactivate-le slot.active n r.active in omega arith)

pub handle_cancel-Less : (id : ℕ) (c : StreamConnection) → Less c (handle_cancel id c)
unfolding handle_cancel
handle_cancel-Less id c = elim (Option-cases (get id c.calls)) [
  | inl gone ↦ rw (gone, handle_cancel) (Less-refl c)
  | inr (slot, there) ↦ elim (Bool-cases slot.tombstone) [
    | inl dead ↦ rw (there, handle_cancel) (simp dead (Less-refl c))
    | inr alive ↦ rw (there, handle_cancel) (simp alive (cancel_call-Less id slot c))
  ]
]
