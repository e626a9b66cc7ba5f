-- ===== src/Transport/Stream/Accounting/Control.antt =====
-- Control tasks and rejected calls keep the count, crates/transport/src/transports/stream.rs.
use overseerd.Base.{
  not, ◌&&◌, ◌==◌, if◌then◌else◌, ℕ, ◌+◌, ◌-◌, ◌≤◌, ◌≡◌, refl, sym, ap, ◌∙◌, subst, Bool, true,
  false, Bool-cases, inl, inr, Option, none, some, Option-cases, List, [], ◌∷◌, ◌++◌, length, leb,
  ltb, get, has_key, remove, replace, arith,
}
use overseerd.Base
use overseerd.Transport.Stream.{
  StreamConnection, CallSlot, CallCompletion, Joined, completion, join_error,
  reconcile_inbound_bytes, remove_call, without_inbound, deactivate,
}
use overseerd.Transport.Stream.Rejecting.{
  Fallible, and_then, finish_control_task, drain_control, spawn_control, terminate,
  reject_inbound_overflow, or_close,
}
use overseerd.Transport.Stream.Accounting.{
  IsAccounted, slot_fits, replaced, close-IsAccounted, reconcile_inbound_bytes-IsAccounted,
  remove_call-IsAccounted,
}

-- The count does not depend on what else the connection keeps.
pub carried :
    (c : StreamConnection) (completions : List CallCompletion) (is_closed : Bool)
    (cancelled : List ℕ) (active : ℕ → Bool) (made : ℕ)
    → IsAccounted c
    → IsAccounted (record c {
      completions = completions;
      is_closed = is_closed;
      cancelled = cancelled;
      active = active;
      made = made;
    })
carried c completions is_closed cancelled active made a = record {
  slots = a.slots;
  exact = a.exact;
  bounded = a.bounded;
  unique = a.unique;
  few = a.few;
  few_tasks = a.few_tasks;
}

pub fewer_tasks :
    (c : StreamConnection) (done : List Joined)
    → length done ≤ length c.control_done
    → IsAccounted c
    → IsAccounted (record c { control_done = done })
fewer_tasks c done fewer a = record {
  slots = a.slots;
  exact = a.exact;
  bounded = a.bounded;
  unique = a.unique;
  few = a.few;
  few_tasks = omega (arith, a.few_tasks);
}

pub finish_control_task-IsAccounted :
    (joined : Joined) (c : StreamConnection)
    → IsAccounted c
    → IsAccounted (finish_control_task joined c).1
unfolding finish_control_task
finish_control_task-IsAccounted join_error c a = a
finish_control_task-IsAccounted (completion id (Base.err why)) c a = a
finish_control_task-IsAccounted (completion id (Base.ok _)) c a =
    elim (Option-cases (get id c.calls)) [
      | inl gone ↦ rw (gone, finish_control_task) a
      | inr (slot, there) ↦ elim (Bool-cases slot.tombstone) [
        | inl dead ↦ rw (there, finish_control_task, dead) (remove_call-IsAccounted id c a)
        | inr alive ↦ rw (there, finish_control_task, alive) a
      ]
    ]

remove_call-control_done :
    (id : ℕ) (c : StreamConnection) → (remove_call id c).control_done ≡ c.control_done
unfolding remove_call
remove_call-control_done id c = elim (Option-cases (get id c.calls)) [
  | inl gone ↦ rw (gone, remove_call) refl
  | inr (slot, there) ↦ rw (there, remove_call) refl
]

finish-control_done :
    (joined : Joined) (c : StreamConnection)
    → (finish_control_task joined c).1.control_done ≡ c.control_done
unfolding finish_control_task
finish-control_done join_error c = refl
finish-control_done (completion id (Base.err why)) c = refl
finish-control_done (completion id (Base.ok _)) c = elim (Option-cases (get id c.calls)) [
  | inl gone ↦ rw (gone, finish_control_task) refl
  | inr (slot, there) ↦ elim (Bool-cases slot.tombstone) [
    | inl dead ↦ rw (there, finish_control_task, dead) (remove_call-control_done id c)
    | inr alive ↦ rw (there, finish_control_task, alive) refl
  ]
]

-- A step that can fail, and the step after it
pub and_then_lem {ℓ} :
    (P Q : StreamConnection → Type ℓ) (r : Fallible) (next : StreamConnection → Fallible)
    → P r.1
    → ((c : StreamConnection) → P c → Q c)
    → ((c : StreamConnection) → P c → Q (next c).1)
    → Q (and_then r next).1
and_then_lem P Q (Base.ok _, c) next here failed later = later c here
and_then_lem P Q (Base.err why, c) next here failed later = failed c here

drain_control-IsAccounted :
    (done : List Joined) (c : StreamConnection)
    → length done ≤ length c.control_done
    → IsAccounted c
    → IsAccounted (drain_control done c).1
unfolding drain_control
drain_control-IsAccounted [] c fewer a = a
drain_control-IsAccounted (joined ∷ done) c fewer a =
    let popped = record c { control_done = done } in
    let here = finish_control_task-IsAccounted joined popped (fewer_tasks c done (omega arith) a) in
    let kept = ap (length {A = Joined}) (finish-control_done joined popped) in
    and_then_lem
      (λ (c1 : StreamConnection). (length done ≤ length c1.control_done) × IsAccounted c1)
      IsAccounted (finish_control_task joined popped) (drain_control done) (omega arith, here)
      (λ c1 h. h.1) (λ c1 h. drain_control-IsAccounted done c1 h.0 h.1)

spawn_control-IsAccounted :
    (id won : ℕ) (c : StreamConnection) → IsAccounted c → IsAccounted (spawn_control id won c).1
unfolding spawn_control
spawn_control-IsAccounted id won c a =
    and_then_lem IsAccounted IsAccounted (drain_control c.control_done c) _
      (drain_control-IsAccounted c.control_done c (omega arith) a) (λ c1 h. h)
      (λ c1 h.
        elim (Bool-cases
          (leb c1.config.max_in_flight_calls (length c1.control_tasks + length c1.control_done))) [
            | inl saturated ↦ rw saturated (close-IsAccounted c1 h)
            | inr free ↦ rw free (record {
              slots = h.slots;
              exact = h.exact;
              bounded = h.bounded;
              unique = h.unique;
              few = h.few;
              few_tasks = ground arith;
            })
          ])

terminate-IsAccounted :
    (id : ℕ) (slot : CallSlot) (c : StreamConnection)
    → get id c.calls ≡ some slot
    → IsAccounted c
    → IsAccounted (terminate id slot c)
unfolding terminate
terminate-IsAccounted id slot c there a =
    let (fits, part) = slot_fits c id slot a there in
    let dead = record (without_inbound slot) {
      tombstone = if c.active slot.active then true else slot.tombstone;
    } in
    let less = c.inbound_bytes - slot.inbound_bytes in
    carried (record c { calls = replace id dead c.calls; inbound_bytes = less }) c.completions
      c.is_closed (slot.cancel ∷ c.cancelled) (deactivate slot.active c.active) c.made
      (replaced c id less slot dead a there (refl, omega arith) (omega arith)
        (omega (arith, a.bounded)))

pub reject_inbound_overflow-IsAccounted :
    (capacity : ℕ → ℕ) (id : ℕ) (c : StreamConnection)
    → IsAccounted c
    → IsAccounted (reject_inbound_overflow capacity id c).1
unfolding reject_inbound_overflow
reject_inbound_overflow-IsAccounted capacity id c a =
    let r = reconcile_inbound_bytes capacity id c in
    let b = reconcile_inbound_bytes-IsAccounted capacity id c a in
    elim (Option-cases (get id r.calls)) [
      | inl gone ↦ rw (gone, reject_inbound_overflow) b
      | inr (slot, there) ↦
          let done = terminate-IsAccounted id slot r there b in
          elim (Bool-cases (r.active slot.active)) [
            | inl won ↦
                rw (there, reject_inbound_overflow, won)
                  (spawn_control-IsAccounted id slot.active (terminate id slot r) done)
            | inr lost ↦ rw (there, reject_inbound_overflow, lost) done
          ]
    ]

pub or_close-IsAccounted : (r : Fallible) → IsAccounted r.1 → IsAccounted (or_close r).1
or_close-IsAccounted (Base.ok _, c) a = a
or_close-IsAccounted (Base.err why, c) a = close-IsAccounted c a
