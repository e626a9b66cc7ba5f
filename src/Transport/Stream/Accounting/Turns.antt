-- ===== src/Transport/Stream/Accounting/Turns.antt =====
-- The turns of `recv` keep the count, crates/transport/src/transports/stream.rs.
use overseerd.Base.{
  not, ◌&&◌, ◌==◌, ℕ, ◌≡◌, refl, ap, false, Bool-cases, inl, inr, Option-cases, List, [], ◌∷◌,
  length, leb, get, has_key, arith,
}
use overseerd.Transport.Wire.{
  disconnected, WireMessage, WireRequest, request, response, stream_item, stream_end, stream_error,
  stream_cancel,
}
use overseerd.Transport.Stream.{
  StreamConnection, CallSlot, CallCompletion, Joined, reconcile_inbound_bytes,
  reconcile_all_inbound_bytes, remove_call, finalize_consumed_inbound_ends, deactivate,
}
use overseerd.Transport.Stream.Recv.{
  end_slot, handle_end, cancel_call, handle_cancel, accept, handle_request, handle_message,
  handle_completion, any_ending, handle_branch, recv_turn,
}
use overseerd.Transport.Stream.Rejecting.{
  Answers, Branch, call_completed, control_joined, shut_down, reconcile_tick, message_read,
  read_failed, finish_control_task,
}
use overseerd.Transport.Stream.Accounting.{
  sum, IsAccounted, slot_fits, replaced, close-IsAccounted, reconcile_inbound_bytes-IsAccounted,
  reconcile_all_inbound_bytes-IsAccounted, remove_call-IsAccounted,
  finalize_consumed_inbound_ends-IsAccounted,
}
use overseerd.Transport.Stream.Accounting.Control.{
  carried, fewer_tasks, finish_control_task-IsAccounted, or_close-IsAccounted,
}
use overseerd.Transport.Stream.Accounting.Items.{handle_item-IsAccounted}

end_slot-same :
    (slot : CallSlot)
    → ((end_slot slot).inbound_bytes ≡ slot.inbound_bytes)
      × ((end_slot slot).inbound_sizes ≡ slot.inbound_sizes)
end_slot-same slot = ground arith

handle_end-IsAccounted :
    (a : Answers) (id : ℕ) (c : StreamConnection) → IsAccounted c → IsAccounted (handle_end a id c)
unfolding handle_end
handle_end-IsAccounted a id c accounted =
    let r = reconcile_inbound_bytes a.at_message id c in
    let b = reconcile_inbound_bytes-IsAccounted a.at_message id c accounted in
    elim (Option-cases (get id r.calls)) [
      | inl gone ↦ rw (gone, handle_end) b
      | inr (slot, there) ↦
          let (fits, part) = slot_fits r id slot b there in
          let same = end_slot-same slot in
          rw (there, handle_end)
            (replaced r id r.inbound_bytes slot (end_slot slot) b there
              (omega (arith, same.0, ap sum same.1, fits.0), omega (arith, same.0, fits.1))
              (omega (arith, same.0)) b.bounded)
    ]

cancel_call-IsAccounted :
    (id : ℕ) (slot : CallSlot) (c : StreamConnection)
    → IsAccounted c
    → IsAccounted (cancel_call id slot c)
unfolding cancel_call
cancel_call-IsAccounted id slot c a =
    let r = remove_call id c in
    carried r r.completions r.is_closed (slot.cancel ∷ r.cancelled)
      (deactivate slot.active r.active) r.made (remove_call-IsAccounted id c a)

handle_cancel-IsAccounted :
    (id : ℕ) (c : StreamConnection) → IsAccounted c → IsAccounted (handle_cancel id c)
unfolding handle_cancel
handle_cancel-IsAccounted id c a = elim (Option-cases (get id c.calls)) [
  | inl gone ↦ rw (gone, handle_cancel) a
  | inr (slot, there) ↦ elim (Bool-cases slot.tombstone) [
    | inl dead ↦ rw (there, handle_cancel) (simp dead a)
    | inr alive ↦ rw (there, handle_cancel) (simp alive (cancel_call-IsAccounted id slot c a))
  ]
]

accept-IsAccounted :
    (req : WireRequest) (c : StreamConnection)
    → has_key req.id c.calls ≡ false
    → leb c.config.max_in_flight_calls (length c.calls) ≡ false
    → IsAccounted c
    → IsAccounted (accept req c)
accept-IsAccounted req c fresh free a = record {
  slots = ((refl, omega arith), a.slots);
  exact = omega (arith, a.exact);
  bounded = a.bounded;
  unique = rw fresh a.unique;
  few = ground arith;
  few_tasks = a.few_tasks;
}

handle_request-IsAccounted :
    (req : WireRequest) (c : StreamConnection)
    → IsAccounted c
    → IsAccounted (handle_request req c).1
unfolding handle_request
handle_request-IsAccounted req c a = elim (Bool-cases (has_key req.id c.calls)) [
  | inl known ↦ rw known (close-IsAccounted c a)
  | inr fresh ↦ elim (Bool-cases (leb c.config.max_in_flight_calls (length c.calls))) [
    | inl many ↦ rw (fresh, many) (close-IsAccounted c a)
    | inr free ↦ rw (fresh, free) (accept-IsAccounted req c fresh free a)
  ]
]

handle_message-IsAccounted :
    (a : Answers) (message : WireMessage) (c : StreamConnection)
    → IsAccounted c
    → IsAccounted (handle_message a message c).1
unfolding handle_message
handle_message-IsAccounted a (request req) c accounted = handle_request-IsAccounted req c accounted
handle_message-IsAccounted a (stream_item id payload) c accounted =
    handle_item-IsAccounted a id (length payload) (reconcile_all_inbound_bytes a.at_message c)
      (reconcile_all_inbound_bytes-IsAccounted a.at_message c accounted)
handle_message-IsAccounted a (stream_end id) c accounted = handle_end-IsAccounted a id c accounted
handle_message-IsAccounted a (stream_cancel id) c accounted =
    handle_cancel-IsAccounted id c accounted
handle_message-IsAccounted a (response r) c accounted = close-IsAccounted c accounted
handle_message-IsAccounted a (stream_error id code body) c accounted = close-IsAccounted c accounted

handle_completion-IsAccounted :
    (completed : CallCompletion) (c : StreamConnection)
    → IsAccounted c
    → IsAccounted (handle_completion completed c)
unfolding handle_completion
handle_completion-IsAccounted completed c a = elim (Option-cases (get completed.id c.calls)) [
  | inl gone ↦ rw (gone, handle_completion) a
  | inr (slot, there) ↦ elim (Bool-cases (not slot.tombstone && slot.active == completed.active)) [
    | inl same ↦
        rw (there, handle_completion) (simp same (remove_call-IsAccounted completed.id c a))
    | inr other ↦ rw (there, handle_completion) (simp other a)
  ]
]

control_joined-IsAccounted :
    (a : Answers) (done : List Joined) (c : StreamConnection)
    → c.control_done ≡ done
    → IsAccounted c
    → IsAccounted (handle_branch a control_joined c).1
unfolding handle_branch
control_joined-IsAccounted a [] c e accounted = rw (e, handle_branch) accounted
control_joined-IsAccounted a (joined ∷ done) c e accounted =
    let popped = record c { control_done = done } in
    let fewer = ap (length {A = Joined}) e in
    rw (e, handle_branch)
      (or_close-IsAccounted (finish_control_task joined popped) (
        finish_control_task-IsAccounted joined popped (fewer_tasks c done (omega arith) accounted)))

call_completed-IsAccounted :
    (a : Answers) (completions : List CallCompletion) (c : StreamConnection)
    → c.completions ≡ completions
    → IsAccounted c
    → IsAccounted (handle_branch a call_completed c).1
unfolding handle_branch
call_completed-IsAccounted a [] c e accounted = rw (e, handle_branch) accounted
call_completed-IsAccounted a (completed ∷ rest) c e accounted =
    let popped = record c { completions = rest } in
    rw (e, handle_branch)
      (handle_completion-IsAccounted completed popped
        (carried c rest c.is_closed c.cancelled c.active c.made accounted))

handle_branch-IsAccounted :
    (a : Answers) (branch : Branch) (c : StreamConnection)
    → IsAccounted c
    → IsAccounted (handle_branch a branch c).1
unfolding handle_branch
handle_branch-IsAccounted a call_completed c accounted =
    call_completed-IsAccounted a c.completions c refl accounted
handle_branch-IsAccounted a control_joined c accounted =
    control_joined-IsAccounted a c.control_done c refl accounted
handle_branch-IsAccounted a shut_down c accounted = elim (Bool-cases c.is_closed) [
  | inl shut ↦ simp shut (close-IsAccounted c accounted)
  | inr live ↦ simp live accounted
]
handle_branch-IsAccounted a reconcile_tick c accounted = elim (Bool-cases (any_ending c.calls)) [
  | inl ending ↦ rw ending (finalize_consumed_inbound_ends-IsAccounted a.at_message c accounted)
  | inr steady ↦ rw steady accounted
]
handle_branch-IsAccounted a (message_read message) c accounted =
    handle_message-IsAccounted a message c accounted
handle_branch-IsAccounted a (read_failed disconnected) c accounted = close-IsAccounted c accounted
handle_branch-IsAccounted a (read_failed why) c accounted = close-IsAccounted c accounted

pub recv_turn-IsAccounted :
    (a : Answers) (branch : Branch) (c : StreamConnection)
    → IsAccounted c
    → IsAccounted (recv_turn a branch c).1
unfolding recv_turn
recv_turn-IsAccounted a branch c accounted = elim (Bool-cases (any_ending c.calls)) [
  | inl ending ↦ rw ending (
      handle_branch-IsAccounted a branch (finalize_consumed_inbound_ends a.at_start c)
        (finalize_consumed_inbound_ends-IsAccounted a.at_start c accounted))
  | inr steady ↦ rw steady (handle_branch-IsAccounted a branch c accounted)
]
