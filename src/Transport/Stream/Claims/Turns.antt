-- ===== src/Transport/Stream/Claims/Turns.antt =====
-- The turns of `recv` make no second one who may end a call,
-- crates/transport/src/transports/stream.rs.
use overseerd.Base.{
  ℕ, ◌+◌, ◌≤◌, ◌≡◌, refl, ap, ◌∙◌, subst, not, ◌&&◌, ◌==◌, Bool-cases, inl, inr, Option-cases, List,
  [], ◌∷◌, one_if, get, has_key, length, leb, arith,
}
use overseerd.Transport.Wire.{
  disconnected, WireMessage, WireRequest, request, response, stream_item, stream_end, stream_error,
  stream_cancel,
}
use overseerd.Transport.Stream.{
  StreamConnection, CallCompletion, Joined, reconcile_all_inbound_bytes,
  finalize_consumed_inbound_ends,
}
use overseerd.Transport.Stream.Recv.{
  handle_item, handle_end, handle_request, handle_message, handle_completion, any_ending,
  handle_branch, recv_turn,
}
use overseerd.Transport.Stream.Rejecting.{
  Answers, Branch, call_completed, control_joined, shut_down, reconcile_tick, message_read,
  read_failed, finish_control_task,
}
use overseerd.Transport.Stream.Claims.{
  claims, Less, Grows, Less-refl, Less-trans, Untouched, Untouched-Less,
  reconcile_all_inbound_bytes-Untouched, finalize_consumed_inbound_ends-Untouched,
  remove_call-Untouched, close-Less,
}
use overseerd.Transport.Stream.Claims.Frames.{
  finish_control_task-Untouched, or_close-Less, handle_item-Less, handle_end-Untouched,
  handle_cancel-Less,
}

handle_request-Grows : (req : WireRequest) (c : StreamConnection) → Grows c (handle_request req c).1
unfolding handle_request
handle_request-Grows req c = elim (Bool-cases (has_key req.id c.calls)) [
  | inl known ↦ rw known (inl (close-Less c))
  | inr fresh ↦ elim (Bool-cases (leb c.config.max_in_flight_calls (length c.calls))) [
    | inl many ↦ rw (fresh, many) (inl (close-Less c))
    | inr free ↦ rw (fresh, free) (inr (refl, λ n. ground arith))
  ]
]

handle_message-Grows :
    (a : Answers) (message : WireMessage) (c : StreamConnection)
    → Grows c (handle_message a message c).1
unfolding handle_message
handle_message-Grows a (request req) c = handle_request-Grows req c
handle_message-Grows a (stream_item id payload) c =
    let r = reconcile_all_inbound_bytes a.at_message c in
    inl (
      Less-trans c r (handle_item a id (length payload) r).1
        (Untouched-Less c r (reconcile_all_inbound_bytes-Untouched a.at_message c))
        (handle_item-Less a id (length payload) r))
handle_message-Grows a (stream_end id) c =
    inl (Untouched-Less c (handle_end a id c) (handle_end-Untouched a id c))
handle_message-Grows a (stream_cancel id) c = inl (handle_cancel-Less id c)
handle_message-Grows a (response r) c = inl (close-Less c)
handle_message-Grows a (stream_error id code body) c = inl (close-Less c)

handle_completion-Untouched :
    (completed : CallCompletion) (c : StreamConnection)
    → Untouched c (handle_completion completed c)
unfolding handle_completion
handle_completion-Untouched completed c = elim (Option-cases (get completed.id c.calls)) [
  | inl gone ↦ rw (gone, handle_completion) (refl, refl, refl)
  | inr (slot, there) ↦ elim (Bool-cases (not slot.tombstone && slot.active == completed.active)) [
    | inl same ↦ rw (there, handle_completion) (simp same (remove_call-Untouched completed.id c))
    | inr other ↦ rw (there, handle_completion) (simp other (refl, refl, refl))
  ]
]

call_completed-Less :
    (a : Answers) (completions : List CallCompletion) (c : StreamConnection)
    → c.completions ≡ completions
    → Less c (handle_branch a call_completed c).1
unfolding handle_branch
call_completed-Less a [] c e = rw (e, handle_branch) (Less-refl c)
call_completed-Less a (completed ∷ rest) c e =
    let popped = record c { completions = rest } in
    rw (e, handle_branch)
      (Untouched-Less c (handle_completion completed popped)
        (handle_completion-Untouched completed popped))

control_joined-Less :
    (a : Answers) (done : List Joined) (c : StreamConnection)
    → c.control_done ≡ done
    → Less c (handle_branch a control_joined c).1
unfolding handle_branch
control_joined-Less a [] c e = rw (e, handle_branch) (Less-refl c)
control_joined-Less a (joined ∷ done) c e =
    let popped = record c { control_done = done } in
    rw (e, handle_branch)
      (or_close-Less c (finish_control_task joined popped) (
        Untouched-Less c (finish_control_task joined popped).1
          (finish_control_task-Untouched joined popped)))

handle_branch-Grows :
    (a : Answers) (branch : Branch) (c : StreamConnection) → Grows c (handle_branch a branch c).1
unfolding handle_branch
handle_branch-Grows a call_completed c = inl (call_completed-Less a c.completions c refl)
handle_branch-Grows a control_joined c = inl (control_joined-Less a c.control_done c refl)
handle_branch-Grows a shut_down c = elim (Bool-cases c.is_closed) [
  | inl shut ↦ simp shut (inl (close-Less c))
  | inr live ↦ simp live (inl (Less-refl c))
]
handle_branch-Grows a reconcile_tick c = elim (Bool-cases (any_ending c.calls)) [
  | inl ending ↦ rw ending (
      inl (
        Untouched-Less c (finalize_consumed_inbound_ends a.at_message c)
          (finalize_consumed_inbound_ends-Untouched a.at_message c)))
  | inr steady ↦ rw steady (inl (Less-refl c))
]
handle_branch-Grows a (message_read message) c = handle_message-Grows a message c
handle_branch-Grows a (read_failed disconnected) c = inl (close-Less c)
handle_branch-Grows a (read_failed why) c = inl (close-Less c)

Grows-after : (c r c' : StreamConnection) → Untouched c r → Grows r c' → Grows c c'
Grows-after c r c' same (inl less) = inl (Less-trans c r c' (Untouched-Less c r same) less)
Grows-after c r c' (m, f, t) (inr (k, g)) =
    let (m', less) = Untouched-Less c r (m, f, t) in
    inr (
      k ∙ ap (λ (n : ℕ). n + 1) m,
      λ n.
          let x = less n in
          let y = subst (λ (made : ℕ). claims n c' ≤ claims n r + one_if (n == made)) m (g n) in
          omega arith,
    )

-- A turn makes no second one who may end a call, and one who may end a call that it accepts.
pub recv_turn-Grows :
    (a : Answers) (branch : Branch) (c : StreamConnection) → Grows c (recv_turn a branch c).1
unfolding recv_turn
recv_turn-Grows a branch c = elim (Bool-cases (any_ending c.calls)) [
  | inl ending ↦
      let r = finalize_consumed_inbound_ends a.at_start c in
      rw ending (
        Grows-after c r (handle_branch a branch r).1
          (finalize_consumed_inbound_ends-Untouched a.at_start c) (handle_branch-Grows a branch r))
  | inr steady ↦ rw steady (handle_branch-Grows a branch c)
]
