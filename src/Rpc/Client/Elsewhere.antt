-- ===== src/Rpc/Client/Elsewhere.antt =====
-- What does not touch the lane of a call, crates/rpc/src/client.rs.
use overseerd.Base.{
  ℕ, ◌≡◌, ◌≢◌, refl, sym, ◌∙◌, subst, Bool, true, false, Bool-cases, inl, inr, Option, some,
  Option-cases, List, ◌==◌, ==_iff, ne_of_==, get, remove, get-remove, Result, ok, err, arith,
}
use overseerd.Transport.Wire.{TransportError, WireMessage, stream_cancel}
use overseerd.Rpc.Client.{
  Sent, cancel_overflowed_call, overflow_call, push_item, send_item, deliver_item,
}
use overseerd.Rpc.Lanes.{
  Reply, Lane, Client, at_lane, drop_route, remove_call, cancel, end_lane, complete_call,
  serialize_frame, close,
}

-- The lane belongs to the call with the id, and to no other.
abbrev pub Only : ℕ → ℕ → Client → Type 0
Only id n c = (j : ℕ) → get j c.calls ≡ some n → j ≡ id

abbrev pub Unrouted : ℕ → Client → Type 0
Unrouted n c = (j : ℕ) → get j c.calls ≢ some n

-- A step that does not touch a lane, and makes no route
abbrev pub Elsewhere : ℕ → Client → Client → Type 0
Elsewhere n c c' =
    (c'.lanes n ≡ c.lanes n)
    × (c'.is_reading ≡ c.is_reading)
    × ((j v : ℕ) → get j c'.calls ≡ some v → get j c.calls ≡ some v)
    × ((j : ℕ) → get j c.calls ≡ some n → get j c'.calls ≡ some n)

Elsewhere-trans : (n : ℕ) (a b c : Client) → Elsewhere n a b → Elsewhere n b c → Elsewhere n a c
Elsewhere-trans n a b c (l, f, r, x) (k, g, s, y) =
    (k ∙ l, g ∙ f, (λ j v h. r j v (s j v h)), λ j h. y j (x j h))

get_removed :
    (k j v : ℕ) (calls : List (ℕ × ℕ)) → get j (remove k calls) ≡ some v → get j calls ≡ some v
get_removed k j v calls h = ground (arith, get-remove k j calls)

get_kept :
    (k j n : ℕ) (calls : List (ℕ × ℕ))
    → get k calls ≢ some n
    → get j calls ≡ some n
    → get j (remove k calls) ≡ some n
get_kept k j n calls not_here h = elim (Bool-cases (k == j)) [
  | inl same ↦
      absurd (not_here (subst (λ (i : ℕ). get i calls ≡ some n) (sym ((==_iff k j).0 same)) h))
  | inr differs ↦ rw (get-remove k j calls, differs) h
]

pub last_route :
    (j k n : ℕ) (calls : List (ℕ × ℕ))
    → ((i : ℕ) → get i calls ≡ some n → i ≡ j)
    → get k (remove j calls) ≢ some n
last_route j k n calls only h = elim (Bool-cases (j == k)) [
  | inl same ↦ absurd (let bad = rw (get-remove j k calls, same) at h in cc)
  | inr differs ↦ ne_of_== j k differs (sym (only k (get_removed j k n calls h)))
]

pub at_lane_other :
    (m n : ℕ) (f : Lane → Lane) (lanes : ℕ → Lane) → m ≢ n → at_lane m f lanes n ≡ lanes n
at_lane_other m n f lanes other = elim (Bool-cases (m == n)) [
  | inl same ↦ absurd (other ((==_iff m n).0 same))
  | inr differs ↦ rw differs refl
]

-- The call is not the lane's.
abbrev pub NotRoute : ℕ → ℕ → Client → Type 0
NotRoute j n c = get j c.calls ≢ some n

other_lane : (j m n : ℕ) (c : Client) → get j c.calls ≡ some m → NotRoute j n c → m ≢ n
other_lane j m n c there not_here same =
    not_here (subst (λ (v : ℕ). get j c.calls ≡ some v) same there)

remove_call-Elsewhere : (n j : ℕ) (c : Client) → NotRoute j n c → Elsewhere n c (remove_call j c)
unfolding remove_call
remove_call-Elsewhere n j c not_here = elim (Option-cases (get j c.calls)) [
  | inl gone ↦ rw (gone, remove_call) (refl, refl, (λ k v h. h), λ k h. h)
  | inr (m, there) ↦
      rw (there, remove_call)
        (
          at_lane_other m n drop_route c.lanes (other_lane j m n c there not_here),
          refl,
          (λ k v h. get_removed j k v c.calls h),
          λ k h. get_kept j k n c.calls not_here h,
        )
]

pub complete_call-Elsewhere :
    (n j : ℕ) (reply : Reply) (c : Client)
    → NotRoute j n c
    → Elsewhere n c (complete_call j reply c).1
unfolding complete_call
complete_call-Elsewhere n j reply c not_here = elim (Option-cases (get j c.calls)) [
  | inl gone ↦ rw (gone, complete_call) (refl, refl, (λ k v h. h), λ k h. h)
  | inr (m, there) ↦
      rw (there, complete_call)
        (
          at_lane_other m n (end_lane reply) c.lanes (other_lane j m n c there not_here),
          refl,
          (λ k v h. get_removed j k v c.calls h),
          λ k h. get_kept j k n c.calls not_here h,
        )
]

cancel-Elsewhere :
    (n : ℕ) (queue_full : Bool) (frame : List ℕ) (c : Client)
    → Elsewhere n c (cancel queue_full frame c)
unfolding cancel
cancel-Elsewhere n true frame c = elim (Bool-cases c.is_closed) [
  | inl shut ↦ simp shut (refl, refl, (λ k v h. h), λ k h. h)
  | inr live ↦ simp live (refl, refl, (λ k v h. h), λ k h. h)
]
cancel-Elsewhere n false frame c = elim (Bool-cases c.is_closed) [
  | inl shut ↦ simp shut (refl, refl, (λ k v h. h), λ k h. h)
  | inr live ↦ simp live (refl, refl, (λ k v h. h), λ k h. h)
]

module _ (to_allocvec : WireMessage → Option (List ℕ)) where
  cancel_overflowed-Elsewhere :
      (n j : ℕ) (queue_full : Bool) (c : Client)
      → Elsewhere n c (cancel_overflowed_call to_allocvec queue_full j c)
  unfolding cancel_overflowed_call
  cancel_overflowed-Elsewhere n j queue_full c =
      overflowed (serialize_frame to_allocvec (stream_cancel j))
    where
      overflowed :
          (r : Result TransportError (List ℕ))
          → Elsewhere n c (elim r [ ok frame ↦ cancel queue_full frame c | err why ↦ close c ])
      overflowed (ok frame) = cancel-Elsewhere n queue_full frame c
      overflowed (err why) = (refl, refl, (λ k v h. h), λ k h. h)

  overflow_call-Elsewhere :
      (n j : ℕ) (queue_full : Bool) (c : Client)
      → NotRoute j n c
      → Elsewhere n c (overflow_call to_allocvec queue_full j c)
  unfolding overflow_call
  overflow_call-Elsewhere n j queue_full c not_here =
      let c1 = (complete_call j Reply.overflow c).1 in
      let here = complete_call-Elsewhere n j Reply.overflow c not_here in
      elim (Bool-cases (complete_call j Reply.overflow c).0) [
        | inl was ↦ rw was (
            Elsewhere-trans n c c1 (cancel_overflowed_call to_allocvec queue_full j c1) here
              (cancel_overflowed-Elsewhere n j queue_full c1))
        | inr absent ↦ rw absent here
      ]

  send_item-Elsewhere :
      (n j m : ℕ) (answer : Sent) (queue_full : Bool) (payload : List ℕ) (c : Client)
      → get j c.calls ≡ some m
      → NotRoute j n c
      → Elsewhere n c (send_item to_allocvec answer queue_full j m payload c)
  unfolding send_item
  send_item-Elsewhere n j m Sent.sent queue_full payload c there not_here = (
    at_lane_other m n (push_item payload) c.lanes (other_lane j m n c there not_here),
    refl,
    (λ k v h. h),
    λ k h. h,
  )
  send_item-Elsewhere n j m Sent.full queue_full payload c there not_here =
      overflow_call-Elsewhere n j queue_full c not_here
  send_item-Elsewhere n j m Sent.closed queue_full payload c there not_here =
      remove_call-Elsewhere n j c not_here

  pub deliver_item-Elsewhere :
      (n j : ℕ) (answer : Sent) (queue_full : Bool) (payload : List ℕ) (c : Client)
      → NotRoute j n c
      → Elsewhere n c (deliver_item to_allocvec answer queue_full j payload c)
  unfolding deliver_item
  deliver_item-Elsewhere n j answer queue_full payload c not_here =
      elim (Option-cases (get j c.calls)) [
        | inl gone ↦ rw (gone, deliver_item) (refl, refl, (λ k v h. h), λ k h. h)
        | inr (m, there) ↦
            rw (there, deliver_item)
              (send_item-Elsewhere n j m answer queue_full payload c there not_here)
      ]
