-- ===== src/Rpc/Client/Routing.antt =====
-- A call's lane while it has its route, and afterwards, crates/rpc/src/client.rs.
use overseerd.Base.{
  ℕ, ◌⊎◌, ◌≡◌, refl, sym, ap, ◌∙◌, subst, Bool, true, false, Bool-cases, inl, inr, Option, none,
  some, List, [], ◌∷◌, ◌++◌, append_assoc, append-nil, ◌==◌, ==_refl, ==_iff, ne_of_==, get, remove,
}
use overseerd.Transport.Wire.{
  WireMessage, request, stream_item, stream_end, stream_error, stream_cancel,
}
use overseerd.Rpc.Client.{
  Sent, push_item, send_item, deliver_item, drop_routes, end_loop, read_message, read_turn,
}
use overseerd.Rpc.Lanes.{Reply, Lane, Client, at_lane, end_lane, complete_call, deactivate}
use overseerd.Rpc.Client.Elsewhere.{
  Only, Unrouted, Elsewhere, NotRoute, complete_call-Elsewhere, last_route, deliver_item-Elsewhere,
}

-- A message, with what the item channel and the writer's queue answer if they are asked
abbrev pub Arrival : Type 0
Arrival = Sent × Bool × WireMessage

drop_routes-kept :
    (n : ℕ) (calls : List (ℕ × ℕ)) (lanes : ℕ → Lane)
    → ((drop_routes calls lanes n).items ≡ (lanes n).items)
      × ((drop_routes calls lanes n).terminal ≡ (lanes n).terminal)
drop_routes-kept n [] lanes = (refl, refl)
drop_routes-kept n ((j, m) ∷ calls) lanes =
    let (i, t) = drop_routes-kept n calls lanes in
    elim (Bool-cases (m == n)) [ inl same ↦ rw same (i, t) | inr differs ↦ rw differs (i, t) ]

-- The items and the final reply of a lane, if more comes
abbrev pub Holds : ℕ → List (List ℕ) → Option Reply → Client → Type 0
Holds n items terminal c = ((c.lanes n).items ≡ items) × ((c.lanes n).terminal ≡ terminal)

-- What has to hold before a message is read
pub record IsRouted (id n : ℕ) (c : Client) : Type 0 where
  pub reading : c.is_reading ≡ true
  pub routed : get id c.calls ≡ some n
  pub only : Only id n c
  pub unended : (c.lanes n).terminal ≡ none

pub foreign-IsRouted :
    (id n : ℕ) (c c' : Client) → IsRouted id n c → Elsewhere n c c' → IsRouted id n c'
foreign-IsRouted id n c c' i (l, f, r, x) = record {
  reading = f ∙ i.reading;
  routed = x id i.routed;
  only = λ j h. i.only j (r j n h);
  unended = ap (λ (lane : Lane). lane.terminal) l ∙ i.unended;
}

pub not_route : (id n j : ℕ) (c : Client) → IsRouted id n c → (j == id) ≡ false → NotRoute j n c
not_route id n j c i other h = ne_of_== j id other (i.only j h)

-- An item of the call is queued.
pub pushed : List ℕ → ℕ → Client → Client
pushed payload n c = record c { lanes = at_lane n (push_item payload) c.lanes }

pub pushed-IsRouted :
    (id n : ℕ) (payload : List ℕ) (c : Client)
    → IsRouted id n c
    → IsRouted id n (pushed payload n c)
unfolding pushed
pushed-IsRouted id n payload c i = record {
  reading = i.reading;
  routed = i.routed;
  only = i.only;
  unended = rw (==_refl n) i.unended;
}

pub pushed-items :
    (n : ℕ) (payload : List ℕ) (later : List (List ℕ)) (c : Client)
    → ((pushed payload n c).lanes n).items ++ later ≡ (c.lanes n).items ++ payload ∷ later
unfolding pushed
pushed-items n payload later c =
    rw (==_refl n) (append_assoc (c.lanes n).items (payload ∷ []) later)

module _ (to_allocvec : WireMessage → Option (List ℕ)) where
  abbrev pub read_all : List Arrival → Client → Client
  read_all [] c = c
  read_all ((answer, queue_full, message) ∷ rest) c =
      read_all rest (read_turn to_allocvec answer queue_full message c)

  -- Nothing more reaches a lane once the loop is over.
  read_all-over :
      (arrivals : List Arrival) (c : Client) → c.is_reading ≡ false → read_all arrivals c ≡ c
  unfolding read_turn
  read_all-over [] c over = refl
  read_all-over ((answer, queue_full, message) ∷ rest) c over =
      let same : read_turn to_allocvec answer queue_full message c ≡ c = simp over refl in
      ap (read_all rest) same ∙ read_all-over rest c over

  end_loop-Holds :
      (n : ℕ) (c : Client) (arrivals : List Arrival)
      → Holds n (c.lanes n).items (c.lanes n).terminal (read_all arrivals (end_loop c))
  unfolding end_loop
  end_loop-Holds n c arrivals =
      let over = read_all-over arrivals (end_loop c) refl in
      rw over (drop_routes-kept n c.calls c.lanes)

  -- A message of another call does not touch the lane.
  abbrev pub Foreign : ℕ → Client → WireMessage → Type 0
  Foreign n c (stream_item j payload) = NotRoute j n c
  Foreign n c (WireMessage.response r) = NotRoute r.id n c
  Foreign n c (stream_end j) = NotRoute j n c
  Foreign n c (stream_error j code body) = NotRoute j n c
  Foreign n c (request r) = ⊥
  Foreign n c (stream_cancel j) = ⊥

  pub read_message-Elsewhere :
      (n : ℕ) (answer : Sent) (queue_full : Bool) (message : WireMessage) (c : Client)
      → Foreign n c message
      → Elsewhere n c (read_message to_allocvec answer queue_full message c)
  unfolding read_message
  read_message-Elsewhere n answer queue_full (stream_item j payload) c foreign =
      deliver_item-Elsewhere to_allocvec n j answer queue_full payload c foreign
  read_message-Elsewhere n answer queue_full (WireMessage.response r) c foreign =
      complete_call-Elsewhere n r.id (Reply.response r.outcome) c foreign
  read_message-Elsewhere n answer queue_full (stream_end j) c foreign =
      complete_call-Elsewhere n j Reply.end c foreign
  read_message-Elsewhere n answer queue_full (stream_error j code body) c foreign =
      complete_call-Elsewhere n j (Reply.error code body) c foreign
  read_message-Elsewhere n answer queue_full (request r) c foreign = absurd foreign
  read_message-Elsewhere n answer queue_full (stream_cancel j) c foreign = absurd foreign

  pub read_turn-reading :
      (answer : Sent) (queue_full : Bool) (message : WireMessage) (c : Client)
      → c.is_reading ≡ true
      → read_turn to_allocvec answer queue_full message c
        ≡ read_message to_allocvec answer queue_full message c
  unfolding read_turn
  read_turn-reading answer queue_full message c reading = simp reading refl

  -- A message either ends the loop, or is handled at the route of its id.
  ends_or_routes :
      (answer : Sent) (queue_full : Bool) (message : WireMessage) (c : Client)
      → (read_message to_allocvec answer queue_full message c ≡ end_loop c)
        ⊎ ((n : ℕ) → Unrouted n c → Foreign n c message)
  unfolding read_message
  ends_or_routes answer queue_full (request r) c = inl refl
  ends_or_routes answer queue_full (stream_cancel j) c = inl refl
  ends_or_routes answer queue_full (stream_item j payload) c = inr (λ n u. u j)
  ends_or_routes answer queue_full (WireMessage.response r) c = inr (λ n u. u r.id)
  ends_or_routes answer queue_full (stream_end j) c = inr (λ n u. u j)
  ends_or_routes answer queue_full (stream_error j code body) c = inr (λ n u. u j)

  pub moved :
      (n : ℕ) (items : List (List ℕ)) (terminal : Option Reply) (rest : List Arrival)
      (c c' : Client)
      → c ≡ c'
      → Holds n items terminal (read_all rest c')
      → Holds n items terminal (read_all rest c)
  moved n items terminal rest c c' same =
      subst (λ (x : Client). Holds n items terminal (read_all rest x)) (sym same)

  -- Without a route nothing reaches a lane.
  read_all-Unrouted :
      (n : ℕ) (arrivals : List Arrival) (c : Client)
      → Unrouted n c
      → Holds n (c.lanes n).items (c.lanes n).terminal (read_all arrivals c)
  read_all-Unrouted n [] c unrouted = (refl, refl)
  read_all-Unrouted n ((answer, queue_full, message) ∷ rest) c unrouted =
      let c' = read_message to_allocvec answer queue_full message c in
      let turned = read_turn to_allocvec answer queue_full message c in
      let step = moved n (c.lanes n).items (c.lanes n).terminal rest turned in
      elim (Bool-cases c.is_reading) [
        | inr over ↦ rw (read_all-over ((answer, queue_full, message) ∷ rest) c over) (refl, refl)
        | inl reading ↦
            let same = read_turn-reading answer queue_full message c reading in
            elim (ends_or_routes answer queue_full message c) [
              | inl ends ↦ step (end_loop c) (same ∙ ends) (end_loop-Holds n c rest)
              | inr legal ↦
                  let (l, f, r, x) =
                    read_message-Elsewhere n answer queue_full message c (legal n unrouted) in
                  let (i, t) = read_all-Unrouted n rest c' (λ j h. unrouted j (r j n h)) in
                  step c' same (
                    i ∙ ap (λ (lane : Lane). lane.items) l,
                    t ∙ ap (λ (lane : Lane). lane.terminal) l,
                  )
            ]
      ]

  -- The final reply of the call arrives, and the route goes.
  pub completed-Holds :
      (id n j : ℕ) (reply : Reply) (rest : List Arrival) (c : Client)
      → IsRouted id n c
      → (j == id) ≡ true
      → Holds n ((c.lanes n).items ++ []) (some reply) (read_all rest (complete_call j reply c).1)
  unfolding complete_call
  completed-Holds id n j reply rest c i here =
      let there : get j c.calls ≡ some n =
        subst (λ (k : ℕ). get k c.calls ≡ some n) (sym ((==_iff j id).0 here)) i.routed in
      let c' = record c {
        calls = remove j c.calls;
        lanes = at_lane n (end_lane reply) c.lanes;
        active = deactivate n c.active;
      } in
      let only : (k : ℕ) → get k c.calls ≡ some n → k ≡ j =
        λ k h. i.only k h ∙ sym ((==_iff j id).0 here) in
      let (kept, last) = read_all-Unrouted n rest c' (λ k. last_route j k n c.calls only) in
      let ended : c'.lanes n ≡ end_lane reply (c.lanes n) = rw (==_refl n) refl in
      rw (there, complete_call)
        (
          kept ∙ ap (λ (lane : Lane). lane.items) ended ∙ sym (append-nil (c.lanes n).items),
          last ∙ ap (λ (lane : Lane). lane.terminal) ended,
        )

  pub ends-Holds :
      (n : ℕ) (c : Client) (rest : List Arrival)
      → (c.lanes n).terminal ≡ none
      → Holds n ((c.lanes n).items ++ []) none (read_all rest (end_loop c))
  ends-Holds n c rest unended =
      let (i, t) = end_loop-Holds n c rest in (i ∙ sym (append-nil (c.lanes n).items), t ∙ unended)

  pub delivered :
      (id n j : ℕ) (answer : Sent) (queue_full : Bool) (payload : List ℕ) (c : Client)
      → IsRouted id n c
      → (j == id) ≡ true
      → answer ≡ Sent.sent
      → deliver_item to_allocvec answer queue_full j payload c ≡ pushed payload n c
  unfolding deliver_item send_item pushed
  delivered id n j answer queue_full payload c i here took =
      let there : get j c.calls ≡ some n =
        subst (λ (k : ℕ). get k c.calls ≡ some n) (sym ((==_iff j id).0 here)) i.routed in
      rw (there, deliver_item, took) refl
