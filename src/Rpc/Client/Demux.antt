-- ===== src/Rpc/Client/Demux.antt =====
-- What reaches the caller of a call, crates/rpc/src/client.rs.
use overseerd.Base.{
  ℕ, ◌≡◌, refl, sym, ap, ◌∙◌, Bool, Bool-cases, inl, inr, Option, none, some, List, [], ◌∷◌, ◌++◌,
  append-nil, ◌==◌, ==_iff, if◌then◌else◌,
}
use overseerd.Transport.Wire.{
  WireMessage, request, stream_item, stream_end, stream_error, stream_cancel,
}
use overseerd.Rpc.Client.{Sent, end_loop, read_message, read_turn}
use overseerd.Rpc.Lanes.{Reply, Lane, Client, complete_call}
use overseerd.Rpc.Client.Elsewhere.{NotRoute}
use overseerd.Rpc.Client.Routing.{
  Arrival, Holds, IsRouted, foreign-IsRouted, not_route, pushed, pushed-IsRouted, pushed-items,
  read_all, Foreign, read_message-Elsewhere, read_turn-reading, moved, completed-Holds, ends-Holds,
  delivered,
}

-- What a call's messages come to: its items up to its final reply, and that. A message that only a
-- server may get ends the loop.
abbrev pub items_of : ℕ → List Arrival → List (List ℕ)
items_of id [] = []
items_of id ((answer, queue_full, stream_item j payload) ∷ rest) =
    let later = items_of id rest in if j == id then payload ∷ later else later
items_of id ((answer, queue_full, WireMessage.response r) ∷ rest) =
    let later = items_of id rest in if r.id == id then [] else later
items_of id ((answer, queue_full, stream_end j) ∷ rest) =
    let later = items_of id rest in if j == id then [] else later
items_of id ((answer, queue_full, stream_error j code body) ∷ rest) =
    let later = items_of id rest in if j == id then [] else later
items_of id ((answer, queue_full, request r) ∷ rest) = []
items_of id ((answer, queue_full, stream_cancel j) ∷ rest) = []

abbrev pub terminal_of : ℕ → List Arrival → Option Reply
terminal_of id [] = none
terminal_of id ((answer, queue_full, stream_item j payload) ∷ rest) = terminal_of id rest
terminal_of id ((answer, queue_full, WireMessage.response r) ∷ rest) =
    let later = terminal_of id rest in if r.id == id then some (Reply.response r.outcome) else later
terminal_of id ((answer, queue_full, stream_end j) ∷ rest) =
    let later = terminal_of id rest in if j == id then some Reply.end else later
terminal_of id ((answer, queue_full, stream_error j code body) ∷ rest) =
    let later = terminal_of id rest in if j == id then some (Reply.error code body) else later
terminal_of id ((answer, queue_full, request r) ∷ rest) = none
terminal_of id ((answer, queue_full, stream_cancel j) ∷ rest) = none

-- The channel of the call takes each of its items.
abbrev pub Taken : ℕ → List Arrival → Type 0
Taken id [] = Unit
Taken id ((answer, queue_full, stream_item j payload) ∷ rest) =
    (j ≡ id → answer ≡ Sent.sent) × Taken id rest
Taken id ((answer, queue_full, WireMessage.response r) ∷ rest) = Taken id rest
Taken id ((answer, queue_full, stream_end j) ∷ rest) = Taken id rest
Taken id ((answer, queue_full, stream_error j code body) ∷ rest) = Taken id rest
Taken id ((answer, queue_full, request r) ∷ rest) = Taken id rest
Taken id ((answer, queue_full, stream_cancel j) ∷ rest) = Taken id rest

module _ (to_allocvec : WireMessage → Option (List ℕ)) where
  Foreign-step :
      (id n : ℕ) (answer : Sent) (queue_full : Bool) (message : WireMessage) (rest : List Arrival)
      (c : Client) (items : List (List ℕ)) (terminal : Option Reply)
      → IsRouted id n c
      → Foreign to_allocvec n c message
      → ((c' : Client)
          → IsRouted id n c'
          → Holds n ((c'.lanes n).items ++ items) terminal (read_all to_allocvec rest c'))
      → Holds n
          ((c.lanes n).items ++ items)
          terminal
          (read_all to_allocvec ((answer, queue_full, message) ∷ rest) c)
  Foreign-step id n answer queue_full message rest c items terminal i foreign later =
      let c' = read_message to_allocvec answer queue_full message c in
      let same = read_turn-reading to_allocvec answer queue_full message c i.reading in
      let e = read_message-Elsewhere to_allocvec n answer queue_full message c foreign in
      let (held, last) = later c' (foreign-IsRouted id n c c' i e) in
      moved to_allocvec n ((c.lanes n).items ++ items) terminal rest
        (read_turn to_allocvec answer queue_full message c) c' same
        (held ∙ ap (λ (lane : Lane). lane.items ++ items) e.0, last)

  -- The step for a message that would be the final reply of the call `j`
  final_step :
      (id n j : ℕ) (answer : Sent) (queue_full : Bool) (message : WireMessage) (reply : Reply)
      (rest : List Arrival) (c : Client) (items : List (List ℕ)) (terminal : Option Reply)
      → IsRouted id n c
      → read_message to_allocvec answer queue_full message c ≡ (complete_call j reply c).1
      → (NotRoute j n c → Foreign to_allocvec n c message)
      → ((c' : Client)
          → IsRouted id n c'
          → Holds n ((c'.lanes n).items ++ items) terminal (read_all to_allocvec rest c'))
      → Holds n
          ((c.lanes n).items ++ (if j == id then [] else items))
          (if j == id then some reply else terminal)
          (read_all to_allocvec ((answer, queue_full, message) ∷ rest) c)
  final_step id n j answer queue_full message reply rest c items terminal i is_final foreign later =
      elim (Bool-cases (j == id)) [
        | inl here ↦ rw here (
            moved to_allocvec n ((c.lanes n).items ++ []) (some reply) rest
              (read_turn to_allocvec answer queue_full message c) (complete_call j reply c).1
              (read_turn-reading to_allocvec answer queue_full message c i.reading ∙ is_final)
              (completed-Holds to_allocvec id n j reply rest c i here))
        | inr other ↦ rw other (
            Foreign-step id n answer queue_full message rest c items terminal i
              (foreign (not_route id n j c i other)) later)
      ]

  -- The step for a message that only a server may get
  illegal_step :
      (id n : ℕ) (answer : Sent) (queue_full : Bool) (message : WireMessage) (rest : List Arrival)
      (c : Client)
      → IsRouted id n c
      → read_message to_allocvec answer queue_full message c ≡ end_loop c
      → Holds n
          ((c.lanes n).items ++ [])
          none
          (read_all to_allocvec ((answer, queue_full, message) ∷ rest) c)
  illegal_step id n answer queue_full message rest c i ends =
      moved to_allocvec n ((c.lanes n).items ++ []) none rest
        (read_turn to_allocvec answer queue_full message c) (end_loop c)
        (read_turn-reading to_allocvec answer queue_full message c i.reading ∙ ends)
        (ends-Holds to_allocvec n c rest i.unended)

  item_step :
      (id n j : ℕ) (answer : Sent) (queue_full : Bool) (payload : List ℕ) (rest : List Arrival)
      (c : Client) (items : List (List ℕ)) (terminal : Option Reply)
      → IsRouted id n c
      → (j ≡ id → answer ≡ Sent.sent)
      → ((c' : Client)
          → IsRouted id n c'
          → Holds n ((c'.lanes n).items ++ items) terminal (read_all to_allocvec rest c'))
      → Holds n
          ((c.lanes n).items ++ (if j == id then payload ∷ items else items))
          terminal
          (read_all to_allocvec ((answer, queue_full, stream_item j payload) ∷ rest) c)
  unfolding read_message
  item_step id n j answer queue_full payload rest c items terminal i took later =
      elim (Bool-cases (j == id)) [
        | inl here ↦
            let c' = pushed payload n c in
            let (held, last) = later c' (pushed-IsRouted id n payload c i) in
            rw here (
              moved to_allocvec n ((c.lanes n).items ++ payload ∷ items) terminal rest
                (read_turn to_allocvec answer queue_full (stream_item j payload) c) c'
                (read_turn-reading to_allocvec answer queue_full (stream_item j payload) c i.reading
                  ∙ delivered to_allocvec id n j answer queue_full payload c i here
                      (took ((==_iff j id).0 here)))
                (held ∙ pushed-items n payload items c, last))
        | inr other ↦ rw other (
            Foreign-step id n answer queue_full (stream_item j payload) rest c items terminal i
              (not_route id n j c i other) later)
      ]

  -- While its item channel takes them, a call's lane holds the items that have arrived for its id, in
  -- order and up to its final reply, and that reply, whatever arrives for other calls in between and
  -- whatever becomes of those; a message that only a server may get ends it all.
  pub read_all-delivers :
      (id n : ℕ) (arrivals : List Arrival) (c : Client)
      → IsRouted id n c
      → Taken id arrivals
      → Holds n
          ((c.lanes n).items ++ items_of id arrivals)
          (terminal_of id arrivals)
          (read_all to_allocvec arrivals c)
  unfolding read_message
  read_all-delivers id n [] c i taken = (sym (append-nil (c.lanes n).items), i.unended)
  read_all-delivers id n ((answer, queue_full, stream_item j payload) ∷ rest) c i (took, taken) =
      item_step id n j answer queue_full payload rest c (items_of id rest) (terminal_of id rest) i
        took (λ c' i'. read_all-delivers id n rest c' i' taken)
  read_all-delivers id n ((answer, queue_full, WireMessage.response r) ∷ rest) c i taken =
      final_step id n r.id answer queue_full (WireMessage.response r) (Reply.response r.outcome)
        rest c (items_of id rest) (terminal_of id rest) i refl (λ other. other)
        (λ c' i'. read_all-delivers id n rest c' i' taken)
  read_all-delivers id n ((answer, queue_full, stream_end j) ∷ rest) c i taken =
      final_step id n j answer queue_full (stream_end j) Reply.end rest c (items_of id rest)
        (terminal_of id rest) i refl (λ other. other)
        (λ c' i'. read_all-delivers id n rest c' i' taken)
  read_all-delivers id n ((answer, queue_full, stream_error j code body) ∷ rest) c i taken =
      final_step id n j answer queue_full (stream_error j code body) (Reply.error code body) rest c
        (items_of id rest) (terminal_of id rest) i refl (λ other. other)
        (λ c' i'. read_all-delivers id n rest c' i' taken)
  read_all-delivers id n ((answer, queue_full, request r) ∷ rest) c i taken =
      illegal_step id n answer queue_full (request r) rest c i refl
  read_all-delivers id n ((answer, queue_full, stream_cancel j) ∷ rest) c i taken =
      illegal_step id n answer queue_full (stream_cancel j) rest c i refl
