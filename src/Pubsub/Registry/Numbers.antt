-- ===== src/Pubsub/Registry/Numbers.antt =====
-- Message ids of crates/axum/src/ws/pubsub/registry.rs.
use overseerd.Base.{
  ℕ, zero, suc, ◌+◌, ◌^◌, ◌<◌, ◌≤◌, ◌≡◌, refl, ap, List, [], ◌∷◌, Text, length, arith, inc64,
}
use overseerd.Pubsub.Registry.{
  SubscriptionRegistry, targets, take_ids, first_gap, later_gaps, send_all, publish_frames,
}

abbrev pub channels : List (ℕ × ℕ) → List ℕ
channels [] = []
channels (send ∷ sends) = send.0 ∷ channels sends

abbrev pub channels_of : List (Text × ℕ) → List ℕ
channels_of [] = []
channels_of (target ∷ rest) = target.1 ∷ channels_of rest

-- The ids increase, from one number on and below another.
abbrev pub IsIncreasing : ℕ → ℕ → List (ℕ × ℕ) → Type 0
IsIncreasing least bound [] = least ≤ bound
IsIncreasing least bound (send ∷ sends) =
    (least ≤ send.1) × (send.1 < bound) × IsIncreasing (send.1 + 1) bound sends

-- The ids that others take before one of so many turns
abbrev pub gaps : ℕ → List ℕ → ℕ
gaps zero others = 0
gaps (suc turns) others = first_gap others + gaps turns (later_gaps others)

take_ids_lem : (n next : ℕ) → next + n < 2 ^ 64 → take_ids n next ≡ next + n
unfolding take_ids
take_ids_lem zero next room = omega arith
take_ids_lem (suc n) next room =
    let step : inc64 next ≡ next + 1 = omega arith in
    rw step (let rest = take_ids_lem n (next + 1) (omega arith) in omega (arith, rest))

send_all-ids :
    (all : List (Text × ℕ)) (others : List ℕ) (next : ℕ)
    → next + (gaps (length all) others + length all) < 2 ^ 64
    → let (sends, after) = send_all (λ sub_id id. id) all others next in
      (channels sends ≡ channels_of all)
      × IsIncreasing next after sends
      × (after ≡ next + (gaps (length all) others + length all))
unfolding send_all
send_all-ids [] others next room = (refl, omega arith, omega arith)
send_all-ids ((sub_id, tx) ∷ all) others next room =
    let id = next + first_gap others in
    let taken : take_ids (first_gap others) next ≡ id =
      take_ids_lem (first_gap others) next (omega arith) in
    let step : inc64 id ≡ id + 1 = omega arith in
    let (txs, ids, after) = send_all-ids all (later_gaps others) (id + 1) (omega arith) in
    rw (taken, step)
      (
        ap (λ (ts : List ℕ). tx ∷ ts) txs,
        (omega arith, omega (arith, after), ids),
        omega (arith, after),
      )

-- A publish tries one send for each target that it finds, in order, on the target's channel, with
-- ids that increase, from the counter on, while other publishes take ids between its sends; the
-- counter moves by the ids that it and the others have taken, if it does not reach 2^64.
pub publish_frames-ids :
    (destination : Text) (others : List ℕ) (r : SubscriptionRegistry)
    → let turns = length (targets destination r) in
      r.next_message + (gaps turns others + turns) < 2 ^ 64
      → let (r', sends) = publish_frames destination (λ sub_id id. id) others r in
        (channels sends ≡ channels_of (targets destination r))
        × IsIncreasing r.next_message r'.next_message sends
        × (r'.next_message ≡ r.next_message + (gaps turns others + turns))
unfolding publish_frames
publish_frames-ids destination others r room =
    send_all-ids (targets destination r) others r.next_message room
