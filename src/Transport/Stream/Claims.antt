-- ===== src/Transport/Stream/Claims.antt =====
-- Who may still write the final frame of a call, crates/transport/src/transports/stream.rs: one
-- whose flag is set, or a control task that has won the flag. A turn of `recv` makes no second one.
pub mod Frames
pub mod Turns
use overseerd.Base.{
  ℕ, ◌+◌, ◌≤◌, ◌≡◌, refl, sym, ap, ◌∙◌, subst, Bool, true, false, Bool-cases, ◌⊎◌, inl, inr, Option,
  none, some, Option-cases, List, [], ◌∷◌, ◌==◌, one_if, if◌then◌else◌, get, length, leb, arith,
}
use overseerd.Base
use overseerd.Transport.Stream.{
  StreamConnection, CallSlot, ControlTask, Joined, completion, join_error, deactivate,
  deactivate_slots, cancel_all, close, reconcile_inbound_bytes, reconcile_all_inbound_bytes,
  remove_call, discard_closed_inbound, finalize_consumed_inbound_ends,
}

abbrev pub waiting : ℕ → List ControlTask → ℕ
waiting n [] = 0
waiting n (task ∷ tasks) = one_if (task.won == n) + waiting n tasks

abbrev pub claims : ℕ → StreamConnection → ℕ
claims n c = waiting n c.control_tasks + one_if (c.active n)

-- No call has more that may end it.
abbrev pub Less : StreamConnection → StreamConnection → Type 0
Less c c' = (c'.made ≡ c.made) × ((n : ℕ) → claims n c' ≤ claims n c)

-- The same, but for one new call
abbrev pub Grows : StreamConnection → StreamConnection → Type 0
Grows c c' =
    Less c c'
    ⊎ ((c'.made ≡ c.made + 1) × ((n : ℕ) → claims n c' ≤ claims n c + one_if (n == c.made)))

pub Less-refl : (c : StreamConnection) → Less c c
Less-refl c = (refl, λ n. omega arith)

pub Less-trans : (a b c : StreamConnection) → Less a b → Less b c → Less a c
Less-trans a b c (m, f) (k, g) = (k ∙ m, λ n. let x = f n in let y = g n in omega arith)

-- Nothing that counts is touched.
abbrev pub Untouched : StreamConnection → StreamConnection → Type 0
Untouched c c' = (c'.made ≡ c.made) × (c'.active ≡ c.active) × (c'.control_tasks ≡ c.control_tasks)

pub Untouched-trans : (a b c : StreamConnection) → Untouched a b → Untouched b c → Untouched a c
Untouched-trans a b c (m, f, t) (k, g, u) = (k ∙ m, g ∙ f, u ∙ t)

pub Untouched-Less : (c c' : StreamConnection) → Untouched c c' → Less c c'
Untouched-Less c c' (m, f, t) =
    (m, λ n. let same : claims n c' ≡ claims n c = rw (f, t) refl in omega arith)

pub reconcile_inbound_bytes-Untouched :
    (capacity : ℕ → ℕ) (id : ℕ) (c : StreamConnection)
    → Untouched c (reconcile_inbound_bytes capacity id c)
unfolding reconcile_inbound_bytes
reconcile_inbound_bytes-Untouched capacity id c = elim (Option-cases (get id c.calls)) [
  | inl gone ↦ rw (gone, reconcile_inbound_bytes) (refl, refl, refl)
  | inr (slot, there) ↦ rw (there, reconcile_inbound_bytes) (refl, refl, refl)
]

pub reconcile_all_inbound_bytes-Untouched :
    (capacity : ℕ → ℕ) (c : StreamConnection) → Untouched c (reconcile_all_inbound_bytes capacity c)
unfolding reconcile_all_inbound_bytes
reconcile_all_inbound_bytes-Untouched capacity c = (refl, refl, refl)

pub finalize_consumed_inbound_ends-Untouched :
    (capacity : ℕ → ℕ) (c : StreamConnection)
    → Untouched c (finalize_consumed_inbound_ends capacity c)
unfolding finalize_consumed_inbound_ends reconcile_all_inbound_bytes
finalize_consumed_inbound_ends-Untouched capacity c = (refl, refl, refl)

pub remove_call-Untouched : (id : ℕ) (c : StreamConnection) → Untouched c (remove_call id c)
unfolding remove_call
remove_call-Untouched id c = elim (Option-cases (get id c.calls)) [
  | inl gone ↦ rw (gone, remove_call) (refl, refl, refl)
  | inr (slot, there) ↦ rw (there, remove_call) (refl, refl, refl)
]

pub discard_closed_inbound-Untouched :
    (id : ℕ) (c : StreamConnection) → Untouched c (discard_closed_inbound id c)
unfolding discard_closed_inbound
discard_closed_inbound-Untouched id c = elim (Option-cases (get id c.calls)) [
  | inl gone ↦ rw (gone, discard_closed_inbound) (refl, refl, refl)
  | inr (slot, there) ↦ rw (there, discard_closed_inbound) (refl, refl, refl)
]

deactivate_slots-le :
    (calls : List (ℕ × CallSlot)) (active : ℕ → Bool) (n : ℕ)
    → one_if (deactivate_slots calls active n) ≤ one_if (active n)
unfolding deactivate_slots
deactivate_slots-le [] active n = omega arith
deactivate_slots-le ((id, slot) ∷ calls) active n =
    ground (arith, deactivate_slots-le calls active n)

pub close-Less : (c : StreamConnection) → Less c (close c)
unfolding close cancel_all
close-Less c = (refl, λ n. let fewer = deactivate_slots-le c.calls c.active n in omega arith)

pub deactivate-le :
    (flag n : ℕ) (active : ℕ → Bool) → one_if (deactivate flag active n) ≤ one_if (active n)
deactivate-le flag n active = ground arith
