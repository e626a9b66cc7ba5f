-- ===== src/Di/Order/Completeness.antt =====
-- Orders that the loop of `build` could find, crates/di/src/registry/order.rs.
use overseerd.Base.{
  ℕ, zero, suc, ◌≤◌, ◌<◌, ◌≡◌, ◌≢◌, refl, sym, ◌∙◌, true, false, none, List, [], ◌∷◌, ◌++◌, mem,
  mem-append, get, has_key, ==_refl, arith, Bool-cases, Option-cases, inl, inr, keep_if, ok,
  distinct,
}
use overseerd.Di.Order.{
  Edges, Indegree, id_of, is_ready, is_zero, has_edge, zeros, pick, min_by, lower, lower_successors,
}
use overseerd.Di.Descriptors.{ProviderDescriptor}
use overseerd.Di.Order.Graph.{degree, pending, comes_before, Respects}
use overseerd.Di.Order.Picking.{ids, untaken, IsPicking, IsPicking-round, picked}

-- The first id of an order that is not taken: whatever stands before it is taken.
first_untaken :
    (order taken : List ℕ) (id : ℕ)
    → distinct order ≡ true
    → mem id order ≡ true
    → mem id taken ≡ false
    → (z : ℕ) × (mem z order ≡ true)
      × (mem z taken ≡ false)
      × ((x : ℕ) → comes_before x z order ≡ true → mem x taken ≡ true)
first_untaken [] taken id d h k = cc
first_untaken (y ∷ order) taken id d h k = elim (Bool-cases (mem y taken)) [
  | inr free ↦ (y, rw (==_refl y) refl, free, λ x b. absurd (ground (arith, ==_refl y)))
  | inl gone ↦
      let here : mem id order ≡ true = ground arith in
      let rest : distinct order ≡ true = ground arith in
      let (z, there, free, before) = first_untaken order taken id rest here k in
      (z, ground arith, free, λ x b. ground (arith, before x))
]

nothing_pending :
    (edges : Edges) (taken : List ℕ) (id : ℕ)
    → ((x : ℕ) → has_edge x id edges ≡ true → mem x taken ≡ true)
    → pending edges taken id ≡ 0
unfolding has_edge
nothing_pending [] taken id h = refl
nothing_pending ((x, y) ∷ edges) taken id h =
    ground (arith, nothing_pending edges taken id (λ z e. h z (ground arith)), h x, ==_refl x)

zero_of_degree :
    (id : ℕ) (indegree : Indegree)
    → has_key id indegree ≡ true
    → degree id indegree ≡ 0
    → is_zero (get id indegree) ≡ true
zero_of_degree id [] h k = cc
zero_of_degree id ((j, zero) ∷ indegree) h k = ground (arith, zero_of_degree id indegree)
zero_of_degree id ((j, suc n) ∷ indegree) h k = ground (arith, zero_of_degree id indegree)

some_picked :
    (indegree : Indegree) (ordered : List ℕ) (id : ℕ) (providers : List ProviderDescriptor)
    → mem id (ids providers) ≡ true
    → is_zero (get id indegree) ≡ true
    → mem id ordered ≡ false
    → min_by (keep_if (is_ready indegree ordered) providers) ≢ none
unfolding min_by
some_picked indegree ordered id [] h k l found = cc
some_picked indegree ordered id (p ∷ providers) h k l found =
    elim (Bool-cases (is_ready indegree ordered p)) [
      | inl fit ↦ let bad = rw fit at found in cc
      | inr unfit ↦ some_picked indegree ordered id providers (ground arith) k l (rw unfit at found)
    ]

untaken_one :
    (providers : List ProviderDescriptor) (ordered : List ℕ)
    → 0 < untaken providers ordered
    → (id : ℕ) × (mem id (ids providers) ≡ true) × (mem id ordered ≡ false)
untaken_one [] ordered h = absurd (omega arith)
untaken_one (p ∷ providers) ordered h = elim (Bool-cases (mem (id_of p) ordered)) [
  | inr free ↦ (id_of p, rw (==_refl (id_of p)) refl, free)
  | inl gone ↦
      let (id, here, free) = untaken_one providers ordered (ground arith) in
      (id, ground arith, free)
]

untaken-absent :
    (providers : List ProviderDescriptor) (ordered : List ℕ) (next : ℕ)
    → mem next (ids providers) ≡ false
    → untaken providers ordered ≤ untaken providers (ordered ++ next ∷ [])
untaken-absent [] ordered next h = omega arith
untaken-absent (p ∷ providers) ordered next h =
    ground (arith, untaken-absent providers ordered next, mem-append (id_of p) ordered (next ∷ []))

untaken-once :
    (providers : List ProviderDescriptor) (ordered : List ℕ) (next : ℕ)
    → distinct (ids providers) ≡ true
    → untaken providers ordered ≤ suc (untaken providers (ordered ++ next ∷ []))
untaken-once [] ordered next h = omega arith
untaken-once (p ∷ providers) ordered next h = ground (
  arith,
  untaken-once providers ordered next,
  untaken-absent providers ordered next,
  mem-append (id_of p) ordered (next ∷ []),
)

has_key-lower :
    (to id : ℕ) (indegree : Indegree)
    → has_key id indegree ≡ true
    → has_key id (lower to indegree) ≡ true
unfolding lower
has_key-lower to id [] h = cc
has_key-lower to id ((k, n) ∷ indegree) h = ground (arith, has_key-lower to id indegree)

has_key-lower_successors :
    (next id : ℕ) (edges : Edges) (indegree : Indegree)
    → has_key id indegree ≡ true
    → has_key id (lower_successors next edges indegree) ≡ true
unfolding lower_successors
has_key-lower_successors next id [] indegree h = h
has_key-lower_successors next id ((x, y) ∷ edges) indegree h = ground (
  arith,
  has_key-lower_successors next id edges indegree,
  has_key-lower_successors next id edges (lower y indegree),
  has_key-lower y id indegree,
)

pub has_key-zeros :
    (id : ℕ) (providers : List ProviderDescriptor)
    → mem id (ids providers) ≡ true
    → has_key id (zeros providers) ≡ true
unfolding zeros
has_key-zeros id [] h = cc
has_key-zeros id (p ∷ providers) h = ground (arith, has_key-zeros id providers)

module _ (providers : List ProviderDescriptor) (edges : Edges) (order : List ℕ) where
  -- An order that the loop may find
  pub record CanOrder : Type 0 where
    pub once : distinct order ≡ true
    pub whole : (id : ℕ) → mem id order ≡ mem id (ids providers)
    pub respects : Respects edges order

  -- With such an order the loop always finds a next provider.
  never_stuck :
      (n : ℕ) (ordered : List ℕ) (indegree : Indegree)
      → CanOrder
      → IsPicking providers edges (suc n) ordered indegree
      → ((id : ℕ) → mem id (ids providers) ≡ true → has_key id indegree ≡ true)
      → 0 < untaken providers ordered
      → min_by (keep_if (is_ready indegree ordered) providers) ≢ none
  never_stuck n ordered indegree can inv keys more stuck =
      let (id, here, free) = untaken_one providers ordered more in
      let (z, there, open_, before) =
        first_untaken order ordered id can.once (can.whole id ∙ here) free in
      let mine : mem z (ids providers) ≡ true = sym (can.whole z) ∙ there in
      let settled = nothing_pending edges ordered z (λ x e. before x (can.respects x z e there)) in
      let zero_now = zero_of_degree z indegree (keys z mine) (inv.counts z ∙ settled) in
      some_picked indegree ordered z providers mine zero_now open_ stuck

  pub pick_succeeds :
      (n : ℕ) (ordered : List ℕ) (indegree : Indegree)
      → CanOrder
      → distinct (ids providers) ≡ true
      → IsPicking providers edges n ordered indegree
      → ((id : ℕ) → mem id (ids providers) ≡ true → has_key id indegree ≡ true)
      → n ≤ untaken providers ordered
      → (result : List ℕ) × (pick n providers edges ordered indegree ≡ ok result)
  unfolding pick
  pick_succeeds zero ordered indegree can apart inv keys enough = (ordered, refl)
  pick_succeeds (suc n) ordered indegree can apart inv keys enough =
      elim (Option-cases (min_by (keep_if (is_ready indegree ordered) providers))) [
        | inl stuck ↦ absurd (never_stuck n ordered indegree can inv keys (omega arith) stuck)
        | inr (next, found) ↦
            let (result, done) =
              pick_succeeds n (ordered ++ id_of next ∷ [])
                (lower_successors (id_of next) edges indegree) can apart
                (IsPicking-round providers edges n ordered indegree next inv
                  (picked providers edges n ordered indegree next found))
                (λ id h. has_key-lower_successors (id_of next) id edges indegree (keys id h))
                (omega (arith, untaken-once providers ordered (id_of next) apart)) in
            (result, rw (pick, found) done)
      ]
