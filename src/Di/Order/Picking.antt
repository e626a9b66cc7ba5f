-- ===== src/Di/Order/Picking.antt =====
-- The loop of `build` that picks a trait's providers, crates/di/src/registry/order.rs.
use overseerd.Base.{
  ℕ, zero, suc, ◌+◌, ◌≤◌, ◌<◌, ◌≡◌, refl, true, false, some, List, [], ◌∷◌, ◌++◌, mem, get,
  if◌then◌else◌, arith, mem-append, Bool-cases, inl, inr, subst, All, keep_if, ok-injective, ok,
  length, distinct, distinct-snoc, Option-cases, ==_refl,
}
use overseerd.Di.Order.{
  Edges, Indegree, id_of, precedes, min_of, min_by, is_ready, is_zero, lower_successors, pick,
}
use overseerd.Di.Descriptors.{ProviderDescriptor}
use overseerd.Di.Order.Graph.{
  pending, Counts, lower_successors-Counts, degree_of_zero, Respects, snoc-Respects,
}

abbrev pub ids : List ProviderDescriptor → List ℕ
ids [] = []
ids (p ∷ providers) = id_of p ∷ ids providers

-- How many of the providers are not taken
abbrev pub untaken : List ProviderDescriptor → List ℕ → ℕ
untaken [] ordered = 0
untaken (p ∷ providers) ordered =
    (if mem (id_of p) ordered then 0 else 1) + untaken providers ordered

untaken-snoc :
    (providers : List ProviderDescriptor) (ordered : List ℕ) (next : ℕ)
    → untaken providers (ordered ++ next ∷ []) ≤ untaken providers ordered
untaken-snoc [] ordered next = omega arith
untaken-snoc (p ∷ providers) ordered next =
    ground (arith, untaken-snoc providers ordered next, mem-append (id_of p) ordered (next ∷ []))

untaken-taken :
    (providers : List ProviderDescriptor) (ordered : List ℕ) (next : ℕ)
    → mem next (ids providers) ≡ true
    → mem next ordered ≡ false
    → untaken providers (ordered ++ next ∷ []) < untaken providers ordered
untaken-taken [] ordered next h k = cc
untaken-taken (p ∷ providers) ordered next h k = ground (
  arith,
  untaken-taken providers ordered next,
  untaken-snoc providers ordered next,
  mem-append (id_of p) ordered (next ∷ []),
)

all_taken :
    (providers : List ProviderDescriptor) (ordered : List ℕ)
    → untaken providers ordered ≡ 0
    → (id : ℕ) → mem id (ids providers) ≡ true
    → mem id ordered ≡ true
all_taken [] ordered h id k = cc
all_taken (p ∷ providers) ordered h id k =
    let none_left : untaken providers ordered ≡ 0 = ground arith in
    let rest = all_taken providers ordered none_left id in ground arith

pub untaken_none : (providers : List ProviderDescriptor) → untaken providers [] ≡ length providers
untaken_none [] = refl
untaken_none (p ∷ providers) = omega (arith, untaken_none providers)

-- A provider that may be picked: it is one of them and ready.
abbrev IsCandidate : List ProviderDescriptor → Indegree → List ℕ → ProviderDescriptor → Type 0
IsCandidate providers indegree ordered p =
    (mem (id_of p) (ids providers) ≡ true) × (is_ready indegree ordered p ≡ true)

candidates :
    (all providers : List ProviderDescriptor) (indegree : Indegree) (ordered : List ℕ)
    → All (λ p. mem (id_of p) (ids all) ≡ true) providers
    → All (IsCandidate all indegree ordered) (keep_if (is_ready indegree ordered) providers)
candidates all [] indegree ordered h = tt
candidates all (p ∷ providers) indegree ordered h =
    ground (arith, candidates all providers indegree ordered h.1)

pub All-ids :
    (among : List ℕ) (providers : List ProviderDescriptor)
    → ((id : ℕ) → mem id (ids providers) ≡ true → mem id among ≡ true)
    → All (λ p. mem (id_of p) among ≡ true) providers
All-ids among [] sub = tt
All-ids among (p ∷ providers) sub = (
  sub (id_of p) (rw (==_refl (id_of p)) refl),
  All-ids among providers (λ id h. sub id (ground arith)),
)

min_of-candidate :
    (P : ProviderDescriptor → Type 0) (best : ProviderDescriptor)
    (providers : List ProviderDescriptor)
    → P best
    → All P providers
    → P (min_of best providers)
unfolding min_of
min_of-candidate P best [] h k = h
min_of-candidate P best (p ∷ providers) h k = elim (Bool-cases (precedes p best)) [
  | inl less ↦ rw less (min_of-candidate P p providers k.0 k.1)
  | inr more ↦ rw more (min_of-candidate P best providers h k.1)
]

min_by-candidate :
    (P : ProviderDescriptor → Type 0) (providers : List ProviderDescriptor)
    (next : ProviderDescriptor)
    → All P providers
    → min_by providers ≡ some next
    → P next
unfolding min_by
min_by-candidate P [] next h k = cc
min_by-candidate P (p ∷ providers) next h k =
    subst P (ground arith) (min_of-candidate P p providers h.0 h.1)

-- What a finished loop has: the ids of the providers, each once, as the edges want them.
pub record IsOrder (providers : List ProviderDescriptor) (edges : Edges) (ordered : List ℕ)
    : Type 0 where
  pub once : distinct ordered ≡ true
  pub whole : (id : ℕ) → mem id (ids providers) ≡ true → mem id ordered ≡ true
  pub only : (id : ℕ) → mem id ordered ≡ true → mem id (ids providers) ≡ true
  pub respects : Respects edges ordered

module _ (providers : List ProviderDescriptor) (edges : Edges) where
  -- Where the loop stands with `n` rounds to come
  pub record IsPicking (n : ℕ) (ordered : List ℕ) (indegree : Indegree) : Type 0 where
    pub once : distinct ordered ≡ true
    pub only : (id : ℕ) → mem id ordered ≡ true → mem id (ids providers) ≡ true
    pub respects : Respects edges ordered
    pub few : untaken providers ordered ≤ n
    pub counts : Counts edges ordered indegree

  pub picked :
      (n : ℕ) (ordered : List ℕ) (indegree : Indegree) (next : ProviderDescriptor)
      → min_by (keep_if (is_ready indegree ordered) providers) ≡ some next
      → IsCandidate providers indegree ordered next
  picked n ordered indegree next found =
      min_by-candidate (IsCandidate providers indegree ordered)
        (keep_if (is_ready indegree ordered) providers) next
        (candidates providers providers indegree ordered
          (All-ids (ids providers) providers (λ id h. h)))
        found

  pub IsPicking-round :
      (n : ℕ) (ordered : List ℕ) (indegree : Indegree) (next : ProviderDescriptor)
      → IsPicking (suc n) ordered indegree
      → IsCandidate providers indegree ordered next
      → IsPicking n (ordered ++ id_of next ∷ []) (lower_successors (id_of next) edges indegree)
  IsPicking-round n ordered indegree next inv (here, ready) =
      let fresh : mem (id_of next) ordered ≡ false = ground arith in
      let zero_left : is_zero (get (id_of next) indegree) ≡ true = ground arith in
      let free : pending edges ordered (id_of next) ≡ 0 =
        omega (arith, inv.counts (id_of next), degree_of_zero (id_of next) indegree zero_left) in
      record {
        once = distinct-snoc ordered (id_of next) inv.once fresh;
        only = λ id h. ground (arith, inv.only id, mem-append id ordered (id_of next ∷ []));
        respects = snoc-Respects edges ordered (id_of next) fresh free inv.respects;
        few = omega (arith, inv.few, untaken-taken providers ordered (id_of next) here fresh);
        counts = lower_successors-Counts (id_of next) edges ordered indegree fresh inv.counts;
      }

  pub pick-IsOrder :
      (n : ℕ) (ordered : List ℕ) (indegree : Indegree) {result : List ℕ}
      → IsPicking n ordered indegree
      → pick n providers edges ordered indegree ≡ ok result
      → IsOrder providers edges result
  unfolding pick
  pick-IsOrder zero ordered indegree {result} inv h =
      let same : ordered ≡ result = ok-injective h in
      subst (IsOrder providers edges) same (record {
        once = inv.once;
        whole = all_taken providers ordered (omega (arith, inv.few));
        only = inv.only;
        respects = inv.respects;
      })
  pick-IsOrder (suc n) ordered indegree {result} inv h =
      elim (Option-cases (min_by (keep_if (is_ready indegree ordered) providers))) [
        | inl stuck ↦ absurd (let bad = rw (pick, stuck) at h in cc)
        | inr (next, found) ↦
            pick-IsOrder n (ordered ++ id_of next ∷ [])
              (lower_successors (id_of next) edges indegree)
              (IsPicking-round n ordered indegree next inv (picked n ordered indegree next found))
              (rw (pick, found) at h)
      ]
