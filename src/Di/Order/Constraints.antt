-- ===== src/Di/Order/Constraints.antt =====
-- Edges and declared orderings, crates/di/src/registry/order.rs.
use overseerd.Base.{
  ℕ, ◌≡◌, refl, true, false, ◌&&◌, ◌||◌, List, [], ◌∷◌, ◌++◌, mem, has_key, any_of, ◌==◌, ==_refl,
  arith, Bool-cases, inl, inr, All, ok, >>=-eq-ok, ok-injective, length, subst, distinct,
}
use overseerd.Di.Order.{
  Edges, Indegree, id_of, edge_of, is_about, is_empty, has_edge, add_edge, add_orderings,
  add_sources, zeros, raise, order_trait, pick,
}
use overseerd.Di.Grouping.{is_concrete}
use overseerd.Di.Descriptors.{
  ProviderDescriptor, ProviderOrder, ProviderOrderDirection, before, after,
}
use overseerd.Di.Order.Graph.{Counts, degree, add_edge-Counts, comes_before}
use overseerd.Di.Order.Picking.{ids, All-ids, IsPicking, untaken_none, pick-IsOrder}

-- What a list of orderings of one source asks for, of a relation of ids
abbrev pub Asked :
    ℕ → List ProviderDescriptor → (ℕ → ℕ → Type 0) → ProviderDescriptor → ProviderOrder → Type 0
Asked trait_id providers Holds source o =
    is_about trait_id o.traits ≡ true
    → any_of (is_concrete o.target.type_id) providers ≡ true
    → Holds (edge_of o.direction (id_of source) o.target.type_id).0
        (edge_of o.direction (id_of source) o.target.type_id).1

abbrev pub AllAsked : ℕ → List ProviderDescriptor → (ℕ → ℕ → Type 0) → ProviderDescriptor → Type 0
AllAsked trait_id providers Holds source =
    All (Asked trait_id providers Holds source) source.ordering

abbrev pub IsEdge : Edges → ℕ → ℕ → Type 0
IsEdge edges x y = has_edge x y edges ≡ true

-- Both ends of every edge are in the list.
abbrev pub Within : List ℕ → Edges → Type 0
Within among edges = (x y : ℕ) → IsEdge edges x y → (mem x among ≡ true) × (mem y among ≡ true)

-- The second graph has the edges of the first, counts if the first counts, and stays within the
-- list.
pub record Grows (among : List ℕ) (old new : Edges × Indegree) : Type 0 where
  pub keeps : (x y : ℕ) → IsEdge old.0 x y → IsEdge new.0 x y
  pub counts : Counts old.0 [] old.1 → Counts new.0 [] new.1
  pub within : Within among old.0 → Within among new.0
  pub keys : (id : ℕ) → has_key id old.1 ≡ true → has_key id new.1 ≡ true

Grows-refl : (among : List ℕ) (one : Edges × Indegree) → Grows among one one
Grows-refl among one = record {
  keeps = λ x y e. e;
  counts = λ c. c;
  within = λ w. w;
  keys = λ id k. k;
}

Grows-trans :
    {among : List ℕ} {one two three : Edges × Indegree}
    → Grows among one two
    → Grows among two three
    → Grows among one three
Grows-trans g h = record {
  keeps = λ x y e. h.keeps x y (g.keeps x y e);
  counts = λ c. h.counts (g.counts c);
  within = λ w. h.within (g.within w);
  keys = λ id k. h.keys id (g.keys id k);
}

pub has_edge-snoc :
    (x y from to : ℕ) (edges : Edges)
    → has_edge x y (edges ++ (from, to) ∷ []) ≡ (has_edge x y edges || ((from == x) && (to == y)))
unfolding has_edge
has_edge-snoc x y from to [] = ground arith
has_edge-snoc x y from to ((a, b) ∷ edges) = ground (arith, has_edge-snoc x y from to edges)

has_key-raise :
    (to id : ℕ) (indegree : Indegree)
    → has_key id indegree ≡ true
    → has_key id (raise to indegree) ≡ true
unfolding raise
has_key-raise to id [] h = cc
has_key-raise to id ((k, n) ∷ indegree) h = ground (arith, has_key-raise to id indegree)

add_edge-Grows :
    (among : List ℕ) (from to : ℕ) (graph : Edges × Indegree)
    → mem from among ≡ true
    → mem to among ≡ true
    → Grows among graph (add_edge from to graph)
unfolding add_edge
add_edge-Grows among from to (edges, indegree) f t = record {
  keeps = λ x y h. ground (arith, has_edge-snoc x y from to edges);
  counts = add_edge-Counts from to edges indegree;
  within = λ w x y h. ground (arith, has_edge-snoc x y from to edges, w x y);
  keys = λ id k. ground (arith, has_key-raise to id indegree);
}

add_edge-IsEdge :
    (from to : ℕ) (graph : Edges × Indegree) → IsEdge (add_edge from to graph).0 from to
unfolding add_edge
add_edge-IsEdge from to (edges, indegree) =
    ground (arith, has_edge-snoc from to from to edges, ==_refl from, ==_refl to)

any_of-ids :
    (id : ℕ) (providers : List ProviderDescriptor)
    → any_of (is_concrete id) providers ≡ true
    → mem id (ids providers) ≡ true
any_of-ids id [] h = cc
any_of-ids id (p ∷ providers) h = ground (arith, any_of-ids id providers)

edge_of-mem :
    (direction : ProviderOrderDirection) (source target : ℕ) (among : List ℕ)
    → mem source among ≡ true
    → mem target among ≡ true
    → (mem (edge_of direction source target).0 among ≡ true)
      × (mem (edge_of direction source target).1 among ≡ true)
edge_of-mem before source target among s t = (s, t)
edge_of-mem after source target among s t = (t, s)

module _ (trait_id : ℕ) (providers : List ProviderDescriptor) where
  add_orderings-Asked :
      (source : ProviderDescriptor) (ordering : List ProviderOrder) (graph : Edges × Indegree)
      {result : Edges × Indegree}
      → add_orderings trait_id providers source ordering graph ≡ ok result
      → mem (id_of source) (ids providers) ≡ true
      → Grows (ids providers) graph result
        × All (Asked trait_id providers (IsEdge result.0) source) ordering
  unfolding add_orderings
  add_orderings-Asked source [] graph {result} h known =
      let same : graph ≡ result = ok-injective h in
      (subst (Grows (ids providers) graph) same (Grows-refl (ids providers) graph), tt)
  add_orderings-Asked source (o ∷ ordering) graph {result} h known =
      elim (Bool-cases (is_about trait_id o.traits)) [
        | inr other ↦
            let rest =
              add_orderings-Asked source ordering graph (rw (add_orderings, other) at h) known in
            (rest.0, (λ about here. absurd (ground arith), rest.1))
        | inl about ↦ elim (Bool-cases (any_of (is_concrete o.target.type_id) providers)) [
          | inl here ↦
              let (from, to) = edge_of o.direction (id_of source) o.target.type_id in
              let rest =
                add_orderings-Asked source ordering (add_edge from to graph)
                  (rw (add_orderings, about, here) at h) known in
              let target_known = any_of-ids o.target.type_id providers here in
              let (f, t) =
                edge_of-mem o.direction (id_of source) o.target.type_id (ids providers) known
                  target_known in
              (
                Grows-trans (add_edge-Grows (ids providers) from to graph f t) rest.0,
                (λ about1 here1. rest.0.keeps from to (add_edge-IsEdge from to graph), rest.1),
              )
          | inr away ↦ elim (Bool-cases (is_empty o.traits)) [
            | inl free ↦
                let rest =
                  add_orderings-Asked source ordering graph
                    (rw (add_orderings, about, away, free) at h) known in
                (rest.0, (λ about1 here. absurd (ground arith), rest.1))
            | inr bound ↦ absurd (let bad = rw (add_orderings, about, away, bound) at h in cc)
          ]
        ]
      ]

  -- A relation that holds more holds what was asked.
  All-Asked :
      (H K : ℕ → ℕ → Type 0) (source : ProviderDescriptor) (ordering : List ProviderOrder)
      → ((x y : ℕ) → H x y → K x y)
      → All (Asked trait_id providers H source) ordering
      → All (Asked trait_id providers K source) ordering
  All-Asked H K source [] imply h = tt
  All-Asked H K source (o ∷ ordering) imply h = (
    λ about here.
        imply (edge_of o.direction (id_of source) o.target.type_id).0
          (edge_of o.direction (id_of source) o.target.type_id).1 (h.0 about here),
    All-Asked H K source ordering imply h.1,
  )

  All-AllAsked :
      (H K : ℕ → ℕ → Type 0) (sources : List ProviderDescriptor)
      → ((x y : ℕ) → H x y → K x y)
      → All (AllAsked trait_id providers H) sources
      → All (AllAsked trait_id providers K) sources
  All-AllAsked H K [] imply h = tt
  All-AllAsked H K (source ∷ sources) imply h =
      (All-Asked H K source source.ordering imply h.0, All-AllAsked H K sources imply h.1)

  pub add_sources-Asked :
      (sources : List ProviderDescriptor) (graph : Edges × Indegree) {result : Edges × Indegree}
      → add_sources trait_id providers sources graph ≡ ok result
      → All (λ p. mem (id_of p) (ids providers) ≡ true) sources
      → Grows (ids providers) graph result
        × All (AllAsked trait_id providers (IsEdge result.0)) sources
  unfolding add_sources
  add_sources-Asked [] graph {result} h known =
      let same : graph ≡ result = ok-injective h in
      (subst (Grows (ids providers) graph) same (Grows-refl (ids providers) graph), tt)
  add_sources-Asked (source ∷ sources) graph {result} h known =
      let (next, first, then_) =
        >>=-eq-ok (add_orderings trait_id providers source source.ordering graph)
          (add_sources trait_id providers sources) h in
      let mine = add_orderings-Asked source source.ordering graph first known.0 in
      let others = add_sources-Asked sources next then_ known.1 in
      (
        Grows-trans mine.0 others.0,
        (
          All-Asked (IsEdge next.0) (IsEdge result.0) source source.ordering others.0.keeps mine.1,
          others.1,
        ),
      )

pub degree-zeros : (id : ℕ) (providers : List ProviderDescriptor) → degree id (zeros providers) ≡ 0
unfolding zeros
degree-zeros id [] = refl
degree-zeros id (p ∷ providers) = ground (arith, degree-zeros id providers)

-- An order of a trait's providers that is given has every provider's id, no other and none twice,
-- and respects each ordering of the providers that is about the trait and whose target provides
-- it.
pub order_trait-IsOrder :
    (trait_id : ℕ) (providers : List ProviderDescriptor) {ordered : List ℕ}
    → order_trait trait_id providers ≡ ok ordered
    → (distinct ordered ≡ true)
      × ((id : ℕ) → mem id ordered ≡ mem id (ids providers))
      × All (AllAsked trait_id providers (λ x y. comes_before x y ordered ≡ true)) providers
unfolding order_trait has_edge
order_trait-IsOrder trait_id providers {ordered} h =
    let (graph, built, taken) =
      >>=-eq-ok (add_sources trait_id providers providers ([], zeros providers))
        (λ graph. pick (length providers) providers graph.0 [] graph.1) h in
    let made =
      add_sources-Asked trait_id providers providers ([], zeros providers) built
        (All-ids (ids providers) providers (λ id k. k)) in
    let start : IsPicking providers graph.0 (length providers) [] graph.1 = record {
      once = refl;
      only = λ id k. absurd (ground arith);
      respects = λ x y e k. absurd (ground arith);
      few = omega (arith, untaken_none providers);
      counts = made.0.counts (λ id. degree-zeros id providers);
    } in
    let done = pick-IsOrder providers graph.0 (length providers) [] graph.1 start taken in
    let within = made.0.within (λ x y e. absurd (let bad : false ≡ true = e in cc)) in
    (
      done.once,
      λ id. ground (arith, done.whole id, done.only id),
      All-AllAsked trait_id providers (IsEdge graph.0) (λ x y. comes_before x y ordered ≡ true)
          providers (λ x y e. done.respects x y e (done.whole y (within x y e).1)) made.1,
    )
