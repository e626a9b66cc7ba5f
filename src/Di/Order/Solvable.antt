-- ===== src/Di/Order/Solvable.antt =====
-- Orders that meet the declared orderings, crates/di/src/registry/order.rs.
use overseerd.Base.{
  ◌==◌, ℕ, ◌≡◌, refl, true, false, List, [], ◌∷◌, mem, any_of, arith, Bool-cases, inl, inr, All, ok,
  >>=-eq-ok, ok-injective, length, subst, distinct,
}
use overseerd.Di.Order.{
  Edges, Indegree, id_of, edge_of, is_about, is_empty, has_edge, add_edge, add_orderings,
  add_sources, zeros, order_trait,
}
use overseerd.Di.Grouping.{is_concrete}
use overseerd.Di.Descriptors.{TypeDescriptor, ProviderDescriptor, ProviderOrder}
use overseerd.Di.Order.Graph.{comes_before}
use overseerd.Di.Order.Picking.{ids, All-ids, IsPicking, untaken_none}
use overseerd.Di.Order.Constraints.{
  AllAsked, Asked, IsEdge, add_sources-Asked, degree-zeros, has_edge-snoc,
}
use overseerd.Di.Order.Completeness.{CanOrder, pick_succeeds, has_key-zeros}

-- Every edge is met by the order.
abbrev IsMet : List ℕ → Edges → Type 0
IsMet order edges = (x y : ℕ) → IsEdge edges x y → comes_before x y order ≡ true

add_edge-IsMet :
    (order : List ℕ) (from to : ℕ) (graph : Edges × Indegree)
    → comes_before from to order ≡ true
    → IsMet order graph.0
    → IsMet order (add_edge from to graph).0
unfolding add_edge
add_edge-IsMet order from to (edges, indegree) new old x y e =
    ground (arith, has_edge-snoc x y from to edges, old x y)

module _ (trait_id : ℕ) (providers : List ProviderDescriptor) (order : List ℕ) where
  abbrev Meets : ℕ → ℕ → Type 0
  Meets x y = comes_before x y order ≡ true

  add_orderings-IsMet :
      (source : ProviderDescriptor) (ordering : List ProviderOrder) (graph : Edges × Indegree)
      {result : Edges × Indegree}
      → add_orderings trait_id providers source ordering graph ≡ ok result
      → All (Asked trait_id providers Meets source) ordering
      → IsMet order graph.0
      → IsMet order result.0
  unfolding add_orderings
  add_orderings-IsMet source [] graph {result} h asked met =
      let same : graph ≡ result = ok-injective h in
      subst (λ (g : Edges × Indegree). IsMet order g.0) same met
  add_orderings-IsMet source (o ∷ ordering) graph {result} h asked met =
      elim (Bool-cases (is_about trait_id o.traits)) [
        | inr other ↦
            add_orderings-IsMet source ordering graph (rw (add_orderings, other) at h) asked.1 met
        | inl about ↦ elim (Bool-cases (any_of (is_concrete o.target.type_id) providers)) [
          | inl here ↦
              let (from, to) = edge_of o.direction (id_of source) o.target.type_id in
              add_orderings-IsMet source ordering (add_edge from to graph)
                (rw (add_orderings, about, here) at h) asked.1
                (add_edge-IsMet order from to graph (asked.0 about here) met)
          | inr away ↦ elim (Bool-cases (is_empty o.traits)) [
            | inl free ↦
                add_orderings-IsMet source ordering graph
                  (rw (add_orderings, about, away, free) at h) asked.1 met
            | inr bound ↦ absurd (let bad = rw (add_orderings, about, away, bound) at h in cc)
          ]
        ]
      ]

  add_sources-IsMet :
      (sources : List ProviderDescriptor) (graph : Edges × Indegree) {result : Edges × Indegree}
      → add_sources trait_id providers sources graph ≡ ok result
      → All (AllAsked trait_id providers Meets) sources
      → IsMet order graph.0
      → IsMet order result.0
  unfolding add_sources
  add_sources-IsMet [] graph {result} h asked met =
      let same : graph ≡ result = ok-injective h in
      subst (λ (g : Edges × Indegree). IsMet order g.0) same met
  add_sources-IsMet (source ∷ sources) graph {result} h asked met =
      let (next, first, later) =
        >>=-eq-ok (add_orderings trait_id providers source source.ordering graph)
          (add_sources trait_id providers sources) h in
      add_sources-IsMet sources next later asked.1
        (add_orderings-IsMet source source.ordering graph first asked.0 met)

-- An ordering that is restricted to some traits, this one among them, names a target that provides it.
abbrev pub Provided : ℕ → List ProviderDescriptor → ProviderOrder → Type 0
Provided trait_id providers o =
    any_of (λ (t : TypeDescriptor). t.type_id == trait_id) o.traits ≡ true
    → any_of (is_concrete o.target.type_id) providers ≡ true

abbrev pub AllProvided : ℕ → List ProviderDescriptor → ProviderDescriptor → Type 0
AllProvided trait_id providers source = All (Provided trait_id providers) source.ordering

module _ (trait_id : ℕ) (providers : List ProviderDescriptor) where
  restricted :
      (o : ProviderOrder)
      → is_about trait_id o.traits ≡ true
      → is_empty o.traits ≡ false
      → any_of (λ (t : TypeDescriptor). t.type_id == trait_id) o.traits ≡ true
  restricted o about bound = rw bound at about

  add_orderings_total :
      (source : ProviderDescriptor) (ordering : List ProviderOrder) (graph : Edges × Indegree)
      → All (Provided trait_id providers) ordering
      → (result : Edges × Indegree) × (add_orderings trait_id providers source ordering graph
          ≡ ok result)
  unfolding add_orderings
  add_orderings_total source [] graph told = (graph, refl)
  add_orderings_total source (o ∷ ordering) graph (provided, told) =
      elim (Bool-cases (is_about trait_id o.traits)) [
        | inr other ↦ rw (add_orderings, other) (add_orderings_total source ordering graph told)
        | inl about ↦ elim (Bool-cases (any_of (is_concrete o.target.type_id) providers)) [
          | inl here ↦
              let (from, to) = edge_of o.direction (id_of source) o.target.type_id in
              rw (add_orderings, about, here)
                (add_orderings_total source ordering (add_edge from to graph) told)
          | inr away ↦ elim (Bool-cases (is_empty o.traits)) [
            | inl free ↦
                rw (add_orderings, about, away, free)
                  (add_orderings_total source ordering graph told)
            | inr bound ↦ absurd (let bad = provided (restricted o about bound) in cc)
          ]
        ]
      ]

  add_sources_total :
      (sources : List ProviderDescriptor) (graph : Edges × Indegree)
      → All (AllProvided trait_id providers) sources
      → (result : Edges × Indegree) × (add_sources trait_id providers sources graph ≡ ok result)
  unfolding add_sources
  add_sources_total [] graph told = (graph, refl)
  add_sources_total (source ∷ sources) graph (provided, told) =
      let (next, first) = add_orderings_total source source.ordering graph provided in
      rw first (add_sources_total sources next told)

-- If no two providers of a trait have one id, no ordering restricted to it among others names a
-- target that does not provide it, and some order of their ids, each once, meets every ordering that
-- is about the trait, then the providers are ordered: the cycle error is never raised without a cycle.
pub order_trait_complete :
    (trait_id : ℕ) (providers : List ProviderDescriptor) (order : List ℕ)
    → All (AllProvided trait_id providers) providers
    → distinct (ids providers) ≡ true
    → distinct order ≡ true
    → ((id : ℕ) → mem id order ≡ mem id (ids providers))
    → All (AllAsked trait_id providers (λ x y. comes_before x y order ≡ true)) providers
    → (ordered : List ℕ) × (order_trait trait_id providers ≡ ok ordered)
unfolding order_trait has_edge
order_trait_complete trait_id providers order provided apart once whole asked =
    let (graph, built) =
      add_sources_total trait_id providers providers ([], zeros providers) provided in
    let made =
      add_sources-Asked trait_id providers providers ([], zeros providers) built
        (All-ids (ids providers) providers (λ id k. k)) in
    let met =
      add_sources-IsMet trait_id providers order providers ([], zeros providers) built asked
        (λ x y e. absurd (let bad : false ≡ true = e in cc)) in
    let start : IsPicking providers graph.0 (length providers) [] graph.1 = record {
      once = refl;
      only = λ id k. absurd (ground arith);
      respects = λ x y e k. absurd (ground arith);
      few = omega (arith, untaken_none providers);
      counts = made.0.counts (λ id. degree-zeros id providers);
    } in
    let can : CanOrder providers graph.0 order = record {
      once = once;
      whole = whole;
      respects = λ x y e k. met x y e;
    } in
    let (ordered, found) =
      pick_succeeds providers graph.0 order (length providers) [] graph.1 can apart start
        (λ id k. made.0.keys id (has_key-zeros id providers k))
        (omega (arith, untaken_none providers)) in
    (ordered, rw built found)
