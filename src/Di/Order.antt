-- ===== src/Di/Order.antt =====
-- crates/di/src/registry/order.rs: the order in which the providers of a trait are collected.
-- A type's id is a number. A map or a set is a list, in the order of insertion; the edges
-- `HashMap<TypeId, HashSet<TypeId>>` are the list of their pairs. An `i64` priority is kept as its
-- distance from the least `i64`. An error holds the type names; a cycle's are not joined.
pub mod Graph
pub mod Picking
pub mod Constraints
pub mod Completeness
pub mod Solvable
mod Tests
use overseerd.Di.Descriptors.{
  TypeDescriptor, ProviderOrderDirection, before, after, ProviderOrder, ProviderDescriptor,
}
use overseerd.Base.{
  ℕ, zero, suc, ◌+◌, ◌-◌, Bool, true, false, not, ◌&&◌, ◌||◌, Option, none, some, List, [], ◌∷◌,
  ◌++◌, map, Text, text_eq, length, keep_if, any_of, mem, get, has_key, ltb, ◌==◌, if◌then◌else◌,
  Result, ok, err, ◌>>=◌,
}
use overseerd.Di.Grouping.{
  OrderError, group_by, is_concrete, check_all, provider_order_target_trait_mismatch,
  provider_order_cycle,
}

-- The edges, and the indegrees
abbrev pub Edges : Type 0
Edges = List (ℕ × ℕ)

abbrev pub Indegree : Type 0
Indegree = List (ℕ × ℕ)

unfoldable pub has_edge : ℕ → ℕ → Edges → Bool
has_edge from to [] = false
has_edge from to ((x, y) ∷ edges) = ((x == from) && (y == to)) || has_edge from to edges

-- `*indegree.entry(to).or_default() += 1`
unfoldable pub raise : ℕ → Indegree → Indegree
raise to [] = (to, 1) ∷ []
raise to ((id, n) ∷ indegree) =
    let rest = raise to indegree in if id == to then (id, n + 1) ∷ indegree else (id, n) ∷ rest

-- `*indegree.get_mut(successor) -= 1`
unfoldable pub lower : ℕ → Indegree → Indegree
lower to [] = []
lower to ((id, n) ∷ indegree) =
    let rest = lower to indegree in if id == to then (id, n - 1) ∷ indegree else (id, n) ∷ rest

-- `if edges.entry(from).or_default().insert(to) { .. }`
unfoldable pub add_edge : ℕ → ℕ → Edges × Indegree → Edges × Indegree
add_edge from to (edges, indegree) =
    if has_edge from to edges
    then (edges, indegree)
    else (edges ++ (from, to) ∷ [], raise to indegree)

-- `match ordering.direction`
abbrev pub edge_of : ProviderOrderDirection → ℕ → ℕ → ℕ × ℕ
edge_of before source target = (source, target)
edge_of after source target = (target, source)

abbrev pub is_empty {ℓ} : {A : Type ℓ} → List A → Bool
is_empty [] = true
is_empty (_ ∷ _) = false

-- Whether an ordering is about the trait: its `as` list is empty or has it.
abbrev pub is_about : ℕ → List TypeDescriptor → Bool
is_about trait_id traits =
    is_empty traits || any_of (λ (t : TypeDescriptor). t.type_id == trait_id) traits

-- `for ordering in source.ordering`, of the edges
unfoldable pub add_orderings :
    ℕ
    → List ProviderDescriptor
    → ProviderDescriptor
    → List ProviderOrder
    → Edges × Indegree
    → Result OrderError (Edges × Indegree)
add_orderings trait_id trait_providers source [] graph = ok graph
add_orderings trait_id trait_providers source (o ∷ ordering) graph =
    let (from, to) = edge_of o.direction source.concrete_ty.type_id o.target.type_id in
    let same = add_orderings trait_id trait_providers source ordering graph in
    let more = add_orderings trait_id trait_providers source ordering (add_edge from to graph) in
    if not (is_about trait_id o.traits)
    then same
    else if any_of (is_concrete o.target.type_id) trait_providers
    then more
    else if is_empty o.traits
    then same
    else err (
        provider_order_target_trait_mismatch source.concrete_ty.type_name o.target.type_name
          source.trait_ty.type_name)

-- `for source in &trait_providers`
unfoldable pub add_sources :
    ℕ
    → List ProviderDescriptor
    → List ProviderDescriptor
    → Edges × Indegree
    → Result OrderError (Edges × Indegree)
add_sources trait_id trait_providers [] graph = ok graph
add_sources trait_id trait_providers (source ∷ sources) graph =
    add_orderings trait_id trait_providers source source.ordering graph
    >>= add_sources trait_id trait_providers sources

abbrev pub id_of : ProviderDescriptor → ℕ
id_of p = p.concrete_ty.type_id

-- Texts in the order of their code points
abbrev pub text_ltb : Text → Text → Bool
text_ltb s [] = false
text_ltb [] (b ∷ t) = true
text_ltb (a ∷ s) (b ∷ t) = if a == b then text_ltb s t else ltb a b

-- Whether the comparison of `min_by` gives `Less`
abbrev pub precedes : ProviderDescriptor → ProviderDescriptor → Bool
precedes left right =
    if left.priority == right.priority
    then (if text_eq left.concrete_ty.type_name right.concrete_ty.type_name
        then text_ltb left.qualifier right.qualifier
        else text_ltb left.concrete_ty.type_name right.concrete_ty.type_name)
    else ltb left.priority right.priority

-- `min_by`: of equal ones, the first
unfoldable pub min_of : ProviderDescriptor → List ProviderDescriptor → ProviderDescriptor
min_of best [] = best
min_of best (p ∷ providers) = min_of (if precedes p best then p else best) providers

unfoldable pub min_by : List ProviderDescriptor → Option ProviderDescriptor
min_by [] = none
min_by (p ∷ providers) = some (min_of p providers)

abbrev pub is_zero : Option ℕ → Bool
is_zero (some zero) = true
is_zero _ = false

-- `filter`: no predecessor is missing, and not taken yet
abbrev pub is_ready : Indegree → List ℕ → ProviderDescriptor → Bool
is_ready indegree ordered p = is_zero (get (id_of p) indegree) && not (mem (id_of p) ordered)

-- `for successor in successors`
unfoldable pub lower_successors : ℕ → Edges → Indegree → Indegree
lower_successors next [] indegree = indegree
lower_successors next ((from, to) ∷ edges) indegree =
    lower_successors next edges (if from == next then lower to indegree else indegree)

abbrev trait_name_of : List ProviderDescriptor → Text
trait_name_of [] = []
trait_name_of (p ∷ providers) = p.trait_ty.type_name

-- `while ordered.len() < trait_providers.len()`: the first argument is how many are to come.
unfoldable pub pick :
    ℕ → List ProviderDescriptor → Edges → List ℕ → Indegree → Result OrderError (List ℕ)
pick zero trait_providers edges ordered indegree = ok ordered
pick (suc n) trait_providers edges ordered indegree =
    elim (min_by (keep_if (is_ready indegree ordered) trait_providers)) [
      | none ↦ err (
          provider_order_cycle (trait_name_of trait_providers) (
            map (λ (p : ProviderDescriptor). p.concrete_ty.type_name)
              (keep_if (λ (p : ProviderDescriptor). not (mem (id_of p) ordered)) trait_providers)))
      | some next ↦
          pick n trait_providers edges (ordered ++ id_of next ∷ [])
            (lower_successors (id_of next) edges indegree)
    ]

-- `collect()` of the zeros: a provider's id stands once.
unfoldable pub zeros : List ProviderDescriptor → Indegree
zeros [] = []
zeros (p ∷ providers) =
    let rest = zeros providers in if has_key (id_of p) rest then rest else (id_of p, 0) ∷ rest

-- One round of `for (trait_id, trait_providers) in by_trait`, without the insertion
unfoldable pub order_trait : ℕ → List ProviderDescriptor → Result OrderError (List ℕ)
order_trait trait_id trait_providers =
    add_sources trait_id trait_providers trait_providers ([], zeros trait_providers) >>= λ graph.
    pick (length trait_providers) trait_providers graph.0 [] graph.1

-- `enumerate()`
abbrev pub enumerate : ℕ → List ℕ → List (ℕ × ℕ)
enumerate n [] = []
enumerate n (id ∷ ids) = (id, n) ∷ enumerate (n + 1) ids

unfoldable pub order_all :
    List (ℕ × List ProviderDescriptor) → Result OrderError (List (ℕ × List (ℕ × ℕ)))
order_all [] = ok []
order_all ((trait_id, trait_providers) ∷ groups) =
    order_trait trait_id trait_providers >>= λ ordered.
    order_all groups >>= λ plan. ok ((trait_id, enumerate 0 ordered) ∷ plan)

-- `build`
unfoldable pub build :
    List ℕ → List ProviderDescriptor → Result OrderError (List (ℕ × List (ℕ × ℕ)))
build component_ids providers = check_all component_ids (group_by id_of [] providers) >>= λ _.
    order_all (group_by (λ (p : ProviderDescriptor). p.trait_ty.type_id) [] providers)
