-- ===== src/Di/Waits.antt =====
-- crates/di/src/container.rs: `WaitExpansion`, which computes what must be built before a provider or
-- a trait's providers, and the start of `topological_sort`, which asks it. A set is a list, of which
-- only membership counts; a method gives back what it adds to `waits`. The fuel bounds how deep
-- transient components nest.
pub mod Needs
pub mod Visiting
pub mod Exact
pub mod Providers
pub mod Expanding
pub mod Sets
pub mod Selected
pub mod Built
pub mod Sorted
mod Tests
use overseerd.Base.{
  ℕ, zero, suc, ◌+◌, Bool, not, Option, none, some, List, [], ◌∷◌, ◌++◌, map, length, keep_if, mem,
  get, has_key, ◌==◌, if◌then◌else◌, Text, Result,
}
use overseerd.Di.Descriptors.{ProviderDescriptor}
use overseerd.Di.Construction.{
  DependencyDescriptor, ComponentDescriptor, Cardinality, one, SortContext, SortError,
  topological_sort, orders, select_provider_for,
}
use overseerd.Di.Grouping.{group_by}
use overseerd.Di.Order.{id_of}

-- What a `WaitExpansion` borrows
pub record Recipes : Type 0 where
  pub providers_by_trait : List (ℕ × List ProviderDescriptor)
  pub transients : List (ℕ × ComponentDescriptor)
  pub sortable : List ℕ

-- `WaitExpansion`
pub record Expansion : Type 0 where
  pub provider_memo : List (ℕ × List ℕ)
  pub trait_memo : List (ℕ × List ℕ)
  pub visiting : List ℕ

-- The ids that a method gives with the expansion after it, or `none`, without fuel
abbrev pub Step : Type 0
Step = Option (List ℕ × Expansion)

abbrev pub and_then : Step → (List ℕ → Expansion → Step) → Step
and_then none next = none
and_then (some (waits, e)) next = next waits e

-- `for x in xs { waits.extend(visit(x)) }`
abbrev pub extend_all {ℓ} : {A : Type ℓ} → (A → Expansion → Step) → List A → Expansion → Step
extend_all visit [] e = some ([], e)
extend_all visit (x ∷ xs) e =
    and_then (visit x e)
      λ waits e1. and_then (extend_all visit xs e1) λ more e2. some (waits ++ more, e2)

-- `visiting.insert` and `visiting.remove`
abbrev pub enter : ℕ → Expansion → Expansion
enter id e = record e { visiting = id ∷ e.visiting }

abbrev pub leave : ℕ → Expansion → Expansion
leave id e = record e { visiting = keep_if (λ (other : ℕ). not (other == id)) e.visiting }

-- `provider_memo.insert` and `trait_memo.insert`, which ends a visit
abbrev pub remember_provider : ℕ → List ℕ → Expansion → Step
remember_provider concrete waits e =
    some (waits, record e { provider_memo = (concrete, waits) ∷ e.provider_memo })

abbrev pub remember_trait : ℕ → List ℕ → Expansion → Step
remember_trait trait_id waits e =
    some (waits, record (leave trait_id e) { trait_memo = (trait_id, waits) ∷ e.trait_memo })

abbrev pub concretes : Option (List ProviderDescriptor) → List ℕ
concretes none = []
concretes (some providers) = map id_of providers

module _ (r : Recipes) where
  -- The providers for which `single_edge_waits` asks
  abbrev pub local_choice :
      Option ProviderDescriptor → Option Text → List ProviderDescriptor → List ℕ
  local_choice (some p) qualifier local = id_of p ∷ []
  local_choice none (some qualifier) local = []
  local_choice none none local = map id_of local

  abbrev pub local_edge : DependencyDescriptor → List ProviderDescriptor → List ℕ
  local_edge dep providers =
      let local = keep_if (λ (p : ProviderDescriptor). mem (id_of p) r.sortable) providers in
      local_choice (select_provider_for dep local) dep.qualifier local

  abbrev pub edge_choice :
      Option ProviderDescriptor → DependencyDescriptor → List ProviderDescriptor → List ℕ
  edge_choice none dep providers = local_edge dep providers
  edge_choice (some p) dep providers =
      let local = local_edge dep providers in
      if has_key (id_of p) r.transients then id_of p ∷ [] else local

  unfoldable pub edge_concretes : DependencyDescriptor → List ProviderDescriptor → List ℕ
  edge_concretes dep providers = edge_choice (select_provider_for dep providers) dep providers

  module _ (expand : ComponentDescriptor → Expansion → Step) where
    abbrev pub recipe_waits : Option ComponentDescriptor → Expansion → Step
    recipe_waits none e = some ([], e)
    recipe_waits (some d) e = expand d e

    -- `provider_waits`
    unfoldable pub new_provider_waits : ℕ → Expansion → Step
    new_provider_waits concrete e =
        let recipe = recipe_waits (get concrete r.transients) e in
        if mem concrete r.sortable then some (concrete ∷ [], e) else recipe

    abbrev pub provider_or_done : Option (List ℕ) → ℕ → Expansion → Step
    provider_or_done (some done) concrete e = some (done, e)
    provider_or_done none concrete e =
        and_then (new_provider_waits concrete e) (remember_provider concrete)

    unfoldable pub provider_waits : ℕ → Expansion → Step
    provider_waits concrete e = provider_or_done (get concrete e.provider_memo) concrete e

    -- `trait_waits`
    abbrev pub trait_or_done : Option (List ℕ) → ℕ → Expansion → Step
    trait_or_done (some done) trait_id e = some (done, e)
    trait_or_done none trait_id e =
        let waits =
          extend_all provider_waits (concretes (get trait_id r.providers_by_trait))
            (enter trait_id e) in
        if mem trait_id e.visiting then some ([], e) else and_then waits (remember_trait trait_id)

    unfoldable pub trait_waits : ℕ → Expansion → Step
    trait_waits trait_id e = trait_or_done (get trait_id e.trait_memo) trait_id e

    unfoldable pub single_edge_waits :
        DependencyDescriptor → List ProviderDescriptor → Expansion → Step
    single_edge_waits dep providers e = extend_all provider_waits (edge_concretes dep providers) e

    -- The body of the loop of `expand_transient`
    abbrev pub cardinality_waits :
        Cardinality → DependencyDescriptor → List ProviderDescriptor → Expansion → Step
    cardinality_waits one dep providers e = single_edge_waits dep providers e
    cardinality_waits _ dep providers e = trait_waits dep.ty.type_id e

    abbrev pub trait_or_recipe :
        Option (List ProviderDescriptor) → DependencyDescriptor → Expansion → Step
    trait_or_recipe (some providers) dep e = cardinality_waits dep.cardinality dep providers e
    trait_or_recipe none dep e = recipe_waits (get dep.ty.type_id r.transients) e

    unfoldable pub edge_waits : DependencyDescriptor → Expansion → Step
    edge_waits dep e =
        let others = trait_or_recipe (get dep.ty.type_id r.providers_by_trait) dep e in
        if mem dep.ty.type_id r.sortable then some (dep.ty.type_id ∷ [], e) else others

    unfoldable pub ordering_waits : DependencyDescriptor → Expansion → Step
    ordering_waits dep e =
        let waits = edge_waits dep e in if orders dep then waits else some ([], e)

  -- `expand_transient`
  unfoldable pub expand_transient : ℕ → ComponentDescriptor → Expansion → Step
  expand_transient zero d e = none
  expand_transient (suc fuel) d e =
      let waits =
        extend_all (ordering_waits (expand_transient fuel)) d.dependencies (enter d.ty.type_id e) in
      if mem d.ty.type_id e.visiting
      then some ([], e)
      else and_then waits (λ waits e1. some (waits, leave d.ty.type_id e1))
