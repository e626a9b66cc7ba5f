-- ===== src/Di/Construction.antt =====
-- crates/di/src/container.rs: the order in which a scope's components are constructed.
-- The wait sets are an argument; Di/Waits computes them.
pub mod Passes
pub mod Wedged
mod Tests
use overseerd.Base.{
  ℕ, zero, suc, Bool, true, false, not, ◌&&◌, ◌||◌, Option, none, some, List, [], ◌∷◌, ◌++◌, map,
  Text, text_eq, length, keep_if, any_of, mem, get, has_key, ◌==◌, if◌then◌else◌, Result, ok, err,
}
use overseerd.Di.Descriptors.{TypeDescriptor, ProviderDescriptor}

-- `Cardinality`, `ResolutionMode` and `DependencyDescriptor`, of crates/core/src/dependency.rs
pub data Cardinality : Type 0 where
  one collection keyed : Cardinality

abbrev pub is_one : Cardinality → Bool
is_one one = true
is_one _ = false

pub data ResolutionMode : Type 0 where
  eager deferred lazy fresh : ResolutionMode

pub record DependencyDescriptor : Type 0 where
  pub name : Text
  pub ty : TypeDescriptor
  pub cardinality : Cardinality
  pub optional : Bool
  pub dynamic : Bool
  pub qualifier : Option Text
  pub config : Bool
  pub resolution : ResolutionMode

-- `ComponentDescriptor`, as far as the sort reads it
pub record ComponentDescriptor : Type 0 where
  pub name : Text
  pub ty : TypeDescriptor
  pub dependencies : List DependencyDescriptor

-- `select_single_provider`
abbrev pub sole_of : List ProviderDescriptor → Option ProviderDescriptor
sole_of (p ∷ []) = some p
sole_of _ = none

unfoldable pub select_single_provider : List ProviderDescriptor → Option ProviderDescriptor
select_single_provider (p ∷ []) = some p
select_single_provider providers =
    sole_of (keep_if (λ (p : ProviderDescriptor). p.primary) providers)

-- `iter().find(|provider| provider.qualifier == qualifier)`
unfoldable pub find_qualified : Text → List ProviderDescriptor → Option ProviderDescriptor
find_qualified qualifier [] = none
find_qualified qualifier (p ∷ providers) =
    if text_eq p.qualifier qualifier then some p else find_qualified qualifier providers

abbrev pub select_for : Option Text → List ProviderDescriptor → Option ProviderDescriptor
select_for (some qualifier) providers = find_qualified qualifier providers
select_for none providers = select_single_provider providers

-- `select_provider_for`
unfoldable pub select_provider_for :
    DependencyDescriptor → List ProviderDescriptor → Option ProviderDescriptor
select_provider_for dep providers = select_for dep.qualifier providers

-- What the sort is given, but for the components and `prebuilt`, with the wait sets
pub record SortContext : Type 0 where
  pub providers_by_trait : List (ℕ × List ProviderDescriptor)
  pub provider_waits : List (ℕ × List ℕ)
  pub trait_waits : List (ℕ × List ℕ)
  pub sortable : List ℕ
  pub transients : List ℕ

abbrev pub id_of : ProviderDescriptor → ℕ
id_of p = p.concrete_ty.type_id

abbrev pub is_eager : ResolutionMode → Bool
is_eager eager = true
is_eager _ = false

-- The filter: edges that do not order construction pass.
unfoldable pub orders : DependencyDescriptor → Bool
orders dep = not dep.optional && (not dep.dynamic && (not dep.config && is_eager dep.resolution))

module _ (cx : SortContext) (is_built : ℕ → Bool) where
  -- `waits.is_none_or(|waits| waits.iter().all(|id| is_built(*id)))`
  abbrev pub all_built : List ℕ → Bool
  all_built [] = true
  all_built (id ∷ ids) = is_built id && all_built ids

  abbrev pub is_none_or_built : Option (List ℕ) → Bool
  is_none_or_built none = true
  is_none_or_built (some ids) = all_built ids

  abbrev pub waits_over : List ProviderDescriptor → Bool
  waits_over [] = true
  waits_over (p ∷ providers) =
      is_none_or_built (get (id_of p) cx.provider_waits) && waits_over providers

  -- The match on the local selection: without a qualifier, all local providers are awaited.
  abbrev pub local_ready : Option ProviderDescriptor → Option Text → List ProviderDescriptor → Bool
  local_ready (some p) qualifier local = is_none_or_built (get (id_of p) cx.provider_waits)
  local_ready none (some qualifier) local = true
  local_ready none none local = waits_over local

  abbrev pub one_ready : DependencyDescriptor → List ProviderDescriptor → Bool
  one_ready dep providers =
      let local = keep_if (λ (p : ProviderDescriptor). mem (id_of p) cx.sortable) providers in
      local_ready (select_provider_for dep local) dep.qualifier local

  abbrev pub selected_ready :
      Option ProviderDescriptor → DependencyDescriptor → List ProviderDescriptor → Bool
  selected_ready none dep providers = one_ready dep providers
  selected_ready (some p) dep providers =
      let local = one_ready dep providers in
      if mem (id_of p) cx.transients
      then is_none_or_built (get (id_of p) cx.provider_waits)
      else local

  abbrev pub ready_with :
      Cardinality → Option (List ProviderDescriptor) → DependencyDescriptor → Bool
  ready_with one none dep = is_built dep.ty.type_id
  ready_with _ none dep = true
  ready_with one (some providers) dep =
      selected_ready (select_provider_for dep providers) dep providers
  ready_with _ (some providers) dep = is_none_or_built (get dep.ty.type_id cx.trait_waits)

  -- `dep_ready`
  unfoldable pub dep_ready : DependencyDescriptor → Bool
  dep_ready dep = ready_with dep.cardinality (get dep.ty.type_id cx.providers_by_trait) dep

  -- `resolved`
  unfoldable pub all_ready : List DependencyDescriptor → Bool
  all_ready [] = true
  all_ready (dep ∷ deps) = (if orders dep then dep_ready dep else true) && all_ready deps

-- `is_built`: seeded, or constructed before
unfoldable pub is_built : List ℕ → List ComponentDescriptor → ℕ → Bool
is_built prebuilt result id =
    mem id prebuilt || any_of (λ (c : ComponentDescriptor). c.ty.type_id == id) result

unfoldable pub is_resolved :
    SortContext → List ℕ → List ComponentDescriptor → ComponentDescriptor → Bool
is_resolved cx prebuilt result d = all_ready cx (is_built prebuilt result) d.dependencies

-- `remaining.retain(..)`: the result after, and what remains
unfoldable pub retain_unresolved :
    SortContext
    → List ℕ
    → List ComponentDescriptor
    → List ComponentDescriptor
    → List ComponentDescriptor × List ComponentDescriptor
retain_unresolved cx prebuilt result [] = (result, [])
retain_unresolved cx prebuilt result (d ∷ remaining) =
    let taken = retain_unresolved cx prebuilt (result ++ d ∷ []) remaining in
    let (after, left) = retain_unresolved cx prebuilt result remaining in
    if is_resolved cx prebuilt result d then taken else (after, d ∷ left)

-- `DependencyCycle` with the names, not joined; the other is the model's own.
pub data SortError : Type 0 where
  dependency_cycle : List Text → SortError
  out_of_fuel : SortError

-- `while !remaining.is_empty()`, on fuel
unfoldable pub sort_remaining :
    ℕ
    → SortContext
    → List ℕ
    → List ComponentDescriptor
    → List ComponentDescriptor
    → Result SortError (List ComponentDescriptor)
sort_remaining fuel cx prebuilt result [] = ok result
sort_remaining zero cx prebuilt result (d ∷ remaining) = err out_of_fuel
sort_remaining (suc fuel) cx prebuilt result (d ∷ remaining) =
    let (after, left) = retain_unresolved cx prebuilt result (d ∷ remaining) in
    let more = sort_remaining fuel cx prebuilt after left in
    if length left == length (d ∷ remaining)
    then err (dependency_cycle (map (λ (c : ComponentDescriptor). c.name) left))
    else more

-- `topological_sort`, with the wait sets computed: each pass takes a component at least.
unfoldable pub topological_sort :
    SortContext → List ℕ → List ComponentDescriptor → Result SortError (List ComponentDescriptor)
topological_sort cx prebuilt components =
    sort_remaining (length components) cx prebuilt [] components
