-- ===== src/Di/Registry/Fresh.antt =====
-- crates/di/src/registry.rs: the targets of fresh dependencies, which their consumer keeps. A
-- dependency of a fresh target that is refused is kept as the two names that the message joins.
use overseerd.Base.{
  ℕ, Bool, true, false, not, ◌&&◌, Option, none, some, List, [], ◌∷◌, map, any_of, ◌==◌,
  if◌then◌else◌, Result, ok, err, ◌>>=◌, for_each,
}
use overseerd.Di.Descriptors.{ProviderDescriptor}
use overseerd.Di.Construction.{DependencyDescriptor, Cardinality, one, ResolutionMode, eager}
use overseerd.Di.Scopes.{Scope, scope_allows, scope_of, is_fresh}
use overseerd.Di.Resolved.{Registered, Factory, scoped, effective_factory, dependencies}
use overseerd.Di.Registry.Errors.{
  RegistryFailure, resolving, failing, invalid_fresh_dependency, invalid_fresh_edge,
  unsupported_fresh_factory,
}
use overseerd.Di.Registry.Deferred.{by_type, is_match}

-- `fresh_targets`
abbrev pub push_found : Option Registered → List Registered → List Registered
push_found none rest = rest
push_found (some target) rest = target ∷ rest

unfoldable pub provider_targets :
    List Registered → DependencyDescriptor → List ProviderDescriptor → List Registered
provider_targets components dep [] = []
provider_targets components dep (p ∷ providers) =
    let rest = provider_targets components dep providers in
    if is_match dep p then push_found (by_type p.concrete_ty.type_id components) rest else rest

abbrev pub own_or_provided : Option Registered → List Registered → List Registered
own_or_provided (some target) provided = target ∷ []
own_or_provided none provided = provided

unfoldable pub fresh_targets :
    List ProviderDescriptor → List Registered → DependencyDescriptor → List Registered
fresh_targets providers components dep =
    own_or_provided (by_type dep.ty.type_id components) (provider_targets components dep providers)

-- `dependency_scopes`
abbrev pub push_scope : Option Scope → List Scope → List Scope
push_scope none rest = rest
push_scope (some scope) rest = scope ∷ rest

unfoldable pub provided_scopes : List Registered → ℕ → List ProviderDescriptor → List Scope
provided_scopes components trait_id [] = []
provided_scopes components trait_id (p ∷ providers) =
    let rest = provided_scopes components trait_id providers in
    if p.trait_ty.type_id == trait_id
    then push_scope (scope_of p.concrete_ty.type_id (map scoped components)) rest
    else rest

abbrev pub own_or_scopes : Option Scope → List Scope → List Scope
own_or_scopes (some scope) provided = scope ∷ []
own_or_scopes none provided = provided

unfoldable pub dependency_scopes :
    List ProviderDescriptor → List Registered → DependencyDescriptor → List Scope
dependency_scopes providers components dep =
    own_or_scopes (scope_of dep.ty.type_id (map scoped components))
      (provided_scopes components dep.ty.type_id providers)

abbrev pub is_eager : ResolutionMode → Bool
is_eager eager = true
is_eager _ = false

-- The filter on a target's dependencies
abbrev pub is_held : DependencyDescriptor → Bool
is_held edge = is_eager edge.resolution && (not edge.dynamic && not edge.config)

abbrev pub is_single : Cardinality → Bool
is_single one = true
is_single _ = false

abbrev pub is_none : Option Factory → Bool
is_none none = true
is_none (some factory) = false

module _ (providers : List ProviderDescriptor) (components : List Registered) where
  -- The body of `for target_dependency in target.dependencies()`
  unfoldable pub check_fresh_edge :
      Registered → Registered → DependencyDescriptor → Result RegistryFailure (Unit {0})
  check_fresh_edge consumer target edge =
      if is_held edge
        && any_of (λ (scope : Scope). not (scope_allows consumer.scope scope))
            (dependency_scopes providers components edge)
      then err (invalid_fresh_edge consumer.name target.name edge.ty.type_name)
      else ok tt

  -- A target that is visible: it has a factory, and its dependencies are visible too.
  unfoldable pub check_visible : Registered → Registered → Result RegistryFailure (Unit {0})
  check_visible consumer target = failing resolving (effective_factory target) >>= λ factory.
      if is_none factory
      then err (unsupported_fresh_factory target.name)
      else for_each (check_fresh_edge consumer target) (dependencies target)

  -- The body of `for target in targets`
  unfoldable pub check_target :
      Registered → DependencyDescriptor → Registered → Result RegistryFailure (Unit {0})
  check_target consumer dep target =
      if scope_allows consumer.scope target.scope
      then check_visible consumer target
      else if is_single dep.cardinality
      then err (invalid_fresh_dependency consumer.name target.name)
      else ok tt

  abbrev pub check_if_fresh : Registered → DependencyDescriptor → Result RegistryFailure (Unit {0})
  check_if_fresh consumer dep =
      if is_fresh dep.resolution
      then for_each (check_target consumer dep) (fresh_targets providers components dep)
      else ok tt

  -- The body of `for consumer in components`
  unfoldable pub check_fresh : Registered → Result RegistryFailure (Unit {0})
  check_fresh consumer = for_each (check_if_fresh consumer) (dependencies consumer)

-- `validate_fresh_dependencies`
unfoldable pub validate_fresh_dependencies :
    List ProviderDescriptor → List Registered → Result RegistryFailure (Unit {0})
validate_fresh_dependencies providers components =
    for_each (check_fresh providers components) components
