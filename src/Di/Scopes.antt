-- ===== src/Di/Scopes.antt =====
-- crates/di/src/registry.rs, `validate_scopes`: which scope's components may hold which others. The
-- scopes are those of crates/core/src/scope.rs.
pub mod Holding
pub mod Captive
mod Tests
use overseerd.Base.{
  ℕ, Bool, true, false, not, ◌&&◌, ◌||◌, Option, none, some, List, [], ◌∷◌, Text, leb, ◌==◌,
  if◌then◌else◌, Result, ok, err, for_each,
}
use overseerd.Di.Descriptors.{ProviderDescriptor}
use overseerd.Di.Construction.{DependencyDescriptor, ComponentDescriptor, ResolutionMode, fresh}

-- `Scope`
pub record Scope : Type 0 where
  pub rank : ℕ
  pub scope_name : Text
  pub transient : Bool

-- A component's descriptor with its scope
pub record ScopedComponent : Type 0 where
  pub component : ComponentDescriptor
  pub scope : Scope

-- `Error::ScopeViolation`
pub data ScopeError : Type 0 where
  scope_violation : Text → Text → Text → Text → ScopeError

-- `Singleton`, of the highest rank of a `u8`
abbrev pub singleton_rank : ℕ
singleton_rank = 255

-- `scope_allows`
unfoldable pub scope_allows : Scope → Scope → Bool
scope_allows consumer dependency =
    if dependency.transient
    then true
    else if consumer.transient
    then dependency.rank == singleton_rank
    else leb consumer.rank dependency.rank

-- `scope_of`: the last component of a type counts.
abbrev pub or_own : Option Scope → Bool → Scope → Option Scope
or_own (some later) same own = some later
or_own none same own = if same then some own else none

unfoldable pub scope_of : ℕ → List ScopedComponent → Option Scope
scope_of type_id [] = none
scope_of type_id (c ∷ components) =
    or_own (scope_of type_id components) (c.component.ty.type_id == type_id) c.scope

-- `filter` and `filter_map` over the providers
abbrev pub with_scope : Option Scope → Text → List (Scope × Text) → List (Scope × Text)
with_scope none name rest = rest
with_scope (some scope) name rest = (scope, name) ∷ rest

unfoldable pub provider_scopes :
    List ScopedComponent → ℕ → List ProviderDescriptor → List (Scope × Text)
provider_scopes components trait_id [] = []
provider_scopes components trait_id (p ∷ providers) =
    let rest = provider_scopes components trait_id providers in
    if p.trait_ty.type_id == trait_id
    then with_scope (scope_of p.concrete_ty.type_id components) p.concrete_ty.type_name rest
    else rest

-- `dep_scopes`
abbrev pub own_or : Option Scope → Text → List (Scope × Text) → List (Scope × Text)
own_or (some scope) name rest = (scope, name) ∷ []
own_or none name rest = rest

unfoldable pub dep_scopes :
    List ProviderDescriptor → List ScopedComponent → DependencyDescriptor → List (Scope × Text)
dep_scopes providers components dep =
    own_or (scope_of dep.ty.type_id components) dep.ty.type_name
      (provider_scopes components dep.ty.type_id providers)

abbrev pub is_fresh : ResolutionMode → Bool
is_fresh fresh = true
is_fresh _ = false

-- `for (dep_scope, dep_name) in dep_scopes`
unfoldable pub check_scopes :
    ScopedComponent → Bool → List (Scope × Text) → Result ScopeError (Unit {0})
check_scopes c is_fresh [] = ok tt
check_scopes c is_fresh ((dep_scope, dep_name) ∷ rest) =
    let later = check_scopes c is_fresh rest in
    if not is_fresh && not (scope_allows c.scope dep_scope)
    then err (scope_violation c.component.name dep_name c.scope.scope_name dep_scope.scope_name)
    else later

module _ (providers : List ProviderDescriptor) (all : List ScopedComponent) where
  -- The body of `for dep in c.dependencies()`
  unfoldable pub check_edge : ScopedComponent → DependencyDescriptor → Result ScopeError (Unit {0})
  check_edge c dep =
      if dep.dynamic || dep.config
      then ok tt
      else check_scopes c (is_fresh dep.resolution) (dep_scopes providers all dep)

  -- The body of `for c in components`
  unfoldable pub check_consumer : ScopedComponent → Result ScopeError (Unit {0})
  check_consumer c = for_each (check_edge c) c.component.dependencies

-- `validate_scopes`
unfoldable pub validate_scopes :
    List ProviderDescriptor → List ScopedComponent → Result ScopeError (Unit {0})
validate_scopes providers components = for_each (check_consumer providers components) components
