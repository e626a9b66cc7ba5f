-- ===== src/Di/Registry.antt =====
-- crates/di/src/registry.rs: `ComponentRegistry::validate`, its checks in their order. Names has the
-- checks of ids and qualifiers, Deferred and Fresh those of these edges; the other checks are in
-- Di/Resolved, Di/Validation, Di/Order and Di/Scopes. The error joins those of the checks.
pub mod Errors
pub mod Names
pub mod Deferred
pub mod Fresh
mod Tests
pub mod Sound
pub mod Visible
pub mod Stored
pub mod Uniqueness
use overseerd.Base.{ℕ, List, map, Result, ok, ◌>>=◌}
use overseerd.Di.Descriptors.{ProviderDescriptor}
use overseerd.Di.Construction.{ComponentDescriptor}
use overseerd.Di.Order.{build}
use overseerd.Di.Validation.{type_ids, validate_dependencies}
use overseerd.Di.Scopes.{ScopedComponent, validate_scopes}
use overseerd.Di.Resolved.{Registered, scoped, resolved_components}
use overseerd.Di.Registry.Errors.{RegistryFailure, resolving, depending, ordering, scoping, failing}
use overseerd.Di.Registry.Names.{validate_component_ids, validate_provider_qualifiers}
use overseerd.Di.Registry.Deferred.{validate_deferred_dependencies}
use overseerd.Di.Registry.Fresh.{validate_fresh_dependencies}

-- A descriptor as the check of its dependencies reads it
abbrev pub described : Registered → ComponentDescriptor
described c = (scoped c).component

-- What `validate` checks of the descriptors that are kept
unfoldable pub validate_resolved :
    List ProviderDescriptor → List Registered → Result RegistryFailure (Unit {0})
validate_resolved providers components = validate_component_ids components >>= λ _.
    failing depending (validate_dependencies providers (map described components)) >>= λ _.
    validate_provider_qualifiers providers components >>= λ _.
    validate_deferred_dependencies providers components >>= λ _.
    validate_fresh_dependencies providers components >>= λ _.
    failing ordering (build (type_ids (map described components)) providers) >>= λ _.
    failing scoping (validate_scopes providers (map scoped components))

-- `ComponentRegistry::validate`
unfoldable pub validate :
    List ProviderDescriptor → List Registered → Result RegistryFailure (Unit {0})
validate providers registered =
    failing resolving (resolved_components registered) >>= validate_resolved providers
