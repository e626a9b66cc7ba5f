-- ===== src/Di/Registry/Errors.antt =====
-- The errors of `ComponentRegistry::validate`, crates/di/src/error.rs, by the check that raises them.
use overseerd.Base.{Text, Result, ok, err}
use overseerd.Di.Grouping.{OrderError}
use overseerd.Di.Validation.{ValidationError}
use overseerd.Di.Scopes.{ScopeError}
use overseerd.Di.Resolved.{RegistryError}

pub data RegistryFailure : Type 0 where
  resolving : RegistryError → RegistryFailure
  depending : ValidationError → RegistryFailure
  ordering : OrderError → RegistryFailure
  scoping : ScopeError → RegistryFailure
  duplicate_component_id : Text → RegistryFailure
  duplicate_provider_qualifier : Text → Text → Text → RegistryFailure
  ambiguous_deferred : Text → RegistryFailure
  deferred_transient_dependency : Text → Text → RegistryFailure
  invalid_fresh_dependency : Text → Text → RegistryFailure
  invalid_fresh_edge : Text → Text → Text → RegistryFailure
  unsupported_fresh_factory : Text → RegistryFailure

-- A check's result in `validate`
abbrev pub failing : {E A : Type 0} → (E → RegistryFailure) → Result E A → Result RegistryFailure A
failing wrap (ok value) = ok value
failing wrap (err why) = err (wrap why)
