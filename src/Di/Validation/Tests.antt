-- ===== src/Di/Validation/Tests.antt =====
-- Two providers of a trait, one of them primary, and who depends on them.
use overseerd.Base.{
  ℕ, ◌≡◌, refl, Bool, false, true, Option, none, some, List, [], ◌∷◌, Text, All, ok, err,
}
use overseerd.Di.Descriptors.{TypeDescriptor, ProviderDescriptor}
use overseerd.Di.Construction.{one, eager, DependencyDescriptor, ComponentDescriptor}
use overseerd.Di.Validation.{
  ambiguous_provider, missing_dependency, validate_dependencies, check_component, check_dependency,
  check_unqualified, check_qualified, count_providers, count_provider, type_ids,
}
use overseerd.Di.Validation.Selection.{IsMet}
use overseerd.Di.Validation.Satisfied.{validate_dependencies-IsMet}

abbrev ty : ℕ → TypeDescriptor
ty id = record { name = id ∷ []; type_name = id ∷ []; type_id = id }

abbrev needs : ℕ → Option Text → DependencyDescriptor
needs id qualifier = record {
  name = id ∷ [];
  ty = ty id;
  cardinality = one;
  optional = false;
  dynamic = false;
  qualifier = qualifier;
  config = false;
  resolution = eager;
}

abbrev component : ℕ → List DependencyDescriptor → ComponentDescriptor
component id dependencies = record { name = id ∷ []; ty = ty id; dependencies = dependencies }

abbrev provider : ℕ → Bool → ProviderDescriptor
provider id primary = record {
  trait_ty = ty 50;
  concrete_ty = ty id;
  qualifier = id ∷ [];
  primary = primary;
  priority = 0;
  ordering = [];
}

abbrev components : List ComponentDescriptor
components =
    component 1 (needs 2 none ∷ needs 50 none ∷ needs 50 (some (3 ∷ [])) ∷ [])
    ∷ component 2 []
    ∷ component 3 []
    ∷ []

abbrev providers : List ProviderDescriptor
providers = provider 2 true ∷ provider 3 false ∷ []

valid : validate_dependencies providers components ≡ ok tt
unfolding validate_dependencies check_component check_dependency check_unqualified check_qualified
    count_providers count_provider type_ids
valid = refl

ambiguous :
    validate_dependencies (provider 2 false ∷ provider 3 false ∷ []) components
    ≡ err (ambiguous_provider (50 ∷ []))
unfolding validate_dependencies check_component check_dependency check_unqualified check_qualified
    count_providers count_provider type_ids
ambiguous = refl

missing : validate_dependencies [] components ≡ err (missing_dependency (1 ∷ []) (50 ∷ []) none)
unfolding validate_dependencies check_component check_dependency check_unqualified check_qualified
    count_providers count_provider type_ids
missing = refl

validate_dependencies-IsMet_example :
    All
      (λ (c : ComponentDescriptor). All (IsMet providers (type_ids components)) c.dependencies)
      components
validate_dependencies-IsMet_example = validate_dependencies-IsMet providers components valid
