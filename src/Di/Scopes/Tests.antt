-- ===== src/Di/Scopes/Tests.antt =====
-- A request's component that holds a transient one, which holds a singleton by its trait.
use overseerd.Base.{ℕ, ◌≡◌, refl, true, false, none, List, [], ◌∷◌, ok, err}
use overseerd.Di.Descriptors.{TypeDescriptor, ProviderDescriptor}
use overseerd.Di.Construction.{DependencyDescriptor, Cardinality, ResolutionMode}
use overseerd.Di.Scopes.{
  Scope, ScopedComponent, scope_violation, scope_allows, scope_of, provider_scopes, dep_scopes,
  check_scopes, check_edge, check_consumer, validate_scopes,
}

abbrev type_of : ℕ → TypeDescriptor
type_of n = record { name = n ∷ []; type_name = n ∷ []; type_id = n }

abbrev on : ℕ → DependencyDescriptor
on n = record {
  name = n ∷ [];
  ty = type_of n;
  cardinality = Cardinality.one;
  optional = false;
  dynamic = false;
  qualifier = none;
  config = false;
  resolution = ResolutionMode.eager;
}

abbrev component : ℕ → List DependencyDescriptor → Scope → ScopedComponent
component n deps scope = record {
  component = record { name = n ∷ []; ty = type_of n; dependencies = deps };
  scope = scope;
}

abbrev singleton : Scope
singleton = record { rank = 255; scope_name = 1 ∷ []; transient = false }

abbrev transient_scope : Scope
transient_scope = record { rank = 0; scope_name = 2 ∷ []; transient = true }

abbrev request : Scope
request = record { rank = 2; scope_name = 3 ∷ []; transient = false }

abbrev handler : ScopedComponent
handler = component 1 (on 2 ∷ []) request

abbrev helper : ScopedComponent
helper = component 2 (on 9 ∷ []) transient_scope

abbrev pool : ScopedComponent
pool = component 3 [] singleton

abbrev provider : ProviderDescriptor
provider = record {
  trait_ty = type_of 9;
  concrete_ty = type_of 3;
  qualifier = [];
  primary = false;
  priority = 0;
  ordering = [];
}

abbrev components : List ScopedComponent
components = handler ∷ helper ∷ pool ∷ []

components-valid : validate_scopes (provider ∷ []) components ≡ ok tt
unfolding validate_scopes check_consumer check_edge check_scopes dep_scopes provider_scopes scope_of
    scope_allows
components-valid = refl

captured :
    validate_scopes [] (component 1 (on 2 ∷ []) singleton ∷ component 2 [] request ∷ [])
    ≡ err (scope_violation (1 ∷ []) (2 ∷ []) (1 ∷ []) (3 ∷ []))
unfolding validate_scopes check_consumer check_edge check_scopes dep_scopes provider_scopes scope_of
    scope_allows
captured = refl
