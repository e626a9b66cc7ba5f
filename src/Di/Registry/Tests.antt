-- ===== src/Di/Registry/Tests.antt =====
-- Registries that `validate` accepts: a sound one, and one whose deferred trait is only transient.
use overseerd.Base.{ℕ, ◌≡◌, refl, true, false, none, List, [], ◌∷◌, ok, err, arith}
use overseerd.Di.Descriptors.{TypeDescriptor, ProviderDescriptor}
use overseerd.Di.Construction.{
  DependencyDescriptor, Cardinality, ResolutionMode, select_single_provider,
}
use overseerd.Di.Scopes.{Scope}
use overseerd.Di.Resolved.{Registered, resolved_components}
use overseerd.Di.Resolved.Override.{IsResolved}
use overseerd.Di.Registry.{validate, validate_resolved}
use overseerd.Di.Registry.Errors.{deferred_transient_dependency}
use overseerd.Di.Registry.Sound.{IsSound, validate-IsSound}
use overseerd.Di.Registry.Stored.{check_deferred_misses_transient}
use overseerd.Di.Order.{
  add_edge, add_orderings, add_sources, build, has_edge, lower, lower_successors, min_by, min_of,
  order_all, order_trait, pick, raise, zeros,
}
use overseerd.Di.Grouping.{check_all, check_ordering, check_traits, group_by, push_under}
use overseerd.Di.Registry.Fresh.{
  check_fresh, check_fresh_edge, check_target, check_visible, dependency_scopes, fresh_targets,
  provided_scopes, provider_targets, validate_fresh_dependencies,
}
use overseerd.Di.Registry.Names.{
  check_ids, validate_component_ids, check_qualifiers, validate_provider_qualifiers,
}
use overseerd.Di.Validation.{
  validate_dependencies, check_component, check_dependency, check_unqualified, check_qualified,
  count_providers, count_provider, type_ids,
}
use overseerd.Di.Resolved.{
  choose_all, choose, manual, effective_factory, chosen_of, dependencies, replace_chosen,
}
use overseerd.Di.Registry.Deferred.{
  by_type, candidates, check_deferred, check_deferreds, deferred_target, first_selected,
  group_visible, validate_deferred_dependencies,
}
use overseerd.Di.Scopes.{
  check_edge, check_consumer, check_scopes, dep_scopes, provider_scopes, scope_allows, scope_of,
  validate_scopes,
}
use overseerd.Di.Registry.Deferred

abbrev type_of : ℕ → TypeDescriptor
type_of n = record { name = n ∷ []; type_name = n ∷ []; type_id = n }

abbrev on : ResolutionMode → ℕ → DependencyDescriptor
on mode n = record {
  name = n ∷ [];
  ty = type_of n;
  cardinality = Cardinality.one;
  optional = false;
  dynamic = false;
  qualifier = none;
  config = false;
  resolution = mode;
}

abbrev built : ℕ → Scope → List DependencyDescriptor → Registered
built n scope deps = record {
  id = n ∷ [];
  name = n ∷ [];
  ty = type_of n;
  scope = scope;
  factories = (record { default = false; dependencies = deps }) ∷ [];
}

abbrev singleton : Scope
singleton = record { rank = 255; scope_name = 1 ∷ []; transient = false }

abbrev transient_scope : Scope
transient_scope = record { rank = 0; scope_name = 2 ∷ []; transient = true }

abbrev request : Scope
request = record { rank = 2; scope_name = 3 ∷ []; transient = false }

abbrev provides_nine : ℕ → ProviderDescriptor
provides_nine n = record {
  trait_ty = type_of 9;
  concrete_ty = type_of n;
  qualifier = n ∷ [];
  primary = false;
  priority = 0;
  ordering = [];
}

-- A handler of a request takes a fresh helper, defers a pool and holds a transient, which holds a
-- provider of a trait.
abbrev registered : List Registered
registered =
    built 1 request
      (on ResolutionMode.fresh 2 ∷ on ResolutionMode.deferred 3 ∷ on ResolutionMode.eager 4 ∷ [])
    ∷ built 2 request (on ResolutionMode.eager 3 ∷ [])
    ∷ built 3 singleton []
    ∷ built 4 transient_scope (on ResolutionMode.eager 9 ∷ [])
    ∷ []

abbrev providers : List ProviderDescriptor
providers = provides_nine 3 ∷ []

-- A singleton defers a trait that only a transient component provides.
abbrev consumer : Registered
consumer = built 1 singleton (on ResolutionMode.deferred 9 ∷ [])

abbrev fleeting : Registered
fleeting = built 4 transient_scope []

-- `fleeting` is refused where its type is named.
judged :
    (validate providers registered ≡ ok tt)
    × (validate (provides_nine 4 ∷ []) (consumer ∷ fleeting ∷ []) ≡ ok tt)
    × (validate [] (built 1 singleton (on ResolutionMode.deferred 4 ∷ []) ∷ fleeting ∷ [])
        ≡ err (deferred_transient_dependency (1 ∷ []) (4 ∷ [])))
unfolding validate validate_resolved select_single_provider add_edge add_orderings add_sources build
    check_all check_ordering check_traits group_by has_edge lower lower_successors min_by min_of
    order_all order_trait pick push_under raise zeros check_fresh check_fresh_edge check_target
    check_visible dependency_scopes fresh_targets provided_scopes provider_targets
    validate_fresh_dependencies check_ids validate_component_ids check_qualifiers
    validate_provider_qualifiers validate_dependencies check_component check_dependency
    check_unqualified check_qualified count_providers count_provider type_ids choose_all choose
    manual effective_factory chosen_of dependencies replace_chosen by_type candidates check_deferred
    check_deferreds deferred_target first_selected group_visible validate_deferred_dependencies
    check_edge check_consumer check_scopes dep_scopes provider_scopes scope_allows scope_of
    validate_scopes Deferred.push_scope
judged = (refl, refl, refl)

validate-IsSound_example :
    (kept : List Registered) × (resolved_components registered ≡ ok kept)
    × IsResolved registered registered kept
    × IsSound providers kept
validate-IsSound_example =
    validate-IsSound providers registered
      (omega arith, (omega arith, (omega arith, (omega arith, tt)))) judged.0

check_deferred_misses_transient_example :
    check_deferred
      (provides_nine 4 ∷ [])
      (consumer ∷ fleeting ∷ [])
      consumer
      (on ResolutionMode.deferred 9)
    ≡ ok tt
unfolding by_type
check_deferred_misses_transient_example =
    check_deferred_misses_transient (provides_nine 4 ∷ []) (consumer ∷ fleeting ∷ []) consumer
      (on ResolutionMode.deferred 9) refl ((fleeting, refl, refl, omega arith), tt)
