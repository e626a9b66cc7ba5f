-- ===== src/Di/Construction/Tests.antt =====
-- Components that depend on each other, sorted.
use overseerd.Base.{ℕ, ◌≡◌, refl, false, none, List, [], ◌∷◌, ok, err}
use overseerd.Di.Descriptors.{TypeDescriptor, ProviderDescriptor}
use overseerd.Di.Construction.{
  Cardinality, one, collection, ResolutionMode, eager, lazy, DependencyDescriptor,
  ComponentDescriptor, SortContext, dependency_cycle, topological_sort, sort_remaining,
  retain_unresolved, is_resolved, is_built, all_ready, orders, dep_ready, select_provider_for,
  select_single_provider,
}

abbrev ty : ℕ → TypeDescriptor
ty id = record { name = id ∷ []; type_name = id ∷ []; type_id = id }

abbrev needs : Cardinality → ResolutionMode → ℕ → DependencyDescriptor
needs cardinality resolution id = record {
  name = id ∷ [];
  ty = ty id;
  cardinality = cardinality;
  optional = false;
  dynamic = false;
  qualifier = none;
  config = false;
  resolution = resolution;
}

abbrev component : ℕ → List DependencyDescriptor → ComponentDescriptor
component id dependencies = record { name = id ∷ []; ty = ty id; dependencies = dependencies }

-- Component 3 provides trait 50.
abbrev provider : ProviderDescriptor
provider = record {
  trait_ty = ty 50;
  concrete_ty = ty 3;
  qualifier = [];
  primary = false;
  priority = 0;
  ordering = [];
}

abbrev context : SortContext
context = record {
  providers_by_trait = (50, provider ∷ []) ∷ [];
  provider_waits = (3, 3 ∷ []) ∷ [];
  trait_waits = (50, 3 ∷ []) ∷ [];
  sortable = 1 ∷ 2 ∷ 3 ∷ [];
  transients = [];
}

abbrev components : List ComponentDescriptor
components =
    component 1 (needs one eager 2 ∷ [])
    ∷ component 2 (needs collection eager 50 ∷ needs one lazy 1 ∷ [])
    ∷ component 3 (needs one eager 9 ∷ [])
    ∷ []

sorted :
    topological_sort context (9 ∷ []) components
    ≡ ok (
        component 3 (needs one eager 9 ∷ [])
        ∷ component 2 (needs collection eager 50 ∷ needs one lazy 1 ∷ [])
        ∷ component 1 (needs one eager 2 ∷ [])
        ∷ [])
unfolding topological_sort sort_remaining retain_unresolved is_resolved is_built all_ready orders
    dep_ready select_provider_for select_single_provider
sorted = refl

-- Nothing is seeded, so component 3 is never resolved.
stuck :
    topological_sort context [] components
    ≡ err (dependency_cycle ((1 ∷ []) ∷ (2 ∷ []) ∷ (3 ∷ []) ∷ []))
unfolding topological_sort sort_remaining retain_unresolved is_resolved is_built all_ready orders
    dep_ready select_provider_for select_single_provider
stuck = refl
