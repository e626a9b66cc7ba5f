-- ===== src/Di/Waits/Tests.antt =====
-- A component that gets a trait's provider, which is transient and needs another component; and one
-- that holds a transient component by its type.
use overseerd.Base.{
  get, sym, subst, Among, here, there, ==_iff, ℕ, ◌<◌, ◌≡◌, refl, true, false, none, some, List, [],
  ◌∷◌, Text, ◌==◌, if◌then◌else◌, Result, ok, err, inl, inr, Bool-cases, arith,
}
use overseerd.Di.Descriptors.{TypeDescriptor, ProviderDescriptor}
use overseerd.Di.Grouping.{group_by, push_under}
use overseerd.Di.Construction.{
  one, eager, DependencyDescriptor, ComponentDescriptor, SortContext, SortError, dependency_cycle,
  topological_sort, sort_remaining, retain_unresolved, is_resolved, is_built, all_ready, orders,
  dep_ready, select_provider_for, select_single_provider,
}
use overseerd.Di.Construction.Wedged.{topological_sort_wedges}
use overseerd.Di.Waits.{
  Recipes, concretes, edge_concretes, new_provider_waits, provider_waits, trait_waits,
  single_edge_waits, edge_waits, ordering_waits, expand_transient,
}
use overseerd.Di.Sorting.{recipes_of, insert_all, sort_context, sort_components}
use overseerd.Di.Waits.Needs.{
  Builds, of_trait, of_edge, Leads, to_provider, to_trait, to_recipe, IsByType,
}
use overseerd.Di.Waits.Sorted
use overseerd.Di.Waits.Sorted.{Ends, IsWithin, sort_components-Ends, sort_components-Builds}
use overseerd.Di.Waits.Built.{IsJust}

abbrev ty : ℕ → TypeDescriptor
ty id = record { name = id ∷ []; type_name = id ∷ []; type_id = id }

abbrev needs : ℕ → DependencyDescriptor
needs id = record {
  name = id ∷ [];
  ty = ty id;
  cardinality = one;
  optional = false;
  dynamic = false;
  qualifier = none;
  config = false;
  resolution = eager;
}

abbrev component : ℕ → List DependencyDescriptor → ComponentDescriptor
component id dependencies = record { name = id ∷ []; ty = ty id; dependencies = dependencies }

abbrev provider : ProviderDescriptor
provider = record {
  trait_ty = ty 50;
  concrete_ty = ty 7;
  qualifier = [];
  primary = false;
  priority = 0;
  ordering = [];
}

abbrev consumer : ComponentDescriptor
consumer = component 1 (needs 50 ∷ [])

abbrev pool : ComponentDescriptor
pool = component 2 []

abbrev transients : List (ℕ × ComponentDescriptor)
transients = (7, component 7 (needs 2 ∷ [])) ∷ []

sorted :
    sort_components (consumer ∷ pool ∷ []) [] (provider ∷ []) transients
    ≡ some (ok (pool ∷ consumer ∷ []))
unfolding sort_components sort_context insert_all provider_waits new_provider_waits trait_waits
    single_edge_waits edge_waits ordering_waits expand_transient edge_concretes group_by push_under
    topological_sort sort_remaining retain_unresolved is_resolved is_built all_ready orders
    dep_ready select_provider_for select_single_provider
sorted = refl

-- The transient component is held by its type, and the sort is stuck.
wedged :
    sort_components (component 1 (needs 7 ∷ []) ∷ pool ∷ []) [] [] transients
    ≡ some (err (dependency_cycle ((1 ∷ []) ∷ [])))
unfolding sort_components sort_context insert_all provider_waits new_provider_waits trait_waits
    single_edge_waits edge_waits ordering_waits expand_transient edge_concretes group_by push_under
    topological_sort sort_remaining retain_unresolved is_resolved is_built all_ready orders
    dep_ready select_provider_for select_single_provider
wedged = refl

abbrev rank : ℕ → ℕ
rank id = if id == 7 then 0 else 1

only_transient : (c : ℕ) (d : ComponentDescriptor) → get c transients ≡ some d → (7 == c) ≡ true
only_transient c d found = ground (arith, found)

the_transient :
    (c : ℕ) (d : ComponentDescriptor) → get c transients ≡ some d → component 7 (needs 2 ∷ []) ≡ d
the_transient c d found =
    let it : some (component 7 (needs 2 ∷ [])) ≡ some d = rw (only_transient c d found) at found in
    cc

abbrev recipes : Recipes
recipes = recipes_of (consumer ∷ pool ∷ []) (provider ∷ []) transients

no_lead : (b : ℕ) (dep : DependencyDescriptor) → Among dep (needs 2 ∷ []) → Leads recipes dep b → ⊥
no_lead b dep' here (to_provider away found single at is) = cc
no_lead b dep' here (to_trait away found several) = cc
no_lead b dep' here (to_recipe missing (away, is)) = let bad : true ≡ false = away in cc
no_lead b dep (there at) leads = elim at [ ]

trait_only : (a b : ℕ) → Among b (concretes (get a recipes.providers_by_trait)) → (a == 7) ≡ false
unfolding group_by push_under
trait_only a b at = elim (Bool-cases (a == 7)) [
  | inr other ↦ other
  | inl same ↦ absurd (
      let none_there : Among b [] =
        subst (λ a. Among b (concretes (get a ((50, provider ∷ []) ∷ [])))) ((==_iff a 7).0 same)
          at in
      elim none_there [ ])
]

falls : (a b : ℕ) → Builds recipes a b → rank b < rank a
falls a b (of_trait at (away, (d, found))) =
    grind (arith, trait_only a b at, only_transient b d found)
falls a b (of_edge {d = d} {dep = dep} found at ordering leads) = absurd (
    no_lead b dep
      (subst (λ (d : ComponentDescriptor). Among dep d.dependencies) (sym (the_transient a d found))
        at)
      leads)

by_type : IsByType recipes
by_type c d found =
    subst (λ (d : ComponentDescriptor). d.ty.type_id ≡ c) (the_transient c d found)
      ((==_iff 7 c).0 (only_transient c d found))

-- Component 7 is built for itself.
abbrev looped : List (ℕ × ComponentDescriptor)
looped = (7, component 7 (needs 7 ∷ [])) ∷ []

looped_by_type : IsByType (recipes_of (consumer ∷ pool ∷ []) (provider ∷ []) looped)
looped_by_type c d found =
    let at : (7 == c) ≡ true = ground (arith, found) in
    let it : some (component 7 (needs 7 ∷ [])) ≡ some d = rw at at found in
    let same : component 7 (needs 7 ∷ []) ≡ d = cc in
    subst (λ (d : ComponentDescriptor). d.ty.type_id ≡ c) same ((==_iff 7 c).0 at)

sort_components-Ends_example :
    (result : Result SortError (List ComponentDescriptor)) × (sort_components
        (consumer ∷ pool ∷ [])
        []
        (provider ∷ [])
        looped
      ≡ some result)
    × Ends
        (recipes_of (consumer ∷ pool ∷ []) (provider ∷ []) looped)
        IsWithin
        []
        (consumer ∷ pool ∷ [])
        result
sort_components-Ends_example =
    sort_components-Ends (consumer ∷ pool ∷ []) [] (provider ∷ []) looped looped_by_type

sort_components-Builds_example :
    (result : Result SortError (List ComponentDescriptor)) × (sort_components
        (consumer ∷ pool ∷ [])
        []
        (provider ∷ [])
        transients
      ≡ some result)
    × Ends recipes IsJust [] (consumer ∷ pool ∷ []) result
    × Sorted.Builds recipes [] result
sort_components-Builds_example =
    sort_components-Builds (consumer ∷ pool ∷ []) [] (provider ∷ []) transients rank by_type falls

abbrev context : SortContext
context = record {
  providers_by_trait = [];
  provider_waits = [];
  trait_waits = [];
  sortable = 1 ∷ 2 ∷ [];
  transients = 7 ∷ [];
}

topological_sort_wedges_example :
    (names : List Text) × (topological_sort context [] (component 1 (needs 7 ∷ []) ∷ pool ∷ [])
      ≡ err (dependency_cycle names))
unfolding orders
topological_sort_wedges_example =
    topological_sort_wedges context [] 7 refl refl (component 1 (needs 7 ∷ []) ∷ pool ∷ []) refl
      refl
