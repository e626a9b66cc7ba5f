-- ===== src/Di/Waits/Sorted.antt =====
-- The whole of `topological_sort`, crates/di/src/container.rs.
use overseerd.Base.{
  mem, err, ℕ, ◌≡◌, ap, subst, inl, inr, true, some, List, [], ◌∷◌, ◌++◌, Result, ok, Among,
}
use overseerd.Di.Descriptors.{ProviderDescriptor}
use overseerd.Di.Construction.{
  DependencyDescriptor, ComponentDescriptor, SortContext, SortError, orders, is_built, is_resolved,
  topological_sort,
}
use overseerd.Di.Construction.Passes.{IsBuildOrder, SortsOrSticks, topological_sort-SortsOrSticks}
use overseerd.Di.Waits.{Recipes}
use overseerd.Di.Sorting.{recipes_of, sort_in, sort_components}
use overseerd.Di.Waits.Needs.{IsByType, IsAcyclic}
use overseerd.Di.Waits.Sets.{HasWaits, HasWaits-map, sort_context-HasWaits}
use overseerd.Di.Waits.Built.{IsJust, Requires, all_ready-built}

-- Before each component, all that an ordering dependency of it requires is built or seeded.
abbrev pub BuildsInOrder :
    Recipes → List ℕ → List ComponentDescriptor → List ComponentDescriptor → Type 0
BuildsInOrder r prebuilt done [] = Unit
BuildsInOrder r prebuilt done (d ∷ ds) =
    ((dep : DependencyDescriptor) (s : ℕ)
      → Among dep d.dependencies
      → orders dep ≡ true
      → Requires r dep s
      → is_built prebuilt done s ≡ true)
    × BuildsInOrder r prebuilt (done ++ d ∷ []) ds

IsBuildOrder-builds :
    (r : Recipes) (cx : SortContext) (prebuilt : List ℕ) (done ds : List ComponentDescriptor)
    → HasWaits r IsJust cx
    → IsBuildOrder cx prebuilt done ds
    → BuildsInOrder r prebuilt done ds
unfolding is_resolved
IsBuildOrder-builds r cx prebuilt done [] has order = tt
IsBuildOrder-builds r cx prebuilt done (d ∷ ds) has (resolved, order) = (
  λ dep s. all_ready-built r cx has (is_built prebuilt done) d.dependencies dep s resolved,
  IsBuildOrder-builds r cx prebuilt (done ++ d ∷ []) ds has order,
)

-- What the sort gives, with its wait sets
pub record Ends (r : Recipes) (IsRight : (ℕ → Type 0) → List ℕ → Type 0) (prebuilt : List ℕ)
    (components : List ComponentDescriptor) (result : Result SortError (List ComponentDescriptor))
    : Type 0 where
  pub context : SortContext
  pub waits : HasWaits r IsRight context
  pub ends : SortsOrSticks context prebuilt result components

-- All the ids have the property.
abbrev pub IsWithin : (ℕ → Type 0) → List ℕ → Type 0
IsWithin Q waits = (s : ℕ) → mem s waits ≡ true → Q s

-- If the transient components are kept by their types, the sort gives a result, whatever depends on
-- what: all the components, in an order in which each is ready after those before it, or the cycle
-- error, for components none of which is ready. There is a wait set for each provider and each trait,
-- of ids that it needs.
pub sort_components-Ends :
    (components : List ComponentDescriptor) (prebuilt : List ℕ)
    (providers : List ProviderDescriptor) (transients : List (ℕ × ComponentDescriptor))
    → IsByType (recipes_of components providers transients)
    → (result : Result SortError (List ComponentDescriptor)) × (sort_components components prebuilt
          providers transients
        ≡ some result)
      × Ends (recipes_of components providers transients) IsWithin prebuilt components result
unfolding sort_components
sort_components-Ends components prebuilt providers transients by_type =
    let r = recipes_of components providers transients in
    let (cx, found, has) = sort_context-HasWaits r (λ id. 0) by_type in
    (
      topological_sort cx prebuilt components,
      ap (sort_in prebuilt components) found,
      record {
        context = cx;
        waits = HasWaits-map r cx (λ Q waits exact s. (exact s).0) has;
        ends = topological_sort-SortsOrSticks cx prebuilt components;
      },
    )

-- The components that the sort gives are in such an order.
abbrev pub Builds : Recipes → List ℕ → Result SortError (List ComponentDescriptor) → Type 0
Builds r prebuilt (ok sorted) = BuildsInOrder r prebuilt [] sorted
Builds r prebuilt (err why) = Unit

builds :
    (r : Recipes) (cx : SortContext) (prebuilt : List ℕ) (components : List ComponentDescriptor)
    (result : Result SortError (List ComponentDescriptor))
    → HasWaits r IsJust cx
    → SortsOrSticks cx prebuilt result components
    → Builds r prebuilt result
builds r cx prebuilt components (err why) has ends = tt
builds r cx prebuilt components (ok sorted) has (inl (found, is_ok, s)) =
    let same : found ≡ sorted = cc in
    subst (BuildsInOrder r prebuilt []) same
      (IsBuildOrder-builds r cx prebuilt [] found has s.order)
builds r cx prebuilt components (ok sorted) has (inr (built, left, is_err, s)) = cc

-- If the transient components are kept by their types and none is built for itself, as the ranks
-- that fall along what is built show, the sort gives a result: if it gives components, then before
-- each all that its ordering dependencies require, also through the transient providers that are
-- built for it, is seeded or built. The wait sets, for each provider and each trait, are exactly
-- what it needs; with them, all the components are sorted or none of those left is ready.
pub sort_components-Builds :
    (components : List ComponentDescriptor) (prebuilt : List ℕ)
    (providers : List ProviderDescriptor) (transients : List (ℕ × ComponentDescriptor))
    (rank : ℕ → ℕ)
    → IsByType (recipes_of components providers transients)
    → IsAcyclic (recipes_of components providers transients) rank
    → (result : Result SortError (List ComponentDescriptor)) × (sort_components components prebuilt
          providers transients
        ≡ some result)
      × Ends (recipes_of components providers transients) IsJust prebuilt components result
      × Builds (recipes_of components providers transients) prebuilt result
unfolding sort_components
sort_components-Builds components prebuilt providers transients rank by_type acyclic =
    let r = recipes_of components providers transients in
    let (cx, found, has) = sort_context-HasWaits r rank by_type in
    let just = HasWaits-map r cx (λ Q waits exact s. ((exact s).0, (exact s).1 acyclic)) has in
    let ends = topological_sort-SortsOrSticks cx prebuilt components in
    (
      topological_sort cx prebuilt components,
      ap (sort_in prebuilt components) found,
      record { context = cx; waits = just; ends = ends },
      builds r cx prebuilt components _ just ends,
    )
