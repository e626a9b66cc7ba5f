-- ===== src/Di/Sorting.antt =====
-- crates/di/src/container.rs: `topological_sort` from its arguments on: the groups of the providers, the
-- wait sets, and the sort.
use overseerd.Base.{ℕ, suc, Option, none, some, List, [], ◌∷◌, ◌++◌, map, length, Result}
use overseerd.Di.Descriptors.{ProviderDescriptor}
use overseerd.Di.Construction.{ComponentDescriptor, SortContext, SortError, topological_sort}
use overseerd.Di.Grouping.{group_by}
use overseerd.Di.Order.{id_of}
use overseerd.Di.Waits.{trait_waits, provider_waits, Recipes, Expansion, Step, expand_transient}

-- `provider_waits.insert` and `trait_waits.insert`, for each id that is asked
abbrev pub insert_waits :
    ℕ
    → List (ℕ × List ℕ)
    → Step
    → (List (ℕ × List ℕ) → Expansion → Option (List (ℕ × List ℕ) × Expansion))
    → Option (List (ℕ × List ℕ) × Expansion)
insert_waits id sets none next = none
insert_waits id sets (some (waits, e)) next = next ((id, waits) ∷ sets) e

unfoldable pub insert_all :
    (ℕ → Expansion → Step)
    → List ℕ
    → List (ℕ × List ℕ)
    → Expansion
    → Option (List (ℕ × List ℕ) × Expansion)
insert_all ask [] sets e = some (sets, e)
insert_all ask (id ∷ ids) sets e = insert_waits id sets (ask id e) (insert_all ask ids)

-- What `topological_sort` makes before it sorts
abbrev pub recipes_of :
    List ComponentDescriptor → List ProviderDescriptor → List (ℕ × ComponentDescriptor) → Recipes
recipes_of components providers transients = record {
  providers_by_trait = group_by (λ (p : ProviderDescriptor). p.trait_ty.type_id) [] providers;
  transients = transients;
  sortable = map (λ (c : ComponentDescriptor). c.ty.type_id) components;
}

abbrev pub provider_concretes : List (ℕ × List ProviderDescriptor) → List ℕ
provider_concretes [] = []
provider_concretes ((trait_id, providers) ∷ groups) =
    map id_of providers ++ provider_concretes groups

abbrev pub trait_ids : List (ℕ × List ProviderDescriptor) → List ℕ
trait_ids groups = map (λ (group : ℕ × List ProviderDescriptor). group.0) groups

module _ (r : Recipes) where
  abbrev pub with_trait_waits :
      List (ℕ × List ℕ) → Option (List (ℕ × List ℕ) × Expansion) → Option SortContext
  with_trait_waits provider_waits none = none
  with_trait_waits provider_waits (some (trait_waits, e)) = some (record {
    providers_by_trait = r.providers_by_trait;
    provider_waits = provider_waits;
    trait_waits = trait_waits;
    sortable = r.sortable;
    transients = map (λ (entry : ℕ × ComponentDescriptor). entry.0) r.transients;
  })

  abbrev pub with_provider_waits :
      (ComponentDescriptor → Expansion → Step)
      → Option (List (ℕ × List ℕ) × Expansion)
      → Option SortContext
  with_provider_waits expand none = none
  with_provider_waits expand (some (provider_waits, e)) =
      with_trait_waits provider_waits
        (insert_all (trait_waits r expand) (trait_ids r.providers_by_trait) [] e)

  unfoldable pub sort_context : Option SortContext
  sort_context =
      let expand = expand_transient r (suc (length r.transients)) in
      with_provider_waits expand (
        insert_all (provider_waits r expand) (provider_concretes r.providers_by_trait) []
          (record { provider_memo = []; trait_memo = []; visiting = [] }))

abbrev pub sort_in :
    List ℕ
    → List ComponentDescriptor
    → Option SortContext
    → Option (Result SortError (List ComponentDescriptor))
sort_in prebuilt components none = none
sort_in prebuilt components (some cx) = some (topological_sort cx prebuilt components)

-- The whole of `topological_sort`
unfoldable pub sort_components :
    List ComponentDescriptor
    → List ℕ
    → List ProviderDescriptor
    → List (ℕ × ComponentDescriptor)
    → Option (Result SortError (List ComponentDescriptor))
sort_components components prebuilt providers transients =
    sort_in prebuilt components (sort_context (recipes_of components providers transients))
