-- ===== src/Di/Order/Tests.antt =====
-- Three providers of one trait, ordered, and the theorems at them.
use overseerd.Base.{ℕ, ◌≡◌, refl, false, List, [], ◌∷◌, mem, distinct, true, All, ok}
use overseerd.Di.Order.{
  build, order_trait, order_all, add_sources, add_orderings, add_edge, has_edge, raise, lower, pick,
  min_by, min_of, lower_successors, zeros,
}
use overseerd.Di.Grouping.{check_all, check_ordering, check_traits, group_by, push_under}
use overseerd.Di.Descriptors.{TypeDescriptor, ProviderOrder, before, after, ProviderDescriptor}
use overseerd.Di.Order.Picking.{ids}
use overseerd.Di.Order.Graph.{comes_before}
use overseerd.Di.Order.Solvable.{order_trait_complete}
use overseerd.Di.Order.Constraints.{AllAsked, order_trait-IsOrder}

abbrev ty : ℕ → TypeDescriptor
ty id = record { name = id ∷ []; type_name = id ∷ []; type_id = id }

abbrev provider : ℕ → ℕ → List ProviderOrder → ProviderDescriptor
provider id priority ordering = record {
  trait_ty = ty 100;
  concrete_ty = ty id;
  qualifier = id ∷ [];
  primary = false;
  priority = priority;
  ordering = ordering;
}

-- Provider 3 stands between 1 and 2.
abbrev providers : List ProviderDescriptor
providers =
    provider 2 5 []
    ∷ provider 3 9 (
        record { target = ty 1; traits = []; direction = after }
        ∷ record { target = ty 2; traits = ty 100 ∷ []; direction = before }
        ∷ [])
    ∷ provider 1 7 []
    ∷ []

built : build (1 ∷ 2 ∷ 3 ∷ []) providers ≡ ok ((100, (1, 0) ∷ (3, 1) ∷ (2, 2) ∷ []) ∷ [])
unfolding build order_trait check_all check_ordering check_traits group_by push_under order_all
    add_sources add_orderings add_edge has_edge raise lower pick min_by min_of lower_successors
    zeros
built = refl

ordered : order_trait 100 providers ≡ ok (1 ∷ 3 ∷ 2 ∷ [])
unfolding order_trait add_sources add_orderings add_edge has_edge raise lower pick min_by min_of
    lower_successors zeros
ordered = refl

order_trait-IsOrder_example :
    (distinct (1 ∷ 3 ∷ 2 ∷ []) ≡ true)
    × ((id : ℕ) → mem id (1 ∷ 3 ∷ 2 ∷ []) ≡ mem id (ids providers))
    × All (AllAsked 100 providers (λ x y. comes_before x y (1 ∷ 3 ∷ 2 ∷ []) ≡ true)) providers
order_trait-IsOrder_example = order_trait-IsOrder 100 providers ordered

order_trait_complete_example : (found : List ℕ) × (order_trait 100 providers ≡ ok found)
order_trait_complete_example =
    let known = order_trait-IsOrder 100 providers ordered in
    order_trait_complete 100 providers (1 ∷ 3 ∷ 2 ∷ [])
      (tt, (((λ h. refl), ((λ h. refl), tt)), (tt, tt))) refl known.0 known.1 known.2
