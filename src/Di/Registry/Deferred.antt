-- ===== src/Di/Registry/Deferred.antt =====
-- crates/di/src/registry.rs: the targets of deferred dependencies, which a scope must keep. A
-- `BTreeMap` is the list of its entries, in the order of the keys.
use overseerd.Base.{
  ℕ, Bool, true, false, not, ◌&&◌, Option, none, some, List, [], ◌∷◌, ◌++◌, keep_if, Text, text_eq,
  ltb, leb, ◌==◌, if◌then◌else◌, Result, ok, err, ◌>>=◌, for_each,
}
use overseerd.Di.Descriptors.{ProviderDescriptor}
use overseerd.Di.Construction.{
  DependencyDescriptor, ResolutionMode, deferred, select_single_provider,
}
use overseerd.Di.Order.{text_ltb}
use overseerd.Di.Resolved.{Registered, dependencies}
use overseerd.Di.Registry.Errors.{
  RegistryFailure, ambiguous_deferred, deferred_transient_dependency,
}

-- `by_type.get(..)`: the last component of a type counts.
abbrev pub last_or : Option Registered → Bool → Registered → Option Registered
last_or (some later) same own = some later
last_or none same own = if same then some own else none

unfoldable pub by_type : ℕ → List Registered → Option Registered
by_type type_id [] = none
by_type type_id (c ∷ components) = last_or (by_type type_id components) (c.ty.type_id == type_id) c

-- `qualifier.is_none_or(..)`
abbrev pub fits : Option Text → Text → Bool
fits none qualifier = true
fits (some wanted) qualifier = text_eq qualifier wanted

-- `matching`: of the trait and, if one is asked for, the qualifier
abbrev pub is_match : DependencyDescriptor → ProviderDescriptor → Bool
is_match dep p = (p.trait_ty.type_id == dep.ty.type_id) && fits dep.qualifier p.qualifier

abbrev pub is_kept : Option Registered → Bool
is_kept none = true
is_kept (some concrete) = not concrete.scope.transient

-- `candidates`: the scoped ones, or all if there are none
abbrev pub scoped_or_all :
    List ProviderDescriptor → List ProviderDescriptor → List ProviderDescriptor
scoped_or_all [] matching = matching
scoped_or_all (p ∷ kept) matching = p ∷ kept

unfoldable pub candidates :
    List ProviderDescriptor → List Registered → DependencyDescriptor → List ProviderDescriptor
candidates providers components dep =
    let matching = keep_if (is_match dep) providers in
    scoped_or_all
      (keep_if (λ (p : ProviderDescriptor). is_kept (by_type p.concrete_ty.type_id components))
        matching)
      matching

-- `by_scope`: the candidates by rank and name of their scope
abbrev pub ScopeKey : Type 0
ScopeKey = ℕ × Text

abbrev pub key_ltb : ScopeKey → ScopeKey → Bool
key_ltb (rank, name) (rank', name') = if rank == rank' then text_ltb name name' else ltb rank rank'

abbrev pub key_eq : ScopeKey → ScopeKey → Bool
key_eq (rank, name) (rank', name') = (rank == rank') && text_eq name name'

abbrev pub Groups : Type 0
Groups = List (ScopeKey × List ProviderDescriptor)

unfoldable pub push_scope : ScopeKey → ProviderDescriptor → Groups → Groups
push_scope key p [] = (key, p ∷ []) ∷ []
push_scope key p ((other, group) ∷ groups) =
    let rest = push_scope key p groups in
    if key_eq key other
    then (other, group ++ p ∷ []) ∷ groups
    else if key_ltb key other
    then (key, p ∷ []) ∷ (other, group) ∷ groups
    else (other, group) ∷ rest

abbrev pub push_visible : ℕ → ProviderDescriptor → Option Registered → Groups → Groups
push_visible consumer_rank p none groups = groups
push_visible consumer_rank p (some concrete) groups =
    if leb consumer_rank concrete.scope.rank
    then push_scope (concrete.scope.rank, concrete.scope.scope_name) p groups
    else groups

unfoldable pub group_visible : ℕ → List Registered → List ProviderDescriptor → Groups → Groups
group_visible consumer_rank components [] groups = groups
group_visible consumer_rank components (p ∷ providers) groups =
    group_visible consumer_rank components providers
      (push_visible consumer_rank p (by_type p.concrete_ty.type_id components) groups)

-- `select`
abbrev pub first_of : List ProviderDescriptor → Option ProviderDescriptor
first_of [] = none
first_of (p ∷ providers) = some p

abbrev pub select : Option Text → List ProviderDescriptor → Option ProviderDescriptor
select (some qualifier) providers = first_of providers
select none providers = select_single_provider providers

-- `for group in by_scope.values()`
abbrev pub or_later :
    Option ProviderDescriptor → Option ProviderDescriptor → Option ProviderDescriptor
or_later (some p) later = some p
or_later none later = later

unfoldable pub first_selected : Option Text → Groups → Option ProviderDescriptor
first_selected qualifier [] = none
first_selected qualifier ((key, group) ∷ groups) =
    or_later (select qualifier group) (first_selected qualifier groups)

-- `match selected`
abbrev pub selected_target :
    Text
    → List Registered
    → Groups
    → Option ProviderDescriptor
    → Result RegistryFailure (Option Registered)
selected_target trait_name components groups (some p) =
    ok (by_type p.concrete_ty.type_id components)
selected_target trait_name components [] none = ok none
selected_target trait_name components (group ∷ groups) none = err (ambiguous_deferred trait_name)

abbrev pub trait_target :
    List Registered → DependencyDescriptor → Groups → Result RegistryFailure (Option Registered)
trait_target components dep groups =
    selected_target dep.ty.type_name components groups (first_selected dep.qualifier groups)

-- `target`
abbrev pub own_target :
    List ProviderDescriptor
    → List Registered
    → Registered
    → DependencyDescriptor
    → Option Registered
    → Result RegistryFailure (Option Registered)
own_target providers components consumer dep (some target) = ok (some target)
own_target providers components consumer dep none =
    trait_target components dep
      (group_visible consumer.scope.rank components (candidates providers components dep) [])

unfoldable pub deferred_target :
    List ProviderDescriptor
    → List Registered
    → Registered
    → DependencyDescriptor
    → Result RegistryFailure (Option Registered)
deferred_target providers components consumer dep =
    own_target providers components consumer dep (by_type dep.ty.type_id components)

abbrev pub refuse_transient :
    Registered → DependencyDescriptor → Option Registered → Result RegistryFailure (Unit {0})
refuse_transient consumer dep none = ok tt
refuse_transient consumer dep (some target) =
    if target.scope.transient
    then err (deferred_transient_dependency consumer.name dep.ty.type_name)
    else ok tt

abbrev pub is_deferred : ResolutionMode → Bool
is_deferred deferred = true
is_deferred _ = false

module _ (providers : List ProviderDescriptor) (components : List Registered) where
  -- The body of the inner loop
  unfoldable pub check_deferred :
      Registered → DependencyDescriptor → Result RegistryFailure (Unit {0})
  check_deferred consumer dep =
      deferred_target providers components consumer dep >>= refuse_transient consumer dep

  abbrev pub check_if_deferred :
      Registered → DependencyDescriptor → Result RegistryFailure (Unit {0})
  check_if_deferred consumer dep =
      if is_deferred dep.resolution then check_deferred consumer dep else ok tt

  -- The body of the outer loop
  unfoldable pub check_deferreds : Registered → Result RegistryFailure (Unit {0})
  check_deferreds consumer = for_each (check_if_deferred consumer) (dependencies consumer)

-- `validate_deferred_dependencies`
unfoldable pub validate_deferred_dependencies :
    List ProviderDescriptor → List Registered → Result RegistryFailure (Unit {0})
validate_deferred_dependencies providers components =
    for_each (check_deferreds providers components) components
