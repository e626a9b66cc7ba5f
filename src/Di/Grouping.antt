-- ===== src/Di/Grouping.antt =====
-- crates/di/src/registry/order.rs: the providers by a key, and the checks of their orderings.
use overseerd.Di.Descriptors.{TypeDescriptor, ProviderOrder, ProviderDescriptor}
use overseerd.Base.{
  ℕ, Bool, not, List, [], ◌∷◌, ◌++◌, Text, any_of, mem, ◌==◌, if◌then◌else◌, Result, ok, err, ◌>>=◌,
}

-- The errors of crates/di/src/error.rs that ordering raises
pub data OrderError : Type 0 where
  missing_provider_order_target : Text → Text → OrderError
  self_provider_order : Text → OrderError
  provider_order_source_trait_mismatch : Text → Text → OrderError
  provider_order_target_trait_mismatch : Text → Text → Text → OrderError
  provider_order_cycle : Text → List Text → OrderError

-- `entry(key).or_default().push(item)`
unfoldable pub push_under {ℓ} : {A : Type ℓ} → ℕ → A → List (ℕ × List A) → List (ℕ × List A)
push_under key item [] = (key, item ∷ []) ∷ []
push_under key item ((k, items) ∷ groups) =
    let rest = push_under key item groups in
    if k == key then (k, items ++ item ∷ []) ∷ groups else (k, items) ∷ rest

-- The first loop, for `by_concrete` or `by_trait`
unfoldable pub group_by :
    (ProviderDescriptor → ℕ)
    → List (ℕ × List ProviderDescriptor)
    → List ProviderDescriptor
    → List (ℕ × List ProviderDescriptor)
group_by key groups [] = groups
group_by key groups (p ∷ providers) = group_by key (push_under (key p) p groups) providers

abbrev pub provides : ℕ → ProviderDescriptor → Bool
provides trait_id p = p.trait_ty.type_id == trait_id

abbrev pub is_concrete : ℕ → ProviderDescriptor → Bool
is_concrete id p = p.concrete_ty.type_id == id

-- `for trait_ty in ordering.traits`
unfoldable pub check_traits :
    ProviderDescriptor
    → List ProviderDescriptor
    → List TypeDescriptor
    → Result OrderError (Unit {0})
check_traits source source_providers [] = ok tt
check_traits source source_providers (trait_ty ∷ traits) =
    if any_of (provides trait_ty.type_id) source_providers
    then check_traits source source_providers traits
    else err (provider_order_source_trait_mismatch source.concrete_ty.type_name trait_ty.type_name)

-- `for ordering in source.ordering`, of the checks
unfoldable pub check_ordering :
    List ℕ
    → ProviderDescriptor
    → List ProviderDescriptor
    → List ProviderOrder
    → Result OrderError (Unit {0})
check_ordering component_ids source source_providers [] = ok tt
check_ordering component_ids source source_providers (o ∷ ordering) =
    let rest = check_ordering component_ids source source_providers ordering in
    if not (mem o.target.type_id component_ids)
    then err (missing_provider_order_target source.concrete_ty.type_name o.target.type_name)
    else if o.target.type_id == source.concrete_ty.type_id
    then err (self_provider_order source.concrete_ty.type_name)
    else (check_traits source source_providers o.traits >>= λ _. rest)

-- `for source_providers in by_concrete.values()`
unfoldable pub check_all :
    List ℕ → List (ℕ × List ProviderDescriptor) → Result OrderError (Unit {0})
check_all component_ids [] = ok tt
check_all component_ids ((id, []) ∷ groups) = check_all component_ids groups
check_all component_ids ((id, source ∷ providers) ∷ groups) =
    check_ordering component_ids source (source ∷ providers) source.ordering >>= λ _.
    check_all component_ids groups
