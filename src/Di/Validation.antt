-- ===== src/Di/Validation.antt =====
-- crates/di/src/registry.rs: the checks of the component graph before anything is built.
-- A component's id is its name here; the message of a qualified dependency keeps the two names
-- apart.
pub mod Selection
pub mod Satisfied
mod Tests
use overseerd.Base.{
  one_if, ℕ, suc, ◌+◌, Bool, true, false, not, ◌&&◌, ◌||◌, Option, none, some, List, [], ◌∷◌, ◌++◌,
  Text, text_eq, any_of, mem, get, ltb, ◌==◌, if◌then◌else◌, Result, ok, err, for_each,
}
use overseerd.Di.Descriptors.{ProviderDescriptor}
use overseerd.Di.Construction.{
  Cardinality, one, collection, keyed, DependencyDescriptor, ComponentDescriptor,
}

-- The errors of crates/di/src/error.rs that these checks raise
pub data ValidationError : Type 0 where
  missing_dependency : Text → Text → Option Text → ValidationError
  ambiguous_provider : Text → ValidationError

-- Per trait: total providers, primary providers
abbrev pub Counts : Type 0
Counts = List (ℕ × (ℕ × ℕ))

-- `entry(..).or_default()` with its two additions
unfoldable pub count_provider : ℕ → Bool → Counts → Counts
count_provider trait_id primary [] = (trait_id, (1, one_if primary)) ∷ []
count_provider trait_id primary ((id, (total, primaries)) ∷ counts) =
    let rest = count_provider trait_id primary counts in
    if id == trait_id
    then (id, (total + 1, primaries + one_if primary)) ∷ counts
    else (id, (total, primaries)) ∷ rest

-- `for p in &self.providers`
unfoldable pub count_providers : Counts → List ProviderDescriptor → Counts
count_providers counts [] = counts
count_providers counts (p ∷ providers) =
    count_providers (count_provider p.trait_ty.type_id p.primary counts) providers

abbrev pub provides : ℕ → ProviderDescriptor → Bool
provides trait_id p = p.trait_ty.type_id == trait_id

-- `requires_provider`
abbrev pub requires_provider : Cardinality → Bool
requires_provider one = true
requires_provider _ = false

-- More than one provider, and not one primary
abbrev pub is_ambiguous : Option (ℕ × ℕ) → Bool
is_ambiguous none = false
is_ambiguous (some (total, primaries)) = ltb 1 total && not (primaries == 1)

abbrev pub is_none {ℓ} : {A : Type ℓ} → Option A → Bool
is_none none = true
is_none (some _) = false

-- The body of `for dep in c.dependencies()`, for a qualifier and for none
unfoldable pub check_qualified :
    List ProviderDescriptor → Text → DependencyDescriptor → Text → Result ValidationError (Unit {0})
check_qualified providers component dep qualifier =
    if dep.dynamic
      || any_of
          (λ (p : ProviderDescriptor). provides dep.ty.type_id p && text_eq p.qualifier qualifier)
          providers
    then ok tt
    else err (missing_dependency component dep.ty.type_name (some qualifier))

unfoldable pub check_unqualified :
    List ℕ → Counts → Text → DependencyDescriptor → Result ValidationError (Unit {0})
check_unqualified available counts component dep =
    let providers = get dep.ty.type_id counts in
    if requires_provider dep.cardinality && (not dep.dynamic && is_ambiguous providers)
    then err (ambiguous_provider dep.ty.type_name)
    else if (requires_provider dep.cardinality && (not dep.optional && not dep.dynamic))
        && (not (mem dep.ty.type_id available) && is_none providers)
    then err (missing_dependency component dep.ty.type_name none)
    else ok tt

abbrev check_for :
    Option Text
    → List ℕ
    → Counts
    → List ProviderDescriptor
    → Text
    → DependencyDescriptor
    → Result ValidationError (Unit {0})
check_for (some qualifier) available counts providers component dep =
    check_qualified providers component dep qualifier
check_for none available counts providers component dep =
    check_unqualified available counts component dep

unfoldable pub check_dependency :
    List ℕ
    → Counts
    → List ProviderDescriptor
    → Text
    → DependencyDescriptor
    → Result ValidationError (Unit {0})
check_dependency available counts providers component dep =
    let checked = check_for dep.qualifier available counts providers component dep in
    if dep.config then ok tt else checked

-- The body of `for c in components`
unfoldable pub check_component :
    List ℕ
    → Counts
    → List ProviderDescriptor
    → ComponentDescriptor
    → Result ValidationError (Unit {0})
check_component available counts providers c =
    for_each (check_dependency available counts providers c.name) c.dependencies

-- `components.iter().map(|c| c.ty.type_id).collect()`
unfoldable pub type_ids : List ComponentDescriptor → List ℕ
type_ids [] = []
type_ids (c ∷ components) = c.ty.type_id ∷ type_ids components

-- `validate_dependencies`
unfoldable pub validate_dependencies :
    List ProviderDescriptor → List ComponentDescriptor → Result ValidationError (Unit {0})
validate_dependencies providers components =
    for_each (check_component (type_ids components) (count_providers [] providers) providers)
      components
