-- ===== src/Di/Resolved.antt =====
-- crates/di/src/registry.rs: the registered descriptors and the one that is kept of each type. A descriptor's factory is the descriptor's of
-- crates/di/src/descriptors/component.rs, its construction left out.
pub mod Chosen
pub mod Override
mod Tests
use overseerd.Base.{
  ℕ, Bool, true, false, not, ◌&&◌, ◌||◌, Option, none, some, List, [], ◌∷◌, ◌++◌, map, keep_if,
  any_of, Text, text_eq, ◌==◌, if◌then◌else◌, Result, ok, err, ◌>>=◌,
}
use overseerd.Di.Descriptors.{TypeDescriptor, ProviderDescriptor}
use overseerd.Di.Construction.{DependencyDescriptor, ComponentDescriptor}
use overseerd.Di.Scopes.{Scope, ScopedComponent}

-- `ComponentFactoryDescriptor`
pub record Factory : Type 0 where
  pub default : Bool
  pub dependencies : List DependencyDescriptor

-- `ComponentDescriptor`
pub record Registered : Type 0 where
  pub id : Text
  pub name : Text
  pub ty : TypeDescriptor
  pub scope : Scope
  pub factories : List Factory

-- The errors of crates/di/src/error.rs that these raise
pub data RegistryError : Type 0 where
  ambiguous_factory duplicate_component_type : Text → RegistryError

-- `effective_factory`
abbrev pub first_of {ℓ} : {A : Type ℓ} → List A → Option A
first_of [] = none
first_of (x ∷ xs) = some x

abbrev pub chosen_factory :
    Text → List Factory → List Factory → Result RegistryError (Option Factory)
chosen_factory name [] factories = ok (first_of (keep_if (λ (f : Factory). f.default) factories))
chosen_factory name (f ∷ []) factories = ok (some f)
chosen_factory name (f ∷ g ∷ explicit) factories = err (ambiguous_factory name)

abbrev pub factory_of : Text → List Factory → Result RegistryError (Option Factory)
factory_of name (f ∷ []) = ok (some f)
factory_of name factories =
    chosen_factory name (keep_if (λ (f : Factory). not f.default) factories) factories

unfoldable pub effective_factory : Registered → Result RegistryError (Option Factory)
effective_factory c = factory_of c.name c.factories

-- `dependencies`
abbrev pub factory_dependencies : Result RegistryError (Option Factory) → List DependencyDescriptor
factory_dependencies (ok (some factory)) = factory.dependencies
factory_dependencies _ = []

unfoldable pub dependencies : Registered → List DependencyDescriptor
dependencies c = factory_dependencies (effective_factory c)

-- A descriptor as the other checks read it
abbrev pub scoped : Registered → ScopedComponent
scoped c = record {
  component = record { name = c.name; ty = c.ty; dependencies = dependencies c };
  scope = c.scope;
}

-- `effective_factory()?.is_none()`
abbrev pub is_manual : Option Factory → Bool
is_manual none = true
is_manual (some factory) = false

unfoldable pub manual : Registered → Result RegistryError Bool
manual c = effective_factory c >>= λ factory. ok (is_manual factory)

-- What `positions` tells: the component of a type among those chosen, and its place
unfoldable pub chosen_of : ℕ → List Registered → Option Registered
chosen_of type_id [] = none
chosen_of type_id (c ∷ chosen) =
    let rest = chosen_of type_id chosen in if c.ty.type_id == type_id then some c else rest

unfoldable pub replace_chosen : Registered → List Registered → List Registered
replace_chosen component [] = []
replace_chosen component (c ∷ chosen) =
    let rest = replace_chosen component chosen in
    if c.ty.type_id == component.ty.type_id then component ∷ chosen else c ∷ rest

-- The match on the position
abbrev pub overridden :
    Registered → Registered → Bool → Bool → List Registered → Result RegistryError (List Registered)
overridden component existing true false chosen = ok (replace_chosen component chosen)
overridden component existing false true chosen = ok chosen
overridden component existing _ _ chosen =
    if text_eq existing.id component.id
    then ok chosen
    else err (duplicate_component_type component.ty.type_name)

abbrev pub against :
    Registered → Bool → Option Registered → List Registered → Result RegistryError (List Registered)
against component new_manual none chosen = ok (chosen ++ component ∷ [])
against component new_manual (some existing) chosen = manual existing >>= λ existing_manual.
    overridden component existing new_manual existing_manual chosen

unfoldable pub choose : Registered → List Registered → Result RegistryError (List Registered)
choose component chosen = manual component >>= λ new_manual.
    against component new_manual (chosen_of component.ty.type_id chosen) chosen

-- `resolved_components`
unfoldable pub choose_all :
    List Registered → List Registered → Result RegistryError (List Registered)
choose_all [] chosen = ok chosen
choose_all (c ∷ components) chosen = choose c chosen >>= λ next. choose_all components next

abbrev pub resolved_components : List Registered → Result RegistryError (List Registered)
resolved_components components = choose_all components []
