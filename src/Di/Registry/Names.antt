-- ===== src/Di/Registry/Names.antt =====
-- crates/di/src/registry.rs: no component id, and in one scope no trait's qualifier, comes twice.
use overseerd.Base.{
  ℕ, Bool, ◌&&◌, Option, none, some, List, [], ◌∷◌, map, any_of, Text, text_eq, ◌==◌, if◌then◌else◌,
  Result, ok, err,
}
use overseerd.Di.Descriptors.{ProviderDescriptor}
use overseerd.Di.Scopes.{Scope, scope_of}
use overseerd.Di.Resolved.{Registered, scoped}
use overseerd.Di.Registry.Errors.{
  RegistryFailure, duplicate_component_id, duplicate_provider_qualifier,
}

-- The loop of `validate_component_ids`, with the ids seen
unfoldable pub check_ids : List Text → List Registered → Result RegistryFailure (Unit {0})
check_ids seen [] = ok tt
check_ids seen (c ∷ components) =
    let rest = check_ids (c.id ∷ seen) components in
    if any_of (text_eq c.id) seen then err (duplicate_component_id c.id) else rest

unfoldable pub validate_component_ids : List Registered → Result RegistryFailure (Unit {0})
validate_component_ids components = check_ids [] components

-- A provider's trait, qualifier and scope's name
abbrev pub ProviderKey : Type 0
ProviderKey = ℕ × Text × Text

abbrev pub same_key : ProviderKey → ProviderKey → Bool
same_key (trait_id, qualifier, scope) (trait_id', qualifier', scope') =
    (trait_id == trait_id') && (text_eq qualifier qualifier' && text_eq scope scope')

abbrev pub key_in : Scope → ProviderDescriptor → ProviderKey
key_in scope p = (p.trait_ty.type_id, p.qualifier, scope.scope_name)

abbrev pub key_of : List Registered → ProviderDescriptor → Option ProviderKey
key_of components p = elim (scope_of p.concrete_ty.type_id (map scoped components)) [
  | none ↦ none
  | some scope ↦ some (key_in scope p)
]

-- The loop of `validate_provider_qualifiers`, with the keys seen
abbrev pub check_key :
    ProviderDescriptor
    → Option ProviderKey
    → List ProviderKey
    → (List ProviderKey → Result RegistryFailure (Unit {0}))
    → Result RegistryFailure (Unit {0})
check_key p none seen rest = rest seen
check_key p (some (trait_id, qualifier, scope)) seen rest =
    if any_of (same_key (trait_id, qualifier, scope)) seen
    then err (duplicate_provider_qualifier p.trait_ty.type_name p.qualifier scope)
    else rest ((trait_id, qualifier, scope) ∷ seen)

unfoldable pub check_qualifiers :
    List Registered → List ProviderKey → List ProviderDescriptor → Result RegistryFailure (Unit {0})
check_qualifiers components seen [] = ok tt
check_qualifiers components seen (p ∷ providers) =
    check_key p (key_of components p) seen (λ seen. check_qualifiers components seen providers)

unfoldable pub validate_provider_qualifiers :
    List ProviderDescriptor → List Registered → Result RegistryFailure (Unit {0})
validate_provider_qualifiers providers components = check_qualifiers components [] providers
