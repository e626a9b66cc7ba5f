-- ===== src/Di/Validation/Satisfied.antt =====
-- `validate_dependencies` of crates/di/src/registry.rs over all components.
use overseerd.Base.{
  ℕ, ◌≡◌, ◌&&◌, text_eq, inl, inr, Bool-cases, some, Option-cases, List, [], Text, any_of, All, ok,
  for_each-All, All-map,
}
use overseerd.Di.Descriptors.{ProviderDescriptor}
use overseerd.Di.Construction.{DependencyDescriptor, ComponentDescriptor, select_provider_for}
use overseerd.Di.Validation.{
  provides, count_providers, check_qualified, check_dependency, check_component, type_ids,
  validate_dependencies,
}
use overseerd.Di.Validation.Selection.{IsMet, unqualified-IsMet, finds}

module _ (providers : List ProviderDescriptor) (available : List ℕ) where
  qualified-IsMet :
      (component : Text) (dep : DependencyDescriptor) (qualifier : Text)
      → dep.qualifier ≡ some qualifier
      → check_qualified providers component dep qualifier ≡ ok tt
      → IsMet providers available dep
  unfolding check_qualified select_provider_for
  qualified-IsMet component dep qualifier named h fixed static_ needed single =
      elim (Bool-cases (
        any_of
          (λ (p : ProviderDescriptor). provides dep.ty.type_id p && text_eq p.qualifier qualifier)
          providers)) [
            | inl there ↦ inr (
                let (p, found) = finds dep.ty.type_id qualifier providers there in
                (p, rw named found))
            | inr away ↦ absurd (let bad = rw (check_qualified, static_, away) at h in cc)
          ]

  check_dependency-IsMet :
      (component : Text) (dep : DependencyDescriptor)
      → check_dependency available (count_providers [] providers) providers component dep ≡ ok tt
      → IsMet providers available dep
  unfolding check_dependency
  check_dependency-IsMet component dep h fixed static_ needed single =
      elim (Option-cases dep.qualifier) [
        | inl plain ↦
            unqualified-IsMet providers available component dep plain (simp (plain, fixed) at h)
              fixed static_ needed single
        | inr (qualifier, named) ↦
            qualified-IsMet component dep qualifier named (simp (named, fixed) at h) fixed static_
              needed single
      ]

  check_component-IsMet :
      (c : ComponentDescriptor)
      → check_component available (count_providers [] providers) providers c ≡ ok tt
      → All (IsMet providers available) c.dependencies
  unfolding check_component
  check_component-IsMet c done =
      All-map _ (IsMet providers available) c.dependencies (check_dependency-IsMet c.name)
        (for_each-All _ c.dependencies done)

-- If the dependencies are valid, then each single one that is not optional, dynamic or a
-- configuration is of a component's type, or the selection that resolution makes among the
-- providers of its trait finds one.
pub validate_dependencies-IsMet :
    (providers : List ProviderDescriptor) (components : List ComponentDescriptor)
    → validate_dependencies providers components ≡ ok tt
    → All
        (λ (c : ComponentDescriptor). All (IsMet providers (type_ids components)) c.dependencies)
        components
unfolding validate_dependencies
validate_dependencies-IsMet providers components h =
    All-map _ _ components (check_component-IsMet providers (type_ids components))
      (for_each-All _ components h)
