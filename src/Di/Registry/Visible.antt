-- ===== src/Di/Registry/Visible.antt =====
-- What the check of fresh dependencies of crates/di/src/registry.rs establishes.
use overseerd.Base.{
  ◌≡◌, refl, true, false, not, Bool-cases, ◌⊎◌, inl, inr, Option, none, some, List, [], ◌∷◌, any_of,
  All, if◌then◌else◌, Result, ok, err, ◌>>=◌, for_each, for_each-All, All-map, Among, All-Among,
  arith,
}
use overseerd.Di.Descriptors.{ProviderDescriptor}
use overseerd.Di.Construction.{DependencyDescriptor}
use overseerd.Di.Scopes.{Scope, scope_allows, is_fresh}
use overseerd.Di.Resolved.{Registered, RegistryError, Factory, effective_factory, dependencies}
use overseerd.Di.Registry.Errors.{resolving, failing, unsupported_fresh_factory}
use overseerd.Di.Registry.Fresh.{
  fresh_targets, dependency_scopes, is_held, is_single, is_none, check_fresh_edge, check_visible,
  check_target, check_fresh, validate_fresh_dependencies,
}

module _ (providers : List ProviderDescriptor) (components : List Registered)
    (consumer : Registered) where
  -- A consumer's scope may hold every scope that may supply what a fresh target holds.
  abbrev pub HoldsEdge : DependencyDescriptor → Type 0
  HoldsEdge edge =
      is_held edge ≡ true
      → All (λ (scope : Scope). scope_allows consumer.scope scope ≡ true)
          (dependency_scopes providers components edge)

  -- A target can be built for the consumer: it has a factory, and its scope and those of what it
  -- holds are the consumer's to hold.
  abbrev pub IsBuildable : Registered → Type 0
  IsBuildable target =
      (scope_allows consumer.scope target.scope ≡ true)
      × ((factory : Factory) × (effective_factory target ≡ ok (some factory)))
      × All HoldsEdge (dependencies target)

  -- A target is passed over, if there may be several, or can be built.
  abbrev pub IsPassed : DependencyDescriptor → Registered → Type 0
  IsPassed dep target =
      ((is_single dep.cardinality ≡ false) × (scope_allows consumer.scope target.scope ≡ false))
      ⊎ IsBuildable target

  none_refused :
      (scopes : List Scope)
      → any_of (λ (scope : Scope). not (scope_allows consumer.scope scope)) scopes ≡ false
      → All (λ (scope : Scope). scope_allows consumer.scope scope ≡ true) scopes
  none_refused [] none_is = tt
  none_refused (scope ∷ scopes) none_is =
      (ground (arith, none_is), none_refused scopes (ground (arith, none_is)))

  check_fresh_edge-HoldsEdge :
      (target : Registered) (edge : DependencyDescriptor)
      → check_fresh_edge providers components consumer target edge ≡ ok tt
      → HoldsEdge edge
  unfolding check_fresh_edge
  check_fresh_edge-HoldsEdge target edge done held =
      elim (Bool-cases (
        any_of (λ (scope : Scope). not (scope_allows consumer.scope scope))
          (dependency_scopes providers components edge))) [
            | inl refused ↦ absurd (let bad = rw (held, refused) at done in cc)
            | inr passed ↦ none_refused (dependency_scopes providers components edge) passed
          ]

  check_visible-IsBuildable :
      (target : Registered)
      → scope_allows consumer.scope target.scope ≡ true
      → check_visible providers components consumer target ≡ ok tt
      → IsBuildable target
  unfolding check_visible
  check_visible-IsBuildable target allowed done = by_factory (effective_factory target) refl done
    where
      by_factory :
          (found : Result RegistryError (Option Factory))
          → effective_factory target ≡ found
          → (failing resolving found >>= λ factory.
              if is_none factory
              then err (unsupported_fresh_factory target.name)
              else for_each
                  (check_fresh_edge providers components consumer target)
                  (dependencies target))
            ≡ ok tt
          → IsBuildable target
      by_factory (err why) is_found done = cc
      by_factory (ok none) is_found done = cc
      by_factory (ok (some factory)) is_found done = (
        allowed,
        (factory, is_found),
        All-map _ HoldsEdge (dependencies target) (check_fresh_edge-HoldsEdge target)
            (for_each-All _ (dependencies target) done),
      )

  check_target-IsPassed :
      (dep : DependencyDescriptor) (target : Registered)
      → check_target providers components consumer dep target ≡ ok tt
      → IsPassed dep target
  unfolding check_target
  check_target-IsPassed dep target done =
      elim (Bool-cases (scope_allows consumer.scope target.scope)) [
        | inl allowed ↦ inr (check_visible-IsBuildable target allowed (rw allowed at done))
        | inr refused ↦ elim (Bool-cases (is_single dep.cardinality)) [
          | inl single ↦ let bad = rw (refused, single) at done in cc
          | inr several ↦ inl (several, refused)
        ]
      ]

pub validate_fresh_dependencies-All :
    (providers : List ProviderDescriptor) (components : List Registered) (consumer : Registered)
    (dep : DependencyDescriptor)
    → validate_fresh_dependencies providers components ≡ ok tt
    → Among consumer components
    → Among dep (dependencies consumer)
    → is_fresh dep.resolution ≡ true
    → All (IsPassed providers components consumer dep) (fresh_targets providers components dep)
unfolding validate_fresh_dependencies check_fresh
validate_fresh_dependencies-All providers components consumer dep done of_consumer of_dep fresh_ =
    let all = All-Among _ consumer components (for_each-All _ components done) of_consumer in
    let checked = All-Among _ dep (dependencies consumer) (for_each-All _ _ all) of_dep in
    All-map _ _ (fresh_targets providers components dep)
      (check_target-IsPassed providers components consumer dep)
      (for_each-All _ _ (rw fresh_ at checked))
