-- ===== src/Di/Registry/Sound.antt =====
-- What `ComponentRegistry::validate` of crates/di/src/registry.rs promises.
use overseerd.Base.{
  ℕ, ◌≡◌, ◌≤◌, ap, true, false, List, [], ◌∷◌, map, mem, distinct, All, Among, All-Among, Result,
  ok, err, >>=-eq-ok, ok-injective,
}
use overseerd.Di.Descriptors.{ProviderDescriptor}
use overseerd.Di.Construction.{DependencyDescriptor, ComponentDescriptor}
use overseerd.Di.Order.{build, order_trait, order_all, id_of}
use overseerd.Di.Grouping.{group_by, check_all}
use overseerd.Di.Order.Picking.{ids}
use overseerd.Di.Order.Graph.{comes_before}
use overseerd.Di.Order.Constraints.{AllAsked, order_trait-IsOrder}
use overseerd.Di.Validation.{type_ids, validate_dependencies}
use overseerd.Di.Validation.Selection.{IsMet}
use overseerd.Di.Validation.Satisfied.{validate_dependencies-IsMet}
use overseerd.Di.Scopes.{ScopedComponent, singleton_rank, is_fresh}
use overseerd.Di.Scopes.Holding.{Holds}
use overseerd.Di.Scopes.Captive.{validate_scopes-Holds}
use overseerd.Di.Resolved.{Registered, scoped, dependencies, resolved_components}
use overseerd.Di.Resolved.Chosen.{types}
use overseerd.Di.Resolved.Override.{IsResolved, resolved_components-IsResolved}
use overseerd.Di.Registry.{described, validate_resolved, validate}
use overseerd.Di.Registry.Errors.{RegistryFailure, resolving, depending, ordering, scoping, failing}
use overseerd.Di.Registry.Names.{validate_component_ids, validate_provider_qualifiers}
use overseerd.Di.Registry.Deferred.{is_deferred, validate_deferred_dependencies}
use overseerd.Di.Registry.Fresh.{fresh_targets, validate_fresh_dependencies}
use overseerd.Di.Registry.Uniqueness.{
  Pairwise, HasOtherId, HasOtherKey, validate_component_ids-Pairwise,
  validate_provider_qualifiers-Pairwise,
}
use overseerd.Di.Registry.Stored.{IsStored, validate_deferred_dependencies-IsStored}
use overseerd.Di.Registry.Visible.{IsPassed, validate_fresh_dependencies-All}

-- An order of a trait's providers, as `order_trait-IsOrder` has it
abbrev pub IsOrdered : ℕ × List ProviderDescriptor → Type 0
IsOrdered (trait_id, providers) =
    (ordered : List ℕ) × (order_trait trait_id providers ≡ ok ordered)
    × (distinct ordered ≡ true)
    × ((id : ℕ) → mem id ordered ≡ mem id (ids providers))
    × All (AllAsked trait_id providers (λ x y. comes_before x y ordered ≡ true)) providers

abbrev pub by_trait : List ProviderDescriptor → List (ℕ × List ProviderDescriptor)
by_trait providers = group_by (λ (p : ProviderDescriptor). p.trait_ty.type_id) [] providers

order_all-IsOrdered :
    (groups : List (ℕ × List ProviderDescriptor)) {plan : List (ℕ × List (ℕ × ℕ))}
    → order_all groups ≡ ok plan
    → All IsOrdered groups
unfolding order_all
order_all-IsOrdered [] done = tt
order_all-IsOrdered ((trait_id, providers) ∷ groups) done =
    let (ordered, found, later) = >>=-eq-ok (order_trait trait_id providers) _ done in
    let (plan, rest, made) = >>=-eq-ok (order_all groups) _ later in
    let (once, whole, asked) = order_trait-IsOrder trait_id providers found in
    ((ordered, found, once, whole, asked), order_all-IsOrdered groups rest)

build-IsOrdered :
    (component_ids : List ℕ) (providers : List ProviderDescriptor) {plan : List (ℕ × List (ℕ × ℕ))}
    → build component_ids providers ≡ ok plan
    → All IsOrdered (by_trait providers)
unfolding build
build-IsOrdered component_ids providers done =
    let (checked, now, later) =
      >>=-eq-ok (check_all component_ids (group_by id_of [] providers)) _ done in
    order_all-IsOrdered (by_trait providers) later

-- What validation establishes of the descriptors that are kept
pub record IsSound (providers : List ProviderDescriptor) (kept : List Registered) : Type 0 where
  pub ids_differ : Pairwise HasOtherId kept
  pub keys_differ : Pairwise (HasOtherKey kept) providers
  pub met :
      All
        (λ (c : ComponentDescriptor).
          All (IsMet providers (type_ids (map described kept))) c.dependencies)
        (map described kept)
  pub ordered : All IsOrdered (by_trait providers)
  pub stored :
      (consumer : Registered) (dep : DependencyDescriptor)
      → Among consumer kept
      → Among dep (dependencies consumer)
      → is_deferred dep.resolution ≡ true
      → IsStored providers kept consumer dep
  pub buildable :
      (consumer : Registered) (dep : DependencyDescriptor)
      → Among consumer kept
      → Among dep (dependencies consumer)
      → is_fresh dep.resolution ≡ true
      → All (IsPassed providers kept consumer dep) (fresh_targets providers kept dep)
  pub not_captive :
      (c e : ScopedComponent)
      → Holds providers (map scoped kept) c e
      → e.scope.transient ≡ false
      → (c.scope.rank ≤ e.scope.rank) × (c.scope.transient ≡ true → e.scope.rank ≡ singleton_rank)

failing-ok :
    {E A : Type 0} (wrap : E → RegistryFailure) (checked : Result E A) {value : A}
    → failing wrap checked ≡ ok value
    → checked ≡ ok value
failing-ok wrap (ok value) done = ap ok (ok-injective done)
failing-ok wrap (err why) done = cc

bounded_kept :
    (registered kept : List Registered)
    → All (λ (c : Registered). c.scope.rank ≤ singleton_rank) registered
    → All (λ (d : Registered). Among d registered) kept
    → All (λ (c : ScopedComponent). c.scope.rank ≤ singleton_rank) (map scoped kept)
bounded_kept registered [] bounded known = tt
bounded_kept registered (d ∷ kept) bounded (at, known) = (
  All-Among (λ (c : Registered). c.scope.rank ≤ singleton_rank) d registered bounded at,
  bounded_kept registered kept bounded known,
)

validate_resolved-IsSound :
    (providers : List ProviderDescriptor) (kept : List Registered)
    → distinct (types kept) ≡ true
    → All (λ (c : ScopedComponent). c.scope.rank ≤ singleton_rank) (map scoped kept)
    → validate_resolved providers kept ≡ ok tt
    → IsSound providers kept
unfolding validate_resolved
validate_resolved-IsSound providers kept apart bounded done =
    let (_, names, after_names) = >>=-eq-ok (validate_component_ids kept) _ done in
    let (_, met, after_met) =
      >>=-eq-ok (failing depending (validate_dependencies providers (map described kept))) _
        after_names in
    let (_, keys, after_keys) =
      >>=-eq-ok (validate_provider_qualifiers providers kept) _ after_met in
    let (_, stored, after_stored) =
      >>=-eq-ok (validate_deferred_dependencies providers kept) _ after_keys in
    let (_, fresh, after_fresh) =
      >>=-eq-ok (validate_fresh_dependencies providers kept) _ after_stored in
    let (plan, planned, scopes) =
      >>=-eq-ok (failing ordering (build (type_ids (map described kept)) providers)) _
        after_fresh in
    record {
      ids_differ = validate_component_ids-Pairwise kept names;
      keys_differ = validate_provider_qualifiers-Pairwise providers kept keys;
      met = validate_dependencies-IsMet providers (map described kept) (failing-ok depending _ met);
      ordered =
          build-IsOrdered (type_ids (map described kept)) providers (failing-ok ordering _ planned);
      stored = λ consumer dep.
          validate_deferred_dependencies-IsStored providers kept consumer dep stored;
      buildable = λ consumer dep. validate_fresh_dependencies-All providers kept consumer dep fresh;
      not_captive = λ c e.
          validate_scopes-Holds providers (map scoped kept) apart c e (failing-ok scoping _ scopes)
            bounded;
    }

-- If `validate` accepts a registry whose ranks are of a `u8`, the descriptors resolve, and those that
-- are kept are sound: the choice of a deferred dependency's target is not ambiguous, and a target that
-- is found is not transient; the other checks are as `IsSound` tells.
pub validate-IsSound :
    (providers : List ProviderDescriptor) (registered : List Registered)
    → All (λ (c : Registered). c.scope.rank ≤ singleton_rank) registered
    → validate providers registered ≡ ok tt
    → (kept : List Registered) × (resolved_components registered ≡ ok kept)
      × IsResolved registered registered kept
      × IsSound providers kept
unfolding validate
validate-IsSound providers registered bounded done =
    let (kept, wrapped, checks) =
      >>=-eq-ok (failing resolving (resolved_components registered)) _ done in
    let resolved = failing-ok resolving (resolved_components registered) wrapped in
    let known = resolved_components-IsResolved registered kept resolved in
    (
      kept,
      resolved,
      known,
      validate_resolved-IsSound providers kept known.apart
          (bounded_kept registered kept bounded known.known) checks,
    )
