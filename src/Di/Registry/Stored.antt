-- ===== src/Di/Registry/Stored.antt =====
-- What the check of deferred dependencies of crates/di/src/registry.rs establishes, and what it does
-- not see.
use overseerd.Base.{
  ◌≡◌, refl, subst, ◌<◌, true, false, Bool-cases, inl, inr, Option, none, some, List, [], ◌∷◌,
  keep_if, All, leb, leb→le, ok, >>=-eq-ok, for_each-All, Among, All-Among, arith,
}
use overseerd.Di.Descriptors.{ProviderDescriptor}
use overseerd.Di.Construction.{DependencyDescriptor}
use overseerd.Di.Resolved.{Registered, dependencies}
use overseerd.Di.Registry.Deferred.{
  by_type, is_match, is_kept, candidates, group_visible, first_selected, deferred_target,
  refuse_transient, is_deferred, check_deferred, check_deferreds, validate_deferred_dependencies,
}

module _ (providers : List ProviderDescriptor) (components : List Registered) where
  -- The choice of a deferred dependency's target is not ambiguous, and a target that is found is not
  -- transient.
  abbrev pub IsStored : Registered → DependencyDescriptor → Type 0
  IsStored consumer dep =
      (target : Option Registered) × (deferred_target providers components consumer dep ≡ ok target)
      × ((t : Registered) → target ≡ some t → t.scope.transient ≡ false)

  refused-transient :
      (consumer : Registered) (dep : DependencyDescriptor) (target : Option Registered)
      (t : Registered)
      → refuse_transient consumer dep target ≡ ok tt
      → target ≡ some t
      → t.scope.transient ≡ false
  refused-transient consumer dep none t done found = cc
  refused-transient consumer dep (some target) t done found =
      elim (Bool-cases target.scope.transient) [
        | inl fleeting ↦ let bad = rw fleeting at done in cc
        | inr stored ↦
            let same : target ≡ t = cc in
            subst (λ (t : Registered). t.scope.transient ≡ false) same stored
      ]

  check_deferred-IsStored :
      (consumer : Registered) (dep : DependencyDescriptor)
      → check_deferred providers components consumer dep ≡ ok tt
      → IsStored consumer dep
  unfolding check_deferred
  check_deferred-IsStored consumer dep done =
      let (target, found, allowed) =
        >>=-eq-ok (deferred_target providers components consumer dep) _ done in
      (target, found, λ t. refused-transient consumer dep target t allowed)

  pub validate_deferred_dependencies-IsStored :
      (consumer : Registered) (dep : DependencyDescriptor)
      → validate_deferred_dependencies providers components ≡ ok tt
      → Among consumer components
      → Among dep (dependencies consumer)
      → is_deferred dep.resolution ≡ true
      → IsStored consumer dep
  unfolding validate_deferred_dependencies check_deferreds
  validate_deferred_dependencies-IsStored consumer dep done of_consumer of_dep later =
      let all = All-Among _ consumer components (for_each-All _ components done) of_consumer in
      let checked = All-Among _ dep (dependencies consumer) (for_each-All _ _ all) of_dep in
      check_deferred-IsStored consumer dep (rw later at checked)

  -- A provider's component is transient, and of a lower rank than the consumer.
  abbrev pub IsFleeting : Registered → ProviderDescriptor → Type 0
  IsFleeting consumer p =
      (t : Registered) × (by_type p.concrete_ty.type_id components ≡ some t)
      × (t.scope.transient ≡ true)
      × (t.scope.rank < consumer.scope.rank)

  none_kept :
      (consumer : Registered) (matching : List ProviderDescriptor)
      → All (IsFleeting consumer) matching
      → keep_if
          (λ (p : ProviderDescriptor). is_kept (by_type p.concrete_ty.type_id components))
          matching
        ≡ []
  none_kept consumer [] all = refl
  none_kept consumer (p ∷ matching) ((t, found, fleeting, lower), all) =
      rw (found, fleeting) (none_kept consumer matching all)

  none_visible :
      (consumer : Registered) (matching : List ProviderDescriptor)
      → All (IsFleeting consumer) matching
      → group_visible consumer.scope.rank components matching [] ≡ []
  unfolding group_visible
  none_visible consumer [] all = refl
  none_visible consumer (p ∷ matching) ((t, found, fleeting, lower), all) =
      let hidden : leb consumer.scope.rank t.scope.rank ≡ false =
        ground (arith, leb→le consumer.scope.rank t.scope.rank) in
      rw (found, hidden) (none_visible consumer matching all)

  -- A deferred dependency on a trait all of whose providers are transient, of a lower rank than the
  -- consumer, passes.
  pub check_deferred_misses_transient :
      (consumer : Registered) (dep : DependencyDescriptor)
      → by_type dep.ty.type_id components ≡ none
      → All (IsFleeting consumer) (keep_if (is_match dep) providers)
      → check_deferred providers components consumer dep ≡ ok tt
  unfolding check_deferred deferred_target candidates first_selected
  check_deferred_misses_transient consumer dep missing all =
      rw (missing, none_kept consumer _ all, none_visible consumer _ all) refl
