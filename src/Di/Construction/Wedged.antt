-- ===== src/Di/Construction/Wedged.antt =====
-- A dependency that wedges the sort of crates/di/src/container.rs: on a type that the sort neither
-- builds nor finds built.
use overseerd.Base.{
  ℕ, ◌<◌, ◌≡◌, refl, sym, ◌∙◌, subst, inl, inr, Bool, true, false, ◌&&◌, Bool-cases, none, List, [],
  ◌∷◌, ◌++◌, append_assoc, any_of, mem, get, Text, ◌==◌, ==_iff, err, arith,
}
use overseerd.Di.Construction.{
  Cardinality, one, collection, keyed, is_one, DependencyDescriptor, ComponentDescriptor,
  SortContext, ready_with, dep_ready, orders, all_ready, is_built, is_resolved, dependency_cycle,
  topological_sort,
}
use overseerd.Di.Construction.Passes.{count, IsBuildOrder, topological_sort-SortsOrSticks}

-- The dependency is an ordering one, on the type alone.
abbrev pub is_on : ℕ → DependencyDescriptor → Bool
is_on id dep = (dep.ty.type_id == id) && (orders dep && is_one dep.cardinality)

abbrev pub awaits : ℕ → ComponentDescriptor → Bool
awaits id c = any_of (is_on id) c.dependencies

abbrev pub is_of : ℕ → ComponentDescriptor → Bool
is_of id c = c.ty.type_id == id

any_of-count :
    (p : ComponentDescriptor → Bool) (xs : List ComponentDescriptor)
    → any_of p xs ≡ true
    → 0 < count p xs
any_of-count p [] some_ = cc
any_of-count p (x ∷ xs) some_ = ground (arith, any_of-count p xs)

count-any_of :
    (p : ComponentDescriptor → Bool) (xs : List ComponentDescriptor)
    → 0 < count p xs
    → any_of p xs ≡ true
count-any_of p [] some_ = absurd (omega (arith, some_))
count-any_of p (x ∷ xs) some_ = ground (arith, count-any_of p xs)

same_any_of :
    (p : ComponentDescriptor → Bool) (xs ys : List ComponentDescriptor)
    → count p xs ≡ count p ys
    → any_of p xs ≡ any_of p ys
same_any_of p xs ys same =
    ground (arith, any_of-count p xs, any_of-count p ys, count-any_of p xs, count-any_of p ys)

any_of-prefix :
    (p : ComponentDescriptor → Bool) (xs ys : List ComponentDescriptor)
    → any_of p (xs ++ ys) ≡ false
    → any_of p xs ≡ false
any_of-prefix p [] ys nothing = refl
any_of-prefix p (x ∷ xs) ys nothing = ground (arith, any_of-prefix p xs ys)

module _ (cx : SortContext) (prebuilt : List ℕ) (id : ℕ)
    (no_trait : get id cx.providers_by_trait ≡ none) (unseeded : mem id prebuilt ≡ false) where
  waits_for_type :
      (built : ℕ → Bool) (dep : DependencyDescriptor) (cardinality : Cardinality)
      → is_one cardinality ≡ true
      → built dep.ty.type_id ≡ false
      → ready_with cx built cardinality none dep ≡ false
  waits_for_type built dep one single away = away
  waits_for_type built dep collection single away = cc
  waits_for_type built dep keyed single away = cc

  dep_waits :
      (built : ℕ → Bool) (dep : DependencyDescriptor)
      → built id ≡ false
      → dep.ty.type_id ≡ id
      → is_one dep.cardinality ≡ true
      → dep_ready cx built dep ≡ false
  unfolding dep_ready
  dep_waits built dep away of_id single =
      let none_there : get dep.ty.type_id cx.providers_by_trait ≡ none =
        subst (λ k. get k cx.providers_by_trait ≡ none) (sym of_id) no_trait in
      rw none_there (
        waits_for_type built dep dep.cardinality single
          (subst (λ k. built k ≡ false) (sym of_id) away))

  never_ready :
      (built : ℕ → Bool) (deps : List DependencyDescriptor)
      → built id ≡ false
      → any_of (is_on id) deps ≡ true
      → all_ready cx built deps ≡ false
  unfolding all_ready
  never_ready built [] away waiting = cc
  never_ready built (dep ∷ deps) away waiting = elim (Bool-cases (is_on id dep)) [
    | inl this ↦
        let of_id = (==_iff dep.ty.type_id id).0 (ground (arith, this)) in
        let single : is_one dep.cardinality ≡ true = ground (arith, this) in
        let ordering : orders dep ≡ true = ground (arith, this) in
        rw (ordering, dep_waits built dep away of_id single) refl
    | inr other ↦ ground (arith, never_ready built deps away (rw other at waiting))
  ]

  wedges :
      (done ds : List ComponentDescriptor)
      → IsBuildOrder cx prebuilt done ds
      → any_of (is_of id) (done ++ ds) ≡ false
      → any_of (awaits id) ds ≡ true
      → ⊥
  unfolding is_resolved is_built
  wedges done [] order away waiting = cc
  wedges done (d ∷ ds) (resolved, order) away waiting = elim (Bool-cases (awaits id d)) [
    | inl this ↦
        let missing : is_built prebuilt done id ≡ false =
          rw (unseeded, any_of-prefix (is_of id) done (d ∷ ds) away) refl in
        let bad = never_ready (is_built prebuilt done) d.dependencies missing this in
        let clash : true ≡ false = sym resolved ∙ bad in cc
    | inr other ↦
        wedges (done ++ d ∷ []) ds order
          (subst (λ (all : List ComponentDescriptor). any_of (is_of id) all ≡ false)
            (sym (append_assoc done (d ∷ []) ds)) away)
          (rw other at waiting)
  ]

  -- If a component has an ordering dependency on a type alone, not a trait's, that is not seeded and
  -- of none of the components, then the sort ends with the cycle error.
  pub topological_sort_wedges :
      (components : List ComponentDescriptor)
      → any_of (is_of id) components ≡ false
      → any_of (awaits id) components ≡ true
      → (names : List Text) × (topological_sort cx prebuilt components
          ≡ err (dependency_cycle names))
  topological_sort_wedges components away waiting =
      elim (topological_sort-SortsOrSticks cx prebuilt components) [
        | inl (sorted, is_ok, s) ↦ absurd (
            wedges [] sorted s.order
              (same_any_of (is_of id) sorted components (s.whole (is_of id)) ∙ away)
              (same_any_of (awaits id) sorted components (s.whole (awaits id)) ∙ waiting))
        | inr (built, left, is_err, s) ↦ (_, is_err)
      ]
