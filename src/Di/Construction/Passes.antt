-- ===== src/Di/Construction/Passes.antt =====
-- The passes of `topological_sort`, crates/di/src/container.rs.
use overseerd.Base.{
  ℕ, zero, suc, ◌+◌, ◌≤◌, ◌<◌, ◌≡◌, ◌⊎◌, inl, inr, refl, sym, ap, ◌∙◌, Bool, true, false,
  Bool-cases, List, [], ◌∷◌, ◌++◌, append_assoc, append-nil, map, length, ◌==◌, if◌then◌else◌,
  Result, ok, err, arith, subst, All,
}
use overseerd.Di.Construction.{
  ComponentDescriptor, SortContext, is_resolved, retain_unresolved, SortError, dependency_cycle,
  sort_remaining, topological_sort,
}

-- How many components satisfy a test
abbrev pub count : (ComponentDescriptor → Bool) → List ComponentDescriptor → ℕ
count p [] = 0
count p (d ∷ ds) = (if p d then 1 else 0) + count p ds

count-append :
    (p : ComponentDescriptor → Bool) (xs ys : List ComponentDescriptor)
    → count p (xs ++ ys) ≡ count p xs + count p ys
count-append p [] ys = omega arith
count-append p (x ∷ xs) ys = omega (arith, count-append p xs ys)

module _ (cx : SortContext) (prebuilt : List ℕ) where
  -- After what is constructed, each component is resolved by what comes before it.
  abbrev pub IsBuildOrder : List ComponentDescriptor → List ComponentDescriptor → Type 0
  IsBuildOrder done [] = Unit
  IsBuildOrder done (d ∷ ds) =
      (is_resolved cx prebuilt done d ≡ true) × IsBuildOrder (done ++ d ∷ []) ds

  IsBuildOrder-snoc :
      (done ds : List ComponentDescriptor) (d : ComponentDescriptor)
      → IsBuildOrder done ds
      → is_resolved cx prebuilt (done ++ ds) d ≡ true
      → IsBuildOrder done (ds ++ d ∷ [])
  IsBuildOrder-snoc done [] d h k = (
    subst (λ (r : List ComponentDescriptor). is_resolved cx prebuilt r d ≡ true) (append-nil done)
        k,
    tt,
  )
  IsBuildOrder-snoc done (e ∷ ds) d h k = (
    h.0,
    IsBuildOrder-snoc (done ++ e ∷ []) ds d h.1 (
        subst (λ (r : List ComponentDescriptor). is_resolved cx prebuilt r d ≡ true)
          (sym (append_assoc done (e ∷ []) ds)) k),
  )

  -- A pass: the result is still an order, no component is lost, and if as many remain as before,
  -- none is resolved.
  record IsPass (result remaining after left : List ComponentDescriptor) : Type 0 where
    pub order : IsBuildOrder [] after
    pub same :
        (p : ComponentDescriptor → Bool)
        → count p after + count p left ≡ count p result + count p remaining
    pub few : length left ≤ length remaining
    pub stuck :
        length left ≡ length remaining
        → (after ≡ result)
          × (left ≡ remaining)
          × All (λ d. is_resolved cx prebuilt result d ≡ false) remaining

  retain_unresolved-IsPass :
      (result remaining : List ComponentDescriptor)
      → IsBuildOrder [] result
      → IsPass result remaining
          (retain_unresolved cx prebuilt result remaining).0
          (retain_unresolved cx prebuilt result remaining).1
  unfolding retain_unresolved
  retain_unresolved-IsPass result [] order = record {
    order = order;
    same = λ p. refl;
    few = omega arith;
    stuck = λ e. (refl, refl, tt);
  }
  retain_unresolved-IsPass result (d ∷ remaining) order =
      elim (Bool-cases (is_resolved cx prebuilt result d)) [
        | inl resolved ↦
            let rest =
              retain_unresolved-IsPass (result ++ d ∷ []) remaining
                (IsBuildOrder-snoc [] result d order resolved) in
            rw resolved (record {
              order = rest.order;
              same = λ p. omega (arith, rest.same p, count-append p result (d ∷ []));
              few = omega (arith, rest.few);
              stuck = λ e. absurd (omega (arith, rest.few, e));
            })
        | inr open_ ↦
            let rest = retain_unresolved-IsPass result remaining order in
            rw open_ (record {
              order = rest.order;
              same = λ p. omega (arith, rest.same p);
              few = omega (arith, rest.few);
              stuck = λ e.
                  let (one, two, three) = rest.stuck (omega (arith, e)) in
                  (one, rw two refl, (open_, three));
            })
      ]

  -- The components are all constructed, each resolved by those before it.
  pub record IsSorted (components sorted : List ComponentDescriptor) : Type 0 where
    pub order : IsBuildOrder [] sorted
    pub whole : (p : ComponentDescriptor → Bool) → count p sorted ≡ count p components

  -- Some are constructed, each resolved by those before it, and some are left, none of them
  -- resolved.
  pub record IsStuck (components built left : List ComponentDescriptor) : Type 0 where
    pub order : IsBuildOrder [] built
    pub more : 0 < length left
    pub unresolved : All (λ d. is_resolved cx prebuilt built d ≡ false) left
    pub whole : (p : ComponentDescriptor → Bool) → count p built + count p left ≡ count p components

  abbrev pub SortsOrSticks :
      Result SortError (List ComponentDescriptor) → List ComponentDescriptor → Type 0
  SortsOrSticks result components =
      ((sorted : List ComponentDescriptor) × (result ≡ ok sorted) × IsSorted components sorted)
      ⊎ ((built : List ComponentDescriptor) × (left : List ComponentDescriptor) × (result
            ≡ err (dependency_cycle (map (λ (c : ComponentDescriptor). c.name) left)))
          × IsStuck components built left)

  -- What is sorted of the same components
  SortsOrSticks-same :
      (result : Result SortError (List ComponentDescriptor))
      (some_ others : List ComponentDescriptor)
      → ((p : ComponentDescriptor → Bool) → count p some_ ≡ count p others)
      → SortsOrSticks result some_
      → SortsOrSticks result others
  SortsOrSticks-same result some_ others same (inl (sorted, is_ok, h)) =
      inl (sorted, is_ok, record { order = h.order; whole = λ p. h.whole p ∙ same p })
  SortsOrSticks-same result some_ others same (inr (built, left, is_err, h)) = inr (
    built,
    left,
    is_err,
    record {
      order = h.order;
      more = h.more;
      unresolved = h.unresolved;
      whole = λ p. h.whole p ∙ same p;
    },
  )

  sort_remaining-SortsOrSticks :
      (fuel : ℕ) (result remaining : List ComponentDescriptor)
      → length remaining ≤ fuel
      → IsBuildOrder [] result
      → SortsOrSticks (sort_remaining fuel cx prebuilt result remaining) (result ++ remaining)
  unfolding sort_remaining
  sort_remaining-SortsOrSticks fuel result [] enough order =
      inl (
        result,
        refl,
        record { order = order; whole = λ p. omega (arith, count-append p result []) },
      )
  sort_remaining-SortsOrSticks zero result (d ∷ remaining) enough order = absurd (omega arith)
  sort_remaining-SortsOrSticks (suc fuel) result (d ∷ remaining) enough order =
      let all = d ∷ remaining in
      let pass = retain_unresolved-IsPass result all order in
      let after = (retain_unresolved cx prebuilt result all).0 in
      let left = (retain_unresolved cx prebuilt result all).1 in
      elim (Bool-cases (length left == length all)) [
        | inl full ↦
            let (one, two, open_) = pass.stuck (ground (arith, full)) in
            inr (
              result,
              all,
              rw full (
                  ap
                    (λ (xs : List ComponentDescriptor).
                      err (dependency_cycle (map (λ (c : ComponentDescriptor). c.name) xs)))
                    two),
              record {
                order = order;
                more = omega arith;
                unresolved = open_;
                whole = λ p. omega (arith, count-append p result all);
              },
            )
        | inr less ↦ rw less (
            SortsOrSticks-same _ (after ++ left) (result ++ all)
              (λ p.
                omega (arith, pass.same p, count-append p after left, count-append p result all))
              (sort_remaining-SortsOrSticks fuel after left (ground (arith, pass.few, enough, less))
                pass.order))
      ]

  -- The sort ends with all the components in an order in which each is resolved by those before
  -- it, or with the error that names components that are left, at least one, none of which is
  -- resolved by those that could be constructed; no component is lost or doubled.
  pub topological_sort-SortsOrSticks :
      (components : List ComponentDescriptor)
      → SortsOrSticks (topological_sort cx prebuilt components) components
  unfolding topological_sort
  topological_sort-SortsOrSticks components =
      sort_remaining-SortsOrSticks (length components) [] components (omega arith) tt
