-- ===== src/Di/Validation/Selection.antt =====
-- Counts of providers, crates/di/src/registry.rs, and the selection of crates/di/src/container.rs.
use overseerd.Base.{
  one_if, ℕ, ◌+◌, ◌≤◌, ◌≡◌, ◌⊎◌, inl, inr, refl, Bool, true, false, ◌&&◌, Bool-cases, none, some,
  Option-cases, List, [], ◌∷◌, Text, text_eq, any_of, mem, get, ◌==◌, keep_if, length, All,
  if◌then◌else◌, ok, arith,
}
use overseerd.Di.Descriptors.{ProviderDescriptor}
use overseerd.Di.Construction.{
  one, DependencyDescriptor, sole_of, select_single_provider, find_qualified, select_provider_for,
}
use overseerd.Di.Validation.{
  Counts, count_provider, count_providers, provides, is_ambiguous, check_unqualified,
}

-- The providers of a trait, in their order
abbrev pub of_trait : ℕ → List ProviderDescriptor → List ProviderDescriptor
of_trait trait_id providers = keep_if (provides trait_id) providers

abbrev primaries_of : List ProviderDescriptor → List ProviderDescriptor
primaries_of providers = keep_if (λ (p : ProviderDescriptor). p.primary) providers

-- A missing count is two zeros.
abbrev total_at : ℕ → Counts → ℕ
total_at id [] = 0
total_at id ((k, (total, primaries)) ∷ counts) = if k == id then total else total_at id counts

abbrev primaries_at : ℕ → Counts → ℕ
primaries_at id [] = 0
primaries_at id ((k, (total, primaries)) ∷ counts) =
    if k == id then primaries else primaries_at id counts

total-count_provider :
    (id trait_id : ℕ) (primary : Bool) (counts : Counts)
    → total_at id (count_provider trait_id primary counts)
      ≡ total_at id counts + one_if (trait_id == id)
unfolding count_provider
total-count_provider id trait_id primary [] = ground arith
total-count_provider id trait_id primary ((k, (t, p)) ∷ counts) =
    ground (arith, total-count_provider id trait_id primary counts)

primaries-count_provider :
    (id trait_id : ℕ) (primary : Bool) (counts : Counts)
    → primaries_at id (count_provider trait_id primary counts)
      ≡ primaries_at id counts + one_if ((trait_id == id) && primary)
unfolding count_provider
primaries-count_provider id trait_id primary [] = ground arith
primaries-count_provider id trait_id primary ((k, (t, p)) ∷ counts) =
    ground (arith, primaries-count_provider id trait_id primary counts)

total-count_providers :
    (id : ℕ) (counts : Counts) (providers : List ProviderDescriptor)
    → total_at id (count_providers counts providers)
      ≡ total_at id counts + length (of_trait id providers)
unfolding count_providers
total-count_providers id counts [] = omega arith
total-count_providers id counts (p ∷ providers) = ground (
  arith,
  total-count_providers id (count_provider p.trait_ty.type_id p.primary counts) providers,
  total-count_provider id p.trait_ty.type_id p.primary counts,
)

primaries-count_providers :
    (id : ℕ) (counts : Counts) (providers : List ProviderDescriptor)
    → primaries_at id (count_providers counts providers)
      ≡ primaries_at id counts + length (primaries_of (of_trait id providers))
unfolding count_providers
primaries-count_providers id counts [] = omega arith
primaries-count_providers id counts (p ∷ providers) = ground (
  arith,
  primaries-count_providers id (count_provider p.trait_ty.type_id p.primary counts) providers,
  primaries-count_provider id p.trait_ty.type_id p.primary counts,
)

get-at :
    (id : ℕ) (counts : Counts) (total primaries : ℕ)
    → get id counts ≡ some (total, primaries)
    → (total_at id counts ≡ total) × (primaries_at id counts ≡ primaries)
get-at id [] total primaries h = cc
get-at id ((k, (t, p)) ∷ counts) total primaries h =
    ground (arith, get-at id counts total primaries)

counts_stay_positive :
    (trait_id : ℕ) (primary : Bool) (counts : Counts)
    → All (λ (e : ℕ × (ℕ × ℕ)). 1 ≤ e.1.0) counts
    → All (λ (e : ℕ × (ℕ × ℕ)). 1 ≤ e.1.0) (count_provider trait_id primary counts)
unfolding count_provider
counts_stay_positive trait_id primary [] h = (omega arith, tt)
counts_stay_positive trait_id primary ((k, (t, p)) ∷ counts) (here, there) =
    elim (Bool-cases (k == trait_id)) [
      | inl same ↦ rw same (omega (arith, here), there)
      | inr other ↦ rw other (here, counts_stay_positive trait_id primary counts there)
    ]

counted_stay_positive :
    (counts : Counts) (providers : List ProviderDescriptor)
    → All (λ (e : ℕ × (ℕ × ℕ)). 1 ≤ e.1.0) counts
    → All (λ (e : ℕ × (ℕ × ℕ)). 1 ≤ e.1.0) (count_providers counts providers)
unfolding count_providers
counted_stay_positive counts [] h = h
counted_stay_positive counts (p ∷ providers) h =
    counted_stay_positive (count_provider p.trait_ty.type_id p.primary counts) providers
      (counts_stay_positive p.trait_ty.type_id p.primary counts h)

positive_at :
    (id : ℕ) (counts : Counts) (total primaries : ℕ)
    → All (λ (e : ℕ × (ℕ × ℕ)). 1 ≤ e.1.0) counts
    → get id counts ≡ some (total, primaries)
    → 1 ≤ total
positive_at id [] total primaries h e = cc
positive_at id ((k, (t, p)) ∷ counts) total primaries (here, there) e =
    ground (arith, positive_at id counts total primaries there)

sole :
    (providers : List ProviderDescriptor)
    → length providers ≡ 1
    → (p : ProviderDescriptor) × (sole_of providers ≡ some p)
sole [] h = absurd (omega arith)
sole (p ∷ []) h = (p, refl)
sole (p ∷ q ∷ providers) h = absurd (omega arith)

-- The choice among providers of which one is alone or primary
selects :
    (providers : List ProviderDescriptor)
    → (length providers ≡ 1) ⊎ (length (primaries_of providers) ≡ 1)
    → (p : ProviderDescriptor) × (select_single_provider providers ≡ some p)
unfolding select_single_provider
selects [] (inl h) = absurd (omega arith)
selects [] (inr h) = absurd (omega arith)
selects (p ∷ []) h = (p, refl)
selects (p ∷ q ∷ providers) (inl h) = absurd (omega arith)
selects (p ∷ q ∷ providers) (inr h) = sole (primaries_of (p ∷ q ∷ providers)) h

pub finds :
    (id : ℕ) (qualifier : Text) (providers : List ProviderDescriptor)
    → any_of (λ (p : ProviderDescriptor). provides id p && text_eq p.qualifier qualifier) providers
      ≡ true
    → (p : ProviderDescriptor) × (find_qualified qualifier (of_trait id providers) ≡ some p)
unfolding find_qualified
finds id qualifier [] h = cc
finds id qualifier (p ∷ providers) h = elim (Bool-cases (provides id p)) [
  | inr other ↦ rw other (finds id qualifier providers (rw other at h))
  | inl mine ↦ elim (Bool-cases (text_eq p.qualifier qualifier)) [
    | inl same ↦ rw (mine, same) (p, refl)
    | inr differs ↦ rw (mine, differs) (finds id qualifier providers (rw (mine, differs) at h))
  ]
]

-- A single dependency that must be there when its component is built is a component, or has a
-- provider that is selected.
abbrev pub IsMet : List ProviderDescriptor → List ℕ → DependencyDescriptor → Type 0
IsMet providers available dep =
    dep.config ≡ false
    → dep.dynamic ≡ false
    → dep.optional ≡ false
    → dep.cardinality ≡ one
    → (mem dep.ty.type_id available ≡ true)
      ⊎ ((p : ProviderDescriptor) × (select_provider_for dep (of_trait dep.ty.type_id providers)
            ≡ some p))

module _ (providers : List ProviderDescriptor) (available : List ℕ) where
  counted_selects :
      (id : ℕ) (total primaries : ℕ)
      → get id (count_providers [] providers) ≡ some (total, primaries)
      → is_ambiguous (some (total, primaries)) ≡ false
      → (p : ProviderDescriptor) × (select_single_provider (of_trait id providers) ≡ some p)
  counted_selects id total primaries h clear =
      let at = get-at id (count_providers [] providers) total primaries h in
      let all = total-count_providers id [] providers in
      let firsts = primaries-count_providers id [] providers in
      let some_there =
        positive_at id (count_providers [] providers) total primaries
          (counted_stay_positive [] providers tt) h in
      selects (of_trait id providers) (ground (arith, at, all, firsts, some_there, clear))

  pub unqualified-IsMet :
      (component : Text) (dep : DependencyDescriptor)
      → dep.qualifier ≡ none
      → check_unqualified available (count_providers [] providers) component dep ≡ ok tt
      → IsMet providers available dep
  unfolding check_unqualified select_provider_for select_single_provider
  unqualified-IsMet component dep plain h fixed static_ needed single =
      elim (Bool-cases (mem dep.ty.type_id available)) [
        | inl here ↦ inl here
        | inr away ↦ elim (Option-cases (get dep.ty.type_id (count_providers [] providers))) [
          | inl none_there ↦ absurd (
              let bad = rw (check_unqualified, single, static_, needed, away, none_there) at h in
              cc)
          | inr (counts, there) ↦ elim (Bool-cases (is_ambiguous (some counts))) [
            | inl many ↦
                absurd (
                  let bad = rw (check_unqualified, single, static_, needed, there, many) at h in cc)
            | inr clear ↦ inr (
                let (p, chosen) = counted_selects dep.ty.type_id counts.0 counts.1 there clear in
                (p, rw (select_provider_for, plain) chosen))
          ]
        ]
      ]
