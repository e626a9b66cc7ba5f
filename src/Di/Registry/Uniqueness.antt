-- ===== src/Di/Registry/Uniqueness.antt =====
-- What the checks of ids and qualifiers of crates/di/src/registry.rs establish.
use overseerd.Base.{
  ◌≡◌, refl, Bool, true, false, not, Bool-cases, inl, inr, Option, none, some, List, [], ◌∷◌,
  any_of, All, Text, text_eq, text_eq_iff, text_eq_refl, sym, subst, ◌∙◌, ok, arith, ==_iff,
  ==_refl,
}
use overseerd.Di.Descriptors.{ProviderDescriptor}
use overseerd.Di.Resolved.{Registered}
use overseerd.Di.Registry.Names.{
  check_ids, validate_component_ids, ProviderKey, same_key, key_of, check_key, check_qualifiers,
  validate_provider_qualifiers,
}

-- Any two items, an earlier and a later one, are so related.
abbrev pub Pairwise : {A : Type 0} → (A → A → Type 0) → List A → Type 0
Pairwise R [] = Unit
Pairwise R (x ∷ xs) = All (R x) xs × Pairwise R xs

abbrev pub HasOtherId : Registered → Registered → Type 0
HasOtherId c d = text_eq d.id c.id ≡ false

check_ids-step :
    (seen : List Text) (c : Registered) (components : List Registered)
    → check_ids seen (c ∷ components) ≡ ok tt
    → (any_of (text_eq c.id) seen ≡ false) × (check_ids (c.id ∷ seen) components ≡ ok tt)
unfolding check_ids
check_ids-step seen c components done = elim (Bool-cases (any_of (text_eq c.id) seen)) [
  | inl known ↦ let bad = rw known at done in cc
  | inr new ↦ (new, rw new at done)
]

check_ids-All :
    (id : Text) (seen : List Text) (components : List Registered)
    → any_of (text_eq id) seen ≡ true
    → check_ids seen components ≡ ok tt
    → All (λ (d : Registered). text_eq d.id id ≡ false) components
check_ids-All id seen [] known done = tt
check_ids-All id seen (c ∷ components) known done =
    let (new, later) = check_ids-step seen c components done in
    (
      elim (Bool-cases (text_eq c.id id)) [
        | inl same ↦
            let bad =
              subst (λ (t : Text). any_of (text_eq t) seen ≡ true)
                (sym ((text_eq_iff c.id id).0 same)) known in
            let clash : true ≡ false = sym bad ∙ new in cc
        | inr other ↦ other
      ],
      check_ids-All id (c.id ∷ seen) components (ground (arith, known)) later,
    )

check_ids-Pairwise :
    (seen : List Text) (components : List Registered)
    → check_ids seen components ≡ ok tt
    → Pairwise HasOtherId components
check_ids-Pairwise seen [] done = tt
check_ids-Pairwise seen (c ∷ components) done =
    let (new, later) = check_ids-step seen c components done in
    (
      check_ids-All c.id (c.id ∷ seen) components (rw (text_eq_refl c.id) refl) later,
      check_ids-Pairwise (c.id ∷ seen) components later,
    )

pub validate_component_ids-Pairwise :
    (components : List Registered)
    → validate_component_ids components ≡ ok tt
    → Pairwise HasOtherId components
unfolding validate_component_ids
validate_component_ids-Pairwise components done = check_ids-Pairwise [] components done

abbrev pub differs : Option ProviderKey → Option ProviderKey → Bool
differs (some k) (some k') = not (same_key k' k)
differs _ _ = true

-- Not both of one trait, qualifier and scope
abbrev pub HasOtherKey : List Registered → ProviderDescriptor → ProviderDescriptor → Type 0
HasOtherKey components p q = differs (key_of components p) (key_of components q) ≡ true

same_key-eq : (a b : ProviderKey) → same_key a b ≡ true → a ≡ b
same_key-eq (n, s, t) (n', s', t') same =
    let ids : n ≡ n' = (==_iff n n').0 (ground (arith, same)) in
    let qualifiers : s ≡ s' = (text_eq_iff s s').0 (ground (arith, same)) in
    let scopes : t ≡ t' = (text_eq_iff t t').0 (ground (arith, same)) in cc

same_key_refl : (a : ProviderKey) → same_key a a ≡ true
same_key_refl (n, s, t) = rw (==_refl n, text_eq_refl s, text_eq_refl t) refl

module _ (components : List Registered) where
  check_qualifiers-All :
      (key : ProviderKey) (seen : List ProviderKey) (providers : List ProviderDescriptor)
      → any_of (same_key key) seen ≡ true
      → check_qualifiers components seen providers ≡ ok tt
      → All (λ (q : ProviderDescriptor). differs (some key) (key_of components q) ≡ true) providers
  unfolding check_qualifiers
  check_qualifiers-All key seen [] known done = tt
  check_qualifiers-All key seen (q ∷ providers) known done =
      by_key (key_of components q) done (λ seen. check_qualifiers-All key seen providers)
    where
      by_key :
          (found : Option ProviderKey)
          → check_key q found seen (λ seen. check_qualifiers components seen providers) ≡ ok tt
          → ((seen : List ProviderKey)
              → any_of (same_key key) seen ≡ true
              → check_qualifiers components seen providers ≡ ok tt
              → All
                  (λ (q : ProviderDescriptor). differs (some key) (key_of components q) ≡ true)
                  providers)
          → (differs (some key) found ≡ true)
            × All
                (λ (q : ProviderDescriptor). differs (some key) (key_of components q) ≡ true)
                providers
      by_key none done rest = (refl, rest seen known done)
      by_key (some (n, s, t)) done rest = elim (Bool-cases (any_of (same_key (n, s, t)) seen)) [
        | inl repeated ↦ let bad = rw repeated at done in cc
        | inr new ↦ (
          elim (Bool-cases (same_key (n, s, t) key)) [
            | inl same ↦
                let again =
                  subst (λ (k : ProviderKey). any_of (same_key k) seen ≡ true)
                    (sym (same_key-eq (n, s, t) key same)) known in
                let clash : true ≡ false = sym again ∙ new in cc
            | inr other ↦ rw other refl
          ],
          rest ((n, s, t) ∷ seen) (ground (arith, known)) (rw new at done),
        )
      ]

  check_qualifiers-Pairwise :
      (seen : List ProviderKey) (providers : List ProviderDescriptor)
      → check_qualifiers components seen providers ≡ ok tt
      → Pairwise (HasOtherKey components) providers
  unfolding check_qualifiers
  check_qualifiers-Pairwise seen [] done = tt
  check_qualifiers-Pairwise seen (p ∷ providers) done =
      by_key (key_of components p) done (λ seen. check_qualifiers-Pairwise seen providers)
    where
      all_differ :
          (qs : List ProviderDescriptor)
          → All (λ (q : ProviderDescriptor). differs none (key_of components q) ≡ true) qs
      all_differ [] = tt
      all_differ (q ∷ qs) = (refl, all_differ qs)

      by_key :
          (found : Option ProviderKey)
          → check_key p found seen (λ seen. check_qualifiers components seen providers) ≡ ok tt
          → ((seen : List ProviderKey)
              → check_qualifiers components seen providers ≡ ok tt
              → Pairwise (HasOtherKey components) providers)
          → All (λ (q : ProviderDescriptor). differs found (key_of components q) ≡ true) providers
            × Pairwise (HasOtherKey components) providers
      by_key none done rest = (all_differ providers, rest seen done)
      by_key (some (n, s, t)) done rest = elim (Bool-cases (any_of (same_key (n, s, t)) seen)) [
        | inl repeated ↦ let bad = rw repeated at done in cc
        | inr new ↦
            let later : check_qualifiers components ((n, s, t) ∷ seen) providers ≡ ok tt =
              rw new at done in
            (
              check_qualifiers-All (n, s, t) ((n, s, t) ∷ seen) providers
                  (rw (same_key_refl (n, s, t)) refl) later,
              rest ((n, s, t) ∷ seen) later,
            )
      ]

pub validate_provider_qualifiers-Pairwise :
    (providers : List ProviderDescriptor) (components : List Registered)
    → validate_provider_qualifiers providers components ≡ ok tt
    → Pairwise (HasOtherKey components) providers
unfolding validate_provider_qualifiers
validate_provider_qualifiers-Pairwise providers components done =
    check_qualifiers-Pairwise components [] providers done
