-- ===== src/Di/Waits/Selected.antt =====
-- The providers that crates/di/src/container.rs selects are among those it selects from.
use overseerd.Base.{
  ℕ, ◌≡◌, refl, subst, inl, inr, Bool, true, Bool-cases, Option, none, some, List, [], ◌∷◌, map,
  keep_if, mem, mem-append, get, has_key, Text, text_eq, ◌==◌, ==_refl, Among, here, there, arith,
}
use overseerd.Di.Descriptors.{ProviderDescriptor}
use overseerd.Di.Construction.{
  DependencyDescriptor, sole_of, select_single_provider, find_qualified, select_for,
  select_provider_for, id_of,
}
use overseerd.Di.Waits.{Recipes, local_choice, local_edge, edge_choice, edge_concretes}
use overseerd.Di.Sorting.{provider_concretes}

Among-tail :
    (x y : ProviderDescriptor) (some_ xs : List ProviderDescriptor)
    → (Among x some_ → Among x xs)
    → Among x (y ∷ some_)
    → Among x (y ∷ xs)
Among-tail x x' some_ xs f here = here
Among-tail x y some_ xs f (there at) = there (f at)

Among-keep_if :
    (p : ProviderDescriptor → Bool) (x : ProviderDescriptor) (xs : List ProviderDescriptor)
    → Among x (keep_if p xs)
    → Among x xs
Among-keep_if p x [] at = at
Among-keep_if p x (y ∷ xs) at = elim (Bool-cases (p y)) [
  | inl yes' ↦ Among-tail x y (keep_if p xs) xs (Among-keep_if p x xs) (rw yes' at at)
  | inr no' ↦ there (Among-keep_if p x xs (rw no' at at))
]

sole-Among :
    (xs : List ProviderDescriptor) (x : ProviderDescriptor) → sole_of xs ≡ some x → Among x xs
sole-Among [] x found = cc
sole-Among (y ∷ []) x found = let same : y ≡ x = cc in subst (λ x. Among x (y ∷ [])) same here
sole-Among (y ∷ z ∷ xs) x found = cc

select_single-Among :
    (xs : List ProviderDescriptor) (x : ProviderDescriptor)
    → select_single_provider xs ≡ some x
    → Among x xs
unfolding select_single_provider
select_single-Among [] x found = cc
select_single-Among (y ∷ []) x found = sole-Among (y ∷ []) x found
select_single-Among (y ∷ z ∷ xs) x found =
    Among-keep_if (λ (p : ProviderDescriptor). p.primary) x (y ∷ z ∷ xs) (sole-Among _ x found)

find_qualified-Among :
    (qualifier : Text) (xs : List ProviderDescriptor) (x : ProviderDescriptor)
    → find_qualified qualifier xs ≡ some x
    → Among x xs
unfolding find_qualified
find_qualified-Among qualifier [] x found = cc
find_qualified-Among qualifier (y ∷ xs) x found =
    elim (Bool-cases (text_eq y.qualifier qualifier)) [
      | inl yes' ↦
          let it : some y ≡ some x = rw yes' at found in
          let same : y ≡ x = cc in subst (λ x. Among x (y ∷ xs)) same here
      | inr no' ↦ there (find_qualified-Among qualifier xs x (rw no' at found))
    ]

select-Among :
    (dep : DependencyDescriptor) (xs : List ProviderDescriptor) (x : ProviderDescriptor)
    → select_provider_for dep xs ≡ some x
    → Among x xs
unfolding select_provider_for
select-Among dep xs x found = by_qualifier dep.qualifier found
  where
    by_qualifier : (q : Option Text) → select_for q xs ≡ some x → Among x xs
    by_qualifier (some qualifier) found = find_qualified-Among qualifier xs x found
    by_qualifier none found = select_single-Among xs x found

mem-map :
    (x : ProviderDescriptor) (xs : List ProviderDescriptor)
    → Among x xs
    → mem (id_of x) (map id_of xs) ≡ true
mem-map x [] at = elim at [ ]
mem-map x (x' ∷ xs) here = rw (==_refl (id_of x)) refl
mem-map x (y ∷ xs) (there at) = ground (arith, mem-map x xs at)

pub Among-mem : (c : ℕ) (cs : List ℕ) → Among c cs → mem c cs ≡ true
Among-mem c [] at = elim at [ ]
Among-mem c (c' ∷ cs) here = rw (==_refl c) refl
Among-mem c (d ∷ cs) (there at) = ground (arith, Among-mem c cs at)

mem-map-keep_if :
    (p : ProviderDescriptor → Bool) (c : ℕ) (xs : List ProviderDescriptor)
    → mem c (map id_of (keep_if p xs)) ≡ true
    → mem c (map id_of xs) ≡ true
mem-map-keep_if p c [] at = at
mem-map-keep_if p c (x ∷ xs) at = ground (arith, mem-map-keep_if p c xs)

one-of :
    (p : ProviderDescriptor) (c : ℕ) (xs : List ProviderDescriptor)
    → Among p xs
    → mem c (id_of p ∷ []) ≡ true
    → mem c (map id_of xs) ≡ true
one-of p c xs at is =
    let same : id_of p ≡ c = ground arith in
    subst (λ c. mem c (map id_of xs) ≡ true) same (mem-map p xs at)

module _ (r : Recipes) (dep : DependencyDescriptor) where
  local_edge-mem :
      (providers : List ProviderDescriptor) (c : ℕ)
      → mem c (local_edge r dep providers) ≡ true
      → mem c (map id_of providers) ≡ true
  local_edge-mem providers c = chosen (select_provider_for dep local) refl dep.qualifier
    where
      local : List ProviderDescriptor
      local = keep_if (λ (p : ProviderDescriptor). mem (id_of p) r.sortable) providers

      chosen :
          (o : Option ProviderDescriptor)
          → select_provider_for dep local ≡ o
          → (q : Option Text) → mem c (local_choice r o q local) ≡ true
          → mem c (map id_of providers) ≡ true
      chosen (some p) is q at =
          mem-map-keep_if _ c providers (one-of p c local (select-Among dep local p is) at)
      chosen none is (some qualifier) at = cc
      chosen none is none at = mem-map-keep_if _ c providers at

  -- What a single edge waits for are providers of the trait.
  pub edge_concretes-mem :
      (providers : List ProviderDescriptor) (c : ℕ)
      → mem c (edge_concretes r dep providers) ≡ true
      → mem c (map id_of providers) ≡ true
  unfolding edge_concretes
  edge_concretes-mem providers c = chosen (select_provider_for dep providers) refl
    where
      chosen :
          (o : Option ProviderDescriptor)
          → select_provider_for dep providers ≡ o
          → mem c (edge_choice r o dep providers) ≡ true
          → mem c (map id_of providers) ≡ true
      chosen none is at = local_edge-mem providers c at
      chosen (some p) is at = elim (Bool-cases (has_key (id_of p) r.transients)) [
        | inl transient ↦
            one-of p c providers (select-Among dep providers p is) (rw transient at at)
        | inr stored ↦ local_edge-mem providers c (rw stored at at)
      ]

pub group-mem :
    (t c : ℕ) (groups : List (ℕ × List ProviderDescriptor)) (providers : List ProviderDescriptor)
    → get t groups ≡ some providers
    → mem c (map id_of providers) ≡ true
    → mem c (provider_concretes groups) ≡ true
group-mem t c [] providers found at = cc
group-mem t c ((k, others) ∷ groups) providers found at = elim (Bool-cases (k == t)) [
  | inl same ↦
      let it : some others ≡ some providers = rw same at found in
      let eq : providers ≡ others = cc in
      let there_is = subst (λ (ps : List ProviderDescriptor). mem c (map id_of ps) ≡ true) eq at in
      ground (arith, mem-append c (map id_of others) (provider_concretes groups), there_is)
  | inr other ↦
      let later = group-mem t c groups providers (rw other at found) at in
      ground (arith, mem-append c (map id_of others) (provider_concretes groups), later)
]
