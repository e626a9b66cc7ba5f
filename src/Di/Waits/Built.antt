-- ===== src/Di/Waits/Built.antt =====
-- What is built before a component, `topological_sort` of crates/di/src/container.rs with its wait
-- sets.
use overseerd.Base.{
  ◌↔◌, ℕ, ◌≡◌, refl, ap, ◌∙◌, subst, inl, inr, Bool, true, false, Bool-cases, Option, none, some,
  List, [], ◌∷◌, map, keep_if, mem, get, has_key, Text, ◌==◌, ==_iff, Among, here, there, arith,
}
use overseerd.Di.Descriptors.{ProviderDescriptor}
use overseerd.Di.Construction.{
  DependencyDescriptor, ComponentDescriptor, Cardinality, one, collection, keyed, is_one,
  SortContext, select_provider_for, id_of, all_built, is_none_or_built, waits_over, local_ready,
  one_ready, selected_ready, ready_with, dep_ready, orders, all_ready,
}
use overseerd.Di.Waits.{Recipes, local_choice, local_edge, edge_choice, edge_concretes}
use overseerd.Di.Sorting.{provider_concretes, trait_ids}
use overseerd.Di.Waits.Needs.{provider, trait, Needs}
use overseerd.Di.Waits.Visiting.{keys_of}
use overseerd.Di.Waits.Exact.{All-get}
use overseerd.Di.Waits.Selected.{edge_concretes-mem, group-mem}
use overseerd.Di.Waits.Sets.{HasWaits}

-- The ids are those with the property.
abbrev pub IsJust : (ℕ → Type 0) → List ℕ → Type 0
IsJust Q waits = (s : ℕ) → (mem s waits ≡ true) ↔ Q s

-- The dependency requires the component: it is of the type, and no trait's, or a provider that the
-- dependency gets needs it.
pub data Requires (r : Recipes) (dep : DependencyDescriptor) : ℕ → Type 0 where
  the_type :
      {s : ℕ}
      → get dep.ty.type_id r.providers_by_trait ≡ none
      → is_one dep.cardinality ≡ true
      → dep.ty.type_id ≡ s
      → Requires r dep s
  a_provider :
      {providers : List ProviderDescriptor} {c s : ℕ}
      → get dep.ty.type_id r.providers_by_trait ≡ some providers
      → is_one dep.cardinality ≡ true
      → mem c (edge_concretes r dep providers) ≡ true
      → Needs r (provider c) s
      → Requires r dep s
  every_provider :
      {providers : List ProviderDescriptor} {s : ℕ}
      → get dep.ty.type_id r.providers_by_trait ≡ some providers
      → is_one dep.cardinality ≡ false
      → Needs r (trait dep.ty.type_id) s
      → Requires r dep s

get-of_key :
    {V : Type 0} (k : ℕ) (m : List (ℕ × V)) → has_key k m ≡ true → (v : V) × (get k m ≡ some v)
get-of_key k [] there_is = cc
get-of_key k ((j, v) ∷ m) there_is = elim (Bool-cases (j == k)) [
  | inl same ↦ (v, rw same refl)
  | inr other ↦ rw other (get-of_key k m (rw other at there_is))
]

mem-keys_of : (k : ℕ) (m : List (ℕ × ComponentDescriptor)) → mem k (keys_of m) ≡ has_key k m
mem-keys_of k [] = refl
mem-keys_of k ((j, d) ∷ m) = ground (arith, mem-keys_of k m)

trait-mem :
    (t : ℕ) (groups : List (ℕ × List ProviderDescriptor)) {providers : List ProviderDescriptor}
    → get t groups ≡ some providers
    → mem t (trait_ids groups) ≡ true
trait-mem t [] found = cc
trait-mem t ((k, ps) ∷ groups) {providers = providers} found =
    ground (arith, trait-mem t groups {providers = providers})

module _ (cx : SortContext) (built : ℕ → Bool) where
  built-member :
      (ids : List ℕ) (s : ℕ) → all_built cx built ids ≡ true → mem s ids ≡ true → built s ≡ true
  built-member [] s all at = cc
  built-member (id ∷ ids) s all at = elim (Bool-cases (id == s)) [
    | inl same ↦
        let first : built id ≡ true = ground (arith, all) in
        subst (λ s. built s ≡ true) ((==_iff id s).0 same) first
    | inr other ↦ built-member ids s (ground (arith, all)) (rw other at at)
  ]

  abbrev IsReady : ℕ → Type 0
  IsReady c = is_none_or_built cx built (get c cx.provider_waits) ≡ true

  waits_over-IsReady :
      (providers : List ProviderDescriptor) (c : ℕ)
      → waits_over cx built providers ≡ true
      → mem c (map id_of providers) ≡ true
      → IsReady c
  waits_over-IsReady [] c all at = cc
  waits_over-IsReady (p ∷ providers) c all at = elim (Bool-cases (id_of p == c)) [
    | inl same ↦
        let first : IsReady (id_of p) = ground (arith, all) in
        subst IsReady ((==_iff (id_of p) c).0 same) first
    | inr other ↦ waits_over-IsReady providers c (ground (arith, all)) (rw other at at)
  ]

module _ (r : Recipes) (cx : SortContext) (has : HasWaits r IsJust cx) (built : ℕ → Bool) where
  provider-built :
      (c s : ℕ)
      → IsReady cx built c
      → mem c (provider_concretes r.providers_by_trait) ≡ true
      → Needs r (provider c) s
      → built s ≡ true
  provider-built c s ready at needs =
      let (waits, found) = get-of_key c cx.provider_waits (has.every_provider c at) in
      built-member cx built waits s (rw found at ready)
        ((All-get _ c waits cx.provider_waits has.provider_sets found s).1 needs)

  trait-built :
      (t s : ℕ)
      → is_none_or_built cx built (get t cx.trait_waits) ≡ true
      → mem t (trait_ids r.providers_by_trait) ≡ true
      → Needs r (trait t) s
      → built s ≡ true
  trait-built t s ready at needs =
      let (waits, found) = get-of_key t cx.trait_waits (has.every_trait t at) in
      built-member cx built waits s (rw found at ready)
        ((All-get _ t waits cx.trait_waits has.trait_sets found s).1 needs)

  sole-IsReady : (id c : ℕ) → IsReady cx built id → mem c (id ∷ []) ≡ true → IsReady cx built c
  sole-IsReady id c ready at =
      let same : id ≡ c = ground arith in subst (IsReady cx built) same ready

  local_ready-IsReady :
      (o : Option ProviderDescriptor) (qualifier : Option Text) (local : List ProviderDescriptor)
      (c : ℕ)
      → local_ready cx built o qualifier local ≡ true
      → mem c (local_choice r o qualifier local) ≡ true
      → IsReady cx built c
  local_ready-IsReady (some p) qualifier local c ready at = sole-IsReady (id_of p) c ready at
  local_ready-IsReady none (some qualifier) local c ready at = cc
  local_ready-IsReady none none local c ready at = waits_over-IsReady cx built local c ready at

  module _ (dep : DependencyDescriptor) (providers : List ProviderDescriptor) where
    abbrev local_in : List ℕ → List ProviderDescriptor
    local_in sortable = keep_if (λ (p : ProviderDescriptor). mem (id_of p) sortable) providers

    one_ready-IsReady :
        (c : ℕ)
        → one_ready cx built dep providers ≡ true
        → mem c (local_edge r dep providers) ≡ true
        → IsReady cx built c
    one_ready-IsReady c ready at =
        local_ready-IsReady (select_provider_for dep (local_in r.sortable)) dep.qualifier
          (local_in r.sortable) c
          (subst
            (λ sortable.
              local_ready cx built (select_provider_for dep (local_in sortable)) dep.qualifier
                (local_in sortable)
              ≡ true)
            has.sortable ready)
          at

    is_transient : (id : ℕ) → mem id cx.transients ≡ has_key id r.transients
    is_transient id = ap (mem id) has.transients ∙ mem-keys_of id r.transients

    selected_ready-IsReady :
        (o : Option ProviderDescriptor) (c : ℕ)
        → selected_ready cx built o dep providers ≡ true
        → mem c (edge_choice r o dep providers) ≡ true
        → IsReady cx built c
    selected_ready-IsReady none c ready at = one_ready-IsReady c ready at
    selected_ready-IsReady (some p) c ready at =
        elim (Bool-cases (has_key (id_of p) r.transients)) [
          | inl transient ↦
              sole-IsReady (id_of p) c (rw (is_transient (id_of p), transient) at ready)
                (rw transient at at)
          | inr stored ↦
              one_ready-IsReady c (rw (is_transient (id_of p), stored) at ready) (rw stored at at)
        ]

  ready-built :
      (dep : DependencyDescriptor) (s : ℕ) (cardinality : Cardinality)
      (group : Option (List ProviderDescriptor))
      → dep.cardinality ≡ cardinality
      → get dep.ty.type_id r.providers_by_trait ≡ group
      → ready_with cx built cardinality group dep ≡ true
      → Requires r dep s
      → built s ≡ true
  unfolding edge_concretes
  ready-built dep s one none is group ready (the_type missing single same) =
      subst (λ s. built s ≡ true) same ready
  ready-built dep s one (some providers) is group ready
        (a_provider {providers = ps} {c = c} found single at needs) =
      let same : ps ≡ providers = cc in
      let at' = subst (λ ps. mem c (edge_concretes r dep ps) ≡ true) same at in
      provider-built c s
        (selected_ready-IsReady dep providers (select_provider_for dep providers) c ready at')
        (group-mem dep.ty.type_id c r.providers_by_trait providers group
          (edge_concretes-mem r dep providers c at'))
        needs
  ready-built dep s collection (some providers) is group ready
        (every_provider found several needs) =
      trait-built dep.ty.type_id s ready (trait-mem dep.ty.type_id r.providers_by_trait found) needs
  ready-built dep s keyed (some providers) is group ready (every_provider found several needs) =
      trait-built dep.ty.type_id s ready (trait-mem dep.ty.type_id r.providers_by_trait found) needs
  ready-built dep s one none is group ready (a_provider found single at needs) = cc
  ready-built dep s one none is group ready (every_provider found several needs) = cc
  ready-built dep s one (some providers) is group ready (the_type missing single same) = cc
  ready-built dep s one (some providers) is group ready (every_provider found several needs) =
      let bad = rw is at several in cc
  ready-built dep s collection group is found ready (the_type missing single same) =
      let bad = rw is at single in cc
  ready-built dep s collection group is found ready (a_provider there_is single at needs) =
      let bad = rw is at single in cc
  ready-built dep s keyed group is found ready (the_type missing single same) =
      let bad = rw is at single in cc
  ready-built dep s keyed group is found ready (a_provider there_is single at needs) =
      let bad = rw is at single in cc
  ready-built dep s collection none is group ready (every_provider found several needs) = cc
  ready-built dep s keyed none is group ready (every_provider found several needs) = cc

  pub all_ready-built :
      (deps : List DependencyDescriptor) (dep : DependencyDescriptor) (s : ℕ)
      → all_ready cx built deps ≡ true
      → Among dep deps
      → orders dep ≡ true
      → Requires r dep s
      → built s ≡ true
  unfolding all_ready dep_ready
  all_ready-built [] dep s all at ordering requires = elim at [ ]
  all_ready-built (dep' ∷ deps) dep s all here ordering requires =
      let ready : dep_ready cx built dep ≡ true = ground (arith, all, ordering) in
      ready-built dep s dep.cardinality (get dep.ty.type_id r.providers_by_trait) refl refl
        (subst
          (λ (groups : List (ℕ × List ProviderDescriptor)).
            ready_with cx built dep.cardinality (get dep.ty.type_id groups) dep ≡ true)
          has.traits ready)
        requires
  all_ready-built (other ∷ deps) dep s all (there at) ordering requires =
      all_ready-built deps dep s (ground (arith, all)) at ordering requires
