-- ===== src/Di/Waits/Needs.antt =====
-- What must be built before a provider, a trait, a transient component or a dependency, for
-- `WaitExpansion` of crates/di/src/container.rs, without its memos.
use overseerd.Base.{
  ℕ, ◌≡◌, refl, subst, ◌⊎◌, inl, inr, ◌<◌, true, false, none, some, List, mem, get, Among,
}
use overseerd.Di.Descriptors.{ProviderDescriptor}
use overseerd.Di.Construction.{DependencyDescriptor, ComponentDescriptor, is_one, orders}
use overseerd.Di.Waits.{Recipes, concretes, edge_concretes}

pub data Node : Type 0 where
  provider trait : ℕ → Node
  recipe : ComponentDescriptor → Node
  edge : DependencyDescriptor → Node

-- The node needs the component, which is built in this scope.
pub data Needs (r : Recipes) : Node → ℕ → Type 0 where
  built_here : {c : ℕ} → mem c r.sortable ≡ true → Needs r (provider c) c
  by_recipe :
      {c s : ℕ} {d : ComponentDescriptor}
      → mem c r.sortable ≡ false
      → get c r.transients ≡ some d
      → Needs r (recipe d) s
      → Needs r (provider c) s
  by_member :
      {t c s : ℕ}
      → Among c (concretes (get t r.providers_by_trait))
      → Needs r (provider c) s
      → Needs r (trait t) s
  by_edge :
      {d : ComponentDescriptor} {dep : DependencyDescriptor} {s : ℕ}
      → Among dep d.dependencies
      → orders dep ≡ true
      → Needs r (edge dep) s
      → Needs r (recipe d) s
  on_built :
      {dep : DependencyDescriptor} {s : ℕ}
      → mem dep.ty.type_id r.sortable ≡ true
      → dep.ty.type_id ≡ s
      → Needs r (edge dep) s
  on_provider :
      {dep : DependencyDescriptor} {providers : List ProviderDescriptor} {c s : ℕ}
      → mem dep.ty.type_id r.sortable ≡ false
      → get dep.ty.type_id r.providers_by_trait ≡ some providers
      → is_one dep.cardinality ≡ true
      → Among c (edge_concretes r dep providers)
      → Needs r (provider c) s
      → Needs r (edge dep) s
  on_trait :
      {dep : DependencyDescriptor} {providers : List ProviderDescriptor} {s : ℕ}
      → mem dep.ty.type_id r.sortable ≡ false
      → get dep.ty.type_id r.providers_by_trait ≡ some providers
      → is_one dep.cardinality ≡ false
      → Needs r (trait dep.ty.type_id) s
      → Needs r (edge dep) s
  on_recipe :
      {dep : DependencyDescriptor} {d : ComponentDescriptor} {s : ℕ}
      → mem dep.ty.type_id r.sortable ≡ false
      → get dep.ty.type_id r.providers_by_trait ≡ none
      → get dep.ty.type_id r.transients ≡ some d
      → Needs r (recipe d) s
      → Needs r (edge dep) s

-- A component that is built where it is injected
abbrev pub IsRecipe : Recipes → ℕ → Type 0
IsRecipe r c =
    (mem c r.sortable ≡ false) × ((d : ComponentDescriptor) × (get c r.transients ≡ some d))

-- A dependency leads to a transient component or to a trait, all of whose providers are built.
pub data Leads (r : Recipes) : DependencyDescriptor → ℕ → Type 0 where
  to_provider :
      {dep : DependencyDescriptor} {providers : List ProviderDescriptor} {c : ℕ}
      → mem dep.ty.type_id r.sortable ≡ false
      → get dep.ty.type_id r.providers_by_trait ≡ some providers
      → is_one dep.cardinality ≡ true
      → Among c (edge_concretes r dep providers)
      → IsRecipe r c
      → Leads r dep c
  to_trait :
      {dep : DependencyDescriptor} {providers : List ProviderDescriptor}
      → mem dep.ty.type_id r.sortable ≡ false
      → get dep.ty.type_id r.providers_by_trait ≡ some providers
      → is_one dep.cardinality ≡ false
      → Leads r dep dep.ty.type_id
  to_recipe :
      {dep : DependencyDescriptor}
      → get dep.ty.type_id r.providers_by_trait ≡ none
      → IsRecipe r dep.ty.type_id
      → Leads r dep dep.ty.type_id

-- Building the transient component, or the trait's providers, builds those of the other.
pub data Builds (r : Recipes) : ℕ → ℕ → Type 0 where
  of_trait :
      {t c : ℕ} → Among c (concretes (get t r.providers_by_trait)) → IsRecipe r c → Builds r t c
  of_edge :
      {a b : ℕ} {d : ComponentDescriptor} {dep : DependencyDescriptor}
      → get a r.transients ≡ some d
      → Among dep d.dependencies
      → orders dep ≡ true
      → Leads r dep b
      → Builds r a b

-- The transient components are kept by their types.
abbrev pub IsByType : Recipes → Type 0
IsByType r = (c : ℕ) (d : ComponentDescriptor) → get c r.transients ≡ some d → d.ty.type_id ≡ c

-- No transient component is built for itself: the ranks fall along what is built.
abbrev pub IsAcyclic : Recipes → (ℕ → ℕ) → Type 0
IsAcyclic r rank = (a b : ℕ) → Builds r a b → rank b < rank a

module _ (r : Recipes) where
  pub provider_needs :
      (c s : ℕ)
      → Needs r (provider c) s
      → ((mem c r.sortable ≡ true) × (c ≡ s))
        ⊎ ((d : ComponentDescriptor) × (mem c r.sortable ≡ false)
            × (get c r.transients ≡ some d)
            × Needs r (recipe d) s)
  provider_needs c s (built_here here_) = inl (here_, refl)
  provider_needs c s (by_recipe {d = d} away found needs) = inr (d, away, found, needs)

  pub trait_needs :
      (t s : ℕ)
      → Needs r (trait t) s
      → (c : ℕ) × Among c (concretes (get t r.providers_by_trait)) × Needs r (provider c) s
  trait_needs t s (by_member {c = c} at needs) = (c, at, needs)

  pub recipe_needs :
      (d : ComponentDescriptor) (s : ℕ)
      → Needs r (recipe d) s
      → (dep : DependencyDescriptor) × Among dep d.dependencies
        × (orders dep ≡ true)
        × Needs r (edge dep) s
  recipe_needs d s (by_edge {dep = dep} at ordering needs) = (dep, at, ordering, needs)

  module _ (dep : DependencyDescriptor) (s : ℕ) where
    pub built_needs :
        mem dep.ty.type_id r.sortable ≡ true → Needs r (edge dep) s → dep.ty.type_id ≡ s
    built_needs built (on_built also same) = same
    built_needs built (on_provider away found single at needs) = absurd (cc)
    built_needs built (on_trait away found several needs) = absurd (cc)
    built_needs built (on_recipe away missing found needs) = absurd (cc)

    pub single_needs :
        (providers : List ProviderDescriptor)
        → mem dep.ty.type_id r.sortable ≡ false
        → get dep.ty.type_id r.providers_by_trait ≡ some providers
        → is_one dep.cardinality ≡ true
        → Needs r (edge dep) s
        → (c : ℕ) × Among c (edge_concretes r dep providers) × Needs r (provider c) s
    single_needs providers away found single (on_built also same) = absurd (cc)
    single_needs providers away found single
          (on_provider {providers = others} {c = c} away' found' also at needs) =
        (c, subst (λ providers. Among c (edge_concretes r dep providers)) (cc) at, needs)
    single_needs providers away found single (on_trait away' found' several needs) = absurd (cc)
    single_needs providers away found single (on_recipe away' missing found' needs) = absurd (cc)

    pub several_needs :
        (providers : List ProviderDescriptor)
        → mem dep.ty.type_id r.sortable ≡ false
        → get dep.ty.type_id r.providers_by_trait ≡ some providers
        → is_one dep.cardinality ≡ false
        → Needs r (edge dep) s
        → Needs r (trait dep.ty.type_id) s
    several_needs providers away found several (on_built also same) = absurd (cc)
    several_needs providers away found several (on_provider away' found' single at needs) =
        absurd (cc)
    several_needs providers away found several (on_trait away' found' also needs) = needs
    several_needs providers away found several (on_recipe away' missing found' needs) = absurd (cc)

    pub transient_needs :
        mem dep.ty.type_id r.sortable ≡ false
        → get dep.ty.type_id r.providers_by_trait ≡ none
        → Needs r (edge dep) s
        → (d : ComponentDescriptor) × (get dep.ty.type_id r.transients ≡ some d)
          × Needs r (recipe d) s
    transient_needs away missing (on_built also same) = absurd (cc)
    transient_needs away missing (on_provider away' found single at needs) = absurd (cc)
    transient_needs away missing (on_trait away' found several needs) = absurd (cc)
    transient_needs away missing (on_recipe {d = d} away' also found needs) = (d, found, needs)
