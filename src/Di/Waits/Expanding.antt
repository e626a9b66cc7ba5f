-- ===== src/Di/Waits/Expanding.antt =====
-- The methods of `WaitExpansion`, crates/di/src/container.rs, on the transient components that they go
-- through, where none is built for itself.
use overseerd.Base.{
  ℕ, ◌<◌, ◌≡◌, refl, sym, subst, inl, inr, true, false, Bool-cases, some, Option-cases, List, ◌∷◌,
  mem, get, Among, arith,
}
use overseerd.Di.Descriptors.{ProviderDescriptor}
use overseerd.Di.Construction.{
  DependencyDescriptor, ComponentDescriptor, Cardinality, one, collection, keyed, is_one, orders,
}
use overseerd.Di.Waits.{
  Recipes, Expansion, Step, extend_all, enter, concretes, edge_concretes, provider_waits,
  remember_trait, trait_waits, single_edge_waits, cardinality_waits, edge_waits, ordering_waits,
}
use overseerd.Di.Waits.Needs.{
  provider, trait, recipe, edge, Needs, by_member, on_built, on_provider, on_trait, on_recipe,
  IsRecipe, Leads, to_provider, to_trait, to_recipe, of_trait, IsAcyclic, trait_needs, built_needs,
  single_needs, several_needs, transient_needs,
}
use overseerd.Di.Waits.Visiting.{unvisited, unvisited-enter-le, IsFree, free-absent, IsFree-lower}
use overseerd.Di.Waits.Exact.{
  All-get, IsRemembered, Gives, Gives-iff, Gives-and_then, Gives-none, Gives-one, extend_all-Gives,
}
use overseerd.Di.Waits.Providers.{remember_trait-Gives, Expands, provider_waits-Gives}

module _ (r : Recipes) (rank : ℕ → ℕ) (fuel : ℕ) (expand : ComponentDescriptor → Expansion → Step)
    (expands : Expands r rank fuel expand) where
  all_providers-Gives :
      (visiting cs : List ℕ) (e : Expansion)
      → IsRemembered r rank e
      → e.visiting ≡ visiting
      → unvisited r visiting < fuel
      → (IsAcyclic r rank → (c : ℕ) → Among c cs → IsRecipe r c → IsFree rank visiting c)
      → Gives r rank
          (λ s. (c : ℕ) × Among c cs × Needs r (provider c) s)
          visiting
          (extend_all (provider_waits r expand) cs e)
  all_providers-Gives visiting cs e known same enough free =
      extend_all-Gives r rank (λ c s. Needs r (provider c) s) (provider_waits r expand) visiting cs
        (λ c e1 at known1 same1.
          subst (λ v. Gives r rank (Needs r (provider c)) v (provider_waits r expand c e1)) same1
            (provider_waits-Gives r rank fuel expand expands c e1 known1
              (subst (λ v. unvisited r v < fuel) (sym same1) enough)
              (λ acyclic is. subst (λ v. IsFree rank v c) (sym same1) (free acyclic c at is))))
        e known same

  pub trait_waits-Gives :
      (t : ℕ) (e : Expansion)
      → IsRemembered r rank e
      → unvisited r e.visiting < fuel
      → (IsAcyclic r rank → IsFree rank e.visiting t)
      → Gives r rank (Needs r (trait t)) e.visiting (trait_waits r expand t e)
  unfolding trait_waits
  trait_waits-Gives t e known enough free = elim (Option-cases (get t e.trait_memo)) [
    | inr (done, found) ↦ rw found (record {
      waits = done;
      after = e;
      given = refl;
      exact = All-get _ t done e.trait_memo known.traits found;
      kept = refl;
      remembered = known;
    })
    | inl new ↦ elim (Bool-cases (mem t e.visiting)) [
      | inl busy ↦
          rw (new, busy)
            (Gives-none r rank e
              (λ acyclic s needs. let free_ = free-absent rank t e.visiting (free acyclic) in cc)
              known)
      | inr absent ↦
          let all = concretes (get t r.providers_by_trait) in
          rw (new, absent)
            (Gives-and_then r rank (extend_all (provider_waits r expand) all (enter t e))
              (remember_trait t)
              (Gives-iff r rank (λ s. (λ (c, at, needs). by_member at needs, trait_needs r t s))
                (all_providers-Gives (t ∷ e.visiting) all (enter t e)
                  (record { providers = known.providers; traits = known.traits }) refl
                  (omega (arith, enough, unvisited-enter-le r t e.visiting))
                  (λ acyclic c at is.
                    IsFree-lower rank t c e.visiting (acyclic t c (of_trait at is))
                      (free acyclic))))
              (λ waits e1 exact. remember_trait-Gives r rank t waits e1 e.visiting absent exact))
    ]
  ]

  cardinality_waits-Gives :
      (dep : DependencyDescriptor) (providers : List ProviderDescriptor) (e : Expansion)
      (cardinality : Cardinality)
      → dep.cardinality ≡ cardinality
      → mem dep.ty.type_id r.sortable ≡ false
      → get dep.ty.type_id r.providers_by_trait ≡ some providers
      → IsRemembered r rank e
      → unvisited r e.visiting < fuel
      → (IsAcyclic r rank → (b : ℕ) → Leads r dep b → IsFree rank e.visiting b)
      → Gives r rank
          (Needs r (edge dep))
          e.visiting
          (cardinality_waits r expand cardinality dep providers e)
  unfolding single_edge_waits
  cardinality_waits-Gives dep providers e one is away found known enough free =
      let single : is_one dep.cardinality ≡ true = rw is refl in
      Gives-iff r rank
        (λ s. (
          λ (c, at, needs). on_provider away found single at needs,
          single_needs r dep s providers away found single,
        ))
        (all_providers-Gives e.visiting (edge_concretes r dep providers) e known refl enough
          (λ acyclic c at recipe_. free acyclic c (to_provider away found single at recipe_)))
  cardinality_waits-Gives dep providers e collection is away found known enough free =
      let several : is_one dep.cardinality ≡ false = rw is refl in
      Gives-iff r rank
        (λ s. (on_trait away found several, several_needs r dep s providers away found several))
        (trait_waits-Gives dep.ty.type_id e known enough
          (λ acyclic. free acyclic dep.ty.type_id (to_trait away found several)))
  cardinality_waits-Gives dep providers e keyed is away found known enough free =
      let several : is_one dep.cardinality ≡ false = rw is refl in
      Gives-iff r rank
        (λ s. (on_trait away found several, several_needs r dep s providers away found several))
        (trait_waits-Gives dep.ty.type_id e known enough
          (λ acyclic. free acyclic dep.ty.type_id (to_trait away found several)))

  -- A dependency's ids, if all that it leads to may still be entered
  edge_waits-Gives :
      (dep : DependencyDescriptor) (e : Expansion)
      → IsRemembered r rank e
      → unvisited r e.visiting < fuel
      → (IsAcyclic r rank → (b : ℕ) → Leads r dep b → IsFree rank e.visiting b)
      → Gives r rank (Needs r (edge dep)) e.visiting (edge_waits r expand dep e)
  unfolding edge_waits
  edge_waits-Gives dep e known enough free = elim (Bool-cases (mem dep.ty.type_id r.sortable)) [
    | inl built ↦ rw built (
        Gives-one r rank dep.ty.type_id e (on_built built refl) (λ s. built_needs r dep s built)
          known)
    | inr away ↦ elim (Option-cases (get dep.ty.type_id r.providers_by_trait)) [
      | inr (providers, found) ↦
          rw (away, found)
            (cardinality_waits-Gives dep providers e dep.cardinality refl away found known enough
              free)
      | inl none_there ↦ elim (Option-cases (get dep.ty.type_id r.transients)) [
        | inl missing ↦
            rw (away, none_there, missing)
              (Gives-none r rank e
                (λ acyclic s needs.
                  let (d, found, more) = transient_needs r dep s away none_there needs in cc)
                known)
        | inr (d, found) ↦
            rw (away, none_there, found)
              (Gives-iff r rank
                (λ s. (
                  on_recipe away none_there found,
                  λ needs.
                      let (d', found', more) = transient_needs r dep s away none_there needs in
                      subst (λ d. Needs r (recipe d) s) (cc) more,
                ))
                (expands dep.ty.type_id d e found known
                  (λ acyclic. free acyclic dep.ty.type_id (to_recipe none_there (away, (d, found))))
                  enough))
      ]
    ]
  ]

  pub ordering_waits-Gives :
      (dep : DependencyDescriptor) (visiting : List ℕ) (e : Expansion)
      → IsRemembered r rank e
      → e.visiting ≡ visiting
      → unvisited r visiting < fuel
      → (IsAcyclic r rank → orders dep ≡ true → (b : ℕ) → Leads r dep b → IsFree rank visiting b)
      → Gives r rank
          (λ s. (orders dep ≡ true) × Needs r (edge dep) s)
          visiting
          (ordering_waits r expand dep e)
  unfolding ordering_waits
  ordering_waits-Gives dep visiting e known same enough free =
      subst
        (λ v.
          Gives r rank (λ s. (orders dep ≡ true) × Needs r (edge dep) s) v
            (ordering_waits r expand dep e))
        same
        (elim (Bool-cases (orders dep)) [
          | inl ordering ↦ rw ordering (
              Gives-iff r rank (λ s. (λ needs. (refl, needs), λ (is, needs). needs))
                (edge_waits-Gives dep e known (subst (λ v. unvisited r v < fuel) (sym same) enough)
                  (λ acyclic b leads.
                    subst (λ v. IsFree rank v b) (sym same) (free acyclic ordering b leads))))
          | inr loose ↦ rw loose (Gives-none r rank e (λ acyclic s (is, needs). cc) known)
        ])
