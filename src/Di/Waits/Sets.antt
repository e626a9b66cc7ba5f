-- ===== src/Di/Waits/Sets.antt =====
-- The wait sets that `topological_sort` of crates/di/src/container.rs sorts by.
use overseerd.Base.{
  inl, inr, All-map, Bool-cases, ℕ, zero, suc, ◌<◌, ◌≡◌, refl, ◌∙◌, sym, ap, subst, true, ◌||◌,
  Option, some, List, [], ◌∷◌, length, mem, get, has_key, All, arith,
}
use overseerd.Di.Construction.{ComponentDescriptor, SortContext, orders}
use overseerd.Di.Waits.{
  Recipes, Expansion, Step, enter, leave, ordering_waits, expand_transient, provider_waits,
  trait_waits,
}
use overseerd.Di.Sorting.{
  insert_waits, insert_all, provider_concretes, trait_ids, with_trait_waits, with_provider_waits,
  sort_context,
}
use overseerd.Di.Waits.Needs.{
  Node, provider, trait, recipe, edge, Needs, by_edge, of_edge, IsAcyclic, IsByType, recipe_needs,
}
use overseerd.Di.Waits.Visiting.{
  keys_of, unvisited, unvisited-le, unvisited-enter-lt, IsFree, free-absent, IsFree-lower,
}
use overseerd.Di.Waits.Exact.{
  IsExact, left, IsRemembered, Gives, Gives-none, Gives-and_then, extend_all-Gives,
}
use overseerd.Di.Waits.Providers.{Expands, provider_waits-Gives}
use overseerd.Di.Waits.Expanding.{ordering_waits-Gives, trait_waits-Gives}

module _ (r : Recipes) (rank : ℕ → ℕ) (by_type : IsByType r) where
  expand_transient-Gives :
      (fuel : ℕ) (d : ComponentDescriptor) (e : Expansion)
      → Expands r rank fuel (expand_transient r fuel)
      → get d.ty.type_id r.transients ≡ some d
      → IsRemembered r rank e
      → (IsAcyclic r rank → IsFree rank e.visiting d.ty.type_id)
      → unvisited r e.visiting < suc fuel
      → Gives r rank (Needs r (recipe d)) e.visiting (expand_transient r (suc fuel) d e)
  unfolding expand_transient
  expand_transient-Gives fuel d e expands found known free enough =
      elim (Bool-cases (mem d.ty.type_id e.visiting)) [
        | inl busy ↦ rw busy (
            Gives-none r rank e
              (λ acyclic s needs.
                let free_ = free-absent rank d.ty.type_id e.visiting (free acyclic) in cc)
              known)
        | inr absent ↦ rw absent (
            Gives-and_then r rank _ _
              (extend_all-Gives r rank (λ dep s. (orders dep ≡ true) × Needs r (edge dep) s)
                (ordering_waits r (expand_transient r fuel)) (d.ty.type_id ∷ e.visiting)
                d.dependencies
                (λ dep e1 at known1 same.
                  ordering_waits-Gives r rank fuel (expand_transient r fuel) expands dep
                    (d.ty.type_id ∷ e.visiting) e1 known1 same
                    (omega
                      (arith, enough, unvisited-enter-lt r d.ty.type_id e.visiting found absent))
                    (λ acyclic ordering b leads.
                      IsFree-lower rank d.ty.type_id b e.visiting
                        (acyclic d.ty.type_id b (of_edge found at ordering leads)) (free acyclic)))
                (enter d.ty.type_id e)
                (record { providers = known.providers; traits = known.traits }) refl)
              (λ waits e1 exact kept known1. record {
                waits = waits;
                after = leave d.ty.type_id e1;
                given = refl;
                exact = λ s. (
                  λ at.
                      let (dep, among, (ordering, needs)) = (exact s).0 at in
                      by_edge among ordering needs,
                  λ acyclic all.
                      let (dep, among, ordering, needs) = recipe_needs r d s all in
                      (exact s).1 acyclic (dep, among, (ordering, needs)),
                );
                kept = left d.ty.type_id e1 e.visiting absent kept;
                remembered = record { providers = known1.providers; traits = known1.traits };
              }))
      ]

  expand_transient-Expands : (fuel : ℕ) → Expands r rank fuel (expand_transient r fuel)
  expand_transient-Expands zero a d e found known free enough = absurd (omega (arith, enough))
  expand_transient-Expands (suc fuel) a d e found known free enough =
      let id : a ≡ d.ty.type_id = sym (by_type a d found) in
      expand_transient-Gives fuel d e (expand_transient-Expands fuel)
        (subst (λ a. get a r.transients ≡ some d) id found) known
        (λ acyclic. subst (IsFree rank e.visiting) id (free acyclic)) enough

  -- The sets that are found for the ids, with those that were there
  record IsInserted (N : ℕ → Node) (ids : List ℕ) (sets : List (ℕ × List ℕ))
      (result : Option (List (ℕ × List ℕ) × Expansion)) : Type 0 where
    all : List (ℕ × List ℕ)
    after : Expansion
    given : result ≡ some (all, after)
    exact : All (λ (entry : ℕ × List ℕ). IsExact r rank (Needs r (N entry.0)) entry.1) all
    there_is : (id : ℕ) → (mem id ids || has_key id sets) ≡ true → has_key id all ≡ true
    idle : after.visiting ≡ []
    remembered : IsRemembered r rank after

  module _ (N : ℕ → Node) (ask : ℕ → Expansion → Step)
      (good : (id : ℕ) (e : Expansion)
        → IsRemembered r rank e
        → e.visiting ≡ []
        → Gives r rank (Needs r (N id)) [] (ask id e)) where
    insert_all-IsInserted :
        (ids : List ℕ) (sets : List (ℕ × List ℕ)) (e : Expansion)
        → All (λ (entry : ℕ × List ℕ). IsExact r rank (Needs r (N entry.0)) entry.1) sets
        → IsRemembered r rank e
        → e.visiting ≡ []
        → IsInserted N ids sets (insert_all ask ids sets e)
    unfolding insert_all
    insert_all-IsInserted [] sets e exact known idle = record {
      all = sets;
      after = e;
      given = refl;
      exact = exact;
      there_is = λ id at. at;
      idle = idle;
      remembered = known;
    }
    insert_all-IsInserted (id ∷ ids) sets e exact known idle =
        let g = good id e known idle in
        let rest =
          insert_all-IsInserted ids ((id, g.waits) ∷ sets) g.after (g.exact, exact) g.remembered
            g.kept in
        record {
          all = rest.all;
          after = rest.after;
          given = ap (λ step. insert_waits id sets step (insert_all ask ids)) g.given ∙ rest.given;
          exact = rest.exact;
          there_is = λ other at. rest.there_is other (ground (arith, at));
          idle = rest.idle;
          remembered = rest.remembered;
        }

  asks_provider :
      (id : ℕ) (e : Expansion)
      → IsRemembered r rank e
      → e.visiting ≡ []
      → Gives r rank
          (Needs r (provider id))
          []
          (provider_waits r (expand_transient r (suc (length r.transients))) id e)
  asks_provider id e known idle =
      subst
        (λ v.
          Gives r rank (Needs r (provider id)) v
            (provider_waits r (expand_transient r (suc (length r.transients))) id e))
        idle
        (provider_waits-Gives r rank (suc (length r.transients))
          (expand_transient r (suc (length r.transients)))
          (expand_transient-Expands (suc (length r.transients))) id e known
          (omega (arith, unvisited-le r e.visiting))
          (λ acyclic is. subst (λ v. IsFree rank v id) (sym idle) tt))

  asks_trait :
      (id : ℕ) (e : Expansion)
      → IsRemembered r rank e
      → e.visiting ≡ []
      → Gives r rank
          (Needs r (trait id))
          []
          (trait_waits r (expand_transient r (suc (length r.transients))) id e)
  asks_trait id e known idle =
      subst
        (λ v.
          Gives r rank (Needs r (trait id)) v
            (trait_waits r (expand_transient r (suc (length r.transients))) id e))
        idle
        (trait_waits-Gives r rank (suc (length r.transients))
          (expand_transient r (suc (length r.transients)))
          (expand_transient-Expands (suc (length r.transients))) id e known
          (omega (arith, unvisited-le r e.visiting))
          (λ acyclic. subst (λ v. IsFree rank v id) (sym idle) tt))

-- The sort's wait sets: one for each provider and for each trait, right for what it needs
pub record HasWaits (r : Recipes) (IsRight : (ℕ → Type 0) → List ℕ → Type 0) (cx : SortContext)
    : Type 0 where
  pub traits : cx.providers_by_trait ≡ r.providers_by_trait
  pub sortable : cx.sortable ≡ r.sortable
  pub transients : cx.transients ≡ keys_of r.transients
  pub provider_sets :
      All (λ (entry : ℕ × List ℕ). IsRight (Needs r (provider entry.0)) entry.1) cx.provider_waits
  pub every_provider :
      (id : ℕ)
      → mem id (provider_concretes r.providers_by_trait) ≡ true
      → has_key id cx.provider_waits ≡ true
  pub trait_sets :
      All (λ (entry : ℕ × List ℕ). IsRight (Needs r (trait entry.0)) entry.1) cx.trait_waits
  pub every_trait :
      (id : ℕ) → mem id (trait_ids r.providers_by_trait) ≡ true → has_key id cx.trait_waits ≡ true

pub HasWaits-map :
    {P Q : (ℕ → Type 0) → List ℕ → Type 0} (r : Recipes) (cx : SortContext)
    → ((N : ℕ → Type 0) (waits : List ℕ) → P N waits → Q N waits)
    → HasWaits r P cx
    → HasWaits r Q cx
HasWaits-map r cx f has = record {
  traits = has.traits;
  sortable = has.sortable;
  transients = has.transients;
  provider_sets = All-map _ _ cx.provider_waits (λ (id, waits). f _ waits) has.provider_sets;
  every_provider = has.every_provider;
  trait_sets = All-map _ _ cx.trait_waits (λ (id, waits). f _ waits) has.trait_sets;
  every_trait = has.every_trait;
}

-- The wait sets are found.
pub sort_context-HasWaits :
    (r : Recipes) (rank : ℕ → ℕ)
    → IsByType r
    → (cx : SortContext) × (sort_context r ≡ some cx) × HasWaits r (IsExact r rank) cx
unfolding sort_context
sort_context-HasWaits r rank by_type =
    let expand = expand_transient r (suc (length r.transients)) in
    let first =
      insert_all-IsInserted r rank by_type provider (provider_waits r expand)
        (asks_provider r rank by_type) (provider_concretes r.providers_by_trait) []
        (record { provider_memo = []; trait_memo = []; visiting = [] }) tt
        (record { providers = tt; traits = tt }) refl in
    let second =
      insert_all-IsInserted r rank by_type trait (trait_waits r expand) (asks_trait r rank by_type)
        (trait_ids r.providers_by_trait) [] first.after tt first.remembered first.idle in
    (
      _,
      ap (with_provider_waits r expand) first.given
          ∙ ap (with_trait_waits r first.all) second.given,
      record {
        traits = refl;
        sortable = refl;
        transients = refl;
        provider_sets = first.exact;
        every_provider = λ id at. first.there_is id (ground (arith, at));
        trait_sets = second.exact;
        every_trait = λ id at. second.there_is id (ground (arith, at));
      },
    )
