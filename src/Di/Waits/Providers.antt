-- ===== src/Di/Waits/Providers.antt =====
-- `WaitExpansion::provider_waits` of crates/di/src/container.rs, and what is remembered.
use overseerd.Base.{
  ℕ, ◌<◌, ◌≡◌, refl, subst, inl, inr, false, Bool-cases, some, Option-cases, List, ◌∷◌, mem, get,
}
use overseerd.Di.Construction.{ComponentDescriptor}
use overseerd.Di.Waits.{
  Recipes, Expansion, Step, leave, new_provider_waits, remember_provider, provider_waits,
  remember_trait,
}
use overseerd.Di.Waits.Needs.{
  provider, trait, recipe, Needs, built_here, by_recipe, IsRecipe, IsAcyclic, provider_needs,
}
use overseerd.Di.Waits.Visiting.{unvisited, IsFree}
use overseerd.Di.Waits.Exact.{
  IsExact, All-get, left, IsRemembered, Gives, Gives-iff, Gives-and_then, Gives-none, Gives-one,
}

module _ (r : Recipes) (rank : ℕ → ℕ) where
  -- What is found out of a provider or a trait is remembered.
  remember_provider-Gives :
      (c : ℕ) (waits : List ℕ) (e : Expansion) (visiting : List ℕ)
      → IsExact r rank (Needs r (provider c)) waits
      → e.visiting ≡ visiting
      → IsRemembered r rank e
      → Gives r rank (Needs r (provider c)) visiting (remember_provider c waits e)
  remember_provider-Gives c waits e visiting exact kept known = record {
    waits = waits;
    after = record e { provider_memo = (c, waits) ∷ e.provider_memo };
    given = refl;
    exact = exact;
    kept = kept;
    remembered = record { providers = (exact, known.providers); traits = known.traits };
  }

  pub remember_trait-Gives :
      (t : ℕ) (waits : List ℕ) (e : Expansion) (visiting : List ℕ)
      → mem t visiting ≡ false
      → IsExact r rank (Needs r (trait t)) waits
      → e.visiting ≡ t ∷ visiting
      → IsRemembered r rank e
      → Gives r rank (Needs r (trait t)) visiting (remember_trait t waits e)
  remember_trait-Gives t waits e visiting new exact kept known = record {
    waits = waits;
    after = record (leave t e) { trait_memo = (t, waits) ∷ e.trait_memo };
    given = refl;
    exact = exact;
    kept = left t e visiting new kept;
    remembered = record { providers = known.providers; traits = (exact, known.traits) };
  }

  -- An expansion that is right for the transient components for which the fuel lasts
  abbrev pub Expands : ℕ → (ComponentDescriptor → Expansion → Step) → Type 0
  Expands fuel expand =
      (a : ℕ) (d : ComponentDescriptor) (e : Expansion)
      → get a r.transients ≡ some d
      → IsRemembered r rank e
      → (IsAcyclic r rank → IsFree rank e.visiting a)
      → unvisited r e.visiting < fuel
      → Gives r rank (Needs r (recipe d)) e.visiting (expand d e)

  module _ (fuel : ℕ) (expand : ComponentDescriptor → Expansion → Step)
      (expands : Expands fuel expand) where
    new_provider_waits-Gives :
        (c : ℕ) (e : Expansion)
        → IsRemembered r rank e
        → unvisited r e.visiting < fuel
        → (IsAcyclic r rank → IsRecipe r c → IsFree rank e.visiting c)
        → Gives r rank (Needs r (provider c)) e.visiting (new_provider_waits r expand c e)
    unfolding new_provider_waits
    new_provider_waits-Gives c e known enough free = elim (Bool-cases (mem c r.sortable)) [
      | inl built ↦ rw built (
          Gives-one r rank c e (built_here built)
            (λ s needs. elim (provider_needs r c s needs) [
              | inl (also, same) ↦ same
              | inr (d, away, found, more) ↦ absurd (cc)
            ])
            known)
      | inr away ↦ elim (Option-cases (get c r.transients)) [
        | inl missing ↦
            rw (away, missing)
              (Gives-none r rank e
                (λ acyclic s needs. elim (provider_needs r c s needs) [
                  | inl (built, same) ↦ cc
                  | inr (d, also, found, more) ↦ cc
                ])
                known)
        | inr (d, found) ↦
            rw (away, found)
              (Gives-iff r rank
                (λ s. (
                  by_recipe away found,
                  λ needs. elim (provider_needs r c s needs) [
                    | inl (built, same) ↦ absurd (cc)
                    | inr (d', also, found', more) ↦ subst (λ d. Needs r (recipe d) s) (cc) more
                  ],
                ))
                (expands c d e found known (λ acyclic. free acyclic (away, (d, found))) enough))
      ]
    ]

    pub provider_waits-Gives :
        (c : ℕ) (e : Expansion)
        → IsRemembered r rank e
        → unvisited r e.visiting < fuel
        → (IsAcyclic r rank → IsRecipe r c → IsFree rank e.visiting c)
        → Gives r rank (Needs r (provider c)) e.visiting (provider_waits r expand c e)
    unfolding provider_waits
    provider_waits-Gives c e known enough free = elim (Option-cases (get c e.provider_memo)) [
      | inl new ↦ rw new (
          Gives-and_then r rank (new_provider_waits r expand c e) (remember_provider c)
            (new_provider_waits-Gives c e known enough free)
            (λ waits e1 exact. remember_provider-Gives c waits e1 e.visiting exact))
      | inr (done, found) ↦ rw found (record {
        waits = done;
        after = e;
        given = refl;
        exact = All-get _ c done e.provider_memo known.providers found;
        kept = refl;
        remembered = known;
      })
    ]
