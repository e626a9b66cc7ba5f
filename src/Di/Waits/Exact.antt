-- ===== src/Di/Waits/Exact.antt =====
-- What `WaitExpansion` of crates/di/src/container.rs computes, where no transient component is built
-- for itself.
use overseerd.Base.{
  ℕ, ◌≡◌, refl, sym, ◌∙◌, ap, subst, ◌↔◌, inl, inr, true, false, not, Bool-cases, none, some, List,
  [], ◌∷◌, ◌++◌, keep_if, mem, mem-append, get, ◌==◌, ==_iff, ==_refl, All, Among, here, there,
  arith,
}
use overseerd.Di.Waits.{Recipes, Expansion, Step, and_then, extend_all, leave}
use overseerd.Di.Waits.Needs.{IsAcyclic, provider, trait, Needs}
use overseerd.Di.Waits.Visiting.{leave_absent}

-- The ids have the property, and are all that have it, if no transient component is built for itself.
abbrev pub IsExact : Recipes → (ℕ → ℕ) → (ℕ → Type 0) → List ℕ → Type 0
IsExact r rank Q waits =
    (s : ℕ) → (mem s waits ≡ true → Q s) × (IsAcyclic r rank → Q s → mem s waits ≡ true)

pub All-get :
    {V : Type 0} (P : ℕ × V → Type 0) (k : ℕ) (v : V) (m : List (ℕ × V))
    → All P m
    → get k m ≡ some v
    → P (k, v)
All-get P k v [] all found = absurd (let bad : none ≡ some v = found in cc)
All-get P k v ((j, u) ∷ m) (first, rest) found = elim (Bool-cases (j == k)) [
  | inl same ↦
      let value : u ≡ v = let e : some u ≡ some v = rw same at found in cc in
      subst (λ v. P (k, v)) value (subst (λ j. P (j, u)) ((==_iff j k).0 same) first)
  | inr other ↦ All-get P k v m rest (rw other at found)
]

pub left :
    (id : ℕ) (e : Expansion) (visiting : List ℕ)
    → mem id visiting ≡ false
    → e.visiting ≡ id ∷ visiting
    → (leave id e).visiting ≡ visiting
left id e visiting new kept =
    ap (keep_if (λ (other : ℕ). not (other == id))) kept
    ∙ rw (==_refl id) (leave_absent id visiting new)

module _ (r : Recipes) (rank : ℕ → ℕ) where
  -- What is remembered is exact.
  pub record IsRemembered (e : Expansion) : Type 0 where
    pub providers :
        All
          (λ (entry : ℕ × List ℕ). IsExact r rank (Needs r (provider entry.0)) entry.1)
          e.provider_memo
    pub traits :
        All (λ (entry : ℕ × List ℕ). IsExact r rank (Needs r (trait entry.0)) entry.1) e.trait_memo

  -- The step gives the ids with the property, and leaves the same ids under way.
  pub record Gives (Q : ℕ → Type 0) (visiting : List ℕ) (step : Step) : Type 0 where
    pub waits : List ℕ
    pub after : Expansion
    pub given : step ≡ some (waits, after)
    pub exact : IsExact r rank Q waits
    pub kept : after.visiting ≡ visiting
    pub remembered : IsRemembered after

  pub Gives-iff :
      {P Q : ℕ → Type 0} {visiting : List ℕ} {step : Step}
      → ((s : ℕ) → P s ↔ Q s)
      → Gives P visiting step
      → Gives Q visiting step
  Gives-iff same g = record {
    waits = g.waits;
    after = g.after;
    given = g.given;
    exact =
        λ s. (λ at. (same s).0 ((g.exact s).0 at), λ known q. (g.exact s).1 known ((same s).1 q));
    kept = g.kept;
    remembered = g.remembered;
  }

  pub Gives-and_then :
      {P Q : ℕ → Type 0} {visiting visiting' : List ℕ} (first : Step)
      (next : List ℕ → Expansion → Step)
      → Gives P visiting first
      → ((waits : List ℕ) (e : Expansion)
          → IsExact r rank P waits
          → e.visiting ≡ visiting
          → IsRemembered e
          → Gives Q visiting' (next waits e))
      → Gives Q visiting' (and_then first next)
  Gives-and_then {Q = Q} {visiting' = visiting'} first next g follows =
      subst (λ step. Gives Q visiting' (and_then step next)) (sym g.given)
        (follows g.waits g.after g.exact g.kept g.remembered)

  pub Gives-none :
      {Q : ℕ → Type 0} (e : Expansion)
      → (IsAcyclic r rank → (s : ℕ) → Q s → ⊥)
      → IsRemembered e
      → Gives Q e.visiting (some ([], e))
  Gives-none e nothing known = record {
    waits = [];
    after = e;
    given = refl;
    exact = λ s. (λ bad. cc, λ acyclic q. absurd (nothing acyclic s q));
    kept = refl;
    remembered = known;
  }

  pub Gives-one :
      {Q : ℕ → Type 0} (id : ℕ) (e : Expansion)
      → Q id
      → ((s : ℕ) → Q s → id ≡ s)
      → IsRemembered e
      → Gives Q e.visiting (some (id ∷ [], e))
  Gives-one {Q = Q} id e holds only known = record {
    waits = id ∷ [];
    after = e;
    given = refl;
    exact = λ s. (
      λ at. subst Q ((==_iff id s).0 (ground (arith, at))) holds,
      λ acyclic q. rw ((==_iff id s).1 (only s q)) refl,
    );
    kept = refl;
    remembered = known;
  }

  module _ {A : Type 0} (Q : A → ℕ → Type 0) (visit : A → Expansion → Step)
      (visiting : List ℕ) where
    abbrev pub AnyOf : List A → ℕ → Type 0
    AnyOf xs s = (x : A) × Among x xs × Q x s

    extend_all-exact :
        (x : A) (xs : List A) (waits more : List ℕ)
        → IsExact r rank (Q x) waits
        → IsExact r rank (AnyOf xs) more
        → IsExact r rank (AnyOf (x ∷ xs)) (waits ++ more)
    extend_all-exact x xs waits more first rest s = (forward, backward)
      where
        forward : mem s (waits ++ more) ≡ true → AnyOf (x ∷ xs) s
        forward at = elim (Bool-cases (mem s waits)) [
          | inl yes' ↦ (x, here, (first s).0 yes')
          | inr no' ↦
              let (y, among, q) = (rest s).0 (ground (arith, mem-append s waits more, at, no')) in
              (y, there among, q)
        ]

        backward : IsAcyclic r rank → AnyOf (x ∷ xs) s → mem s (waits ++ more) ≡ true
        backward acyclic (y, here, q) =
            let at = (first s).1 acyclic q in ground (arith, mem-append s waits more, at)
        backward acyclic (y, there among, q) =
            let at = (rest s).1 acyclic (y, among, q) in ground (arith, mem-append s waits more, at)

    pub extend_all-Gives :
        (xs : List A)
        → ((x : A) (e : Expansion)
            → Among x xs
            → IsRemembered e
            → e.visiting ≡ visiting
            → Gives (Q x) visiting (visit x e))
        → (e : Expansion) → IsRemembered e
        → e.visiting ≡ visiting
        → Gives (AnyOf xs) visiting (extend_all visit xs e)
    extend_all-Gives [] good e known same =
        subst (λ v. Gives (AnyOf []) v (some ([], e))) same
          (Gives-none e (λ acyclic s (x, at, q). elim at [ ]) known)
    extend_all-Gives (x ∷ xs) good e known same =
        Gives-and_then (visit x e) _ (good x e here known same) λ waits e1 exact kept known1.
          Gives-and_then (extend_all visit xs e1) _
            (extend_all-Gives xs (λ y e at. good y e (there at)) e1 known1 kept)
            λ more e2 exact' kept' known2. record {
              waits = waits ++ more;
              after = e2;
              given = refl;
              exact = extend_all-exact x xs waits more exact exact';
              kept = kept';
              remembered = known2;
            }
