-- ===== src/Di/Scopes/Captive.antt =====
-- What `validate_scopes` of crates/di/src/registry.rs rules out.
use overseerd.Base.{
  ℕ, ◌≡◌, sym, subst, ◌≤◌, Bool, true, false, Bool-cases, inl, inr, ◌||◌, Option, none, some, List,
  [], ◌∷◌, distinct, All, Among, here, there, All-Among, for_each-All, Text, ◌==◌, ==_iff,
  if◌then◌else◌, Result, ok, arith,
}
use overseerd.Di.Descriptors.{ProviderDescriptor}
use overseerd.Di.Construction.{DependencyDescriptor}
use overseerd.Di.Scopes.{
  Scope, ScopedComponent, ScopeError, singleton_rank, scope_allows, scope_of, with_scope,
  provider_scopes, dep_scopes, is_fresh, check_scopes, check_edge, check_consumer, validate_scopes,
}
use overseerd.Di.Scopes.Holding.{
  Holds, Supplies, scope_allows_trans, type_ids, scope_of-absent, scope_of-Among, of_type, of_trait,
  holds, through,
}

abbrev Allowed : Scope → Scope × Text → Type 0
Allowed scope (held, name) = scope_allows scope held ≡ true

check_scopes-Allowed :
    (c : ScopedComponent) (scopes : List (Scope × Text))
    → check_scopes c false scopes ≡ ok tt
    → All (Allowed c.scope) scopes
unfolding check_scopes
check_scopes-Allowed c [] done = tt
check_scopes-Allowed c ((held, name) ∷ scopes) done =
    elim (Bool-cases (scope_allows c.scope held)) [
      | inl allowed ↦ (allowed, check_scopes-Allowed c scopes (rw allowed at done))
      | inr refused ↦ let bad = rw refused at done in cc
    ]

with_scope-rest :
    (scope : Scope) (found : Option Scope) (name : Text) (rest : List (Scope × Text))
    → All (Allowed scope) (with_scope found name rest)
    → All (Allowed scope) rest
with_scope-rest scope none name rest all = all
with_scope-rest scope (some held) name rest (first, all) = all

provider_scopes-Allowed :
    (scope : Scope) (components : List ScopedComponent) (trait_id : ℕ)
    (providers : List ProviderDescriptor) (p : ProviderDescriptor) (held : Scope)
    → All (Allowed scope) (provider_scopes components trait_id providers)
    → Among p providers
    → p.trait_ty.type_id ≡ trait_id
    → scope_of p.concrete_ty.type_id components ≡ some held
    → scope_allows scope held ≡ true
unfolding provider_scopes
provider_scopes-Allowed scope components trait_id [] p held all at provides found = elim at [ ]
provider_scopes-Allowed scope components trait_id (p' ∷ providers) p held all here provides found =
    let same = (==_iff p.trait_ty.type_id trait_id).1 provides in
    let (allowed, rest) = rw (provider_scopes, same, found) at all in allowed
provider_scopes-Allowed scope components trait_id (other ∷ providers) p held all (there at) provides
      found =
    provider_scopes-Allowed scope components trait_id providers p held
      (elim (Bool-cases (other.trait_ty.type_id == trait_id)) [
        | inl same ↦
            with_scope-rest scope (scope_of other.concrete_ty.type_id components)
              other.concrete_ty.type_name _ (rw (provider_scopes, same) at all)
        | inr different ↦ rw (provider_scopes, different) at all
      ])
      at provides found

is_checked :
    (dynamic config : Bool) (checked : Result ScopeError (Unit {0}))
    → dynamic ≡ false
    → config ≡ false
    → (if dynamic || config then ok tt else checked) ≡ ok tt
    → checked ≡ ok tt
is_checked dynamic config checked static_ fixed done = rw (static_, fixed) at done

module _ (providers : List ProviderDescriptor) (all : List ScopedComponent)
    (apart : distinct (type_ids all) ≡ true) where
  dep_scopes-Allowed :
      (scope : Scope) (dep : DependencyDescriptor) (d : ScopedComponent)
      → All (Allowed scope) (dep_scopes providers all dep)
      → Among d all
      → Supplies providers all dep d
      → scope_allows scope d.scope ≡ true
  unfolding dep_scopes
  dep_scopes-Allowed scope dep d allowed at (of_type same) =
      let found : scope_of dep.ty.type_id all ≡ some d.scope =
        subst (λ type_id. scope_of type_id all ≡ some d.scope) same
          (scope_of-Among d all apart at) in
      (rw (dep_scopes, found) at allowed).0
  dep_scopes-Allowed scope dep d allowed at (of_trait {p = p} away among provides concrete) =
      let missing = scope_of-absent dep.ty.type_id all away in
      let found : scope_of p.concrete_ty.type_id all ≡ some d.scope =
        subst (λ type_id. scope_of type_id all ≡ some d.scope) (sym concrete)
          (scope_of-Among d all apart at) in
      provider_scopes-Allowed scope all dep.ty.type_id providers p d.scope
        (rw (dep_scopes, missing) at allowed) among provides found

  check_edge-Allowed :
      (c d : ScopedComponent) (dep : DependencyDescriptor)
      → check_edge providers all c dep ≡ ok tt
      → dep.dynamic ≡ false
      → dep.config ≡ false
      → is_fresh dep.resolution ≡ false
      → Among d all
      → Supplies providers all dep d
      → scope_allows c.scope d.scope ≡ true
  unfolding check_edge
  check_edge-Allowed c d dep done static_ fixed kept among supplies =
      let scopes : check_scopes c false (dep_scopes providers all dep) ≡ ok tt =
        subst (λ is_fresh. check_scopes c is_fresh (dep_scopes providers all dep) ≡ ok tt) kept
          (is_checked dep.dynamic dep.config _ static_ fixed done) in
      dep_scopes-Allowed c.scope dep d (check_scopes-Allowed c _ scopes) among supplies

  Holds-allowed :
      (c e : ScopedComponent)
      → validate_scopes providers all ≡ ok tt
      → All (λ (c : ScopedComponent). c.scope.rank ≤ singleton_rank) all
      → Holds providers all c e
      → (c.scope.rank ≤ singleton_rank)
        × (e.scope.rank ≤ singleton_rank)
        × (scope_allows c.scope e.scope ≡ true)
  unfolding validate_scopes check_consumer
  Holds-allowed c d valid bounded (holds {dep = dep} of_c of_d of_dep static_ fixed kept supplies) =
      let consumer = All-Among _ c all (for_each-All _ all valid) of_c in
      let edge = All-Among _ dep c.component.dependencies (for_each-All _ _ consumer) of_dep in
      (
        All-Among _ c all bounded of_c,
        All-Among _ d all bounded of_d,
        check_edge-Allowed c d dep edge static_ fixed kept of_d supplies,
      )
  Holds-allowed c e valid bounded (through {d = d} first rest) =
      let (low, mid, first_allowed) = Holds-allowed c d valid bounded first in
      let (mid', high, rest_allowed) = Holds-allowed d e valid bounded rest in
      (low, high, scope_allows_trans c.scope d.scope e.scope low high first_allowed rest_allowed)

  -- If the scopes are valid, no component's type comes twice and all ranks are of a `u8`, then what
  -- a component holds, also through others, transient ones among them, is transient itself, or is
  -- of its holder's rank at least, and a singleton if the holder is transient.
  pub validate_scopes-Holds :
      (c e : ScopedComponent)
      → validate_scopes providers all ≡ ok tt
      → All (λ (c : ScopedComponent). c.scope.rank ≤ singleton_rank) all
      → Holds providers all c e
      → e.scope.transient ≡ false
      → (c.scope.rank ≤ e.scope.rank) × (c.scope.transient ≡ true → e.scope.rank ≡ singleton_rank)
  unfolding scope_allows
  validate_scopes-Holds c e valid bounded held kept =
      let (low, high, allowed) = Holds-allowed c e valid bounded held in grind arith
