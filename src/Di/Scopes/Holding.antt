-- ===== src/Di/Scopes/Holding.antt =====
-- Components, their scopes and what they hold, for `validate_scopes` of crates/di/src/registry.rs.
use overseerd.Base.{
  ℕ, ◌≡◌, refl, ◌≤◌, true, false, Bool-cases, inl, inr, none, some, List, [], ◌∷◌, mem, distinct,
  Among, here, there, ◌==◌, ==_refl, arith,
}
use overseerd.Di.Descriptors.{ProviderDescriptor}
use overseerd.Di.Construction.{DependencyDescriptor}
use overseerd.Di.Scopes.{Scope, ScopedComponent, singleton_rank, scope_allows, scope_of, is_fresh}

pub scope_allows_trans :
    (a b c : Scope)
    → a.rank ≤ singleton_rank
    → c.rank ≤ singleton_rank
    → scope_allows a b ≡ true
    → scope_allows b c ≡ true
    → scope_allows a c ≡ true
unfolding scope_allows
scope_allows_trans a b c low high ab bc = grind arith

abbrev pub type_ids : List ScopedComponent → List ℕ
type_ids [] = []
type_ids (c ∷ components) = c.component.ty.type_id ∷ type_ids components

mem-Among :
    (d : ScopedComponent) (components : List ScopedComponent)
    → Among d components
    → mem d.component.ty.type_id (type_ids components) ≡ true
mem-Among d (x ∷ components) here = rw (==_refl d.component.ty.type_id) refl
mem-Among d (c ∷ components) (there at) = ground (arith, mem-Among d components at)
mem-Among d [] at = elim at [ ]

pub scope_of-absent :
    (type_id : ℕ) (components : List ScopedComponent)
    → mem type_id (type_ids components) ≡ false
    → scope_of type_id components ≡ none
unfolding scope_of
scope_of-absent type_id [] away = refl
scope_of-absent type_id (c ∷ components) away =
    elim (Bool-cases (c.component.ty.type_id == type_id)) [
      | inl same ↦ let bad = rw same at away in cc
      | inr other ↦ rw (scope_of-absent type_id components (rw other at away), other) refl
    ]

pub scope_of-Among :
    (d : ScopedComponent) (components : List ScopedComponent)
    → distinct (type_ids components) ≡ true
    → Among d components
    → scope_of d.component.ty.type_id components ≡ some d.scope
unfolding scope_of
scope_of-Among d [] apart at = elim at [ ]
scope_of-Among d (x ∷ components) apart here =
    let away : mem d.component.ty.type_id (type_ids components) ≡ false = ground (arith, apart) in
    rw (scope_of-absent d.component.ty.type_id components away, ==_refl d.component.ty.type_id) refl
scope_of-Among d (c ∷ components) apart (there at) =
    let rest : distinct (type_ids components) ≡ true = ground (arith, apart) in
    rw (scope_of-Among d components rest at) refl

-- `d` may be what `c` gets for the dependency: it is of the dependency's type, or no component is and
-- it provides the trait.
pub data Supplies (providers : List ProviderDescriptor) (components : List ScopedComponent)
    : DependencyDescriptor → ScopedComponent → Type 0 where
  of_type :
      {dep : DependencyDescriptor} {d : ScopedComponent}
      → d.component.ty.type_id ≡ dep.ty.type_id
      → Supplies providers components dep d
  of_trait :
      {dep : DependencyDescriptor} {d : ScopedComponent} {p : ProviderDescriptor}
      → mem dep.ty.type_id (type_ids components) ≡ false
      → Among p providers
      → p.trait_ty.type_id ≡ dep.ty.type_id
      → p.concrete_ty.type_id ≡ d.component.ty.type_id
      → Supplies providers components dep d

-- A component holds what its dependencies give it, a dynamic, configured or fresh one left out, and
-- what that holds.
pub data Holds (providers : List ProviderDescriptor) (components : List ScopedComponent)
    : ScopedComponent → ScopedComponent → Type 0 where
  holds :
      {c d : ScopedComponent} {dep : DependencyDescriptor}
      → Among c components
      → Among d components
      → Among dep c.component.dependencies
      → dep.dynamic ≡ false
      → dep.config ≡ false
      → is_fresh dep.resolution ≡ false
      → Supplies providers components dep d
      → Holds providers components c d
  through :
      {c d e : ScopedComponent}
      → Holds providers components c d
      → Holds providers components d e
      → Holds providers components c e
