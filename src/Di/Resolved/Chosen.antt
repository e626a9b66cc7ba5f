-- ===== src/Di/Resolved/Chosen.antt =====
-- The list of the descriptors that are kept, `resolved_components` of crates/di/src/registry.rs.
use overseerd.Base.{
  ℕ, ◌≡◌, refl, ap, sym, subst, true, false, Bool-cases, inl, inr, ◌||◌, none, some, List, [], ◌∷◌,
  ◌++◌, map, mem, distinct, ◌==◌, ==_iff, ==_refl, arith,
}
use overseerd.Di.Scopes.Holding.{type_ids}
use overseerd.Di.Resolved.{Registered, scoped, chosen_of, replace_chosen}

abbrev pub types : List Registered → List ℕ
types chosen = type_ids (map scoped chosen)

pub mem_of_chosen :
    (type_id : ℕ) (chosen : List Registered)
    → chosen_of type_id chosen ≡ none
    → mem type_id (types chosen) ≡ false
unfolding chosen_of
mem_of_chosen type_id [] missing = refl
mem_of_chosen type_id (c ∷ chosen) missing = elim (Bool-cases (c.ty.type_id == type_id)) [
  | inl same ↦ let bad = rw same at missing in cc
  | inr other ↦ rw other (mem_of_chosen type_id chosen (rw other at missing))
]

mem_pushed :
    (type_id : ℕ) (c : Registered) (chosen : List Registered)
    → mem type_id (types (chosen ++ c ∷ []))
      ≡ (mem type_id (types chosen) || (c.ty.type_id == type_id))
mem_pushed type_id c [] = ground arith
mem_pushed type_id c (d ∷ chosen) = ground (arith, mem_pushed type_id c chosen)

pub distinct_pushed :
    (c : Registered) (chosen : List Registered)
    → distinct (types chosen) ≡ true
    → mem c.ty.type_id (types chosen) ≡ false
    → distinct (types (chosen ++ c ∷ [])) ≡ true
distinct_pushed c [] apart away = refl
distinct_pushed c (d ∷ chosen) apart away =
    ground (arith, distinct_pushed c chosen, mem_pushed d.ty.type_id c chosen)

pub types-replace_chosen :
    (c : Registered) (chosen : List Registered) → types (replace_chosen c chosen) ≡ types chosen
unfolding replace_chosen
types-replace_chosen c [] = refl
types-replace_chosen c (d ∷ chosen) = elim (Bool-cases (d.ty.type_id == c.ty.type_id)) [
  | inl same ↦
      rw same
        (ap (λ type_id. type_id ∷ types chosen) (sym ((==_iff d.ty.type_id c.ty.type_id).0 same)))
  | inr other ↦ rw other (ap (λ rest. d.ty.type_id ∷ rest) (types-replace_chosen c chosen))
]

pub chosen_of_pushed :
    (type_id : ℕ) (c d : Registered) (chosen : List Registered)
    → chosen_of type_id chosen ≡ some d
    → chosen_of type_id (chosen ++ c ∷ []) ≡ some d
unfolding chosen_of
chosen_of_pushed type_id c d [] found = cc
chosen_of_pushed type_id c d (e ∷ chosen) found =
    ground (arith, chosen_of_pushed type_id c d chosen)

pub chosen_of_new :
    (c : Registered) (chosen : List Registered)
    → chosen_of c.ty.type_id chosen ≡ none
    → chosen_of c.ty.type_id (chosen ++ c ∷ []) ≡ some c
unfolding chosen_of
chosen_of_new c [] missing = rw (==_refl c.ty.type_id) refl
chosen_of_new c (e ∷ chosen) missing = ground (arith, chosen_of_new c chosen)

pub chosen_of_replaced :
    (c d : Registered) (chosen : List Registered)
    → chosen_of c.ty.type_id chosen ≡ some d
    → chosen_of c.ty.type_id (replace_chosen c chosen) ≡ some c
unfolding chosen_of replace_chosen
chosen_of_replaced c d [] found = cc
chosen_of_replaced c d (e ∷ chosen) found = elim (Bool-cases (e.ty.type_id == c.ty.type_id)) [
  | inl same ↦ rw (same, ==_refl c.ty.type_id) refl
  | inr other ↦ rw (other, other) (chosen_of_replaced c d chosen (rw other at found))
]

pub chosen_of_kept :
    (type_id : ℕ) (c : Registered) (chosen : List Registered)
    → (c.ty.type_id == type_id) ≡ false
    → chosen_of type_id (replace_chosen c chosen) ≡ chosen_of type_id chosen
unfolding chosen_of replace_chosen
chosen_of_kept type_id c [] apart = refl
chosen_of_kept type_id c (e ∷ chosen) apart = elim (Bool-cases (e.ty.type_id == c.ty.type_id)) [
  | inl same ↦
      let unlike : (e.ty.type_id == type_id) ≡ false =
        subst (λ id. (id == type_id) ≡ false) (sym ((==_iff e.ty.type_id c.ty.type_id).0 same))
          apart in
      rw (same, apart, unlike) refl
  | inr other ↦ rw (other, chosen_of_kept type_id c chosen apart) refl
]
