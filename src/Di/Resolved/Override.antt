-- ===== src/Di/Resolved/Override.antt =====
-- Which descriptor of a type is kept, `resolved_components` of crates/di/src/registry.rs.
use overseerd.Base.{
  ◌≡◌, refl, ◌∙◌, sym, subst, Bool, true, false, Bool-cases, inl, inr, Option, none, some, List, [],
  ◌∷◌, ◌++◌, append_assoc, append-nil, distinct, All, All-append, All-map, Among, here, there,
  text_eq, ◌==◌, ==_iff, if◌then◌else◌, ok, err, >>=-eq-ok, ok-injective,
}
use overseerd.Di.Resolved.{
  duplicate_component_type, Registered, manual, chosen_of, replace_chosen, overridden, against,
  choose, choose_all, resolved_components,
}
use overseerd.Di.Resolved.Chosen.{
  types, mem_of_chosen, distinct_pushed, types-replace_chosen, chosen_of_pushed, chosen_of_new,
  chosen_of_replaced, chosen_of_kept,
}

-- A descriptor of its type is kept, and a manual one if it is manual itself.
abbrev pub IsCovered : List Registered → Registered → Type 0
IsCovered chosen c =
    (d : Registered) × (chosen_of c.ty.type_id chosen ≡ some d)
    × (manual c ≡ ok true → manual d ≡ ok true)

All-replace_chosen :
    (P : Registered → Type 0) (c : Registered) (chosen : List Registered)
    → P c
    → All P chosen
    → All P (replace_chosen c chosen)
unfolding replace_chosen
All-replace_chosen P c [] good all = tt
All-replace_chosen P c (d ∷ chosen) good (first, rest) =
    elim (Bool-cases (d.ty.type_id == c.ty.type_id)) [
      | inl same ↦ rw same (good, rest)
      | inr other ↦ rw other (first, All-replace_chosen P c chosen good rest)
    ]

pushed-IsCovered :
    (c e : Registered) (chosen : List Registered)
    → IsCovered chosen e
    → IsCovered (chosen ++ c ∷ []) e
pushed-IsCovered c e chosen (d, found, overrides) =
    (d, chosen_of_pushed e.ty.type_id c d chosen found, overrides)

replaced-IsCovered :
    (c d e : Registered) (chosen : List Registered)
    → manual c ≡ ok true
    → chosen_of c.ty.type_id chosen ≡ some d
    → IsCovered chosen e
    → IsCovered (replace_chosen c chosen) e
replaced-IsCovered c d e chosen by_hand there_is (d', found, overrides) =
    elim (Bool-cases (c.ty.type_id == e.ty.type_id)) [
      | inl same ↦ (
        c,
        subst (λ id. chosen_of id (replace_chosen c chosen) ≡ some c)
            ((==_iff c.ty.type_id e.ty.type_id).0 same) (chosen_of_replaced c d chosen there_is),
        λ mine. by_hand,
      )
      | inr other ↦ (d', chosen_of_kept e.ty.type_id c chosen other ∙ found, overrides)
    ]

-- The invariant of the loop, for the descriptors that it has seen
pub record IsResolved (registered seen chosen : List Registered) : Type 0 where
  pub apart : distinct (types chosen) ≡ true
  pub covered : All (IsCovered chosen) seen
  pub known : All (λ (d : Registered). Among d registered) chosen

same_id :
    (c : Registered) (chosen : List Registered) {next : List Registered} (same : Bool)
    → (if same then ok chosen else err (duplicate_component_type c.ty.type_name)) ≡ ok next
    → chosen ≡ next
same_id c chosen true done = ok-injective done
same_id c chosen false done = cc

module _ (registered : List Registered) where
  replaced-IsResolved :
      (seen chosen : List Registered) (c d : Registered)
      → Among c registered
      → manual c ≡ ok true
      → chosen_of c.ty.type_id chosen ≡ some d
      → IsResolved registered seen chosen
      → IsResolved registered (seen ++ c ∷ []) (replace_chosen c chosen)
  replaced-IsResolved seen chosen c d at by_hand found r = record {
    apart = rw (types-replace_chosen c chosen) r.apart;
    covered =
        All-append (IsCovered (replace_chosen c chosen)) seen (c ∷ [])
          (All-map (IsCovered chosen) (IsCovered (replace_chosen c chosen)) seen
            (λ e. replaced-IsCovered c d e chosen by_hand found) r.covered)
          ((c, chosen_of_replaced c d chosen found, λ mine. mine), tt);
    known = All-replace_chosen (λ d. Among d registered) c chosen at r.known;
  }

  pushed-IsResolved :
      (seen chosen : List Registered) (c : Registered)
      → Among c registered
      → chosen_of c.ty.type_id chosen ≡ none
      → IsResolved registered seen chosen
      → IsResolved registered (seen ++ c ∷ []) (chosen ++ c ∷ [])
  pushed-IsResolved seen chosen c at missing r = record {
    apart = distinct_pushed c chosen r.apart (mem_of_chosen c.ty.type_id chosen missing);
    covered =
        All-append (IsCovered (chosen ++ c ∷ [])) seen (c ∷ [])
          (All-map (IsCovered chosen) (IsCovered (chosen ++ c ∷ [])) seen
            (λ e. pushed-IsCovered c e chosen) r.covered)
          ((c, chosen_of_new c chosen missing, λ mine. mine), tt);
    known = All-append (λ (d : Registered). Among d registered) chosen (c ∷ []) r.known (at, tt);
  }

  kept-IsResolved :
      (seen chosen : List Registered) (c d : Registered)
      → chosen_of c.ty.type_id chosen ≡ some d
      → (manual c ≡ ok true → manual d ≡ ok true)
      → IsResolved registered seen chosen
      → IsResolved registered (seen ++ c ∷ []) chosen
  kept-IsResolved seen chosen c d found overrides r = record {
    apart = r.apart;
    covered = All-append (IsCovered chosen) seen (c ∷ []) r.covered ((d, found, overrides), tt);
    known = r.known;
  }

  overridden-IsResolved :
      (seen chosen next : List Registered) (c d : Registered) (mine theirs : Bool)
      → Among c registered
      → manual c ≡ ok mine
      → manual d ≡ ok theirs
      → chosen_of c.ty.type_id chosen ≡ some d
      → overridden c d mine theirs chosen ≡ ok next
      → IsResolved registered seen chosen
      → IsResolved registered (seen ++ c ∷ []) next
  overridden-IsResolved seen chosen next c d true false at is_mine is_theirs found done r =
      subst (IsResolved registered (seen ++ c ∷ [])) (ok-injective done)
        (replaced-IsResolved seen chosen c d at is_mine found r)
  overridden-IsResolved seen chosen next c d false true at is_mine is_theirs found done r =
      subst (IsResolved registered (seen ++ c ∷ [])) (ok-injective done)
        (kept-IsResolved seen chosen c d found (λ by_hand. is_theirs) r)
  overridden-IsResolved seen chosen next c d true true at is_mine is_theirs found done r =
      subst (IsResolved registered (seen ++ c ∷ [])) (same_id c chosen (text_eq d.id c.id) done)
        (kept-IsResolved seen chosen c d found (λ by_hand. is_theirs) r)
  overridden-IsResolved seen chosen next c d false false at is_mine is_theirs found done r =
      subst (IsResolved registered (seen ++ c ∷ [])) (same_id c chosen (text_eq d.id c.id) done)
        (kept-IsResolved seen chosen c d found (λ by_hand. let bad = sym is_mine ∙ by_hand in cc) r)

  against-IsResolved :
      (seen chosen next : List Registered) (c : Registered) (mine : Bool)
      (there_is : Option Registered)
      → Among c registered
      → manual c ≡ ok mine
      → chosen_of c.ty.type_id chosen ≡ there_is
      → against c mine there_is chosen ≡ ok next
      → IsResolved registered seen chosen
      → IsResolved registered (seen ++ c ∷ []) next
  against-IsResolved seen chosen next c mine none at is_mine missing done r =
      subst (IsResolved registered (seen ++ c ∷ [])) (ok-injective done)
        (pushed-IsResolved seen chosen c at missing r)
  against-IsResolved seen chosen next c mine (some d) at is_mine found done r =
      let (theirs, is_theirs, decided) = >>=-eq-ok (manual d) _ done in
      overridden-IsResolved seen chosen next c d mine theirs at is_mine is_theirs found decided r

  choose_all-IsResolved :
      (seen chosen components last : List Registered)
      → All (λ (c : Registered). Among c registered) components
      → choose_all components chosen ≡ ok last
      → IsResolved registered seen chosen
      → IsResolved registered (seen ++ components) last
  unfolding choose_all choose
  choose_all-IsResolved seen chosen [] last at done r =
      subst (λ seen. IsResolved registered seen last) (sym (append-nil seen))
        (subst (IsResolved registered seen) (ok-injective done) r)
  choose_all-IsResolved seen chosen (c ∷ components) last (first, at) done r =
      let (next, chose, later) = >>=-eq-ok (choose c chosen) _ done in
      let (mine, is_mine, taken) = >>=-eq-ok (manual c) _ chose in
      subst (λ seen. IsResolved registered seen last) (append_assoc seen (c ∷ []) components)
        (choose_all-IsResolved (seen ++ c ∷ []) next components last at later
          (against-IsResolved seen chosen next c mine _ first is_mine refl taken r))

members :
    {A : Type 0} (ys xs : List A) → ((x : A) → Among x xs → Among x ys) → All (λ x. Among x ys) xs
members ys [] f = tt
members ys (x ∷ xs) f = (f x here, members ys xs (λ z at. f z (there at)))

-- If the registered descriptors are resolved, those kept are registered and have no type twice; of
-- each registered descriptor's type one is kept, and a manual one if that descriptor is manual.
pub resolved_components-IsResolved :
    (registered chosen : List Registered)
    → resolved_components registered ≡ ok chosen
    → IsResolved registered registered chosen
resolved_components-IsResolved registered chosen done =
    choose_all-IsResolved registered [] [] registered chosen
      (members registered registered (λ x at. at)) done
      (record { apart = refl; covered = tt; known = tt })
