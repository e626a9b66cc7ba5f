-- ===== src/Config/Reload/Publishing.antt =====
-- The slots before and after a reload, crates/config/src/managed/reload.rs.
use overseerd.Base.{
  ◌≡◌, refl, ap, sym, true, false, Bool-cases, inl, inr, Option, none, some, List, [], ◌∷◌, Text,
  ok, >>=-eq-ok, ok-injective, subst,
}
use overseerd.Config.Reload.{
  Prepared, swap_of, changed_of, changed_paths, staged_of, commit_all, prepare, prepare_all,
}
use overseerd.Config.Slots.{
  Bound, bound, refused, panics, Manager, ConfigSlot, StagedConfig, ChangedBinding,
}

abbrev pub paths : List ChangedBinding → List Text
paths [] = []
paths (binding ∷ bindings) = binding.path ∷ paths bindings

module _ {Value Snapshot : Type 0} where
  -- `stage_current` of every slot
  abbrev pub stage_current : List (ConfigSlot Value Snapshot) → List (StagedConfig Value)
  stage_current [] = []
  stage_current (slot ∷ slots) =
      (record { type_id = slot.type_id; path = slot.path; value = slot.live }) ∷ stage_current slots

  pub stage_current-commit_all :
      (prepared : List (Prepared Value Snapshot))
      → staged_of prepared ≡ stage_current (commit_all prepared)
  stage_current-commit_all [] = refl
  stage_current-commit_all ((slot, none) ∷ prepared) =
      ap (λ rest. (record { type_id = slot.type_id; path = slot.path; value = slot.live }) ∷ rest)
        (stage_current-commit_all prepared)
  stage_current-commit_all ((slot, some (value, snapshot)) ∷ prepared) =
      ap (λ rest. (record { type_id = slot.type_id; path = slot.path; value = value }) ∷ rest)
        (stage_current-commit_all prepared)

  pub paths-changed_of :
      (prepared : List (Prepared Value Snapshot))
      → changed_paths prepared ≡ paths (changed_of prepared)
  paths-changed_of [] = refl
  paths-changed_of ((slot, none) ∷ prepared) = paths-changed_of prepared
  paths-changed_of ((slot, some swap) ∷ prepared) =
      ap (λ rest. slot.path ∷ rest) (paths-changed_of prepared)

module _ {Root Value Snapshot : Type 0} (m : Manager Root Value Snapshot) (new_root : Root) where
  -- What a reload leaves of the slots and reports of them: a slot stays as it was or is published
  -- anew, as its snapshot matches the new tree or not.
  pub data Published
      : List (ConfigSlot Value Snapshot)
        → List (ConfigSlot Value Snapshot)
        → List ChangedBinding
        → Type 0 where
    none_left : Published [] [] []
    same :
        {slot : ConfigSlot Value Snapshot} {slots slots' : List (ConfigSlot Value Snapshot)}
        {changed : List ChangedBinding}
        → m.snapshot_matches new_root slot.path slot.committed_snapshot ≡ true
        → Published slots slots' changed
        → Published (slot ∷ slots) (slot ∷ slots') changed
    anew :
        {slot : ConfigSlot Value Snapshot} {slots slots' : List (ConfigSlot Value Snapshot)}
        {changed : List ChangedBinding} {value : Value} {snapshot : Snapshot}
        → m.snapshot_matches new_root slot.path slot.committed_snapshot ≡ false
        → m.get_config_in slot.type_id new_root slot.path ≡ bound value snapshot
        → Published slots slots' changed
        → Published
            (slot ∷ slots)
            ((record slot { live = value; committed_snapshot = snapshot }) ∷ slots')
            ((record { path = slot.path; type_name = slot.type_name }) ∷ changed)

  swap_of_bound :
      (slot : ConfigSlot Value Snapshot) (given : Bound Value Snapshot)
      {swap : Option (Value × Snapshot)}
      → swap_of slot given ≡ ok swap
      → (value : Value) × (snapshot : Snapshot) × (given ≡ bound value snapshot)
        × (swap ≡ some (value, snapshot))
  swap_of_bound slot (bound value snapshot) done = (value, snapshot, refl, sym (ok-injective done))
  swap_of_bound slot (refused why) done = cc
  swap_of_bound slot panics done = cc

  prepare-Published :
      (slot : ConfigSlot Value Snapshot) (swap : Option (Value × Snapshot))
      (slots : List (ConfigSlot Value Snapshot)) (prepared : List (Prepared Value Snapshot))
      → prepare m new_root slot ≡ ok swap
      → Published slots (commit_all prepared) (changed_of prepared)
      → Published
          (slot ∷ slots)
          (commit_all ((slot, swap) ∷ prepared))
          (changed_of ((slot, swap) ∷ prepared))
  unfolding prepare
  prepare-Published slot swap slots prepared done rest =
      elim (Bool-cases (m.snapshot_matches new_root slot.path slot.committed_snapshot)) [
        | inl matches ↦
            let unswapped : none ≡ swap = ok-injective (rw matches at done) in
            subst
              (λ swap.
                Published (slot ∷ slots) (commit_all ((slot, swap) ∷ prepared))
                  (changed_of ((slot, swap) ∷ prepared)))
              unswapped (same matches rest)
        | inr differs ↦
            let (value, snapshot, given, swapped) =
              swap_of_bound slot (m.get_config_in slot.type_id new_root slot.path)
                (rw differs at done) in
            subst
              (λ swap.
                Published (slot ∷ slots) (commit_all ((slot, swap) ∷ prepared))
                  (changed_of ((slot, swap) ∷ prepared)))
              (sym swapped) (anew differs given rest)
      ]

  pub prepare_all-Published :
      (slots : List (ConfigSlot Value Snapshot)) (prepared : List (Prepared Value Snapshot))
      → prepare_all m new_root slots ≡ ok prepared
      → Published slots (commit_all prepared) (changed_of prepared)
  unfolding prepare_all
  prepare_all-Published [] prepared done =
      subst (λ prepared. Published [] (commit_all prepared) (changed_of prepared))
        (ok-injective done) none_left
  prepare_all-Published (slot ∷ slots) prepared done =
      let (swap, first, later) = >>=-eq-ok (prepare m new_root slot) _ done in
      let (rest, prepares, all) = >>=-eq-ok (prepare_all m new_root slots) _ later in
      subst (λ prepared. Published (slot ∷ slots) (commit_all prepared) (changed_of prepared))
        (ok-injective all)
        (prepare-Published slot swap slots rest first (prepare_all-Published slots rest prepares))

  pub Published-unchanged :
      {slots slots' : List (ConfigSlot Value Snapshot)} {changed : List ChangedBinding}
      → Published slots slots' changed
      → changed ≡ []
      → slots' ≡ slots
  Published-unchanged none_left empty = refl
  Published-unchanged {slots = slot ∷ slots} (same matches rest) empty =
      ap (λ slots. slot ∷ slots) (Published-unchanged rest empty)
  Published-unchanged (anew differs given rest) empty = cc
