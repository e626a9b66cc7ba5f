-- ===== src/Config/Reload/Answers.antt =====
-- What a reload is refused for, and what the hooks answer, crates/config/src/managed/reload.rs.
use overseerd.Base.{
  ℕ, ◌≡◌, refl, ap, ◌⊎◌, inl, inr, false, Bool-cases, List, [], ◌∷◌, ◌++◌, Result, ok, err, ◌>>=◌,
}
use overseerd.Hooks.{HookDescriptor, HookError}
use overseerd.Config.Reload.{Outcomes, accepted, prepare, prepare_all, swap_of}
use overseerd.Config.Slots.{
  HookOutcome, ConfigReloadError, bind, hook, panicked, Bound, bound, refused, panics, Manager,
  ConfigSlot, ComponentHookReport,
}

-- Each outcome is an acceptance, and the reports tell them, in order.
abbrev pub Reports : Outcomes → List ComponentHookReport → Type 0
Reports [] [] = Unit {0}
Reports ((h, outcome) ∷ outcomes) (report ∷ reports) =
    (outcome ≡ ok report.outcome)
    × (report.component ≡ h.component_ty.name)
    × Reports outcomes reports
Reports _ _ = ⊥

-- One outcome is a hook's error, those before it are acceptances, and the reload's error tells it.
abbrev pub Refuses : Outcomes → ConfigReloadError → Type 0
Refuses outcomes why =
    (before : Outcomes) × (h : HookDescriptor) × (error : HookError) × (after : Outcomes)
    × (outcomes ≡ before ++ (h, err error) ∷ after)
    × ((reports : List ComponentHookReport) × Reports before reports)
    × (why ≡ hook h.component_ty.name error)

Refuses-later :
    (h : HookDescriptor) (outcome : HookOutcome) (outcomes : Outcomes) (why : ConfigReloadError)
    → Refuses outcomes why
    → Refuses ((h, ok outcome) ∷ outcomes) why
Refuses-later h outcome outcomes why (before, g, error, after, same, (reports, told), because) = (
  (h, ok outcome) ∷ before,
  g,
  error,
  after,
  ap (λ (rest : Outcomes). (h, ok outcome) ∷ rest) same,
  ((record { component = h.component_ty.name; outcome = outcome }) ∷ reports, (refl, refl, told)),
  because,
)

abbrev pub Answers : Outcomes → Result ConfigReloadError (List ComponentHookReport) → Type 0
Answers outcomes (ok reports) = Reports outcomes reports
Answers outcomes (err why) = Refuses outcomes why

pub accepted-Answers : (outcomes : Outcomes) → Answers outcomes (accepted outcomes)
unfolding accepted
accepted-Answers [] = tt
accepted-Answers ((h, err error) ∷ outcomes) = ([], h, error, outcomes, refl, ([], tt), refl)
accepted-Answers ((h, ok outcome) ∷ outcomes) =
    later (accepted outcomes) (accepted-Answers outcomes)
  where
    later :
        (answer : Result ConfigReloadError (List ComponentHookReport))
        → Answers outcomes answer
        → Answers ((h, ok outcome) ∷ outcomes) (
            answer >>= λ reports.
            ok ((record { component = h.component_ty.name; outcome = outcome }) ∷ reports))
    later (ok reports) told = (refl, refl, told)
    later (err why) told = Refuses-later h outcome outcomes why told

-- What an error of a bind comes from
>>=-eq-err {ℓ κ ν} :
    {E : Type ν} {A : Type ℓ} {B : Type κ} (m : Result E A) (f : A → Result E B) {why : E}
    → (m >>= f) ≡ err why
    → (m ≡ err why) ⊎ ((a : A) × (m ≡ ok a) × (f a ≡ err why))
>>=-eq-err (ok a) f h = inr (a, refl, h)
>>=-eq-err (err error) f h = inl (let same = h in cc)

module _ {Root Value Snapshot : Type 0} (m : Manager Root Value Snapshot) (new_root : Root) where
  -- The binding of a slot does not match the new tree, and cannot be made from it.
  abbrev pub Fails : ConfigSlot Value Snapshot → ConfigReloadError → Type 0
  Fails slot why =
      (m.snapshot_matches new_root slot.path slot.committed_snapshot ≡ false)
      × (((error : ℕ) × (m.get_config_in slot.type_id new_root slot.path ≡ refused error)
            × (why ≡ bind slot.path slot.type_name error))
          ⊎ ((m.get_config_in slot.type_id new_root slot.path ≡ panics) × (why ≡ panicked)))

  -- One of the slots fails.
  abbrev pub SlotFails : List (ConfigSlot Value Snapshot) → ConfigReloadError → Type 0
  SlotFails slots why =
      (before : List (ConfigSlot Value Snapshot)) × (slot : ConfigSlot Value Snapshot)
      × (after : List (ConfigSlot Value Snapshot)) × (slots ≡ before ++ slot ∷ after)
      × Fails slot why

  prepare-Fails :
      (slot : ConfigSlot Value Snapshot) (why : ConfigReloadError)
      → prepare m new_root slot ≡ err why
      → Fails slot why
  unfolding prepare
  prepare-Fails slot why h =
      elim (Bool-cases (m.snapshot_matches new_root slot.path slot.committed_snapshot)) [
        | inl same ↦ absurd (let bad = rw (prepare, same) at h in cc)
        | inr changed ↦ (
          changed,
          by_bound (m.get_config_in slot.type_id new_root slot.path) refl
              (rw (prepare, changed) at h),
        )
      ]
    where
      by_bound :
          (binding : Bound Value Snapshot)
          → m.get_config_in slot.type_id new_root slot.path ≡ binding
          → swap_of slot binding ≡ err why
          → ((error : ℕ) × (m.get_config_in slot.type_id new_root slot.path ≡ refused error)
              × (why ≡ bind slot.path slot.type_name error))
            ⊎ ((m.get_config_in slot.type_id new_root slot.path ≡ panics) × (why ≡ panicked))
      by_bound (bound value snapshot) made h = absurd (let bad = h in cc)
      by_bound (refused error) made h = inl (error, made, let same = h in cc)
      by_bound panics made h = inr (made, let same = h in cc)

  pub prepare_all-SlotFails :
      (slots : List (ConfigSlot Value Snapshot)) (why : ConfigReloadError)
      → prepare_all m new_root slots ≡ err why
      → SlotFails slots why
  unfolding prepare_all
  prepare_all-SlotFails [] why h = absurd (let bad = h in cc)
  prepare_all-SlotFails (slot ∷ slots) why h = elim (>>=-eq-err (prepare m new_root slot) _ h) [
    | inl first ↦ ([], slot, slots, refl, prepare-Fails slot why first)
    | inr (swap, first, later) ↦ elim (>>=-eq-err (prepare_all m new_root slots) _ later) [
      | inl failed ↦
          let (before, other, after, same, fails) = prepare_all-SlotFails slots why failed in
          (
            slot ∷ before,
            other,
            after,
            ap (λ (rest : List (ConfigSlot Value Snapshot)). slot ∷ rest) same,
            fails,
          )
      | inr (prepared, made, bad) ↦ absurd (let no = bad in cc)
    ]
  ]
