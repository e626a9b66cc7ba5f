-- ===== src/Config/Reload/Transaction.antt =====
-- A reload as a transaction, crates/config/src/managed/reload.rs.
use overseerd.Base.{
  ℕ, ◌≡◌, refl, sym, ◌⊎◌, false, Bool-cases, inl, inr, Option, none, some, List, [], ◌∷◌, any_of,
  get, inc64, keep_if, Text, Result, ok, err, arith, subst,
}
use overseerd.Di.Construction.{DependencyDescriptor}
use overseerd.Hooks.{HookDescriptor, Called, has, bucket, run}
use overseerd.Hooks.Running.{run_unheard}
use overseerd.Config.Reload.{
  Outcomes, accepted, Prepared, changed_of, commit_all, prepare_all, consult, finish, after_changed,
  after_prepare, after_reread, Reloaded, reload,
}
use overseerd.Config.Slots.{
  sole_changed, HookOutcome, ConfigReloadError, load, Manager, ConfigSlot, StagedConfig,
  ChangedBinding, ComponentHookReport, ConfigReloadReport, ConfigReloader, index_bindings,
  hook_targets_changed, targets,
}
use overseerd.Config.Reload.Answers.{
  Reports, Refuses, Answers, accepted-Answers, SlotFails, prepare_all-SlotFails,
}
use overseerd.Config.Reload.Publishing.{
  Published, paths, stage_current, stage_current-commit_all, paths-changed_of,
  prepare_all-Published, Published-unchanged,
}

-- Without a changed path no hook is consulted.
sole_changed_none : (paths : Option (List Text)) → sole_changed [] paths ≡ false
sole_changed_none none = refl
sole_changed_none (some []) = refl
sole_changed_none (some (path ∷ [])) = refl
sole_changed_none (some (path ∷ other ∷ paths)) = refl

targets_none :
    (index : List (ℕ × List Text)) (dep : DependencyDescriptor) → targets [] index dep ≡ false
unfolding targets
targets_none index dep = ground (arith, sole_changed_none (get dep.ty.type_id index))

any_targets_none :
    (index : List (ℕ × List Text)) (deps : List DependencyDescriptor)
    → any_of (targets [] index) deps ≡ false
any_targets_none index [] = refl
any_targets_none index (dep ∷ deps) = rw (targets_none index dep) (any_targets_none index deps)

untargeted :
    (index : List (ℕ × List Text)) (hooks : List HookDescriptor)
    → keep_if (hook_targets_changed [] index) hooks ≡ []
unfolding hook_targets_changed
untargeted index [] = refl
untargeted index (hook ∷ hooks) =
    rw (any_targets_none index hook.dependencies) (untargeted index hooks)

module _ {Root Value Snapshot : Type 0} (name : Text) (kind : ℕ) (m : Manager Root Value Snapshot)
    (call : List (StagedConfig Value) → HookDescriptor → Called HookOutcome) where
  -- The outcomes of the hooks that an observable change concerns, if they are shown what the slots
  -- are to hold.
  abbrev pub shown :
      ConfigReloader Root Value Snapshot
      → List ChangedBinding
      → List (ConfigSlot Value Snapshot)
      → Outcomes
  shown r changed slots' =
      run name (call (stage_current slots')) kind
        (hook_targets_changed (paths changed) (index_bindings r.bindings [])) r.hooks

  consult-shown :
      (r : ConfigReloader Root Value Snapshot) (prepared : List (Prepared Value Snapshot))
      → consult name kind m call r prepared ≡ shown r (changed_of prepared) (commit_all prepared)
  unfolding consult
  consult-shown r prepared =
      rw (stage_current-commit_all prepared, paths-changed_of prepared)
        (elim (Bool-cases (has kind r.hooks)) [
          | inl heard ↦ rw heard refl
          | inr unheard ↦ rw unheard (sym (run_unheard name _ kind _ r.hooks unheard))
        ])

  shown-none :
      (r : ConfigReloader Root Value Snapshot) (slots' : List (ConfigSlot Value Snapshot))
      → shown r [] slots' ≡ []
  unfolding run
  shown-none r slots' = rw (untargeted (index_bindings r.bindings []) (bucket kind r.hooks)) refl

  abbrev pub adopted : List ChangedBinding → Root → Root → Root
  adopted [] root new_root = root
  adopted (binding ∷ changed) root new_root = new_root

  -- The slots as the new tree has them, which all hooks concerned accepted, as the report tells
  abbrev pub Committed :
      ConfigReloader Root Value Snapshot
      → ConfigReloadReport
      → ConfigReloader Root Value Snapshot
      → Type 0
  Committed r report r' =
      (new_root : Root) × (m.reread ≡ ok new_root)
      × Published m new_root r.slots r'.slots report.changed
      × Reports (shown r report.changed r'.slots) report.hooks
      × (report.generation ≡ inc64 r.generation)
      × (r' ≡ record r {
        root = adopted report.changed r.root new_root;
        slots = r'.slots;
        generation = report.generation;
      })

  -- The sources cannot be read, a slot cannot be made from the new tree, or a hook concerned, shown
  -- the new values, refuses; the error tells which.
  abbrev pub Rejected : ConfigReloader Root Value Snapshot → ConfigReloadError → Type 0
  Rejected r why =
      ((error : ℕ) × (m.reread ≡ err error) × (why ≡ load error))
      ⊎ ((new_root : Root) × (m.reread ≡ ok new_root)
          × (SlotFails m new_root r.slots why
              ⊎ ((slots' : List (ConfigSlot Value Snapshot)) × (changed : List ChangedBinding)
                  × Published m new_root r.slots slots' changed
                  × Refuses (shown r changed slots') why)))

  abbrev pub Transacts : ConfigReloader Root Value Snapshot → Reloaded name kind m call → Type 0
  Transacts r (err why, r') = (r' ≡ r) × Rejected r why
  Transacts r (ok report, r') = Committed r report r'

  finish-Transacts :
      (r : ConfigReloader Root Value Snapshot) (new_root : Root)
      (prepared : List (Prepared Value Snapshot)) (binding : ChangedBinding)
      (changed : List ChangedBinding) (answer : Result ConfigReloadError (List ComponentHookReport))
      → m.reread ≡ ok new_root
      → Published m new_root r.slots (commit_all prepared) (changed_of prepared)
      → changed_of prepared ≡ binding ∷ changed
      → Answers (shown r (changed_of prepared) (commit_all prepared)) answer
      → Transacts r (finish name kind m call r new_root prepared answer)
  finish-Transacts r new_root prepared binding changed (err why) read published nonempty answered =
      (
        refl,
        inr (new_root, read, inr (commit_all prepared, changed_of prepared, published, answered)),
      )
  finish-Transacts r new_root prepared binding changed (ok reports) read published nonempty
        answered =
      (new_root, read, published, answered, refl, rw nonempty refl)

  prepared-Transacts :
      (r : ConfigReloader Root Value Snapshot) (new_root : Root)
      (prepared : List (Prepared Value Snapshot))
      → m.reread ≡ ok new_root
      → Published m new_root r.slots (commit_all prepared) (changed_of prepared)
      → Transacts r (after_prepare name kind m call r new_root (ok prepared))
  unfolding accepted
  prepared-Transacts r new_root prepared read published = by_changed (changed_of prepared) refl
    where
      by_changed :
          (changed : List ChangedBinding)
          → changed_of prepared ≡ changed
          → Transacts r (after_changed name kind m call r new_root prepared changed)
      by_changed [] unchanged =
          let published' : Published m new_root r.slots (commit_all prepared) [] =
            subst (Published m new_root r.slots (commit_all prepared)) unchanged published in
          let kept = Published-unchanged m new_root published' refl in
          (
            new_root,
            read,
            subst (λ slots. Published m new_root r.slots slots []) kept published',
            rw (shown-none r r.slots) tt,
            refl,
            refl,
          )
      by_changed (binding ∷ changed) nonempty =
          finish-Transacts r new_root prepared binding changed _ read published nonempty (
            rw (sym (consult-shown r prepared))
              (accepted-Answers (consult name kind m call r prepared)))

  -- A reload is a transaction. If it fails, the reloader is as it was, and the error is that of
  -- reading the sources, or that of a slot whose snapshot does not match the new tree and whose binding
  -- could not be made from it, or the slots could be made and it is that of the first hook concerned
  -- that did not accept. If it succeeds, each slot whose snapshot matches the new tree is as it was and
  -- each other has the value and snapshot that the new tree gives; the report lists just the others;
  -- every hook that one of them concerns, shown the values that the slots have afterwards, gave an
  -- outcome and not an error, and the report tells the outcomes in order; the tree is adopted if there
  -- is a change; and the generation is the next one and the report's.
  pub reload-Transacts :
      (r : ConfigReloader Root Value Snapshot) → Transacts r (reload name kind m call r)
  unfolding reload
  reload-Transacts r = by_read m.reread refl
    where
      by_prepared :
          (new_root : Root) (prepares : Result ConfigReloadError (List (Prepared Value Snapshot)))
          → m.reread ≡ ok new_root
          → prepare_all m new_root r.slots ≡ prepares
          → Transacts r (after_prepare name kind m call r new_root prepares)
      by_prepared new_root (err why) read prepares =
          (refl, inr (new_root, read, inl (prepare_all-SlotFails m new_root r.slots why prepares)))
      by_prepared new_root (ok prepared) read prepares =
          prepared-Transacts r new_root prepared read
            (prepare_all-Published m new_root r.slots prepared prepares)

      by_read :
          (reread : Result ℕ Root)
          → m.reread ≡ reread
          → Transacts r (after_reread name kind m call r reread)
      by_read (err error) read = (refl, inl (error, read, refl))
      by_read (ok new_root) read = by_prepared new_root _ read refl
