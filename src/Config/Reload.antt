-- ===== src/Config/Reload.antt =====
-- crates/config/src/managed/reload.rs: a reload of the bound configurations. The manager of
-- crates/config/src/managed/source.rs is behind an interface: what reading the sources gives, whether
-- a tree still matches what a binding was made from, and what binding a type at a path of a tree
-- gives. The trees, the bound values and the snapshots are types of the interface; the hooks' calls
-- are an argument. A whole reload holds `in_progress`, so it is one step.
pub mod Publishing
pub mod Answers
pub mod Transaction
mod Tests
use overseerd.Base.{
  ℕ, Bool, true, false, not, Option, none, some, List, [], ◌∷◌, ◌++◌, any_of, ◌==◌, get, inc64,
  if◌then◌else◌, ◌&&◌, Text, text_eq, Result, ok, err, ◌>>=◌,
}
use overseerd.Di.Construction.{DependencyDescriptor}
use overseerd.Hooks.{HookDescriptor, HookError, HookManager, Called, has, run}
use overseerd.Config.Slots.{
  HookOutcome, ConfigReloadError, Bound, Manager, ConfigSlot, StagedConfig, ChangedBinding,
  ComponentHookReport, ConfigReloadReport, ConfigReloader, index_bindings, hook_targets_changed,
  load, bind, hook, panicked, bound, refused, panics,
}

module _ {Value : Type 0} where
  -- `ReloadProposal::next`
  abbrev pub of_type : ℕ → List (StagedConfig Value) → List (StagedConfig Value)
  of_type type_id [] = []
  of_type type_id (staged ∷ rest) =
      let later = of_type type_id rest in
      if staged.type_id == type_id then staged ∷ later else later

  abbrev pub at_path : Text → List (StagedConfig Value) → Option (StagedConfig Value)
  at_path path [] = none
  at_path path (staged ∷ rest) =
      let later = at_path path rest in if text_eq staged.path path then some staged else later

  abbrev pub sole : List (StagedConfig Value) → Option (StagedConfig Value)
  sole (staged ∷ []) = some staged
  sole _ = none

  unfoldable pub next : ℕ → Option Text → List (StagedConfig Value) → Option (StagedConfig Value)
  next type_id none staged = sole (of_type type_id staged)
  next type_id (some path) staged = at_path path (of_type type_id staged)

abbrev pub Outcomes : Type 0
Outcomes = List (HookDescriptor × Result HookError HookOutcome)

-- The loop over the hooks' outcomes
unfoldable pub accepted : Outcomes → Result ConfigReloadError (List ComponentHookReport)
accepted [] = ok []
accepted ((h, err why) ∷ rest) = err (hook h.component_ty.name why)
accepted ((h, ok outcome) ∷ rest) = accepted rest >>= λ reports.
    ok ((record { component = h.component_ty.name; outcome = outcome }) ∷ reports)

-- A slot with the swap that is prepared for it
abbrev pub Prepared : Type 0 → Type 0 → Type 0
Prepared Value Snapshot = ConfigSlot Value Snapshot × Option (Value × Snapshot)

module _ {Value Snapshot : Type 0} where
  -- `ConfigSlot::prepare`
  abbrev pub swap_of :
      ConfigSlot Value Snapshot
      → Bound Value Snapshot
      → Result ConfigReloadError (Option (Value × Snapshot))
  swap_of slot (bound value snapshot) = ok (some (value, snapshot))
  swap_of slot (refused why) = err (bind slot.path slot.type_name why)
  swap_of slot panics = err panicked

  abbrev pub changed_of : List (Prepared Value Snapshot) → List ChangedBinding
  changed_of [] = []
  changed_of ((slot, none) ∷ prepared) = changed_of prepared
  changed_of ((slot, some swap) ∷ prepared) =
      (record { path = slot.path; type_name = slot.type_name }) ∷ changed_of prepared

  abbrev pub changed_paths : List (Prepared Value Snapshot) → List Text
  changed_paths [] = []
  changed_paths ((slot, none) ∷ prepared) = changed_paths prepared
  changed_paths ((slot, some swap) ∷ prepared) = slot.path ∷ changed_paths prepared

  abbrev pub proposed : Prepared Value Snapshot → Value
  proposed (slot, none) = slot.live
  proposed (slot, some (value, snapshot)) = value

  abbrev pub staged_of : List (Prepared Value Snapshot) → List (StagedConfig Value)
  staged_of [] = []
  staged_of ((slot, swap) ∷ prepared) =
      (record { type_id = slot.type_id; path = slot.path; value = proposed (slot, swap) })
      ∷ staged_of prepared

  -- The swaps of the third phase
  abbrev pub committed : Prepared Value Snapshot → ConfigSlot Value Snapshot
  committed (slot, none) = slot
  committed (slot, some (value, snapshot)) = record slot {
    live = value;
    committed_snapshot = snapshot;
  }

  abbrev pub commit_all : List (Prepared Value Snapshot) → List (ConfigSlot Value Snapshot)
  commit_all [] = []
  commit_all (p ∷ prepared) = committed p ∷ commit_all prepared

module _ {Root Value Snapshot : Type 0} where
  unfoldable pub prepare :
      Manager Root Value Snapshot
      → Root
      → ConfigSlot Value Snapshot
      → Result ConfigReloadError (Option (Value × Snapshot))
  prepare m new_root slot =
      if m.snapshot_matches new_root slot.path slot.committed_snapshot
      then ok none
      else swap_of slot (m.get_config_in slot.type_id new_root slot.path)

  -- The loop of the first phase
  unfoldable pub prepare_all :
      Manager Root Value Snapshot
      → Root
      → List (ConfigSlot Value Snapshot)
      → Result ConfigReloadError (List (Prepared Value Snapshot))
  prepare_all m new_root [] = ok []
  prepare_all m new_root (slot ∷ slots) = prepare m new_root slot >>= λ swap.
      prepare_all m new_root slots >>= λ prepared. ok ((slot, swap) ∷ prepared)

  module _ (name : Text) (kind : ℕ) (m : Manager Root Value Snapshot)
      (call : List (StagedConfig Value) → HookDescriptor → Called HookOutcome) where
    -- The second phase
    unfoldable pub consult :
        ConfigReloader Root Value Snapshot → List (Prepared Value Snapshot) → Outcomes
    consult r prepared =
        if has kind r.hooks
        then run name (call (staged_of prepared)) kind
            (hook_targets_changed (changed_paths prepared) (index_bindings r.bindings [])) r.hooks
        else []

    abbrev pub Reloaded : Type 0
    Reloaded = Result ConfigReloadError ConfigReloadReport × ConfigReloader Root Value Snapshot

    -- The third phase
    abbrev pub finish :
        ConfigReloader Root Value Snapshot
        → Root
        → List (Prepared Value Snapshot)
        → Result ConfigReloadError (List ComponentHookReport)
        → Reloaded
    finish r new_root prepared (err why) = (err why, r)
    finish r new_root prepared (ok reports) = (
      ok (record {
        generation = inc64 r.generation;
        changed = changed_of prepared;
        hooks = reports;
      }),
      record r { root = new_root; slots = commit_all prepared; generation = inc64 r.generation },
    )

    abbrev pub after_changed :
        ConfigReloader Root Value Snapshot
        → Root
        → List (Prepared Value Snapshot)
        → List ChangedBinding
        → Reloaded
    after_changed r new_root prepared [] = (
      ok (record { generation = inc64 r.generation; changed = []; hooks = [] }),
      record r { generation = inc64 r.generation },
    )
    after_changed r new_root prepared (binding ∷ changed) =
        finish r new_root prepared (accepted (consult r prepared))

    abbrev pub after_prepare :
        ConfigReloader Root Value Snapshot
        → Root
        → Result ConfigReloadError (List (Prepared Value Snapshot))
        → Reloaded
    after_prepare r new_root (err why) = (err why, r)
    after_prepare r new_root (ok prepared) = after_changed r new_root prepared (changed_of prepared)

    abbrev pub after_reread : ConfigReloader Root Value Snapshot → Result ℕ Root → Reloaded
    after_reread r (err why) = (err (load why), r)
    after_reread r (ok new_root) = after_prepare r new_root (prepare_all m new_root r.slots)

    -- `reload`
    unfoldable pub reload : ConfigReloader Root Value Snapshot → Reloaded
    reload r = after_reread r m.reread
