-- ===== src/Config/Slots.antt =====
-- crates/config/src/managed/reload.rs: the state of a reloader, and which hooks a change concerns.
use overseerd.Base.{
  ℕ, Bool, false, not, Option, none, some, List, [], ◌∷◌, ◌++◌, any_of, ◌==◌, get, if◌then◌else◌,
  Text, text_eq, Result,
}
use overseerd.Di.Construction.{DependencyDescriptor}
use overseerd.Hooks.{HookDescriptor, HookError, HookManager}

-- `HookOutcome`
pub data HookOutcome : Type 0 where
  unchanged reloaded : HookOutcome
  restart_required : Text → HookOutcome

-- `ConfigReloadError`, with the errors of the manager as numbers
pub data ConfigReloadError : Type 0 where
  load : ℕ → ConfigReloadError
  bind : Text → Text → ℕ → ConfigReloadError
  hook : Text → HookError → ConfigReloadError
  panicked : ConfigReloadError

-- What a binding's deserialization gives
pub data Bound (Value Snapshot : Type 0) : Type 0 where
  bound : Value → Snapshot → Bound Value Snapshot
  refused : ℕ → Bound Value Snapshot
  panics : Bound Value Snapshot

-- The manager, as far as a reload calls it
pub record Manager (Root Value Snapshot : Type 0) : Type 0 where
  pub reread : Result ℕ Root
  pub snapshot_matches : Root → Text → Snapshot → Bool
  pub get_config_in : ℕ → Root → Text → Bound Value Snapshot

-- `ConfigSlot` with the cells that it shares with its `Cfg`
pub record ConfigSlot (Value Snapshot : Type 0) : Type 0 where
  pub path : Text
  pub type_name : Text
  pub type_id : ℕ
  pub live : Value
  pub committed_snapshot : Snapshot

-- `StagedConfig`
pub record StagedConfig (Value : Type 0) : Type 0 where
  pub type_id : ℕ
  pub path : Text
  pub value : Value

-- `ChangedBinding`, `ComponentHookReport` and `ConfigReloadReport`
pub record ChangedBinding : Type 0 where
  pub path : Text
  pub type_name : Text

pub record ComponentHookReport : Type 0 where
  pub component : Text
  pub outcome : HookOutcome

pub record ConfigReloadReport : Type 0 where
  pub generation : ℕ
  pub changed : List ChangedBinding
  pub hooks : List ComponentHookReport

-- `ConfigReloader`, with the tree and the bindings of its manager, a binding being its type and path
pub record ConfigReloader (Root Value Snapshot : Type 0) : Type 0 where
  pub root : Root
  pub bindings : List (ℕ × Text)
  pub slots : List (ConfigSlot Value Snapshot)
  pub hooks : HookManager
  pub generation : ℕ

-- `bindings_by_type_index`
abbrev pub push_binding : ℕ → Text → List (ℕ × List Text) → List (ℕ × List Text)
push_binding type_id path [] = (type_id, path ∷ []) ∷ []
push_binding type_id path ((other, paths) ∷ index) =
    let rest = push_binding type_id path index in
    if other == type_id then (other, paths ++ path ∷ []) ∷ index else (other, paths) ∷ rest

abbrev pub index_bindings : List (ℕ × Text) → List (ℕ × List Text) → List (ℕ × List Text)
index_bindings [] index = index
index_bindings ((type_id, path) ∷ bindings) index =
    index_bindings bindings (push_binding type_id path index)

-- `changed_paths.contains`
abbrev pub has_path : Text → List Text → Bool
has_path path paths = any_of (text_eq path) paths

-- `hook_targets_changed`
abbrev pub sole_changed : List Text → Option (List Text) → Bool
sole_changed changed_paths (some (path ∷ [])) = has_path path changed_paths
sole_changed changed_paths _ = false

unfoldable pub targets : List Text → List (ℕ × List Text) → DependencyDescriptor → Bool
targets changed_paths index dep = if not dep.config then false else elim dep.qualifier [
  | some path ↦ has_path path changed_paths
  | none ↦ sole_changed changed_paths (get dep.ty.type_id index)
]

unfoldable pub hook_targets_changed : List Text → List (ℕ × List Text) → HookDescriptor → Bool
hook_targets_changed changed_paths index h = any_of (targets changed_paths index) h.dependencies
