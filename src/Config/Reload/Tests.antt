-- ===== src/Config/Reload/Tests.antt =====
-- A reload of two bindings, of which one has changed; a hook is asked about it.
use overseerd.Base.{
  ℕ, ◌≡◌, refl, false, true, Option, none, some, Text, List, [], ◌∷◌, ok, err, ◌==◌, if◌then◌else◌,
  text_eq,
}
use overseerd.Di.Construction.{DependencyDescriptor, Cardinality, ResolutionMode}
use overseerd.Hooks.{
  HookDescriptor, Called, gave, failed, missing_param, other, new, has, push_all, push_hook, run,
  invoke_hook,
}
use overseerd.Config.Reload.{next, reload, prepare_all, prepare, accepted, consult}
use overseerd.Config.Slots.{
  HookOutcome, reloaded, hook, bound, Manager, ConfigSlot, StagedConfig, ConfigReloader,
  hook_targets_changed, targets,
}
use overseerd.Config.Reload.Transaction.{Transacts, reload-Transacts}

-- A tree gives every path its number.
abbrev manager : Manager (Text → ℕ) ℕ ℕ
manager = record {
  reread = ok (λ path. if text_eq path (2 ∷ []) then 21 else 10);
  snapshot_matches = λ root path snapshot. root path == snapshot;
  get_config_in = λ type_id root path. bound (root path) (root path);
}

abbrev slot : ℕ → ℕ → ConfigSlot ℕ ℕ
slot n value = record {
  path = n ∷ [];
  type_name = n ∷ [];
  type_id = n;
  live = value;
  committed_snapshot = value;
}

abbrev needs_two : DependencyDescriptor
needs_two = record {
  name = 2 ∷ [];
  ty = record { name = 2 ∷ []; type_name = 2 ∷ []; type_id = 2 };
  cardinality = Cardinality.one;
  optional = false;
  dynamic = false;
  qualifier = none;
  config = true;
  resolution = ResolutionMode.eager;
}

abbrev asks : HookDescriptor
asks = record {
  ordinal = 0;
  component_ty = record { name = 9 ∷ []; type_name = 9 ∷ []; type_id = 9 };
  kind = [];
  kind_ty = 7;
  dependencies = needs_two ∷ [];
}

abbrev reloader : ConfigReloader (Text → ℕ) ℕ ℕ
reloader = record {
  root = λ path. if text_eq path (2 ∷ []) then 20 else 10;
  bindings = (1, 1 ∷ []) ∷ (2, 2 ∷ []) ∷ [];
  slots = slot 1 10 ∷ slot 2 20 ∷ [];
  hooks = new (asks ∷ []);
  generation = 4;
}

-- The hook accepts one value.
abbrev answer : ℕ → Option (StagedConfig ℕ) → Called HookOutcome
answer only none = failed (missing_param (2 ∷ []))
answer only (some staged) =
    if staged.value == only then gave reloaded else failed (other staged.value)

abbrev call : ℕ → List (StagedConfig ℕ) → HookDescriptor → Called HookOutcome
call only staged asked = answer only (next 2 none staged)

publishes : ((reload [] 7 manager (call 21) reloader).1).slots ≡ slot 1 10 ∷ slot 2 21 ∷ []
unfolding reload prepare_all prepare accepted consult has push_all push_hook run
    hook_targets_changed targets invoke_hook next
publishes = refl

refuses : (reload [] 7 manager (call 20) reloader) ≡ (err (hook (9 ∷ []) (other 21)), reloader)
unfolding reload prepare_all prepare accepted consult has push_all push_hook run
    hook_targets_changed targets invoke_hook next
refuses = refl

reload-Transacts_example :
    Transacts [] 7 manager (call 21) reloader (reload [] 7 manager (call 21) reloader)
reload-Transacts_example = reload-Transacts [] 7 manager (call 21) reloader
