-- ===== src/Hooks.antt =====
-- crates/hooks/src/lib.rs: the hooks of a kind and how they are run. A hook's call is a parameter that
-- gives, for a descriptor, what becomes of the call on the context of the run; the resolver context
-- is in it. Types are numbers.
pub mod Running
mod Tests
use overseerd.Base.{
  ℕ, Bool, true, false, Option, none, some, List, [], ◌∷◌, ◌++◌, map, any_of, keep_if, ◌==◌, get,
  if◌then◌else◌, Text, Result, ok, err,
}
use overseerd.Di.Construction.{DependencyDescriptor}
use overseerd.Di.Descriptors.{TypeDescriptor}

-- `Error`; an application's own error is a number.
pub data HookError : Type 0 where
  missing_receiver missing_param : Text → HookError
  panicked invalid_output : Text → Text → HookError
  other : ℕ → HookError

-- `HookDescriptor`, its call left out
pub record HookDescriptor : Type 0 where
  pub ordinal : ℕ
  pub component_ty : TypeDescriptor
  pub kind : Text
  pub kind_ty : ℕ
  pub dependencies : List DependencyDescriptor

-- What becomes of a call: it panics, before or within its future; it fails; or it gives a boxed value,
-- which is of the kind's output type or of another.
pub data Called (Output : Type 0) : Type 0 where
  call_panicked future_panicked other_type : Called Output
  failed : HookError → Called Output
  gave : Output → Called Output

-- `HookManager`: the hooks by kind. Kinds stand in the order in which they were first seen.
abbrev pub HookManager : Type 0
HookManager = List (ℕ × List HookDescriptor)

-- `by_kind.entry(kind).or_default().push(hook)`
unfoldable pub push_hook : HookDescriptor → HookManager → HookManager
push_hook hook [] = (hook.kind_ty, hook ∷ []) ∷ []
push_hook hook ((kind, hooks) ∷ by_kind) =
    let rest = push_hook hook by_kind in
    if kind == hook.kind_ty then (kind, hooks ++ hook ∷ []) ∷ by_kind else (kind, hooks) ∷ rest

-- The loop of `new`
unfoldable pub push_all : List HookDescriptor → HookManager → HookManager
push_all [] by_kind = by_kind
push_all (hook ∷ hooks) by_kind = push_all hooks (push_hook hook by_kind)

abbrev pub new : List HookDescriptor → HookManager
new hooks = push_all hooks []

-- `has`
unfoldable pub has : ℕ → HookManager → Bool
has kind by_kind = elim (get kind by_kind) [ none ↦ false | some hooks ↦ true ]

-- `component_has`
unfoldable pub component_has : ℕ → ℕ → HookManager → Bool
component_has kind component by_kind = elim (get kind by_kind) [
  | none ↦ false
  | some hooks ↦ any_of (λ (hook : HookDescriptor). hook.component_ty.type_id == component) hooks
]

-- The bucket of a kind
abbrev pub bucket : ℕ → HookManager → List HookDescriptor
bucket kind by_kind = elim (get kind by_kind) [ none ↦ [] | some hooks ↦ hooks ]

module _ {Output : Type 0} (name : Text) (call : HookDescriptor → Called Output) where
  -- `invoke_hook`, where `name` is the kind's
  abbrev pub outcome_of : HookDescriptor → Called Output → Result HookError Output
  outcome_of hook call_panicked = err (panicked name hook.component_ty.name)
  outcome_of hook future_panicked = err (panicked name hook.component_ty.name)
  outcome_of hook (failed why) = err why
  outcome_of hook other_type = err (invalid_output name hook.component_ty.name)
  outcome_of hook (gave output) = ok output

  unfoldable pub invoke_hook : HookDescriptor → Result HookError Output
  invoke_hook hook = outcome_of hook (call hook)

  -- `run`: the hooks run side by side, and their outcomes are in the order of registration.
  unfoldable pub run :
      ℕ → (HookDescriptor → Bool) → HookManager → List (HookDescriptor × Result HookError Output)
  run kind filter by_kind =
      map (λ (hook : HookDescriptor). (hook, invoke_hook hook))
        (keep_if filter (bucket kind by_kind))

  abbrev pub is_err : Result HookError Output → Bool
  is_err (ok output) = false
  is_err (err why) = true

  -- `run_until_error`
  unfoldable pub run_first :
      (HookDescriptor → Bool)
      → List HookDescriptor
      → List (HookDescriptor × Result HookError Output)
  run_first filter [] = []
  run_first filter (hook ∷ hooks) =
      let rest = run_first filter hooks in
      let outcome = invoke_hook hook in
      if filter hook then (hook, outcome) ∷ (if is_err outcome then [] else rest) else rest

  unfoldable pub run_until_error :
      ℕ → (HookDescriptor → Bool) → HookManager → List (HookDescriptor × Result HookError Output)
  run_until_error kind filter by_kind = run_first filter (bucket kind by_kind)
