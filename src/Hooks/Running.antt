-- ===== src/Hooks/Running.antt =====
-- What the runs of the hooks amount to, crates/hooks/src/lib.rs.
use overseerd.Base.{
  ℕ, ◌≡◌, refl, ap, ◌∙◌, sym, Bool, Bool-cases, false, true, get, none, some, Option, inl, inr,
  List, [], ◌∷◌, ◌++◌, map, append_assoc, append-nil, keep_if, ◌==◌, if◌then◌else◌, Text, Result,
  ok, err, arith,
}
use overseerd.Hooks.{
  has, HookDescriptor, HookManager, HookError, Called, push_hook, push_all, new, bucket,
  invoke_hook, run, is_err, run_first, run_until_error,
}

abbrev pub of_kind : ℕ → List HookDescriptor → List HookDescriptor
of_kind kind hooks = keep_if (λ (hook : HookDescriptor). hook.kind_ty == kind) hooks

bucket-push_hook :
    (kind : ℕ) (hook : HookDescriptor) (by_kind : HookManager)
    → bucket kind (push_hook hook by_kind)
      ≡ (if hook.kind_ty == kind then bucket kind by_kind ++ hook ∷ [] else bucket kind by_kind)
unfolding push_hook
bucket-push_hook kind hook [] = ground arith
bucket-push_hook kind hook ((other, hooks) ∷ by_kind) =
    ground (arith, bucket-push_hook kind hook by_kind)

bucket-push_all :
    (kind : ℕ) (hooks : List HookDescriptor) (by_kind : HookManager)
    → bucket kind (push_all hooks by_kind) ≡ bucket kind by_kind ++ of_kind kind hooks
unfolding push_all
bucket-push_all kind [] by_kind = sym (append-nil (bucket kind by_kind))
bucket-push_all kind (hook ∷ hooks) by_kind =
    bucket-push_all kind hooks (push_hook hook by_kind) ∙ elim (Bool-cases (hook.kind_ty == kind)) [
      | inl same ↦
          rw (bucket-push_hook kind hook by_kind, same)
            (append_assoc (bucket kind by_kind) (hook ∷ []) (of_kind kind hooks))
      | inr other ↦ rw (bucket-push_hook kind hook by_kind, other) refl
    ]

-- The outcomes up to and with the first error
abbrev pub up_to_error :
    {A Output : Type 0} → List (A × Result HookError Output) → List (A × Result HookError Output)
up_to_error [] = []
up_to_error ((hook, ok output) ∷ rest) = (hook, ok output) ∷ up_to_error rest
up_to_error ((hook, err why) ∷ rest) = (hook, err why) ∷ []

module _ {Output : Type 0} (name : Text) (call : HookDescriptor → Called Output) where
  run_first-up_to_error :
      (filter : HookDescriptor → Bool) (hooks : List HookDescriptor)
      → run_first name call filter hooks
        ≡ up_to_error (
            map
              (λ (hook : HookDescriptor). (hook, invoke_hook name call hook))
              (keep_if filter hooks))
  unfolding run_first
  run_first-up_to_error filter [] = refl
  run_first-up_to_error filter (hook ∷ hooks) =
      let later = run_first-up_to_error filter hooks in
      elim (Bool-cases (filter hook)) [
        | inr skipped ↦ rw skipped later
        | inl taken ↦ rw taken (after (invoke_hook name call hook) later)
      ]
    where
      after :
          (outcome : Result HookError Output)
          → run_first name call filter hooks
            ≡ up_to_error (
                map
                  (λ (hook : HookDescriptor). (hook, invoke_hook name call hook))
                  (keep_if filter hooks))
          → (hook, outcome)
              ∷ (if is_err name call outcome then [] else run_first name call filter hooks)
            ≡ up_to_error (
                (hook, outcome)
                ∷ map
                    (λ (hook : HookDescriptor). (hook, invoke_hook name call hook))
                    (keep_if filter hooks))
      after (ok output) later =
          ap (λ (rest : List (HookDescriptor × Result HookError Output)). (hook, ok output) ∷ rest)
            later
      after (err why) later = refl

  -- Of the hooks with which a manager was made, `run` gives the outcome of each that is of the kind
  -- and passes the filter, in the order of registration, and `run_until_error` the same up to and
  -- with the first error.
  pub run_until_error-run :
      (kind : ℕ) (filter : HookDescriptor → Bool) (hooks : List HookDescriptor)
      → (run name call kind filter (new hooks)
          ≡ map
              (λ (hook : HookDescriptor). (hook, invoke_hook name call hook))
              (keep_if filter (of_kind kind hooks)))
        × (run_until_error name call kind filter (new hooks)
            ≡ up_to_error (run name call kind filter (new hooks)))
  unfolding run run_until_error
  run_until_error-run kind filter hooks = (
    rw (bucket-push_all kind hooks []) refl,
    run_first-up_to_error filter (bucket kind (new hooks)),
  )

  pub run_unheard :
      (kind : ℕ) (filter : HookDescriptor → Bool) (by_kind : HookManager)
      → has kind by_kind ≡ false
      → run name call kind filter by_kind ≡ []
  unfolding has run
  run_unheard kind filter by_kind unheard = of_bucket (get kind by_kind) unheard
    where
      of_bucket :
          (found : Option (List HookDescriptor))
          → elim found [ none ↦ false | some hooks ↦ true ] ≡ false
          → map {B = HookDescriptor × Result HookError Output}
              (λ (hook : HookDescriptor). (hook, invoke_hook name call hook))
              (keep_if filter (elim found [ none ↦ [] | some hooks ↦ hooks ]))
            ≡ []
      of_bucket none unheard = refl
      of_bucket (some hooks) unheard = cc
