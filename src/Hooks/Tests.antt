-- ===== src/Hooks/Tests.antt =====
-- Three hooks of one kind and one of another.
use overseerd.Base.{ℕ, ◌≡◌, refl, true, List, [], ◌∷◌, map, keep_if, ok, err, ◌==◌, if◌then◌else◌}
use overseerd.Hooks.{
  HookDescriptor, Called, gave, failed, call_panicked, other, new, invoke_hook, run, run_first,
  run_until_error, component_has, push_all, push_hook,
}
use overseerd.Hooks.Running.{of_kind, up_to_error, run_until_error-run}

abbrev hook_of : ℕ → ℕ → HookDescriptor
hook_of component kind_ty = record {
  ordinal = 0;
  component_ty = record { name = component ∷ []; type_name = component ∷ []; type_id = component };
  kind = [];
  kind_ty = kind_ty;
  dependencies = [];
}

abbrev hooks : List HookDescriptor
hooks = hook_of 1 7 ∷ hook_of 2 8 ∷ hook_of 3 7 ∷ hook_of 4 7 ∷ []

abbrev by_type : ℕ → Called ℕ
by_type n = if n == 3 then failed (other 9) else (if n == 4 then call_panicked else gave n)

abbrev call : HookDescriptor → Called ℕ
call hook = by_type hook.component_ty.type_id

stopped :
    run_until_error [] call 7 (λ hook. true) (new hooks)
    ≡ (hook_of 1 7, ok 1) ∷ (hook_of 3 7, err (other 9)) ∷ []
unfolding run_until_error run_first push_all push_hook invoke_hook
stopped = refl

declared : component_has 7 3 (new hooks) ≡ true
unfolding component_has push_all push_hook
declared = refl

run_until_error-run_example :
    (run [] call 7 (λ hook. true) (new hooks)
      ≡ map
          (λ (hook : HookDescriptor). (hook, invoke_hook [] call hook))
          (keep_if (λ hook. true) (of_kind 7 hooks)))
    × (run_until_error [] call 7 (λ hook. true) (new hooks)
        ≡ up_to_error (run [] call 7 (λ hook. true) (new hooks)))
run_until_error-run_example = run_until_error-run [] call 7 (λ hook. true) hooks
