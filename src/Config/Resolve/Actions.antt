-- ===== src/Config/Resolve/Actions.antt =====
-- `ResolveCtx` of crates/config/src/resolve.rs, and the actions over it.
use overseerd.Base.{
  ℕ, ◌+◌, ◌-◌, ◌^◌, Option, some, List, [], ◌∷◌, ◌++◌, Text, Result, ok, err, ltb, min,
  if◌then◌else◌,
}
use overseerd.Config.Value.{
  Placeholder, TemplateErrorKind, resolution_budget_exceeded, rendered_output_too_large,
}

-- `ResolvedDependency`
pub record ResolvedDependency : Type 0 where
  pub source : Placeholder
  pub value : Text

-- The fields of `ResolveCtx` that change
pub record Ctx : Type 0 where
  pub in_flight : List Text
  pub resolution_steps : ℕ
  pub rendered_bytes : ℕ
  pub resolved : List ResolvedDependency

-- `MAX_RESOLUTION_DEPTH`
abbrev pub max_depth : ℕ
max_depth = 64

-- `MAX_DESERIALIZATION_RESOLUTION_STEPS`
abbrev pub max_steps : ℕ
max_steps = 4096

-- `MAX_DESERIALIZATION_RENDERED_BYTES`
abbrev pub max_bytes : ℕ
max_bytes = 1048576

-- `usize` has 64 bits.
abbrev pub usize_max : ℕ
usize_max = 2 ^ 64 - 1

abbrev pub saturating_add : ℕ → ℕ → ℕ
saturating_add a b = min (a + b) usize_max

abbrev pub Action : Type 0 → Type 0
Action A = Ctx → Result TemplateErrorKind A × Ctx

module _ {A : Type 0} where
  abbrev pub pure : A → Action A
  pure a ctx = (ok a, ctx)

  abbrev pub raise : TemplateErrorKind → Action A
  raise e ctx = (err e, ctx)

abbrev pub get : Action Ctx
get ctx = (ok ctx, ctx)

module _ {A B : Type 0} where
  abbrev pub continue : Result TemplateErrorKind A → (A → Action B) → Action B
  continue (ok a) f ctx = f a ctx
  continue (err e) f ctx = (err e, ctx)

  infixl 5 ◌>>=◌ ◌>>◌
  abbrev pub ◌>>=◌ : Action A → (A → Action B) → Action B
  ◌>>=◌ m f ctx = let (r, after) = m ctx in continue r f after

  abbrev pub ◌>>◌ : Action A → Action B → Action B
  m >> n = m >>= λ _. n

-- `consume_step`
unfoldable pub consume_step : Action Unit
consume_step ctx =
    let steps = saturating_add ctx.resolution_steps 1 in
    (
      if ltb max_steps steps then err (resolution_budget_exceeded max_steps) else ok tt,
      record ctx { resolution_steps = steps },
    )

-- `consume_bytes`
unfoldable pub consume_bytes : ℕ → Action Unit
consume_bytes bytes ctx =
    let total = saturating_add ctx.rendered_bytes bytes in
    (
      if ltb max_bytes total then err (rendered_output_too_large max_bytes) else ok tt,
      record ctx { rendered_bytes = total },
    )

-- `record_resolved`
unfoldable pub record_resolved : Placeholder → Text → Action Unit
record_resolved p value ctx =
    (ok tt, record ctx { resolved = ctx.resolved ++ record { source = p; value = value } ∷ [] })

-- `in_flight.pop()`
abbrev pub pop : List Text → List Text
pop [] = []
pop (k ∷ []) = []
pop (k ∷ l ∷ rest) = k ∷ pop (l ∷ rest)

abbrev pub some_of : Result TemplateErrorKind Text → Result TemplateErrorKind (Option Text)
some_of (ok value) = ok (some value)
some_of (err e) = err e

-- `push`, the rendering, `pop` also after an error, and `rendered.map(Some)`
unfoldable pub enter : Text → Action Text → Action (Option Text)
enter key body ctx =
    let (rendered, after) = body (record ctx { in_flight = ctx.in_flight ++ key ∷ [] }) in
    (some_of rendered, record after { in_flight = pop after.in_flight })
