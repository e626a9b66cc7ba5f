-- ===== src/Config/Resolve/Runs.antt =====
-- Actions that keep the stack and the budgets, crates/config/src/resolve.rs.
use overseerd.Base.{ℕ, ◌+◌, ◌≤◌, ◌≡◌, ◌≢◌, ◌∙◌, ap, Text, length, Result, ok, err, arith}
use overseerd.Config.Value.{Placeholder, TemplateErrorKind, out_of_fuel}
use overseerd.Config.Resolve.Actions.{
  Ctx, Action, pure, raise, ◌>>=◌, continue, record_resolved, consume_step, consume_bytes,
  max_steps, max_bytes,
}

-- Within the budgets
pub record IsWithin (ctx : Ctx) : Type 0 where
  pub steps : ctx.resolution_steps ≤ max_steps
  pub bytes : ctx.rendered_bytes ≤ max_bytes

abbrev pub OnOk : {A : Type 0} → Type 0 → Result TemplateErrorKind A → Type 0
OnOk P (ok _) = P
OnOk P (err _) = Unit

-- A run from `ctx` that ended with `r` in `after`
pub record Ran {A : Type 0} (ctx : Ctx) (r : Result TemplateErrorKind A) (after : Ctx)
    : Type 0 where
  pub stack : after.in_flight ≡ ctx.in_flight
  pub steps_grow : ctx.resolution_steps ≤ after.resolution_steps
  pub bytes_grow : ctx.rendered_bytes ≤ after.rendered_bytes
  pub steps_bound : after.resolution_steps ≤ max_steps + 1
  pub fuelled : r ≢ err out_of_fuel
  pub within : OnOk (IsWithin after) r

-- Every run of `m` from the depth `d` within the budgets is such a run.
pub record Sound {A : Type 0} (d : ℕ) (m : Action A) : Type 0 where
  pub at : (ctx : Ctx) → length ctx.in_flight ≡ d → IsWithin ctx → Ran ctx (m ctx).0 (m ctx).1

module _ {A : Type 0} {d : ℕ} where
  pub Sound-pure : (a : A) → Sound d (pure a)
  Sound-pure a = record { at = λ ctx e w. ground (arith, w.steps, w.bytes) }

  pub Sound-raise : (e : TemplateErrorKind) → e ≢ out_of_fuel → Sound d (raise {A = A} e)
  Sound-raise e other = record { at = λ ctx l w. ground (arith, w.steps, w.bytes) }

module _ {A B : Type 0} where
  -- A run goes on from where the first action ended.
  Ran-trans :
      {ctx mid after : Ctx} {a : A} {r : Result TemplateErrorKind B}
      → Ran ctx (ok a) mid
      → Ran mid r after
      → Ran ctx r after
  Ran-trans first next = record {
    stack = next.stack ∙ first.stack;
    steps_grow = omega (arith, first.steps_grow, next.steps_grow);
    bytes_grow = omega (arith, first.bytes_grow, next.bytes_grow);
    steps_bound = next.steps_bound;
    fuelled = next.fuelled;
    within = next.within;
  }

  Ran-err :
      {ctx after : Ctx} (e : TemplateErrorKind)
      → Ran {A = A} ctx (err e) after
      → Ran {A = B} ctx (err e) after
  Ran-err e ran = record {
    stack = ran.stack;
    steps_grow = ran.steps_grow;
    bytes_grow = ran.bytes_grow;
    steps_bound = ran.steps_bound;
    fuelled = λ p. ran.fuelled (cc);
    within = tt;
  }

module _ {A B : Type 0} {d : ℕ} where
  continue-Ran :
      {ctx after : Ctx} (r : Result TemplateErrorKind A) (f : A → Action B)
      → length ctx.in_flight ≡ d
      → Ran ctx r after
      → ((a : A) → Sound d (f a))
      → Ran ctx (continue r f after).0 (continue r f after).1
  continue-Ran (ok a) f l ran h = Ran-trans ran ((h a).at _ (ap length ran.stack ∙ l) ran.within)
  continue-Ran (err e) f l ran h = Ran-err e ran

  pub Sound-bind :
      (m : Action A) (f : A → Action B) → Sound d m → ((a : A) → Sound d (f a)) → Sound d (m >>= f)
  Sound-bind m f sm sf = record { at = λ ctx l w. continue-Ran (m ctx).0 f l (sm.at ctx l w) sf }

pub Sound-consume_step : {d : ℕ} → Sound d consume_step
unfolding consume_step
Sound-consume_step = record { at = λ ctx l w. ground (arith, w.steps, w.bytes) }

pub Sound-consume_bytes : {d : ℕ} (n : ℕ) → Sound d (consume_bytes n)
unfolding consume_bytes
Sound-consume_bytes n = record { at = λ ctx l w. ground (arith, w.steps, w.bytes) }

pub Sound-record_resolved :
    {d : ℕ} (p : Placeholder) (value : Text) → Sound d (record_resolved p value)
unfolding record_resolved
Sound-record_resolved p value = record { at = λ ctx l w. ground (arith, w.steps, w.bytes) }

pub ruleset sound_rules = (
  Sound-pure, Sound-raise, Sound-bind, Sound-consume_step, Sound-consume_bytes,
  Sound-record_resolved,
)
