-- ===== src/Config/Resolve/Budget.antt =====
-- The stack, the budgets and the fuel of `resolve_placeholder`, crates/config/src/resolve.rs.
use overseerd.Base.{
  ℕ, zero, suc, ◌+◌, ◌≤◌, ◌≡◌, refl, ◌∙◌, ap, true, Bool-cases, inl, inr, Option, none, some, List,
  [], ◌∷◌, ◌++◌, Text, length, length-append, leb, any_of, ◌==◌, Result, ok, err, arith,
}
use overseerd.Config.Value.{
  Placeholder, Segment, literal, placeholder, ConfigStr, ConfigValue, lookup_path, bool, int, float,
  str, TemplateErrorKind,
}
use overseerd.Config.Resolve.Actions.{Ctx, Action, ◌>>=◌, enter, pop, some_of, max_depth}
use overseerd.Config.Resolve.{
  Resolver, chain_resolve, is_namespace, render_segments, render_str, render_node, config_path,
  render_found, or_path, is_screaming, path_then_env, env_then_path, resolve_key, settle, guard,
  resolve_placeholder,
}
use overseerd.Config.Resolve.Runs.{
  sound_rules, Ran, IsWithin, Sound, Sound-pure, Sound-raise, Sound-bind, Sound-consume_step,
  Sound-consume_bytes,
}

Sound-settle :
    {d : ℕ} (p : Placeholder) (found default : Option Text) → Sound d (settle p found default)
unfolding settle
Sound-settle p (some value) default = search sound_rules
Sound-settle p none (some default) = search sound_rules
Sound-settle p none none = elim (Bool-cases (is_namespace p.key)) [
  | inl yes' ↦ rw yes' (Sound-raise _ (λ h. cc))
  | inr no' ↦ rw no' (Sound-raise _ (λ h. cc))
]

pop-snoc : (l : List Text) (k : Text) → pop (l ++ k ∷ []) ≡ l
pop-snoc [] k = refl
pop-snoc (x ∷ []) k = refl
pop-snoc (x ∷ y ∷ l) k = ap (λ t. x ∷ t) (pop-snoc (y ∷ l) k)

abbrev push : Text → Ctx → Ctx
push key ctx = record ctx { in_flight = ctx.in_flight ++ key ∷ [] }

popped :
    (key : Text) (ctx : Ctx) (r : Result TemplateErrorKind Text) (after : Ctx)
    → Ran (push key ctx) r after
    → Ran ctx (some_of r) (record after { in_flight = pop after.in_flight })
popped key ctx (ok value) after ran = record {
  stack = ap pop ran.stack ∙ pop-snoc ctx.in_flight key;
  steps_grow = ran.steps_grow;
  bytes_grow = ran.bytes_grow;
  steps_bound = ran.steps_bound;
  fuelled = λ p. cc;
  within = record { steps = ran.within.steps; bytes = ran.within.bytes };
}
popped key ctx (err e) after ran = record {
  stack = ap pop ran.stack ∙ pop-snoc ctx.in_flight key;
  steps_grow = ran.steps_grow;
  bytes_grow = ran.bytes_grow;
  steps_bound = ran.steps_bound;
  fuelled = λ p. ran.fuelled (cc);
  within = tt;
}

Sound-enter :
    {d : ℕ} (key : Text) (body : Action Text) → Sound (suc d) body → Sound d (enter key body)
unfolding enter
Sound-enter key body sound = record {
  at = λ ctx l w. popped key ctx (body (push key ctx)).0 (body (push key ctx)).1 (
      sound.at (push key ctx) (omega (arith, length-append ctx.in_flight (key ∷ [])))
        (record { steps = w.steps; bytes = w.bytes }));
}

module _ {d : ℕ} (resolve : Placeholder → Action Text)
    (sound : (p : Placeholder) → Sound d (resolve p)) where
  Sound-render_segments :
      (out : Text) (segments : List Segment) → Sound d (render_segments resolve out segments)
  unfolding render_segments
  Sound-render_segments out [] = search sound_rules
  Sound-render_segments out (literal t ∷ segments) =
      Sound-bind _ _ (Sound-consume_bytes _) (λ _. Sound-render_segments (out ++ t) segments)
  Sound-render_segments out (placeholder p ∷ segments) = Sound-bind _ _ (sound p) λ value.
      Sound-bind _ _ (Sound-consume_bytes _) λ _. Sound-render_segments (out ++ value) segments

  Sound-render_str : (s : ConfigStr) → Sound d (render_str resolve s)
  unfolding render_str
  Sound-render_str s = Sound-render_segments [] s.segments

Sound-guard : {d : ℕ} (p : Placeholder) → Sound d (guard p)
unfolding guard
Sound-guard p = record { at = λ ctx l w. ground (arith, w.steps, w.bytes) }

-- At the last depth the guard raises its error, whatever would come after it.
Sound-guard_deep :
    {d : ℕ} (p : Placeholder) (rest : Unit → Action Text)
    → max_depth ≤ d
    → Sound d (guard p >>= rest)
unfolding guard
Sound-guard_deep p rest deep = record {
  at = λ ctx l w.
      let full : leb max_depth (length ctx.in_flight) ≡ true = ground arith in
      rw full (ground (arith, w.steps, w.bytes));
}

module _ (display_f64 : ℕ → Text) (root : ConfigValue) (resolvers : List Resolver) where
  module _ {d : ℕ} (resolve : Placeholder → Action Text)
      (sound : (p : Placeholder) → Sound (suc d) (resolve p)) where
    Sound-render_node :
        (node : ConfigValue) (key : Text)
        → Sound (suc d) (render_node display_f64 root resolvers resolve node key)
    unfolding render_node
    Sound-render_node (str s) key = Sound-render_str resolve sound s
    Sound-render_node (bool b) key = search sound_rules
    Sound-render_node (int n) key = search sound_rules
    Sound-render_node (float f) key = search sound_rules
    Sound-render_node _ key = Sound-raise _ (λ h. cc)

    Sound-config_path : (key : Text) → Sound d (config_path display_f64 root resolvers resolve key)
    unfolding config_path
    Sound-config_path key = found (lookup_path root key)
      where
        found :
            (o : Option ConfigValue)
            → Sound d (render_found display_f64 root resolvers resolve key o)
        found none = Sound-pure none
        found (some node) = Sound-enter key _ (Sound-render_node node key)

    Sound-path_then_env :
        (key : Text) → Sound d (path_then_env display_f64 root resolvers resolve key)
    unfolding path_then_env
    Sound-path_then_env key =
        Sound-bind _ _ (Sound-config_path key)
          (elim [ none ↦ Sound-pure _ | some value ↦ Sound-pure _ ])

    Sound-env_then_path :
        (key : Text) → Sound d (env_then_path display_f64 root resolvers resolve key)
    unfolding env_then_path
    Sound-env_then_path key = asked (chain_resolve resolvers key)
      where
        asked : (o : Option Text) → Sound d (or_path display_f64 root resolvers resolve key o)
        asked (some value) = Sound-pure _
        asked none = Sound-config_path key

    Sound-resolve_key : (key : Text) → Sound d (resolve_key display_f64 root resolvers resolve key)
    unfolding resolve_key
    Sound-resolve_key key = elim (Bool-cases (is_namespace key)) [
      | inl a ↦ rw a (Sound-pure _)
      | inr a ↦ elim (Bool-cases (any_of (λ c. c == b'.') key)) [
        | inl b ↦ rw (a, b) (Sound-path_then_env key)
        | inr b ↦ elim (Bool-cases (is_screaming key)) [
          | inl c ↦ rw (a, b, c) (Sound-env_then_path key)
          | inr c ↦ rw (a, b, c) (Sound-path_then_env key)
        ]
      ]
    ]

  -- Fuel for the depths that are left is enough: at the last depth the guard raises its error.
  Sound-resolve_placeholder :
      (fuel d : ℕ)
      → max_depth ≤ d + fuel
      → (p : Placeholder) → Sound d (resolve_placeholder display_f64 root resolvers (suc fuel) p)
  unfolding resolve_placeholder
  Sound-resolve_placeholder zero d h p =
      Sound-bind _ _ Sound-consume_step (λ _. Sound-guard_deep p _ (omega arith))
  Sound-resolve_placeholder (suc fuel) d h p = Sound-bind _ _ Sound-consume_step λ _.
      Sound-bind _ _ (Sound-guard p) λ _.
        Sound-bind _ _
          (Sound-resolve_key _ (Sound-resolve_placeholder fuel (suc d) (omega arith)) p.key)
          (λ resolved. Sound-settle p resolved p.default)

  -- From a context within the budgets, with fuel for every depth that is left,
  -- `resolve_placeholder`
  -- never runs out of fuel; it gives back the stack of keys as it was, also after an error; its
  -- counters grow, the steps to one past their limit at most; and if it succeeds, both counters are
  -- within their limits.
  pub resolve_placeholder-Ran :
      (fuel : ℕ) (ctx : Ctx) (p : Placeholder)
      → max_depth ≤ length ctx.in_flight + fuel
      → IsWithin ctx
      → let out = resolve_placeholder display_f64 root resolvers (suc fuel) p ctx in
        Ran ctx out.0 out.1
  resolve_placeholder-Ran fuel ctx p h w =
      (Sound-resolve_placeholder fuel (length ctx.in_flight) h p).at ctx refl w
