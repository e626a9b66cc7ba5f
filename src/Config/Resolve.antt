-- ===== src/Config/Resolve.antt =====
-- crates/config/src/resolve.rs: placeholder resolution. A method of `ResolveCtx` is an action: it
-- takes the context and gives it back beside its result, since what was counted or pushed before
-- an error stays. `root` and `resolvers` are borrowed for the whole run and are parameters. A
-- `Resolver` is its `resolve` method. Tracing is left out.
pub mod Actions
pub mod Budget
pub mod Runs
pub mod Precedence
mod Tests
use Actions.{
  Ctx, Action, pure, raise, ◌>>=◌, ◌>>◌, enter, record_resolved, consume_step, consume_bytes,
  max_depth,
}
use overseerd.Base.{
  ℕ, zero, suc, ◌+◌, ◌-◌, ◌/◌, ◌%◌, Bool, true, false, not, ◌&&◌, ◌||◌, Option, none, some, List,
  [], ◌∷◌, ◌++◌, Text, text_eq, length, any_of, leb, ltb, ◌==◌, if◌then◌else◌,
}
use overseerd.Config.Value.{
  Placeholder, Segment, literal, placeholder, ConfigStr, ℤ, pos, negsuc, ConfigValue, null, bool,
  int, float, str, array, table, missing_placeholder, unknown_namespace_key, not_string_renderable,
  resolution_cycle, resolution_depth_exceeded, out_of_fuel, lookup_path,
}

abbrev pub Resolver : Type 0
Resolver = Text → Option Text

-- `ResolverChain::resolve`: the first resolver that has a value.
pub chain_resolve : List Resolver → Text → Option Text
chain_resolve [] key = none
chain_resolve (r ∷ rest) key = elim (r key) [ some v ↦ some v | none ↦ chain_resolve rest key ]

-- `is_screaming`
pub is_screaming : Text → Bool
is_screaming key =
    any_of (λ c. leb b'A' c && leb c b'Z') key && not (any_of (λ c. leb b'a' c && leb c b'z') key)

-- `key.starts_with('@')`
pub is_namespace : Text → Bool
is_namespace [] = false
is_namespace (c ∷ cs) = c == b'@'

-- `len` of a `String`: the bytes of UTF-8.
byte_len : Text → ℕ
byte_len [] = 0
byte_len (c ∷ cs) =
    (if ltb c 0x80 then 1 else if ltb c 0x800 then 2 else if ltb c 0x1_0000 then 3 else 4)
    + byte_len cs

-- The decimal digits of a number, on as much fuel as it has digits. An `i128` has 39 at most.
abbrev digits : ℕ → ℕ → Text
digits zero n = []
digits (suc fuel) n =
    let front = digits fuel (n / 10) in
    if ltb n 10 then (b'0' + n) ∷ [] else front ++ (b'0' + n % 10) ∷ []

-- `n.to_string()`
display_int : ℤ → Text
display_int (pos n) = digits 40 n
display_int (negsuc n) = b'-' ∷ digits 40 (n + 1)

-- `b.to_string()`
abbrev display_bool : Bool → Text
display_bool true = b't' ∷ b'r' ∷ b'u' ∷ b'e' ∷ []
display_bool false = b'f' ∷ b'a' ∷ b'l' ∷ b's' ∷ b'e' ∷ []

-- The loop of `render_str`, from what is rendered so far. `resolve` is `resolve_placeholder`.
render_segments : (Placeholder → Action Text) → Text → List Segment → Action Text
unfolding byte_len
render_segments resolve out [] = pure out
render_segments resolve out (literal t ∷ segments) = do
  consume_bytes (byte_len t)
  render_segments resolve (out ++ t) segments
render_segments resolve out (placeholder p ∷ segments) = do
  value ← resolve p
  consume_bytes (byte_len value)
  render_segments resolve (out ++ value) segments

-- `render_str`
render_str : (Placeholder → Action Text) → ConfigStr → Action Text
unfolding render_segments
render_str resolve s = render_segments resolve [] s.segments

-- The end of `resolve_placeholder`: the value, the inline default, or an error.
settle : Placeholder → Option Text → Option Text → Action Text
settle p (some value) default = do record_resolved p value; pure value
settle p none (some default) = do record_resolved p default; pure default
settle p none none =
    if is_namespace p.key
    then raise (unknown_namespace_key p.key)
    else raise (missing_placeholder p.key)

-- The guards of `resolve_placeholder`
guard : Placeholder → Action Unit
guard p ctx =
    if leb max_depth (length ctx.in_flight)
    then raise (resolution_depth_exceeded max_depth) ctx
    else if any_of (λ key. text_eq key p.key) ctx.in_flight
    then raise (resolution_cycle ctx.in_flight p.key) ctx
    else pure tt ctx

-- `f.to_string()` on the bits of an `f64` is a parameter: there are no floats here.
module _ (display_f64 : ℕ → Text) (root : ConfigValue) (resolvers : List Resolver) where
  -- `render_node_as_string`
  render_node : (Placeholder → Action Text) → ConfigValue → Text → Action Text
  unfolding display_int
  render_node resolve (str s) key = render_str resolve s
  render_node resolve (bool b) key = pure (display_bool b)
  render_node resolve (int n) key = pure (display_int n)
  render_node resolve (float f) key = pure (display_f64 f)
  render_node resolve _ key = raise (not_string_renderable key)

  -- `resolve_config_path`, once the path is looked up
  render_found : (Placeholder → Action Text) → Text → Option ConfigValue → Action (Option Text)
  render_found resolve key none = pure none
  render_found resolve key (some node) = enter key (render_node resolve node key)

  config_path : (Placeholder → Action Text) → Text → Action (Option Text)
  unfolding render_found
  config_path resolve key = render_found resolve key (lookup_path root key)

  -- `resolve_path_then_env`, once the path is resolved
  or_env : Text → Option Text → Action (Option Text)
  or_env key (some value) = pure (some value)
  or_env key none = pure (chain_resolve resolvers key)

  path_then_env : (Placeholder → Action Text) → Text → Action (Option Text)
  unfolding or_env
  path_then_env resolve key = do found ← config_path resolve key; or_env key found

  -- `resolve_env_then_path`, once the resolvers are asked
  or_path : (Placeholder → Action Text) → Text → Option Text → Action (Option Text)
  or_path resolve key (some value) = pure (some value)
  or_path resolve key none = config_path resolve key

  env_then_path : (Placeholder → Action Text) → Text → Action (Option Text)
  unfolding or_path
  env_then_path resolve key = or_path resolve key (chain_resolve resolvers key)

  -- The choice of the source by the form of the key
  resolve_key : (Placeholder → Action Text) → Text → Action (Option Text)
  resolve_key resolve key =
      if is_namespace key
      then pure (chain_resolve resolvers key)
      else if any_of (λ c. c == b'.') key
      then path_then_env resolve key
      else if is_screaming key
      then env_then_path resolve key
      else path_then_env resolve key

  -- `resolve_placeholder`, on fuel for the references that it follows
  pub resolve_placeholder : ℕ → Placeholder → Action Text
  unfolding settle guard resolve_key path_then_env env_then_path config_path render_node
      chain_resolve is_namespace is_screaming
  resolve_placeholder zero p = raise out_of_fuel
  resolve_placeholder (suc fuel) p = do
    consume_step
    guard p
    resolved ← resolve_key (resolve_placeholder fuel) p.key
    settle p resolved p.default
