-- ===== src/Config/Resolve/Precedence.antt =====
-- The sources of a key and the cycle guard, crates/config/src/resolve.rs.
use overseerd.Base.{
  ℕ, suc, ◌+◌, ◌≤◌, ◌<◌, ◌≡◌, true, false, some, List, [], ◌∷◌, ◌++◌, Text, length, leb, ltb,
  any_of, text_eq, text_eq_refl, ◌==◌, err, arith, length-append, Bool, min,
}
use overseerd.Config.Value.{
  Placeholder, Segment, placeholder, ConfigStr, ConfigValue, str, resolution_cycle, lookup_path,
}
use overseerd.Config.Resolve.Actions.{Ctx, consume_step, max_depth, max_steps, enter, usize_max}
use overseerd.Config.Resolve.{Resolver, render_str, is_namespace, resolve_placeholder}

-- A namespace key is never looked up in the tree: whatever the tree and the fuel, its resolution is
-- the same.
pub namespace_ignores_tree :
    (display_f64 : ℕ → Text) (resolvers : List Resolver) (root other : ConfigValue) (fuel fuel' : ℕ)
    (p : Placeholder) (ctx : Ctx)
    → is_namespace p.key ≡ true
    → resolve_placeholder display_f64 root resolvers (suc fuel) p ctx
      ≡ resolve_placeholder display_f64 other resolvers (suc fuel') p ctx
unfolding resolve_placeholder
namespace_ignores_tree display_f64 resolvers root other fuel fuel' p ctx h = rw h

any_of-append {ℓ} :
    {A : Type ℓ} (test : A → Bool) (xs : List A) (y : A)
    → test y ≡ true
    → any_of test (xs ++ y ∷ []) ≡ true
any_of-append test [] y h = ground arith
any_of-append test (x ∷ xs) y h = ground (arith, any_of-append test xs y h)

-- A dotted key whose leaf begins with a reference to the key itself is a cycle error that names it,
-- also where the reference has an inline default.
pub self_reference :
    (display_f64 : ℕ → Text) (resolvers : List Resolver) (root : ConfigValue) (fuel : ℕ)
    (p q : Placeholder) (rest : List Segment) (s : ConfigStr) (ctx : Ctx)
    → is_namespace p.key ≡ false
    → any_of (λ c. c == b'.') p.key ≡ true
    → lookup_path root p.key ≡ some (str s)
    → s.segments ≡ placeholder q ∷ rest
    → q.key ≡ p.key
    → any_of (λ key. text_eq key p.key) ctx.in_flight ≡ false
    → length ctx.in_flight + 1 < max_depth
    → ctx.resolution_steps + 2 ≤ max_steps
    → (resolve_placeholder display_f64 root resolvers (suc (suc fuel)) p ctx).0
      ≡ err (resolution_cycle (ctx.in_flight ++ p.key ∷ []) p.key)
unfolding resolve_placeholder consume_step enter render_str
self_reference display_f64 resolvers root fuel p q rest s ctx named dotted leaf first same fresh
      deep steps =
    let room : ltb max_steps (min (ctx.resolution_steps + 1) usize_max) ≡ false = ground arith in
    let room' : ltb max_steps (min (min (ctx.resolution_steps + 1) usize_max + 1) usize_max)
        ≡ false =
      ground arith in
    let shallow : leb max_depth (length ctx.in_flight) ≡ false = ground arith in
    let nested = length-append ctx.in_flight (p.key ∷ []) in
    let shallow' : leb max_depth (length (ctx.in_flight ++ p.key ∷ [])) ≡ false = ground arith in
    let again = any_of-append (λ key. text_eq key p.key) ctx.in_flight p.key (text_eq_refl p.key) in
    rw (room, shallow, fresh, named, dotted, leaf, first, room', shallow', same, again)
