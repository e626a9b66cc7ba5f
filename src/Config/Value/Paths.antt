-- ===== src/Config/Value/Paths.antt =====
-- Dotted paths and `lookup_path`, crates/config/src/value.rs.
use overseerd.Base.{ℕ, ◌≡◌, ◌≢◌, refl, Option, none, some, List, [], ◌∷◌, ◌++◌, Text, arith}
use overseerd.Config.Value.{ConfigValue, push_front, split_dots, child, walk, lookup_path}

push_front-append :
    (c : ℕ) (xs ys : List Text) → xs ≢ [] → push_front c (xs ++ ys) ≡ push_front c xs ++ ys
push_front-append c [] ys h = absurd (h refl)
push_front-append c (x ∷ xs) ys h = refl

split_dots-ne-nil : (p : Text) → split_dots p ≢ []
unfolding split_dots
split_dots-ne-nil [] = ground arith
split_dots-ne-nil (c ∷ cs) = ground (arith, split_dots-ne-nil cs)

split_dots-append : (p q : Text) → split_dots (p ++ b'.' ∷ q) ≡ split_dots p ++ split_dots q
unfolding split_dots
split_dots-append [] q = refl
split_dots-append (c ∷ p) q = ground (
  arith,
  split_dots-append p q,
  push_front-append c (split_dots p) (split_dots q) (split_dots-ne-nil p),
)

walk-append : (o : Option ConfigValue) (xs ys : List Text) → walk o (xs ++ ys) ≡ walk (walk o xs) ys
unfolding walk
walk-append none [] ys = refl
walk-append none (x ∷ xs) ys = refl
walk-append (some v) [] ys = refl
walk-append (some v) (x ∷ xs) ys = walk-append (child v x) xs ys

abbrev pub and_then : Option ConfigValue → Text → Option ConfigValue
and_then none q = none
and_then (some node) q = lookup_path node q

-- Looking up `p.q` is looking up `p`, and then `q` from the node found there.
pub lookup_path-append :
    (root : ConfigValue) (p q : Text)
    → lookup_path root (p ++ b'.' ∷ q) ≡ and_then (lookup_path root p) q
unfolding lookup_path
lookup_path-append root p q =
    rw (split_dots-append p q, walk-append (some root) (split_dots p) (split_dots q))
      (from (walk (some root) (split_dots p)))
  where
    from : (o : Option ConfigValue) → walk o (split_dots q) ≡ and_then o q
    from none = refl
    from (some v) = refl
