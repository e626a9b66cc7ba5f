-- ===== src/Base/Maps.antt =====
-- A `HashMap` with number keys as an association list, and membership tests.
use Prim.Native.Nat.{ℕ}
use mathlib.Core.Path.{◌≡◌, refl}
use mathlib.Core.Bool.{Bool, true, false, ◌&&◌, ◌||◌}
use mathlib.Core.List.{List, [], ◌∷◌, ◌++◌}
use mathlib.Core.Option.{Option, none, some}
use native.Mathlib.Omega.{arith}
use overseerd.Base.Tests.{◌==◌, if◌then◌else◌}
use overseerd.Base.Lists.{All, keep_if}

-- `contains` on a sequence of numbers
abbrev pub mem : ℕ → List ℕ → Bool
mem a [] = false
mem a (x ∷ xs) = (x == a) || mem a xs

-- No number stands twice.
abbrev pub distinct : List ℕ → Bool
distinct [] = true
distinct (x ∷ xs) = if mem x xs then false else distinct xs

module _ {ℓ} {V : Type ℓ} where
  abbrev pub get : ℕ → List (ℕ × V) → Option V
  get k [] = none
  get k ((j, v) ∷ m) = if j == k then some v else get k m

  -- `contains_key`
  abbrev pub has_key : ℕ → List (ℕ × V) → Bool
  has_key k [] = false
  has_key k ((j, v) ∷ m) = (j == k) || has_key k m

  -- `remove`
  abbrev pub remove : ℕ → List (ℕ × V) → List (ℕ × V)
  remove k [] = []
  remove k ((j, v) ∷ m) = let rest = remove k m in if j == k then rest else (j, v) ∷ rest

  pub get-remove :
      (k j : ℕ) (m : List (ℕ × V)) → get j (remove k m) ≡ (if k == j then none else get j m)
  get-remove k j [] = ground arith
  get-remove k j ((i, v) ∷ m) = ground (arith, get-remove k j m)

  pub has_key-remove :
      (k j : ℕ) (m : List (ℕ × V))
      → has_key j (remove k m) ≡ (if k == j then false else has_key j m)
  has_key-remove k j [] = ground arith
  has_key-remove k j ((i, v) ∷ m) = ground (arith, has_key-remove k j m)

  pub has_key-keep_if :
      (p : ℕ × V → Bool) (k : ℕ) (m : List (ℕ × V))
      → has_key k (keep_if p m) ≡ true
      → has_key k m ≡ true
  has_key-keep_if p k [] h = h
  has_key-keep_if p k ((j, v) ∷ m) h = ground (arith, has_key-keep_if p k m)

pub All-keep_if {ℓ κ} :
    {A : Type ℓ} (P : A → Type κ) (p : A → Bool) (xs : List A) → All P xs → All P (keep_if p xs)
All-keep_if P p [] h = h
All-keep_if P p (x ∷ xs) h = ground (arith, All-keep_if P p xs h.1)

pub All-remove {ℓ κ} :
    {V : Type ℓ} (P : ℕ × V → Type κ) (k : ℕ) (m : List (ℕ × V)) → All P m → All P (remove k m)
All-remove P k [] h = h
All-remove P k ((j, v) ∷ m) h = ground (arith, All-remove P k m h.1)

pub mem-append : (a : ℕ) (xs ys : List ℕ) → mem a (xs ++ ys) ≡ (mem a xs || mem a ys)
mem-append a [] ys = refl
mem-append a (x ∷ xs) ys = ground (arith, mem-append a xs ys)

pub mem-keep_if : (p : ℕ → Bool) (a : ℕ) (xs : List ℕ) → mem a (keep_if p xs) ≡ (mem a xs && p a)
mem-keep_if p a [] = refl
mem-keep_if p a (x ∷ xs) = ground (arith, mem-keep_if p a xs)

pub distinct-keep_if :
    (p : ℕ → Bool) (xs : List ℕ) → distinct xs ≡ true → distinct (keep_if p xs) ≡ true
distinct-keep_if p [] h = refl
distinct-keep_if p (x ∷ xs) h = ground (arith, distinct-keep_if p xs, mem-keep_if p x xs)

pub distinct-snoc :
    (xs : List ℕ) (a : ℕ) → distinct xs ≡ true → mem a xs ≡ false → distinct (xs ++ a ∷ []) ≡ true
distinct-snoc [] a d m = refl
distinct-snoc (x ∷ xs) a d m = ground (arith, distinct-snoc xs a, mem-append x xs (a ∷ []))
