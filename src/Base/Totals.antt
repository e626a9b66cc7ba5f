-- ===== src/Base/Totals.antt =====
-- Association lists whose keys stand once, and sums over their values.
use Prim.Native.Nat.{ℕ, ◌+◌, ◌≤◌}
use mathlib.Core.Path.{◌≡◌, refl}
use mathlib.Core.Bool.{Bool, true, false, ◌&&◌, not}
use mathlib.Core.List.{List, [], ◌∷◌}
use mathlib.Core.Option.{Option, none, some}
use native.Mathlib.Omega.{arith}
use overseerd.Base.Tests.{◌==◌, if◌then◌else◌}
use overseerd.Base.Lists.{length}
use overseerd.Base.Maps.{get, has_key, remove}

module _ {ℓ} {V : Type ℓ} where
  -- `*map.get_mut(k) = v` for a key that is there
  abbrev pub replace : ℕ → V → List (ℕ × V) → List (ℕ × V)
  replace k v [] = []
  replace k v ((j, u) ∷ m) = (j, (if j == k then v else u)) ∷ replace k v m

  abbrev pub map_values : (V → V) → List (ℕ × V) → List (ℕ × V)
  map_values f [] = []
  map_values f ((j, u) ∷ m) = (j, f u) ∷ map_values f m

  abbrev pub distinct_keys : List (ℕ × V) → Bool
  distinct_keys [] = true
  distinct_keys ((j, u) ∷ m) = not (has_key j m) && distinct_keys m

  abbrev pub total : (V → ℕ) → List (ℕ × V) → ℕ
  total w [] = 0
  total w ((j, u) ∷ m) = w u + total w m

  pub has_key-replace :
      (k j : ℕ) (v : V) (m : List (ℕ × V)) → has_key j (replace k v m) ≡ has_key j m
  has_key-replace k j v [] = refl
  has_key-replace k j v ((i, u) ∷ m) = ground (arith, has_key-replace k j v m)

  pub has_key-map_values :
      (f : V → V) (j : ℕ) (m : List (ℕ × V)) → has_key j (map_values f m) ≡ has_key j m
  has_key-map_values f j [] = refl
  has_key-map_values f j ((i, u) ∷ m) = ground (arith, has_key-map_values f j m)

  has_key_kept : (k j : ℕ) (m : List (ℕ × V)) → has_key j m ≡ false → has_key j (remove k m) ≡ false
  has_key_kept k j [] h = refl
  has_key_kept k j ((i, u) ∷ m) h = ground (arith, has_key_kept k j m)

  pub distinct_keys-replace :
      (k : ℕ) (v : V) (m : List (ℕ × V)) → distinct_keys (replace k v m) ≡ distinct_keys m
  distinct_keys-replace k v [] = refl
  distinct_keys-replace k v ((i, u) ∷ m) =
      ground (arith, distinct_keys-replace k v m, has_key-replace k i v m)

  pub distinct_keys-map_values :
      (f : V → V) (m : List (ℕ × V)) → distinct_keys (map_values f m) ≡ distinct_keys m
  distinct_keys-map_values f [] = refl
  distinct_keys-map_values f ((i, u) ∷ m) =
      ground (arith, distinct_keys-map_values f m, has_key-map_values f i m)

  pub distinct_keys-remove :
      (k : ℕ) (m : List (ℕ × V)) → distinct_keys m ≡ true → distinct_keys (remove k m) ≡ true
  distinct_keys-remove k [] h = refl
  distinct_keys-remove k ((i, u) ∷ m) h =
      ground (arith, distinct_keys-remove k m, has_key_kept k i m)

  total-remove_absent :
      (w : V → ℕ) (k : ℕ) (m : List (ℕ × V))
      → has_key k m ≡ false
      → total w (remove k m) ≡ total w m
  total-remove_absent w k [] h = refl
  total-remove_absent w k ((i, u) ∷ m) h = ground (arith, total-remove_absent w k m)

  pub total-remove :
      (w : V → ℕ) (k : ℕ) (v : V) (m : List (ℕ × V))
      → distinct_keys m ≡ true
      → get k m ≡ some v
      → total w (remove k m) + w v ≡ total w m
  total-remove w k v [] d h = cc
  total-remove w k v ((i, u) ∷ m) d h =
      ground (arith, total-remove w k v m, total-remove_absent w k m)

  total-replace_absent :
      (w : V → ℕ) (k : ℕ) (v : V) (m : List (ℕ × V))
      → has_key k m ≡ false
      → total w (replace k v m) ≡ total w m
  total-replace_absent w k v [] h = refl
  total-replace_absent w k v ((i, u) ∷ m) h = ground (arith, total-replace_absent w k v m)

  pub total-replace :
      (w : V → ℕ) (k : ℕ) (v v' : V) (m : List (ℕ × V))
      → distinct_keys m ≡ true
      → get k m ≡ some v
      → total w (replace k v' m) + w v ≡ total w m + w v'
  total-replace w k v v' [] d h = cc
  total-replace w k v v' ((i, u) ∷ m) d h =
      ground (arith, total-replace w k v v' m, total-replace_absent w k v' m)

  pub length-remove : (k : ℕ) (m : List (ℕ × V)) → length (remove k m) ≤ length m
  length-remove k [] = omega arith
  length-remove k ((i, u) ∷ m) = ground (arith, length-remove k m)

  pub length-replace : (k : ℕ) (v : V) (m : List (ℕ × V)) → length (replace k v m) ≡ length m
  length-replace k v [] = refl
  length-replace k v ((i, u) ∷ m) = omega (arith, length-replace k v m)

  pub length-map_values : (f : V → V) (m : List (ℕ × V)) → length (map_values f m) ≡ length m
  length-map_values f [] = refl
  length-map_values f ((i, u) ∷ m) = omega (arith, length-map_values f m)

module _ {ℓ κ} {V : Type ℓ} (P : V → Type κ) where
  -- Every value is good.
  abbrev pub AllValues : List (ℕ × V) → Type κ
  AllValues [] = Unit
  AllValues ((j, u) ∷ m) = P u × AllValues m

  pub AllValues-get : (k : ℕ) (v : V) (m : List (ℕ × V)) → AllValues m → get k m ≡ some v → P v
  AllValues-get k v [] h e = absurd (let bad : ◌≡◌ {A = Option V} none (some v) = e in cc)
  AllValues-get k v ((j, u) ∷ m) h e = ground (arith, h.0, AllValues-get k v m h.1)

  pub AllValues-remove : (k : ℕ) (m : List (ℕ × V)) → AllValues m → AllValues (remove k m)
  AllValues-remove k [] h = h
  AllValues-remove k ((j, u) ∷ m) h = ground (arith, AllValues-remove k m h.1)

  pub AllValues-replace :
      (k : ℕ) (v : V) (m : List (ℕ × V)) → P v → AllValues m → AllValues (replace k v m)
  AllValues-replace k v [] p h = h
  AllValues-replace k v ((j, u) ∷ m) p h = ground (arith, AllValues-replace k v m p h.1)

  pub AllValues-map_values :
      (f : V → V)
      → ((v : V) → P v → P (f v))
      → (m : List (ℕ × V)) → AllValues m
      → AllValues (map_values f m)
  AllValues-map_values f keep [] h = h
  AllValues-map_values f keep ((j, u) ∷ m) (p, h) = (keep u p, AllValues-map_values f keep m h)
