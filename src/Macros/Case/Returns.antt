-- ===== src/Macros/Case/Returns.antt =====
-- A variant's name in snake case and back, crates/macros-core/src/case.rs.
use overseerd.Base.{
  ℕ, ◌<◌, ◌≡◌, refl, Bool, true, false, Bool-cases, inl, inr, some, List, [], ◌∷◌, leb, ◌==◌, ◌&&◌,
  arith,
}
use overseerd.Macros.Case.{
  to_ascii_lowercase, to_ascii_uppercase, snake_rest, snake, pascal, pascal_case, camel_case,
  snake_case, apply_to_variant, apply_to_field,
}

abbrev pub is_ascii_upper : ℕ → Bool
is_ascii_upper ch = leb b'A' ch && leb ch b'Z'

-- ASCII characters but for the underscore
abbrev pub IsPlain : List ℕ → Type 0
IsPlain [] = Unit
IsPlain (ch ∷ name) = (ch < 128) × ((ch == b'_') ≡ false) × IsPlain name

lower_plain : (ch : ℕ) → (ch == b'_') ≡ false → (to_ascii_lowercase ch == b'_') ≡ false
unfolding to_ascii_lowercase
lower_plain ch plain = ground arith

upper-lower : (ch : ℕ) → is_ascii_upper ch ≡ true → to_ascii_uppercase (to_ascii_lowercase ch) ≡ ch
unfolding to_ascii_lowercase to_ascii_uppercase
upper-lower ch upper = ground arith

lower_same : (ch : ℕ) → is_ascii_upper ch ≡ false → to_ascii_lowercase ch ≡ ch
unfolding to_ascii_lowercase
lower_same ch other = rw other refl

module _ (is_uppercase : ℕ → Bool)
    (ascii : (ch : ℕ) → ch < 128 → is_uppercase ch ≡ is_ascii_upper ch) where
  pascal-snake_rest :
      (name : List ℕ) → IsPlain name → pascal false (snake_rest is_uppercase name) ≡ name
  unfolding pascal snake_rest
  pascal-snake_rest [] plain = refl
  pascal-snake_rest (ch ∷ name) (small, plain, rest) =
      let on = pascal-snake_rest name rest in
      elim (Bool-cases (is_ascii_upper ch)) [
        | inl upper ↦
            rw (ascii ch small, upper, lower_plain ch plain, on, upper-lower ch upper) refl
        | inr other ↦ rw (ascii ch small, other, lower_plain ch plain, on, lower_same ch other) refl
      ]

  -- If `is_uppercase` is right on ASCII, a variant's name of ASCII characters without an underscore
  -- that starts with a capital comes back when it is put into snake case as a variant and into
  -- Pascal case as a field; into camel case as a field, it becomes what camel case makes of the
  -- variant.
  pub apply_to_field-apply_to_variant :
      (ch : ℕ) (name : List ℕ)
      → is_ascii_upper ch ≡ true
      → IsPlain (ch ∷ name)
      → (field : List ℕ) × (apply_to_variant is_uppercase snake_case (ch ∷ name) ≡ some field)
        × (apply_to_field pascal_case field ≡ some (ch ∷ name))
        × (apply_to_field camel_case field ≡ apply_to_variant is_uppercase camel_case (ch ∷ name))
  unfolding apply_to_variant apply_to_field snake pascal
  apply_to_field-apply_to_variant ch name upper (small, plain, rest) =
      let on = pascal-snake_rest name rest in
      (
        snake is_uppercase (ch ∷ name),
        refl,
        rw (lower_plain ch plain, on, upper-lower ch upper) refl,
        rw (lower_plain ch plain, on, upper-lower ch upper) refl,
      )
