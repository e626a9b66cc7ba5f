-- ===== src/Macros/Case/Tests.antt =====
-- The name `QueOn` in other cases.
use overseerd.Base.{ℕ, ◌≡◌, refl, some, none, List, [], ◌∷◌, arith}
use overseerd.Macros.Case.{
  pascal_case, camel_case, snake_case, screaming_kebab_case, apply_to_variant, apply_to_field,
  snake, snake_rest, pascal, to_ascii_lowercase, to_ascii_uppercase,
}
use overseerd.Macros.Case.Returns.{is_ascii_upper, apply_to_field-apply_to_variant}

abbrev que_on : List ℕ
que_on = b'Q' ∷ b'u' ∷ b'e' ∷ b'O' ∷ b'n' ∷ []

shouted :
    apply_to_variant is_ascii_upper screaming_kebab_case que_on
    ≡ some (b'Q' ∷ b'U' ∷ b'E' ∷ b'-' ∷ b'O' ∷ b'N' ∷ [])
unfolding apply_to_variant snake snake_rest to_ascii_lowercase to_ascii_uppercase
shouted = refl

-- An empty name cannot be put into camel case.
empty : apply_to_field camel_case [] ≡ none
unfolding apply_to_field pascal
empty = refl

apply_to_field-apply_to_variant_example :
    (field : List ℕ) × (apply_to_variant is_ascii_upper snake_case que_on ≡ some field)
    × (apply_to_field pascal_case field ≡ some que_on)
    × (apply_to_field camel_case field ≡ apply_to_variant is_ascii_upper camel_case que_on)
apply_to_field-apply_to_variant_example =
    apply_to_field-apply_to_variant is_ascii_upper (λ ch small. refl) b'Q'
      (b'u' ∷ b'e' ∷ b'O' ∷ b'n' ∷ []) refl
      (
        omega arith,
        refl,
        (omega arith, refl, (omega arith, refl, (omega arith, refl, (omega arith, refl, tt)))),
      )
