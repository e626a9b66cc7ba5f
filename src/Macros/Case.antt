-- ===== src/Macros/Case.antt =====
-- crates/macros-core/src/case.rs: the case rules of serde's `rename_all`. A name is the list of its
-- characters' code points. `char::is_uppercase` is a parameter, since it reads Unicode's tables; a
-- slice that panics is `none`.
pub mod Returns
mod Tests
use overseerd.Base.{
  ℕ, ◌+◌, ◌-◌, Bool, true, false, Option, none, some, List, [], ◌∷◌, map, ltb, leb, ◌==◌, ◌&&◌,
  if◌then◌else◌,
}

-- `RenameRule`
pub data RenameRule : Type 0 where
  lower_case upper_case pascal_case camel_case : RenameRule
  snake_case screaming_snake_case kebab_case screaming_kebab_case : RenameRule

-- `to_ascii_lowercase` and `to_ascii_uppercase` on a character
unfoldable pub to_ascii_lowercase : ℕ → ℕ
to_ascii_lowercase ch = if leb b'A' ch && leb ch b'Z' then ch + 32 else ch

unfoldable pub to_ascii_uppercase : ℕ → ℕ
to_ascii_uppercase ch = if leb b'a' ch && leb ch b'z' then ch - 32 else ch

-- `replace('_', "-")`
abbrev pub dashed : List ℕ → List ℕ
dashed = map (λ (ch : ℕ). if ch == b'_' then b'-' else ch)

-- `name[..1].to_ascii_lowercase() + &name[1..]`, which panics on an empty name and where a
-- character of several bytes is cut
abbrev pub uncapitalize : List ℕ → Option (List ℕ)
uncapitalize [] = none
uncapitalize (ch ∷ name) = if ltb ch 128 then some (to_ascii_lowercase ch ∷ name) else none

module _ (is_uppercase : ℕ → Bool) where
  -- The loop for `SnakeCase`, after the first character
  unfoldable pub snake_rest : List ℕ → List ℕ
  snake_rest [] = []
  snake_rest (ch ∷ variant) =
      let rest = to_ascii_lowercase ch ∷ snake_rest variant in
      if is_uppercase ch then b'_' ∷ rest else rest

  unfoldable pub snake : List ℕ → List ℕ
  snake [] = []
  snake (ch ∷ variant) = to_ascii_lowercase ch ∷ snake_rest variant

  unfoldable pub apply_to_variant : RenameRule → List ℕ → Option (List ℕ)
  apply_to_variant pascal_case variant = some variant
  apply_to_variant lower_case variant = some (map to_ascii_lowercase variant)
  apply_to_variant upper_case variant = some (map to_ascii_uppercase variant)
  apply_to_variant camel_case variant = uncapitalize variant
  apply_to_variant snake_case variant = some (snake variant)
  apply_to_variant screaming_snake_case variant = some (map to_ascii_uppercase (snake variant))
  apply_to_variant kebab_case variant = some (dashed (snake variant))
  apply_to_variant screaming_kebab_case variant =
      some (dashed (map to_ascii_uppercase (snake variant)))

-- The loop for `PascalCase`, by `capitalize`
unfoldable pub pascal : Bool → List ℕ → List ℕ
pascal capitalize [] = []
pascal capitalize (ch ∷ field) =
    let skipped = pascal true field in
    let pushed = pascal false field in
    if ch == b'_'
    then skipped
    else (if capitalize then to_ascii_uppercase ch ∷ pushed else ch ∷ pushed)

unfoldable pub apply_to_field : RenameRule → List ℕ → Option (List ℕ)
apply_to_field lower_case field = some field
apply_to_field snake_case field = some field
apply_to_field upper_case field = some (map to_ascii_uppercase field)
apply_to_field screaming_snake_case field = some (map to_ascii_uppercase field)
apply_to_field pascal_case field = some (pascal true field)
apply_to_field camel_case field = uncapitalize (pascal true field)
apply_to_field kebab_case field = some (dashed field)
apply_to_field screaming_kebab_case field = some (dashed (map to_ascii_uppercase field))
