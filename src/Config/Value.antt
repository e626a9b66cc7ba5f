-- ===== src/Config/Value.antt =====
-- crates/config/src/value.rs and error.rs: the configuration tree and its string leaves.
-- Text is the list of its code points. An `i128` is its sign and magnitude; an `f64` is the number
-- that its 64 bits spell, which nothing here computes with.
pub mod Paths
mod Tests
use overseerd.Base.{
  ℕ, suc, Bool, true, false, Option, none, some, List, [], ◌∷◌, ◌++◌, Text, text_eq, ◌==◌,
  if◌then◌else◌,
}

-- `Placeholder`
pub record Placeholder : Type 0 where
  pub key : Text
  pub default : Option Text

-- `Segment`
pub data Segment : Type 0 where
  literal : Text → Segment
  placeholder : Placeholder → Segment

-- `StrKind`
pub data StrKind : Type 0 where
  literal full_placeholder templated : StrKind

-- `ConfigStr`
pub record ConfigStr : Type 0 where
  pub segments : List Segment
  pub kind : StrKind

-- `negsuc n` is -(n + 1).
pub data ℤ : Type 0 where
  pos : ℕ → ℤ
  negsuc : ℕ → ℤ

mutual
  -- `ConfigValue`
  pub data ConfigValue : Type 0 where
    null : ConfigValue
    bool : Bool → ConfigValue
    int : ℤ → ConfigValue
    float : ℕ → ConfigValue
    str : ConfigStr → ConfigValue
    array : Items → ConfigValue
    table : Entries → ConfigValue

  -- `Vec<ConfigValue>`
  pub data Items : Type 0 where
    nil : Items
    cons : ConfigValue → Items → Items

  -- `Vec<(String, ConfigValue)>`
  pub data Entries : Type 0 where
    end : Entries
    entry : Text → ConfigValue → Entries → Entries

-- `TemplateErrorKind`, as far as parsing and resolution raise it. The last is the model's own: the
-- fuel of `resolve_placeholder` ran out.
pub data TemplateErrorKind : Type 0 where
  unterminated_placeholder : TemplateErrorKind
  missing_placeholder : Text → TemplateErrorKind
  unknown_namespace_key : Text → TemplateErrorKind
  not_string_renderable : Text → TemplateErrorKind
  resolution_cycle : List Text → Text → TemplateErrorKind
  resolution_depth_exceeded : ℕ → TemplateErrorKind
  resolution_budget_exceeded : ℕ → TemplateErrorKind
  rendered_output_too_large : ℕ → TemplateErrorKind
  out_of_fuel : TemplateErrorKind

-- `entries.iter().find(|(key, _)| key == segment)`
unfoldable pub find_entry : Text → Entries → Option ConfigValue
find_entry key end = none
find_entry key (entry k v rest) = if text_eq k key then some v else find_entry key rest

abbrev push_front : ℕ → List Text → List Text
push_front c [] = (c ∷ []) ∷ []
push_front c (word ∷ words) = (c ∷ word) ∷ words

-- `path.split('.')`: the pieces between the dots, one at least.
unfoldable pub split_dots : Text → List Text
split_dots [] = [] ∷ []
split_dots (c ∷ cs) = let rest = split_dots cs in if c == b'.' then [] ∷ rest else push_front c rest

-- One step of the walk: only a table has entries.
unfoldable pub child : ConfigValue → Text → Option ConfigValue
unfolding find_entry
child (table entries) segment = find_entry segment entries
child _ segment = none

-- The loop of `lookup_path` over the segments.
unfoldable pub walk : Option ConfigValue → List Text → Option ConfigValue
unfolding child
walk none _ = none
walk (some current) [] = some current
walk (some current) (segment ∷ rest) = walk (child current segment) rest

-- `lookup_path`
unfoldable pub lookup_path : ConfigValue → Text → Option ConfigValue
unfolding walk split_dots
lookup_path root path = walk (some root) (split_dots path)

-- `ConfigValue::get_path`
unfoldable pub get_path : ConfigValue → Text → Option ConfigValue
unfolding lookup_path
get_path root [] = some root
get_path root (c ∷ cs) = lookup_path root (c ∷ cs)

abbrev literal_of : StrKind → List Segment → Option Text
literal_of StrKind.literal (Segment.literal text ∷ []) = some text
literal_of StrKind.literal [] = some []
literal_of _ _ = none

-- `ConfigStr::as_literal`
unfoldable pub as_literal : ConfigStr → Option Text
as_literal s = literal_of s.kind s.segments

abbrev full_of : StrKind → List Segment → Option Placeholder
full_of StrKind.full_placeholder (Segment.placeholder p ∷ _) = some p
full_of _ _ = none

-- `ConfigStr::as_full`
unfoldable pub as_full : ConfigStr → Option Placeholder
as_full s = full_of s.kind s.segments
