-- ===== src/Config/Defaults.antt =====
-- crates/config/src/defaults.rs: declared defaults, filled in under the values of a file.
-- An error drops the tree, which the source leaves filled as far as it came. Reading a float is a
-- parameter.
pub mod Filling
mod Tests
use overseerd.Base.{
  ℕ, zero, suc, ◌+◌, ◌-◌, ◌*◌, ◌^◌, Bool, true, false, not, ◌&&◌, Option, none, some, List, [], ◌∷◌,
  Text, text_eq, ltb, leb, ◌==◌, if◌then◌else◌, Result, ok, err, ◌>>=◌,
}
use overseerd.Config.Value.{
  ConfigValue, null, bool, int, float, str, array, table, Entries, end, entry, ConfigStr, ℤ, pos,
  negsuc, find_entry, as_literal,
}
use overseerd.Config.Template.{Parsed, parse}
use overseerd.Config.Literals.{
  FieldDefault, VariantDefault, DefaultSpec, push_entry, has_entry, parse_i128, parse_bool,
  external, untagged, internal, adjacent, no_defaults, fields, variants,
}

module _ (parse_f64 : Text → Option ℕ) where
  -- The three tries of `default_value`, in their order
  abbrev as_float : ConfigStr → Option ℕ → ConfigValue
  as_float parsed none = str parsed
  as_float parsed (some f) = float f

  abbrev as_bool : ConfigStr → Text → Option Bool → ConfigValue
  as_bool parsed text none = as_float parsed (parse_f64 text)
  as_bool parsed text (some b) = bool b

  abbrev as_int : ConfigStr → Text → Option ℤ → ConfigValue
  as_int parsed text none = as_bool parsed text (parse_bool text)
  as_int parsed text (some i) = int i

  abbrev coerced : ConfigStr → Option Text → ConfigValue
  coerced parsed none = str parsed
  coerced parsed (some text) = as_int parsed text (parse_i128 text)

  -- `default_value`
  unfoldable pub default_value : Text → Bool → Parsed ConfigValue
  default_value raw coerce =
      parse raw >>= λ parsed. ok (if coerce then coerced parsed (as_literal parsed) else str parsed)

  -- `fill_entries`
  unfoldable pub fill_entries : List FieldDefault → Bool → Entries → Parsed Entries
  fill_entries [] coerce entries = ok entries
  fill_entries ((field, raw) ∷ rest) coerce entries =
      if has_entry field entries
      then fill_entries rest coerce entries
      else (default_value raw coerce >>= λ value.
          fill_entries rest coerce (push_entry field value entries))

  abbrev pub to_table : Parsed Entries → Parsed ConfigValue
  to_table entries = entries >>= λ es. ok (table es)

  -- `fill_fields`
  unfoldable pub fill_fields : List FieldDefault → Bool → ConfigValue → Parsed ConfigValue
  fill_fields defaults coerce (table entries) = to_table (fill_entries defaults coerce entries)
  fill_fields defaults coerce value = ok value

  -- `variant_fields`
  unfoldable pub variant_fields : List VariantDefault → Text → Option (List FieldDefault)
  variant_fields [] tag = none
  variant_fields ((name, defaults) ∷ rest) tag =
      if text_eq name tag then some defaults else variant_fields rest tag

  -- `ConfigValue::parsed_str`
  abbrev pub parsed_str : Text → Parsed ConfigValue
  parsed_str raw = parse raw >>= λ parsed. ok (str parsed)

  abbrev literal_of : Option ConfigValue → Option Text
  literal_of (some (str s)) = as_literal s
  literal_of _ = none

  -- `tag_value`
  unfoldable pub tag_value : Text → Entries → Option Text
  tag_value tag_key entries = literal_of (find_entry tag_key entries)

  abbrev fill_known : Option (List FieldDefault) → Bool → ConfigValue → Parsed ConfigValue
  fill_known none coerce value = ok value
  fill_known (some defaults) coerce value = fill_fields defaults coerce value

  -- The loop of `fill_external` over the tags
  unfoldable pub fill_tagged : List VariantDefault → Entries → Parsed Entries
  fill_tagged defaults end = ok end
  fill_tagged defaults (entry tag inner rest) =
      fill_known (variant_fields defaults tag) false inner >>= λ filled.
      fill_tagged defaults rest >>= λ others. ok (entry tag filled others)

  -- `fill_external`
  abbrev synthesized : List VariantDefault → Option (Text × Bool) → Parsed ConfigValue
  synthesized defaults none = ok (table end)
  synthesized defaults (some (tag, true)) = parsed_str tag
  synthesized defaults (some (tag, false)) =
      fill_known (variant_fields defaults tag) false (table end) >>= λ inner.
      ok (table (entry tag inner end))

  unfoldable pub fill_external :
      Option (Text × Bool) → List VariantDefault → ConfigValue → Parsed ConfigValue
  fill_external default defaults (table end) = synthesized defaults default
  fill_external default defaults (table (entry tag inner rest)) =
      to_table (fill_tagged defaults (entry tag inner rest))
  fill_external default defaults value = ok value

  abbrev pub fill_known_entries : Option (List FieldDefault) → Entries → Parsed Entries
  fill_known_entries none entries = ok entries
  fill_known_entries (some defaults) entries = fill_entries defaults true entries

  -- `fill_internal`, for the variant that is chosen and for the default one
  abbrev pub internal_default :
      Text → Option (Text × Bool) → List VariantDefault → Entries → Parsed Entries
  internal_default tag_key none defaults entries = ok entries
  internal_default tag_key (some (tag, is_unit)) defaults entries = parsed_str tag >>= λ value.
      let tagged = push_entry tag_key value entries in
      if is_unit then ok tagged else fill_known_entries (variant_fields defaults tag) tagged

  abbrev pub internal_entries :
      Option Text → Text → Option (Text × Bool) → List VariantDefault → Entries → Parsed Entries
  internal_entries (some variant) tag_key default defaults entries =
      fill_known_entries (variant_fields defaults variant) entries
  internal_entries none tag_key default defaults entries =
      internal_default tag_key default defaults entries

  unfoldable pub fill_internal :
      Text → Option (Text × Bool) → List VariantDefault → ConfigValue → Parsed ConfigValue
  fill_internal tag_key default defaults (table entries) =
      to_table (internal_entries (tag_value tag_key entries) tag_key default defaults entries)
  fill_internal tag_key default defaults value = ok value

  -- `entries.iter_mut().find(..)`, with what is then done to the value
  unfoldable pub fill_at : Text → List FieldDefault → Entries → Parsed Entries
  fill_at key defaults end = ok end
  fill_at key defaults (entry k v rest) =
      if text_eq k key
      then (fill_fields defaults true v >>= λ filled. ok (entry k filled rest))
      else (fill_at key defaults rest >>= λ others. ok (entry k v others))

  -- `fill_content`
  unfoldable pub fill_content : Text → List FieldDefault → Entries → Parsed Entries
  fill_content key defaults entries =
      fill_at key defaults
        (if has_entry key entries then entries else push_entry key (table end) entries)

  abbrev or_none : Option (List FieldDefault) → List FieldDefault
  or_none none = []
  or_none (some defaults) = defaults

  -- `fill_adjacent`
  abbrev adjacent_default :
      Text → Text → Option (Text × Bool) → List VariantDefault → Entries → Parsed Entries
  adjacent_default tag_key content_key none defaults entries = ok entries
  adjacent_default tag_key content_key (some (tag, is_unit)) defaults entries =
      parsed_str tag >>= λ value.
      let tagged = push_entry tag_key value entries in
      if is_unit
      then ok tagged
      else fill_content content_key (or_none (variant_fields defaults tag)) tagged

  abbrev chosen_content : Text → Option (List FieldDefault) → Entries → Parsed Entries
  chosen_content content_key none entries = ok entries
  chosen_content content_key (some defaults) entries = fill_content content_key defaults entries

  abbrev adjacent_entries :
      Option Text
      → Text
      → Text
      → Option (Text × Bool)
      → List VariantDefault
      → Entries
      → Parsed Entries
  adjacent_entries (some variant) tag_key content_key default defaults entries =
      chosen_content content_key (variant_fields defaults variant) entries
  adjacent_entries none tag_key content_key default defaults entries =
      adjacent_default tag_key content_key default defaults entries

  unfoldable pub fill_adjacent :
      Text → Text → Option (Text × Bool) → List VariantDefault → ConfigValue → Parsed ConfigValue
  fill_adjacent tag_key content_key default defaults (table entries) =
      to_table
        (adjacent_entries (tag_value tag_key entries) tag_key content_key default defaults entries)
  fill_adjacent tag_key content_key default defaults value = ok value

  -- `fill_missing`, with `fill_variants`
  unfoldable pub fill_missing : DefaultSpec → ConfigValue → Parsed ConfigValue
  fill_missing no_defaults value = ok value
  fill_missing (fields defaults) value = fill_fields defaults false value
  fill_missing (variants external default defaults) value = fill_external default defaults value
  fill_missing (variants (internal tag) default defaults) value =
      fill_internal tag default defaults value
  fill_missing (variants (adjacent tag content) default defaults) value =
      fill_adjacent tag content default defaults value
  fill_missing (variants untagged default defaults) value = ok value
