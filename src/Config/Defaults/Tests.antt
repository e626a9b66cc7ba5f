-- ===== src/Config/Defaults/Tests.antt =====
-- Defaults filled into small tables, and the theorems at them.
use overseerd.Base.{
  ℕ, ◌≡◌, ◌≤◌, refl, ◌||◌, true, Option, none, some, List, [], ◌∷◌, Text, text_eq, any_of, ok,
}
use overseerd.Config.Value.{
  ConfigValue, int, str, table, Entries, end, entry, pos, negsuc, Segment, StrKind, find_entry,
  as_literal,
}
use overseerd.Config.Template.{parse, parse_template, scan, classify}
use overseerd.Config.Defaults.{
  fill_missing, fill_fields, fill_entries, fill_internal, default_value, tag_value,
}
use overseerd.Config.Literals.{
  FieldDefault, fields, variants, internal, has_entry, push_entry, parse_i128, read_digits,
}
use overseerd.Config.Defaults.Filling.{fill_missing-fields, fill_missing_doubles_tag, count_entry}

abbrev no_float : Text → Option ℕ
no_float text = none

abbrev literal : Text → ConfigValue
literal text = str (record { segments = Segment.literal text ∷ []; kind = StrKind.literal })

abbrev defaults : List FieldDefault
defaults = ((b'a' ∷ [], b'1' ∷ []) ∷ (b'b' ∷ [], b'2' ∷ []) ∷ [])

abbrev given : Entries
given = entry (b'b' ∷ []) (int (pos 7)) end

abbrev filled : ConfigValue
filled = table (entry (b'b' ∷ []) (int (pos 7)) (entry (b'a' ∷ []) (literal (b'1' ∷ [])) end))

fields_filled : fill_missing no_float (fields defaults) (table given) ≡ ok filled
unfolding fill_missing fill_fields fill_entries default_value has_entry push_entry parse
    parse_template scan classify
fields_filled = refl

minus_seven : parse_i128 (b'-' ∷ b'7' ∷ []) ≡ some (negsuc 6)
unfolding parse_i128 read_digits
minus_seven = refl

fill_missing-fields_example :
    (new : Entries) × (filled ≡ table new)
    × ((key : Text) (v : ConfigValue) → find_entry key given ≡ some v → find_entry key new ≡ some v)
    × ((key : Text)
        → has_entry key new
          ≡ (has_entry key given || any_of (λ (d : FieldDefault). text_eq d.0 key) defaults))
    × (fill_missing no_float (fields defaults) filled ≡ ok filled)
fill_missing-fields_example = fill_missing-fields no_float defaults given filled fields_filled

-- The tag is a placeholder.
abbrev reference : ConfigValue
reference = str (record {
  segments = Segment.placeholder (record { key = b'M' ∷ []; default = none }) ∷ [];
  kind = StrKind.full_placeholder;
})

abbrev moded : Entries
moded = entry (b'm' ∷ []) reference end

abbrev doubled : ConfigValue
doubled = table (entry (b'm' ∷ []) reference (entry (b'm' ∷ []) (literal (b'x' ∷ [])) end))

tag_not_literal : tag_value no_float (b'm' ∷ []) moded ≡ none
unfolding tag_value find_entry as_literal
tag_not_literal = refl

tag_found : find_entry (b'm' ∷ []) moded ≡ some reference
unfolding find_entry
tag_found = refl

tag_filled :
    fill_missing no_float
      (variants (internal (b'm' ∷ [])) (some (b'x' ∷ [], true)) [])
      (table moded)
    ≡ ok doubled
unfolding fill_missing fill_internal tag_value find_entry as_literal push_entry parse parse_template
    scan classify
tag_filled = refl

fill_missing_doubles_tag_example :
    (new : Entries) × (doubled ≡ table new) × (2 ≤ count_entry (b'm' ∷ []) new)
fill_missing_doubles_tag_example =
    fill_missing_doubles_tag no_float (b'm' ∷ []) (b'x' ∷ []) true [] moded reference doubled
      tag_found tag_not_literal tag_filled
