-- ===== src/Config/Defaults/Filling.antt =====
-- Tables before and after `fill_missing` of crates/config/src/defaults.rs.
use overseerd.Base.{
  ℕ, suc, ◌+◌, ◌≤◌, ◌≡◌, refl, sym, subst, Bool, true, false, ◌||◌, Option, none, some, List, [],
  ◌∷◌, Text, text_eq, text_eq_iff, text_eq_refl, any_of, All, if◌then◌else◌, ok, ◌>>=◌, >>=-eq-ok,
  ok-injective, arith, Bool-cases, inl, inr,
}
use overseerd.Config.Value.{ConfigValue, table, Entries, end, entry, find_entry}
use overseerd.Config.Template.{Parsed}
use overseerd.Config.Defaults.{
  default_value, fill_entries, fill_fields, fill_missing, fill_internal, tag_value, variant_fields,
  parsed_str, internal_default, fill_known_entries,
}
use overseerd.Config.Literals.{
  FieldDefault, VariantDefault, internal, fields, variants, push_entry, has_entry,
}

-- How many entries have the key
abbrev pub count_entry : Text → Entries → ℕ
count_entry key end = 0
count_entry key (entry k v rest) = (if text_eq k key then 1 else 0) + count_entry key rest

has_entry-push_entry :
    (key k : Text) (v : ConfigValue) (es : Entries)
    → has_entry key (push_entry k v es) ≡ (has_entry key es || text_eq k key)
unfolding has_entry push_entry
has_entry-push_entry key k v end = ground arith
has_entry-push_entry key k v (entry j w rest) = ground (arith, has_entry-push_entry key k v rest)

find_entry-push_entry :
    (key k : Text) (v w : ConfigValue) (es : Entries)
    → find_entry key es ≡ some w
    → find_entry key (push_entry k v es) ≡ some w
unfolding find_entry push_entry
find_entry-push_entry key k v w end h = cc
find_entry-push_entry key k v w (entry j u rest) h =
    ground (arith, find_entry-push_entry key k v w rest)

count_entry-push_entry :
    (key k : Text) (v : ConfigValue) (es : Entries)
    → count_entry key (push_entry k v es) ≡ count_entry key es + (if text_eq k key then 1 else 0)
unfolding push_entry
count_entry-push_entry key k v end = omega arith
count_entry-push_entry key k v (entry j w rest) = omega (arith, count_entry-push_entry key k v rest)

count_of_found :
    (key : Text) (v : ConfigValue) (es : Entries)
    → find_entry key es ≡ some v
    → 1 ≤ count_entry key es
unfolding find_entry
count_of_found key v end h = cc
count_of_found key v (entry k w rest) h = ground (arith, count_of_found key v rest)

same_key :
    (field key : Text) (es : Entries)
    → has_entry field es ≡ true
    → text_eq field key ≡ true
    → has_entry key es ≡ true
same_key field key es h e =
    subst (λ (k : Text). has_entry k es ≡ true) ((text_eq_iff field key).0 e) h

-- What a filling has done: what was there is as it was, the other keys are the fields', and no
-- entry is gone.
pub record Fills (defaults : List FieldDefault) (old new : Entries) : Type 0 where
  pub keeps :
      (key : Text) (v : ConfigValue) → find_entry key old ≡ some v → find_entry key new ≡ some v
  pub adds :
      (key : Text)
      → has_entry key new
        ≡ (has_entry key old || any_of (λ (d : FieldDefault). text_eq d.0 key) defaults)
  pub grows : (key : Text) → count_entry key old ≤ count_entry key new

module _ (parse_f64 : Text → Option ℕ) where
  pub fill_entries-Fills :
      (defaults : List FieldDefault) (coerce : Bool) (old : Entries) {new : Entries}
      → fill_entries parse_f64 defaults coerce old ≡ ok new
      → Fills defaults old new
  unfolding fill_entries
  fill_entries-Fills [] coerce old {new} h =
      let same : old ≡ new = ok-injective h in
      subst (Fills [] old) same
        (record { keeps = λ key v e. e; adds = λ key. ground arith; grows = λ key. omega arith })
  fill_entries-Fills ((field, raw) ∷ defaults) coerce old {new} h =
      elim (Bool-cases (has_entry field old)) [
        | inl there ↦
            let rest = fill_entries-Fills defaults coerce old (rw (fill_entries, there) at h) in
            record {
              keeps = rest.keeps;
              adds = λ key. ground (arith, rest.adds key, same_key field key old there);
              grows = rest.grows;
            }
        | inr away ↦
            let (value, read, filled) =
              >>=-eq-ok (default_value parse_f64 raw coerce)
                (λ value. fill_entries parse_f64 defaults coerce (push_entry field value old))
                (rw (fill_entries, away) at h) in
            let rest = fill_entries-Fills defaults coerce (push_entry field value old) filled in
            record {
              keeps = λ key v e. rest.keeps key v (find_entry-push_entry key field value v old e);
              adds = λ key. ground (arith, rest.adds key, has_entry-push_entry key field value old);
              grows =
                  λ key. omega (arith, rest.grows key, count_entry-push_entry key field value old);
            }
      ]

  -- Where every field is there, nothing is filled.
  fill_entries-present :
      (defaults : List FieldDefault) (coerce : Bool) (es : Entries)
      → All (λ (d : FieldDefault). has_entry d.0 es ≡ true) defaults
      → fill_entries parse_f64 defaults coerce es ≡ ok es
  unfolding fill_entries
  fill_entries-present [] coerce es h = refl
  fill_entries-present ((field, raw) ∷ defaults) coerce es (here, there) =
      rw (fill_entries, here) (fill_entries-present defaults coerce es there)

  every_field_there :
      (defaults : List FieldDefault) (es : Entries)
      → ((key : Text)
          → any_of (λ (d : FieldDefault). text_eq d.0 key) defaults ≡ true
          → has_entry key es ≡ true)
      → All (λ (d : FieldDefault). has_entry d.0 es ≡ true) defaults
  every_field_there [] es h = tt
  every_field_there (d ∷ defaults) es h = (
    h d.0 (rw (text_eq_refl d.0) refl),
    every_field_there defaults es (λ key k. h key (ground arith)),
  )

  -- Filling what is filled changes nothing.
  pub fill_entries_twice :
      (defaults : List FieldDefault) (coerce : Bool) (old new : Entries)
      → fill_entries parse_f64 defaults coerce old ≡ ok new
      → fill_entries parse_f64 defaults coerce new ≡ ok new
  fill_entries_twice defaults coerce old new h =
      let done = fill_entries-Fills defaults coerce old h in
      fill_entries-present defaults coerce new
        (every_field_there defaults new (λ key k. ground (arith, done.adds key)))

  -- A struct's defaults, filled in under a table without an error: the values that were found are
  -- found still, the keys are those of before and the fields, and filling again changes nothing.
  pub fill_missing-fields :
      (defaults : List FieldDefault) (old : Entries) (result : ConfigValue)
      → fill_missing parse_f64 (fields defaults) (table old) ≡ ok result
      → (new : Entries) × (result ≡ table new)
        × ((key : Text) (v : ConfigValue)
            → find_entry key old ≡ some v
            → find_entry key new ≡ some v)
        × ((key : Text)
            → has_entry key new
              ≡ (has_entry key old || any_of (λ (d : FieldDefault). text_eq d.0 key) defaults))
        × (fill_missing parse_f64 (fields defaults) result ≡ ok result)
  unfolding fill_missing fill_fields
  fill_missing-fields defaults old result h =
      let (new, filled, made) =
        >>=-eq-ok (fill_entries parse_f64 defaults false old) (λ es. ok (table es)) h in
      let is_new : table new ≡ result = ok-injective made in
      let done = fill_entries-Fills defaults false old filled in
      let again : (fill_entries parse_f64 defaults false new >>= λ es. ok (table es))
          ≡ ok (table new) =
        rw (fill_entries_twice defaults false old new filled) refl in
      (
        new,
        sym is_new,
        done.keeps,
        done.adds,
        subst (λ (v : ConfigValue). fill_missing parse_f64 (fields defaults) v ≡ ok v) is_new again,
      )

  known-grows :
      (o : Option (List FieldDefault)) (old : Entries) {new : Entries} (key : Text)
      → fill_known_entries parse_f64 o old ≡ ok new
      → count_entry key old ≤ count_entry key new
  known-grows none old {new} key h = let same : old ≡ new = ok-injective h in rw same (omega arith)
  known-grows (some defaults) old {new} key h = (fill_entries-Fills defaults true old h).grows key

  tagged-grows :
      (is_unit : Bool) (o : Option (List FieldDefault)) (old : Entries) {new : Entries} (key : Text)
      → ◌≡◌ {A = Parsed Entries}
          (if is_unit then ok old else fill_known_entries parse_f64 o old)
          (ok new)
      → count_entry key old ≤ count_entry key new
  tagged-grows true o old {new} key h =
      let same : old ≡ new = ok-injective h in rw same (omega arith)
  tagged-grows false o old {new} key h = known-grows o old key h

  default-doubles :
      (tag_key tag : Text) (is_unit : Bool) (defaults : List VariantDefault) (old : Entries)
      {new : Entries}
      → internal_default parse_f64 tag_key (some (tag, is_unit)) defaults old ≡ ok new
      → suc (count_entry tag_key old) ≤ count_entry tag_key new
  default-doubles tag_key tag is_unit defaults old {new} h =
      let Tagged : ConfigValue → Parsed Entries = λ value.
        (if is_unit
          then ok (push_entry tag_key value old)
          else fill_known_entries parse_f64 (variant_fields parse_f64 defaults tag)
              (push_entry tag_key value old)) in
      let (value, read, filled) = >>=-eq-ok (parsed_str parse_f64 tag) Tagged h in
      let more =
        tagged-grows is_unit (variant_fields parse_f64 defaults tag) (push_entry tag_key value old)
          tag_key filled in
      ground (arith, more, count_entry-push_entry tag_key tag_key value old, text_eq_refl tag_key)

  -- A table of an internally tagged enum with a default variant, whose tag is there and is not a
  -- literal text, filled in without an error, has its tag twice at least.
  pub fill_missing_doubles_tag :
      (tag_key tag : Text) (is_unit : Bool) (defaults : List VariantDefault) (old : Entries)
      (v result : ConfigValue)
      → find_entry tag_key old ≡ some v
      → tag_value parse_f64 tag_key old ≡ none
      → fill_missing parse_f64
          (variants (internal tag_key) (some (tag, is_unit)) defaults)
          (table old)
        ≡ ok result
      → (new : Entries) × (result ≡ table new) × (2 ≤ count_entry tag_key new)
  unfolding fill_missing fill_internal
  fill_missing_doubles_tag tag_key tag is_unit defaults old v result found templated h =
      let chosen = rw templated at h in
      let (new, filled, made) =
        >>=-eq-ok (internal_default parse_f64 tag_key (some (tag, is_unit)) defaults old)
          (λ es. ok (table es)) chosen in
      let more = default-doubles tag_key tag is_unit defaults old filled in
      (new, sym (ok-injective made), omega (arith, more, count_of_found tag_key v old found))
