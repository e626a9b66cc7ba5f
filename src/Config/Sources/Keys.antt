-- ===== src/Config/Sources/Keys.antt =====
-- What a merged table has under a key, crates/config/src/managed/source.rs.
use overseerd.Base.{
  ◌≡◌, refl, ap, ◌∙◌, Bool, true, false, Bool-cases, inl, inr, not, ◌&&◌, Option, none, some,
  if◌then◌else◌, Text, text_eq, text_eq_iff, arith,
}
use overseerd.Config.Value.{
  ConfigValue, null, bool, int, float, str, array, table, Entries, end, entry, find_entry, child,
}
use overseerd.Config.Literals.{has_entry}
use overseerd.Config.Sources.{upsert, merge_into, merge_entries}

-- No table has a key twice, the items of arrays left out.
unfoldable mutual
  pub distinct_keys : ConfigValue → Bool
  distinct_keys (table entries) = distinct_entries entries
  distinct_keys _ = true

  pub distinct_entries : Entries → Bool
  distinct_entries end = true
  distinct_entries (entry key value rest) =
      not (has_entry key rest) && (distinct_keys value && distinct_entries rest)

abbrev pub combine : Option ConfigValue → Option ConfigValue → Option ConfigValue
combine base none = base
combine none (some value) = some value
combine (some old) (some value) = some (merge_into old value)

abbrev changed : (ConfigValue → ConfigValue) → ConfigValue → Option ConfigValue → ConfigValue
changed change value none = value
changed change value (some old) = change old

find_entry-upsert :
    (key k : Text) (change : ConfigValue → ConfigValue) (value : ConfigValue) (es : Entries)
    → find_entry key (upsert k change value es) ≡ (
        if text_eq k key
        then some (changed change value (find_entry key es))
        else find_entry key es)
unfolding find_entry upsert
find_entry-upsert key k change value end = refl
find_entry-upsert key k change value (entry j w rest) = ground (
  arith,
  find_entry-upsert key k change value rest,
  text_eq_iff j k,
  text_eq_iff j key,
  text_eq_iff k key,
)

find_entry-absent :
    (key k : Text) (es : Entries)
    → has_entry k es ≡ false
    → text_eq k key ≡ true
    → find_entry key es ≡ none
unfolding find_entry has_entry
find_entry-absent key k end away same = refl
find_entry-absent key k (entry j w rest) away same =
    ground
      (arith, find_entry-absent key k rest, text_eq_iff j k, text_eq_iff j key, text_eq_iff k key)

merge_entries-entry :
    (key : Text) (value : ConfigValue) (base overlay : Entries)
    → merge_entries base (entry key value overlay)
      ≡ merge_entries (upsert key (λ old. merge_into old value) value base) overlay
unfolding merge_into
merge_entries-entry key value base overlay = refl

merge_entries-end : (base : Entries) → merge_entries base end ≡ base
unfolding merge_into
merge_entries-end base = refl

changed-combine :
    (value : ConfigValue) (found : Option ConfigValue)
    → some (changed (λ old. merge_into old value) value found) ≡ combine found (some value)
changed-combine value none = refl
changed-combine value (some old) = refl

all_three : (a b c : Bool) → (not a && (b && c)) ≡ true → (a ≡ false) × (b ≡ true) × (c ≡ true)
all_three true b c h = cc
all_three false true true h = (refl, refl, refl)
all_three false true false h = cc
all_three false false c h = cc

pub distinct_entries-entry :
    (key : Text) (value : ConfigValue) (rest : Entries)
    → distinct_entries (entry key value rest) ≡ true
    → (has_entry key rest ≡ false) × (distinct_keys value ≡ true) × (distinct_entries rest ≡ true)
unfolding distinct_keys
distinct_entries-entry key value rest distinct =
    all_three (has_entry key rest) (distinct_keys value) (distinct_entries rest) distinct

-- What a merged table has under a key
find_entry-merge_entries :
    (key : Text) (base overlay : Entries)
    → distinct_entries overlay ≡ true
    → find_entry key (merge_entries base overlay)
      ≡ combine (find_entry key base) (find_entry key overlay)
unfolding find_entry
find_entry-merge_entries key base end distinct = ap (find_entry key) (merge_entries-end base)
find_entry-merge_entries key base (entry k value overlay) distinct =
    let (away, inside, distinct_rest) = distinct_entries-entry k value overlay distinct in
    let change : ConfigValue → ConfigValue = λ old. merge_into old value in
    let later : find_entry key (merge_entries (upsert k change value base) overlay)
        ≡ combine (find_entry key (upsert k change value base)) (find_entry key overlay) =
      find_entry-merge_entries key (upsert k change value base) overlay distinct_rest in
    let here = find_entry-upsert key k change value base in
    ap (find_entry key) (merge_entries-entry k value base overlay)
    ∙ later
    ∙ elim (Bool-cases (text_eq k key)) [
      | inl same ↦
          let absent : find_entry key overlay ≡ none = find_entry-absent key k overlay away same in
          rw (here, same, absent) (changed-combine value (find_entry key base))
      | inr other ↦ rw (here, other) refl
    ]

pub alone : (found : Option ConfigValue) → found ≡ combine none found
alone none = refl
alone (some value) = refl

pub child-merge_into :
    (base : ConfigValue) (overlay : Entries) (key : Text)
    → distinct_entries overlay ≡ true
    → child (merge_into base (table overlay)) key
      ≡ combine (child base key) (find_entry key overlay)
unfolding child merge_into
child-merge_into (table base) overlay key distinct =
    find_entry-merge_entries key base overlay distinct
child-merge_into null overlay key distinct = alone (find_entry key overlay)
child-merge_into (bool b) overlay key distinct = alone (find_entry key overlay)
child-merge_into (int n) overlay key distinct = alone (find_entry key overlay)
child-merge_into (float f) overlay key distinct = alone (find_entry key overlay)
child-merge_into (str s) overlay key distinct = alone (find_entry key overlay)
child-merge_into (array items) overlay key distinct = alone (find_entry key overlay)
