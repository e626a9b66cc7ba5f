-- ===== src/Config/Sources/Merging.antt =====
-- What a merged tree holds, crates/config/src/managed/source.rs.
use overseerd.Base.{
  ◌≡◌, refl, ap, ◌∙◌, sym, subst, Bool, true, false, Bool-cases, inl, inr, Option, none, some, List,
  [], ◌∷◌, ◌++◌, All, Text, text_eq,
}
use overseerd.Config.Value.{
  ConfigValue, null, bool, int, float, str, array, table, Entries, end, entry, find_entry, child,
  walk, lookup_path, split_dots,
}
use overseerd.Config.Sources.{merge_into}
use overseerd.Config.Sources.Keys.{
  distinct_keys, distinct_entries, combine, distinct_entries-entry, alone, child-merge_into,
}

abbrev distinct_in : Option ConfigValue → Bool
distinct_in none = true
distinct_in (some value) = distinct_keys value

distinct_in-find_entry :
    (key : Text) (es : Entries)
    → distinct_entries es ≡ true
    → distinct_in (find_entry key es) ≡ true
unfolding find_entry
distinct_in-find_entry key end distinct = refl
distinct_in-find_entry key (entry k value rest) distinct =
    let (away, inside, distinct_rest) = distinct_entries-entry k value rest distinct in
    elim (Bool-cases (text_eq k key)) [
      | inl same ↦ rw same inside
      | inr other ↦ rw other (distinct_in-find_entry key rest distinct_rest)
    ]

abbrev pub is_table : ConfigValue → Bool
is_table (table entries) = true
is_table _ = false

merge_into-whole :
    (base overlay : ConfigValue) → is_table overlay ≡ false → merge_into base overlay ≡ overlay
unfolding merge_into
merge_into-whole base null whole = refl
merge_into-whole base (bool b) whole = refl
merge_into-whole base (int n) whole = refl
merge_into-whole base (float f) whole = refl
merge_into-whole base (str s) whole = refl
merge_into-whole base (array items) whole = refl
merge_into-whole base (table entries) whole = cc

walk-none : (keys : List Text) → walk none keys ≡ none
unfolding walk
walk-none [] = refl
walk-none (key ∷ keys) = refl

walk-step :
    (base : ConfigValue) (overlay : Entries) (key : Text) (keys : List Text)
    → distinct_entries overlay ≡ true
    → walk (some (merge_into base (table overlay))) (key ∷ keys)
      ≡ walk (combine (child base key) (find_entry key overlay)) keys
unfolding walk
walk-step base overlay key keys distinct =
    ap (λ found. walk found keys) (child-merge_into base overlay key distinct)

-- A walk through the overlay ends at a table that lacks the key.
abbrev pub is_silent : Option ConfigValue → List Text → Bool
is_silent none keys = true
is_silent (some value) [] = false
is_silent (some (table overlay)) (key ∷ keys) = is_silent (find_entry key overlay) keys
is_silent (some value) (key ∷ keys) = false

walk-silent :
    (keys : List Text) (under over : Option ConfigValue)
    → distinct_in over ≡ true
    → is_silent over keys ≡ true
    → walk (combine under over) keys ≡ walk under keys
unfolding walk child distinct_keys
walk-silent keys under none distinct silent = refl
walk-silent (key ∷ keys) none (some (table overlay)) distinct silent =
    let found = find_entry key overlay in
    ap (λ found. walk found keys) (alone found)
    ∙ walk-silent keys none found (distinct_in-find_entry key overlay distinct) silent
    ∙ walk-none keys
walk-silent (key ∷ keys) (some base) (some (table overlay)) distinct silent =
    walk-step base overlay key keys distinct
    ∙ walk-silent keys (child base key) (find_entry key overlay)
        (distinct_in-find_entry key overlay distinct) silent
walk-silent keys under (some value) distinct silent = cc

walk-spoken :
    (keys : List Text) (under over : Option ConfigValue) (value : ConfigValue)
    → distinct_in over ≡ true
    → walk over keys ≡ some value
    → is_table value ≡ false
    → walk (combine under over) keys ≡ some value
unfolding walk child distinct_keys
walk-spoken keys under none value distinct found whole = let bad = walk-none keys in cc
walk-spoken [] none (some over) value distinct found whole = found
walk-spoken [] (some base) (some over) value distinct found whole =
    let same : over ≡ value = cc in
    ap some (merge_into-whole base over (subst (λ v. is_table v ≡ false) (sym same) whole)) ∙ found
walk-spoken (key ∷ keys) none (some over) value distinct found whole = found
walk-spoken (key ∷ keys) (some base) (some (table overlay)) value distinct found whole =
    walk-step base overlay key keys distinct
    ∙ walk-spoken keys (child base key) (find_entry key overlay) value
        (distinct_in-find_entry key overlay distinct) found whole
walk-spoken (key ∷ keys) (some base) (some over) value distinct found whole =
    let bad = walk-none keys in cc

-- A tree that is merged from documents in their order
abbrev pub merge_all : ConfigValue → List ConfigValue → ConfigValue
merge_all root [] = root
merge_all root (document ∷ documents) = merge_all (merge_into root document) documents

-- Each has no key twice and is silent of the path.
abbrev pub AllSilent : List Text → List ConfigValue → Type 0
AllSilent keys = All (λ (document : ConfigValue).
    (distinct_keys document ≡ true) × (is_silent (some document) keys ≡ true))

merge_all-silent :
    (keys : List Text) (root : ConfigValue) (documents : List ConfigValue)
    → AllSilent keys documents
    → walk (some (merge_all root documents)) keys ≡ walk (some root) keys
merge_all-silent keys root [] silent = refl
merge_all-silent keys root (document ∷ documents) ((distinct, here), silent) =
    merge_all-silent keys (merge_into root document) documents silent
    ∙ walk-silent keys (some root) (some document) distinct here

merge_all-append :
    (root : ConfigValue) (documents later : List ConfigValue)
    → merge_all root (documents ++ later) ≡ merge_all (merge_all root documents) later
merge_all-append root [] later = refl
merge_all-append root (document ∷ documents) later =
    merge_all-append (merge_into root document) documents later

-- Of merged documents, the last that says something at a path decides.
pub merge_all-decides :
    (path : Text) (root : ConfigValue) (earlier later : List ConfigValue)
    (document value : ConfigValue)
    → distinct_keys document ≡ true
    → lookup_path document path ≡ some value
    → is_table value ≡ false
    → AllSilent (split_dots path) later
    → lookup_path (merge_all root (earlier ++ document ∷ later)) path ≡ some value
unfolding lookup_path
merge_all-decides path root earlier later document value distinct found whole silent =
    ap (λ root. walk (some root) (split_dots path))
      (merge_all-append root earlier (document ∷ later))
    ∙ merge_all-silent (split_dots path) (merge_into (merge_all root earlier) document) later silent
    ∙ walk-spoken (split_dots path) (some (merge_all root earlier)) (some document) value distinct
        found whole
