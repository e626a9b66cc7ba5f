-- ===== src/Config/Sources/Tests.antt =====
-- A base document and the overlay of a profile.
use overseerd.Base.{
  ◌≡◌, refl, true, false, none, some, List, [], ◌∷◌, ◌++◌, Text, ok, err, text_eq, if◌then◌else◌,
}
use overseerd.Config.Value.{
  ConfigValue, bool, int, table, pos, end, entry, lookup_path, split_dots, find_entry,
}
use overseerd.Config.Literals.{has_entry}
use overseerd.Config.Sources.{
  Parser, Files, resolve_profiles, push_binding, load_in, reread_sources, merge_stem,
  merge_profiles, merge_into, upsert, application,
}
use overseerd.Config.Sources.Merging.{is_silent, merge_all, merge_all-decides}
use overseerd.Config.Sources.Keys.{distinct_keys}
use overseerd.Config.Sources.Loading.{load_in-reread_sources}

-- a: { b: 1, c: 2 }
abbrev base : ConfigValue
base = table (
    entry (b'a' ∷ [])
      (table (entry (b'b' ∷ []) (int (pos 1)) (entry (b'c' ∷ []) (int (pos 2)) end))) end)

-- a: { c: 3 }, d: true
abbrev overlay : ConfigValue
overlay = table (
    entry (b'a' ∷ []) (table (entry (b'c' ∷ []) (int (pos 3)) end))
      (entry (b'd' ∷ []) (bool true) end))

-- d: false
abbrev last : ConfigValue
last = table (entry (b'd' ∷ []) (bool false) end)

merged :
    merge_into base overlay
    ≡ table (
        entry
          (b'a' ∷ [])
          (table (entry (b'b' ∷ []) (int (pos 1)) (entry (b'c' ∷ []) (int (pos 3)) end)))
          (entry (b'd' ∷ []) (bool true) end))
unfolding merge_into upsert
merged = refl

trimmed :
    resolve_profiles (some (b' ' ∷ b'x' ∷ b' ' ∷ b',' ∷ b' ' ∷ b',' ∷ b'y' ∷ [])) ((b'z' ∷ []) ∷ [])
    ≡ (b'x' ∷ []) ∷ (b'y' ∷ []) ∷ (b'z' ∷ []) ∷ []
unfolding resolve_profiles
trimmed = refl

once : push_binding 1 (b'a' ∷ []) (push_binding 1 (b'a' ∷ []) []) ≡ (1, b'a' ∷ []) ∷ []
unfolding push_binding
once = refl

overlay-distinct : distinct_keys overlay ≡ true
unfolding distinct_keys has_entry
overlay-distinct = refl

overlay-says : lookup_path overlay (b'a' ∷ b'.' ∷ b'c' ∷ []) ≡ some (int (pos 3))
unfolding lookup_path
overlay-says = refl

last-silent :
    (distinct_keys last ≡ true)
    × (is_silent (some last) (split_dots (b'a' ∷ b'.' ∷ b'c' ∷ [])) ≡ true)
unfolding distinct_keys has_entry split_dots find_entry
last-silent = (refl, refl)

merge_all-decides_example :
    lookup_path
      (merge_all (table end) ((base ∷ []) ++ overlay ∷ last ∷ []))
      (b'a' ∷ b'.' ∷ b'c' ∷ [])
    ≡ some (int (pos 3))
merge_all-decides_example =
    merge_all-decides (b'a' ∷ b'.' ∷ b'c' ∷ []) (table end) (base ∷ []) (last ∷ []) overlay
      (int (pos 3)) overlay-distinct overlay-says refl (last-silent, tt)

-- The base's file and the overlay's are there.
abbrev files : Files
files (dir, name) =
    if text_eq name (application ++ b'.' ∷ b't' ∷ [])
    then some (ok (b'1' ∷ []))
    else (if text_eq name (application ++ b'-' ∷ b'x' ∷ b'.' ∷ b't' ∷ [])
        then some (ok (b'2' ∷ []))
        else none)

abbrev parser : Parser
parser text =
    if text_eq text (b'1' ∷ [])
    then ok base
    else (if text_eq text (b'2' ∷ []) then ok overlay else err 7)

abbrev parsers : List (Text × Parser)
parsers = (b't' ∷ [], parser) ∷ (b'y' ∷ [], λ text. err 8) ∷ []

loaded :
    load_in files 404 none [] ((b'x' ∷ []) ∷ []) parsers
    ≡ ok (
      merge_all (table end) (base ∷ overlay ∷ []),
      ([], application ++ b'.' ∷ b't' ∷ [])
          ∷ ([], application ++ b'-' ∷ b'x' ∷ b'.' ∷ b't' ∷ [])
          ∷ [],
    )
unfolding load_in merge_stem merge_profiles resolve_profiles merge_into upsert
loaded = refl

load_in-reread_sources_example :
    reread_sources files 404
      (table end)
      (([], application ++ b'.' ∷ b't' ∷ [])
        ∷ ([], application ++ b'-' ∷ b'x' ∷ b'.' ∷ b't' ∷ [])
        ∷ [])
      parsers
    ≡ ok (merge_all (table end) (base ∷ overlay ∷ []))
unfolding resolve_profiles
load_in-reread_sources_example =
    load_in-reread_sources files 404 parsers none [] ((b'x' ∷ []) ∷ [])
      (merge_all (table end) (base ∷ overlay ∷ [])) _ ((refl, refl, refl), ((refl, refl, refl), tt))
      (refl, tt) loaded
