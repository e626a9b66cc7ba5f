-- ===== src/Config/Sources.antt =====
-- crates/config/src/managed/source.rs: merging the documents of a configuration, and the bindings.
pub mod Keys
pub mod Merging
pub mod Loading
mod Tests
use overseerd.Base.{
  ℕ, Bool, true, false, not, ◌&&◌, Option, none, some, List, [], ◌∷◌, ◌++◌, ◌||◌, map, mem, ◌==◌,
  if◌then◌else◌, Text, text_eq, Result, ok, err, ◌>>=◌,
}
use overseerd.Config.Value.{
  ConfigValue, null, bool, int, float, str, array, table, Entries, end, entry, split_dots,
}
use overseerd.Config.Literals.{push_entry, has_entry}

-- `base_entries.iter_mut().find(..)`: what is found is changed, and otherwise the entry is pushed.
unfoldable pub upsert : Text → (ConfigValue → ConfigValue) → ConfigValue → Entries → Entries
upsert key change value end = entry key value end
upsert key change value (entry k old rest) =
    let later = upsert key change value rest in
    if text_eq k key then entry k (change old) rest else entry k old later

unfoldable mutual
  -- `merge_into`
  pub merge_into : ConfigValue → ConfigValue → ConfigValue
  merge_into base null = null
  merge_into base (bool b) = bool b
  merge_into base (int n) = int n
  merge_into base (float f) = float f
  merge_into base (str s) = str s
  merge_into base (array items) = array items
  merge_into (table base) (table overlay) = table (merge_entries base overlay)
  merge_into _ (table overlay) = table overlay

  -- The loop of `merge_into`
  pub merge_entries : Entries → Entries → Entries
  merge_entries base end = base
  merge_entries base (entry key value overlay) =
      merge_entries (upsert key (λ old. merge_into old value) value base) overlay

-- `ConfigBinding`, by its type and path, and `push_binding`
abbrev pub has_binding : ℕ → Text → List (ℕ × Text) → Bool
has_binding type_id path [] = false
has_binding type_id path ((other, at) ∷ bindings) =
    ((other == type_id) && text_eq at path) || has_binding type_id path bindings

unfoldable pub push_binding : ℕ → Text → List (ℕ × Text) → List (ℕ × Text)
push_binding type_id path bindings =
    if has_binding type_id path bindings then bindings else bindings ++ (type_id, path) ∷ []

-- `char::is_whitespace` and `str::trim`
abbrev whitespace : List ℕ
whitespace =
    9 ∷ 10 ∷ 11 ∷ 12 ∷ 13 ∷ 32 ∷ 133 ∷ 160 ∷ 5760 ∷ 8192 ∷ 8193 ∷ 8194 ∷ 8195 ∷ 8196 ∷ 8197 ∷ 8198
    ∷ 8199 ∷ 8200 ∷ 8201 ∷ 8202 ∷ 8232 ∷ 8233 ∷ 8239 ∷ 8287 ∷ 12288 ∷ []

abbrev trim_start : Text → Text
trim_start [] = []
trim_start (c ∷ cs) = let rest = trim_start cs in if mem c whitespace then rest else c ∷ cs

abbrev trim_end : Text → Text
trim_end [] = []
trim_end (c ∷ cs) = only_space c (trim_end cs)
  where
    only_space : ℕ → Text → Text
    only_space c [] = if mem c whitespace then [] else c ∷ []
    only_space c (d ∷ ds) = c ∷ d ∷ ds

-- `env.split(',')`
abbrev push_front : ℕ → List Text → List Text
push_front c [] = (c ∷ []) ∷ []
push_front c (word ∷ words) = (c ∷ word) ∷ words

abbrev split_commas : Text → List Text
split_commas [] = [] ∷ []
split_commas (c ∷ cs) =
    let rest = split_commas cs in if c == b',' then [] ∷ rest else push_front c rest

abbrev nonempty : List Text → List Text
nonempty [] = []
nonempty ([] ∷ words) = nonempty words
nonempty ((c ∷ cs) ∷ words) = (c ∷ cs) ∷ nonempty words

-- `resolve_profiles`
unfoldable pub resolve_profiles : Option Text → List Text → List Text
resolve_profiles none explicit = explicit
resolve_profiles (some env) explicit =
    nonempty (map (λ (word : Text). trim_end (trim_start word)) (split_commas env)) ++ explicit

-- `ConfigError`, as far as loading raises it. A path is a directory and the name of a file in it.
abbrev pub FilePath : Type 0
FilePath = Text × Text

pub data ConfigError : Type 0 where
  io : FilePath → ℕ → ConfigError
  parse : FilePath → ℕ → ConfigError

-- `Parser`
abbrev pub Parser : Type 0
Parser = Text → Result ℕ ConfigValue

-- `Path::file_name` of a path below a directory: its last component; empty ones and dots are none,
-- and two dots name no file.
abbrev pub split_slashes : Text → List Text
split_slashes [] = [] ∷ []
split_slashes (c ∷ cs) =
    let rest = split_slashes cs in if c == b'/' then [] ∷ rest else push_front c rest

abbrev is_component : Text → Bool
is_component [] = false
is_component (c ∷ []) = not (c == b'.')
is_component (c ∷ d ∷ cs) = true

abbrev last_component : List Text → Option Text
last_component [] = none
last_component (part ∷ parts) = elim (last_component parts) [
  | some last ↦ some last
  | none ↦ if is_component part then some part else none
]

abbrev not_parent : Option Text → Option Text
not_parent none = none
not_parent (some name) = if text_eq name (b'.' ∷ b'.' ∷ []) then none else some name

abbrev pub file_name : Text → Option Text
file_name path = not_parent (last_component (split_slashes path))

-- `Path::extension`: what follows the last dot of the file's name, if something stands before it
abbrev pub after_last_dot : Text → Option Text
after_last_dot [] = none
after_last_dot (c ∷ cs) = elim (after_last_dot cs) [
  | some after ↦ some after
  | none ↦ if c == b'.' then some cs else none
]

abbrev pub extension_of : Option Text → Option Text
extension_of none = none
extension_of (some []) = none
extension_of (some (c ∷ cs)) = after_last_dot cs

abbrev pub extension : Text → Option Text
extension path = extension_of (file_name path)

-- `parsers.iter().find(..)`
abbrev pub find_parser : Text → List (Text × Parser) → Option Parser
find_parser ext [] = none
find_parser ext ((other, parser) ∷ parsers) =
    let later = find_parser ext parsers in if text_eq other ext then some parser else later

-- What is at a path: nothing, or a file with its text or the error of reading it
abbrev pub Files : Type 0
Files = FilePath → Option (Result ℕ Text)

-- A document's text is read, parsed and merged.
abbrev pub merge_parsed :
    FilePath → ConfigValue → Result ℕ ConfigValue → Result ConfigError ConfigValue
merge_parsed path root (err why) = err (parse path why)
merge_parsed path root (ok parsed) = ok (merge_into root parsed)

abbrev pub merge_text :
    FilePath → ConfigValue → Parser → Result ℕ Text → Result ConfigError ConfigValue
merge_text path root parser (err why) = err (io path why)
merge_text path root parser (ok text) = merge_parsed path root (parser text)

abbrev pub application : Text
application = b'a' ∷ b'p' ∷ b'p' ∷ b'l' ∷ b'i' ∷ b'c' ∷ b'a' ∷ b't' ∷ b'i' ∷ b'o' ∷ b'n' ∷ []

module _ (files : Files) (not_found : ℕ) where
  -- `merge_file`; to read a file that is not there gives the error `not_found`.
  abbrev pub contents : Option (Result ℕ Text) → Result ℕ Text
  contents none = err not_found
  contents (some read) = read

  abbrev pub merge_known : FilePath → ConfigValue → Option Parser → Result ConfigError ConfigValue
  merge_known path root none = ok root
  merge_known path root (some parser) = merge_text path root parser (contents (files path))

  abbrev pub parser_for : List (Text × Parser) → Option Text → Option Parser
  parser_for parsers none = none
  parser_for parsers (some ext) = find_parser ext parsers

  unfoldable pub merge_file :
      ConfigValue → FilePath → List (Text × Parser) → Result ConfigError ConfigValue
  merge_file root (dir, name) parsers =
      merge_known (dir, name) root (parser_for parsers (extension name))

  -- The loop of `reread`
  unfoldable pub reread_sources :
      ConfigValue → List FilePath → List (Text × Parser) → Result ConfigError ConfigValue
  reread_sources root [] parsers = ok root
  reread_sources root (source ∷ sources) parsers =
      merge_file root source parsers >>= λ merged. reread_sources merged sources parsers

  -- `merge_stem`
  abbrev pub merge_present :
      FilePath
      → ConfigValue × List FilePath
      → Parser
      → Option (Result ℕ Text)
      → Result ConfigError (ConfigValue × List FilePath)
  merge_present path (root, sources) parser none = ok (root, sources)
  merge_present path (root, sources) parser (some read) =
      merge_text path root parser read >>= λ merged. ok (merged, sources ++ path ∷ [])

  unfoldable pub merge_stem :
      ConfigValue × List FilePath
      → Text
      → Text
      → List (Text × Parser)
      → Result ConfigError (ConfigValue × List FilePath)
  merge_stem loaded dir stem [] = ok loaded
  merge_stem loaded dir stem ((ext, parser) ∷ parsers) =
      let path : FilePath = (dir, stem ++ b'.' ∷ ext) in
      merge_present path loaded parser (files path) >>= λ next. merge_stem next dir stem parsers

  -- The loop of `load_in` over the profiles
  unfoldable pub merge_profiles :
      ConfigValue × List FilePath
      → Text
      → List Text
      → List (Text × Parser)
      → Result ConfigError (ConfigValue × List FilePath)
  merge_profiles loaded dir [] parsers = ok loaded
  merge_profiles loaded dir (profile ∷ profiles) parsers =
      merge_stem loaded dir (application ++ b'-' ∷ profile) parsers >>= λ next.
      merge_profiles next dir profiles parsers

  -- `load_in`, with the value of `OVERSEERD_PROFILES`
  unfoldable pub load_in :
      Option Text
      → Text
      → List Text
      → List (Text × Parser)
      → Result ConfigError (ConfigValue × List FilePath)
  load_in env dir profiles parsers =
      merge_stem (table end, []) dir application parsers >>= λ loaded.
      merge_profiles loaded dir (resolve_profiles env profiles) parsers
