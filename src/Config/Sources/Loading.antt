-- ===== src/Config/Sources/Loading.antt =====
-- Loading and reading again, crates/config/src/managed/source.rs.
use overseerd.Base.{
  false, mem, ◌==◌, arith, ℕ, ◌≡◌, refl, ap, ◌∙◌, subst, Option, none, some, List, [], ◌∷◌, ◌++◌,
  All, Text, Result, ok, err, ◌>>=◌, >>=-eq-ok, ok-injective,
}
use overseerd.Config.Value.{ConfigValue, table, end}
use overseerd.Config.Sources.{
  FilePath, ConfigError, Parser, Files, after_last_dot, split_slashes, extension, find_parser,
  merge_text, merge_file, reread_sources, merge_present, merge_stem, merge_profiles, load_in,
  application, resolve_profiles,
}

after_last_dot-append :
    (stem ext : Text) → after_last_dot ext ≡ none → after_last_dot (stem ++ b'.' ∷ ext) ≡ some ext
after_last_dot-append [] ext plain = rw plain refl
after_last_dot-append (c ∷ stem) ext plain = rw (after_last_dot-append stem ext plain) refl

-- The extensions have no dot and no slash, and differ.
abbrev pub IsTold : List (Text × Parser) → List (Text × Parser) → Type 0
IsTold all = All (λ (p : Text × Parser).
    (find_parser p.0 all ≡ some p.1) × (after_last_dot p.0 ≡ none) × (mem b'/' p.0 ≡ false))

-- The text has no slash.
abbrev pub IsPlain : Text → Type 0
IsPlain text = mem b'/' text ≡ false

IsPlain-append : (stem ext : Text) → IsPlain stem → IsPlain ext → IsPlain (stem ++ b'.' ∷ ext)
IsPlain-append [] ext h k = k
IsPlain-append (c ∷ stem) ext h k = ground (arith, IsPlain-append stem ext)

split_slashes-plain : (text : Text) → IsPlain text → split_slashes text ≡ text ∷ []
split_slashes-plain [] h = refl
split_slashes-plain (c ∷ text) h =
    let rest = split_slashes-plain text (ground arith) in
    let other : (c == b'/') ≡ false = ground arith in rw (rest, other) refl

extension-plain :
    (c : ℕ) (text : Text)
    → (c == b'.') ≡ false
    → IsPlain (c ∷ text)
    → extension (c ∷ text) ≡ after_last_dot text
extension-plain c [] first h = rw (split_slashes-plain (c ∷ []) h, first, first) refl
extension-plain c (d ∷ text) first h = rw (split_slashes-plain (c ∷ d ∷ text) h, first) refl

module _ (files : Files) (not_found : ℕ) (all : List (Text × Parser)) where
  reread_sources-append :
      (root : ConfigValue) (sources later : List FilePath)
      → reread_sources files not_found root (sources ++ later) all ≡ (
          reread_sources files not_found root sources all >>= λ merged.
          reread_sources files not_found merged later all)
  unfolding reread_sources
  reread_sources-append root [] later = refl
  reread_sources-append root (source ∷ sources) later =
      next (merge_file files not_found root source all)
        (λ merged. reread_sources-append merged sources later)
    where
      next :
          (merged : Result ConfigError ConfigValue)
          → ((root : ConfigValue)
              → reread_sources files not_found root (sources ++ later) all ≡ (
                  reread_sources files not_found root sources all >>= λ merged.
                  reread_sources files not_found merged later all))
          → (merged >>= λ root. reread_sources files not_found root (sources ++ later) all) ≡ (
              (merged >>= λ root. reread_sources files not_found root sources all) >>= λ merged.
              reread_sources files not_found merged later all)
      next (ok root) rest = rest root
      next (err why) rest = refl

  -- What was loaded is what its sources give.
  abbrev Rereads : ConfigValue × List FilePath → Type 0
  Rereads (root, sources) = reread_sources files not_found (table end) sources all ≡ ok root

  merge_file-present :
      (root : ConfigValue) (dir : Text) (c : ℕ) (stem ext : Text) (parser : Parser)
      (read : Result ℕ Text)
      → find_parser ext all ≡ some parser
      → after_last_dot ext ≡ none
      → (c == b'.') ≡ false
      → IsPlain (c ∷ stem ++ b'.' ∷ ext)
      → files (dir, c ∷ stem ++ b'.' ∷ ext) ≡ some read
      → merge_file files not_found root (dir, c ∷ stem ++ b'.' ∷ ext) all
        ≡ merge_text (dir, c ∷ stem ++ b'.' ∷ ext) root parser read
  unfolding merge_file
  merge_file-present root dir c stem ext parser read told plain first whole there =
      rw
        (
          merge_file,
          extension-plain c (stem ++ b'.' ∷ ext) first whole,
          after_last_dot-append stem ext plain,
          told,
          there,
        )
        refl

  merge_present-Rereads :
      (loaded next : ConfigValue × List FilePath) (dir : Text) (c : ℕ) (stem ext : Text)
      (parser : Parser) (found : Option (Result ℕ Text))
      → find_parser ext all ≡ some parser
      → after_last_dot ext ≡ none
      → (c == b'.') ≡ false
      → IsPlain (c ∷ stem ++ b'.' ∷ ext)
      → files (dir, c ∷ stem ++ b'.' ∷ ext) ≡ found
      → Rereads loaded
      → merge_present files not_found (dir, c ∷ stem ++ b'.' ∷ ext) loaded parser found ≡ ok next
      → Rereads next
  unfolding reread_sources
  merge_present-Rereads (root, sources) next dir c stem ext parser none told plain first whole there
        old done =
      subst Rereads (ok-injective done) old
  merge_present-Rereads (root, sources) next dir c stem ext parser (some read) told plain first
        whole there old done =
      let path : FilePath = (dir, c ∷ stem ++ b'.' ∷ ext) in
      let (merged, reads, made) = >>=-eq-ok (merge_text path root parser read) _ done in
      let again =
        merge_file-present root dir c stem ext parser read told plain first whole there ∙ reads in
      subst Rereads (ok-injective made) (
        reread_sources-append (table end) sources (path ∷ [])
        ∙ ap (λ before. before >>= λ merged. reread_sources files not_found merged (path ∷ []) all)
            old
        ∙ ap (λ after. after >>= λ merged. ok merged) again)

  merge_stem-Rereads :
      (loaded next : ConfigValue × List FilePath) (dir : Text) (c : ℕ) (stem : Text)
      (parsers : List (Text × Parser))
      → IsTold all parsers
      → (c == b'.') ≡ false
      → IsPlain (c ∷ stem)
      → Rereads loaded
      → merge_stem files not_found loaded dir (c ∷ stem) parsers ≡ ok next
      → Rereads next
  unfolding merge_stem
  merge_stem-Rereads loaded next dir c stem [] told first whole old done =
      subst Rereads (ok-injective done) old
  merge_stem-Rereads loaded next dir c stem ((ext, parser) ∷ parsers) ((told, plain, flat), rest)
        first whole old done =
      let path : FilePath = (dir, c ∷ stem ++ b'.' ∷ ext) in
      let (now, present, later) =
        >>=-eq-ok (merge_present files not_found path loaded parser (files path)) _ done in
      merge_stem-Rereads now next dir c stem parsers rest first whole
        (merge_present-Rereads loaded now dir c stem ext parser (files path) told plain first
          (IsPlain-append (c ∷ stem) ext whole flat) refl old present)
        later

  merge_profiles-Rereads :
      (loaded next : ConfigValue × List FilePath) (dir : Text) (profiles : List Text)
      → IsTold all all
      → All IsPlain profiles
      → Rereads loaded
      → merge_profiles files not_found loaded dir profiles all ≡ ok next
      → Rereads next
  unfolding merge_profiles
  merge_profiles-Rereads loaded next dir [] told flat old done =
      subst Rereads (ok-injective done) old
  merge_profiles-Rereads loaded next dir (profile ∷ profiles) told (here, flat) old done =
      let (first, stem, later) =
        >>=-eq-ok (merge_stem files not_found loaded dir (application ++ b'-' ∷ profile) all) _
          done in
      merge_profiles-Rereads first next dir profiles told flat
        (merge_stem-Rereads loaded first dir _ _ all told refl here old stem) later

  -- If the parsers' extensions have no dot and no slash and differ, no profile has a slash, and the
  -- files are as they were, the sources that `load_in` kept, read and merged again in their order by
  -- `reread`, give the tree that `load_in` gave.
  pub load_in-reread_sources :
      (env : Option Text) (dir : Text) (profiles : List Text) (root : ConfigValue)
      (sources : List FilePath)
      → IsTold all all
      → All IsPlain (resolve_profiles env profiles)
      → load_in files not_found env dir profiles all ≡ ok (root, sources)
      → reread_sources files not_found (table end) sources all ≡ ok root
  unfolding load_in reread_sources
  load_in-reread_sources env dir profiles root sources told flat done =
      let start : ConfigValue × List FilePath = (table end, []) in
      let (first, stem, later) =
        >>=-eq-ok (merge_stem files not_found start dir application all) _ done in
      merge_profiles-Rereads first (root, sources) dir (resolve_profiles env profiles) told flat
        (merge_stem-Rereads start first dir _ _ all told refl refl refl stem) later
