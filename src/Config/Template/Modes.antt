-- ===== src/Config/Template/Modes.antt =====
-- The modes of the scanner and the loop of `parse_template`, crates/config/src/parse.rs.
use overseerd.Base.{
  ◌≡◌, refl, some, List, [], ◌∷◌, ◌++◌, Text, ◌==◌, if◌then◌else◌, arith, ok, ◌>>=◌, append_assoc,
}
use overseerd.Config.Value.{Placeholder, Segment}
use overseerd.Config.Template.{
  Parsed, text, dollar, key, default, flush, push_placeholder, at, scan, read_default,
  parse_placeholder,
}

module _ (pending : Text) (segments : List Segment) where
  abbrev pub resume : Parsed (Placeholder × Text) → Parsed (List Segment)
  resume m = do (p, rest) ← m; scan (at text [] (push_placeholder p pending segments)) rest

  scan-default :
      (k d chars : Text)
      → scan (at (default k d) pending segments) chars
        ≡ resume (do
          (value, rest) ← read_default d chars
          ok (record { key = k; default = some value }, rest))
  unfolding scan read_default
  scan-default k d [] = refl
  scan-default k d (c ∷ chars) = ground (arith, scan-default k (d ++ c ∷ []) chars)

  scan-key :
      (k chars : Text)
      → scan (at (key k) pending segments) chars ≡ resume (parse_placeholder k chars)
  unfolding scan parse_placeholder
  scan-key k [] = refl
  scan-key k (c ∷ chars) = ground (arith, scan-key (k ++ c ∷ []) chars, scan-default k [] chars)

module _ (pending : Text) (segments : List Segment) where
  abbrev pub after_dollar : Text → Parsed (List Segment)
  after_dollar [] = scan (at text (pending ++ b'$' ∷ []) segments) []
  after_dollar (c ∷ chars) =
      if c == b'$'
      then scan (at text (pending ++ b'$' ∷ []) segments) chars
      else if c == b'{'
      then resume pending segments (parse_placeholder [] chars)
      else scan (at text (pending ++ b'$' ∷ []) segments) (c ∷ chars)

  -- One round of the loop of `parse_template`, as the source writes it.
  abbrev pub round : Text → Parsed (List Segment)
  round [] = ok (flush pending segments)
  round (c ∷ chars) =
      if c == b'$' then after_dollar chars else scan (at text (pending ++ c ∷ []) segments) chars

  scan-dollar : (chars : Text) → scan (at dollar pending segments) chars ≡ after_dollar chars
  unfolding scan
  scan-dollar [] = refl
  scan-dollar (c ∷ chars) =
      ground (arith, scan-key pending segments [] chars, append_assoc pending (b'$' ∷ []) (c ∷ []))

  -- Between two tokens the scanner does one round of the loop: an escaped `$`, a placeholder read
  -- by `parse_placeholder` from the characters behind `${`, a lone `$`, or a plain character.
  pub scan_lem : (chars : Text) → scan (at text pending segments) chars ≡ round chars
  unfolding scan
  scan_lem [] = refl
  scan_lem (c ∷ chars) = ground (arith, scan-dollar chars)
