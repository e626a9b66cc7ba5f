-- ===== src/Config/Template.antt =====
-- crates/config/src/parse.rs: the template language of string leaves.
-- `parse_placeholder` and `read_default` return a value and the characters that are left. The loop
-- of `parse_template` goes on from there, so its rounds are not structural on the characters:
-- `scan` takes the loop and the two readers together, character by character, in three modes.
-- `Modes` proves that this is the loop that calls the two readers.
pub mod Modes
pub mod RoundTrip
pub mod Normal
mod Tests
use overseerd.Base.{
  ℕ, Bool, Option, none, some, List, [], ◌∷◌, ◌++◌, Text, ◌==◌, if◌then◌else◌, Result, ok, err,
  ◌>>=◌,
}
use overseerd.Config.Value.{
  Placeholder, Segment, literal, placeholder, StrKind, ConfigStr, TemplateErrorKind,
  unterminated_placeholder,
}

abbrev pub Parsed : Type 0 → Type 0
Parsed A = Result TemplateErrorKind A

-- `read_default`, from the default read so far
unfoldable pub read_default : Text → Text → Parsed (Text × Text)
read_default default [] = err unterminated_placeholder
read_default default (c ∷ chars) =
    if c == b'}' then ok (default, chars) else read_default (default ++ c ∷ []) chars

-- `parse_placeholder`, from the key read so far
unfoldable pub parse_placeholder : Text → Text → Parsed (Placeholder × Text)
unfolding read_default
parse_placeholder key [] = err unterminated_placeholder
parse_placeholder key (c ∷ chars) =
    let more = parse_placeholder (key ++ c ∷ []) chars in
    if c == b'}'
    then ok (record { key = key; default = none }, chars)
    else if c == b':'
    then (do
      (default, rest) ← read_default [] chars
      ok (record { key = key; default = some default }, rest))
    else more

-- A pending literal becomes a segment, if it is not empty.
abbrev pub flush : Text → List Segment → List Segment
flush [] segments = segments
flush (c ∷ t) segments = segments ++ literal (c ∷ t) ∷ []

-- What the loop of `parse_template` is in the middle of.
pub data Mode : Type 0 where
  -- between two tokens
  text : Mode
  -- after a `$`, which `peek` decides
  dollar : Mode
  -- in `parse_placeholder`, with the key so far
  key : Text → Mode
  -- in `read_default`, with the key and the default so far
  default : Text → Text → Mode

abbrev pub push_placeholder : Placeholder → Text → List Segment → List Segment
push_placeholder p pending segments = flush pending segments ++ placeholder p ∷ []

-- The end of the text in each mode. A `$` at the end is a literal one.
abbrev pub finish : Mode → Text → List Segment → Parsed (List Segment)
finish text pending segments = ok (flush pending segments)
finish dollar pending segments = ok (flush (pending ++ b'$' ∷ []) segments)
finish (key _) pending segments = err unterminated_placeholder
finish (default _ _) pending segments = err unterminated_placeholder

pub record Scanner : Type 0 where
  pub mode : Mode
  pub pending : Text
  pub segments : List Segment

abbrev pub at : Mode → Text → List Segment → Scanner
at mode pending segments = record { mode = mode; pending = pending; segments = segments }

-- One character in each mode. After a lone `$` the character is read anew as text.
abbrev pub read_char : ℕ → Mode → Text → List Segment → Scanner
read_char c text pending segments =
    if c == b'$' then at dollar pending segments else at text (pending ++ c ∷ []) segments
read_char c dollar pending segments =
    if c == b'$'
    then at text (pending ++ b'$' ∷ []) segments
    else if c == b'{'
    then at (key []) pending segments
    else at text (pending ++ b'$' ∷ c ∷ []) segments
read_char c (key k) pending segments =
    if c == b'}'
    then at text [] (push_placeholder (record { key = k; default = none }) pending segments)
    else if c == b':'
    then at (default k []) pending segments
    else at (key (k ++ c ∷ [])) pending segments
read_char c (default k d) pending segments =
    if c == b'}'
    then at text [] (push_placeholder (record { key = k; default = some d }) pending segments)
    else at (default k (d ++ c ∷ [])) pending segments

-- The loop of `parse_template`, in a mode, with the pending literal and the segments so far
unfoldable pub scan : Scanner → Text → Parsed (List Segment)
scan s [] = finish s.mode s.pending s.segments
scan s (c ∷ chars) = scan (read_char c s.mode s.pending s.segments) chars

-- `classify`
unfoldable pub classify : List Segment → StrKind
classify [] = StrKind.literal
classify (literal _ ∷ []) = StrKind.literal
classify (placeholder _ ∷ []) = StrKind.full_placeholder
classify _ = StrKind.templated

-- `parse_template`
unfoldable pub parse_template : Text → Parsed (List Segment × StrKind)
unfolding scan classify
parse_template raw = do segments ← scan (at text [] []) raw; ok (segments, classify segments)

-- `ConfigStr::parse`
unfoldable pub parse : Text → Parsed ConfigStr
unfolding parse_template
parse raw = do
  (segments, kind) ← parse_template raw
  ok (record { segments = segments; kind = kind })
