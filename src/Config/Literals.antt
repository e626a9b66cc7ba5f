-- ===== src/Config/Literals.antt =====
-- crates/config/src/defaults.rs: declared defaults, and the literals that their texts are read as.
use overseerd.Base.{
  ℕ, zero, suc, ◌+◌, ◌-◌, ◌*◌, ◌^◌, Bool, true, false, ◌&&◌, Option, none, some, List, [], ◌∷◌,
  Text, text_eq, ltb, leb, ◌==◌, if◌then◌else◌,
}
use overseerd.Config.Value.{ConfigValue, Entries, end, entry, ℤ, pos, negsuc}

-- `FieldDefault` and `VariantDefault`
abbrev pub FieldDefault : Type 0
FieldDefault = Text × Text

abbrev pub VariantDefault : Type 0
VariantDefault = Text × List FieldDefault

-- `EnumTag`
pub data EnumTag : Type 0 where
  external untagged : EnumTag
  internal : Text → EnumTag
  adjacent : Text → Text → EnumTag

-- `DefaultSpec`
pub data DefaultSpec : Type 0 where
  no_defaults : DefaultSpec
  fields : List FieldDefault → DefaultSpec
  variants : EnumTag → Option (Text × Bool) → List VariantDefault → DefaultSpec

-- `entries.push(..)`
unfoldable pub push_entry : Text → ConfigValue → Entries → Entries
push_entry key value end = entry key value end
push_entry key value (entry k v rest) = entry k v (push_entry key value rest)

-- `entries.iter().any(|(key, _)| key == field)`
unfoldable pub has_entry : Text → Entries → Bool
has_entry key end = false
has_entry key (entry k v rest) = if text_eq k key then true else has_entry key rest

-- `str::parse::<i128>`: a sign or none, and digits up to the bounds
abbrev digit_of : ℕ → Option ℕ
digit_of c = if leb b'0' c && leb c b'9' then some (c - b'0') else none

abbrev and_digit : ℕ → Option ℕ → Option ℕ
and_digit n none = none
and_digit n (some d) = some (n * 10 + d)

unfoldable pub read_digits : Option ℕ → Text → Option ℕ
read_digits n [] = n
read_digits none (c ∷ cs) = none
read_digits (some n) (c ∷ cs) = read_digits (and_digit n (digit_of c)) cs

abbrev read_some : Text → Option ℕ
read_some [] = none
read_some (c ∷ cs) = read_digits (some 0) (c ∷ cs)

abbrev positive : Option ℕ → Option ℤ
positive none = none
positive (some n) = if ltb n (2 ^ 127) then some (pos n) else none

abbrev negative : Option ℕ → Option ℤ
negative none = none
negative (some zero) = some (pos 0)
negative (some (suc n)) = if ltb n (2 ^ 127) then some (negsuc n) else none

unfoldable pub parse_i128 : Text → Option ℤ
parse_i128 [] = none
parse_i128 (c ∷ cs) =
    if c == b'-'
    then negative (read_some cs)
    else if c == b'+'
    then positive (read_some cs)
    else positive (read_some (c ∷ cs))

-- `str::parse::<bool>`
unfoldable pub parse_bool : Text → Option Bool
parse_bool text =
    if text_eq text (b't' ∷ b'r' ∷ b'u' ∷ b'e' ∷ [])
    then some true
    else if text_eq text (b'f' ∷ b'a' ∷ b'l' ∷ b's' ∷ b'e' ∷ [])
    then some false
    else none
