-- ===== src/Config/Template/Tests.antt =====
-- Runs of the parser.
use overseerd.Base.{◌≡◌, refl, some, none, List, [], ◌∷◌, arith, ok, err}
use overseerd.Config.Value.{Segment, literal, placeholder, StrKind, unterminated_placeholder}
use overseerd.Config.Template.{classify, parse_template}
use overseerd.Config.Template.RoundTrip.{IsNormal, print, parse_template-print}
use overseerd.Config.Template.Normal.{parse_template-IsNormal}

parse_template_mixed :
    parse_template (b'a' ∷ b'$' ∷ b'$' ∷ b'$' ∷ b'{' ∷ b'k' ∷ b':' ∷ b'd' ∷ b'}' ∷ b'$' ∷ [])
    ≡ ok (
      literal (b'a' ∷ b'$' ∷ [])
          ∷ placeholder (record { key = b'k' ∷ []; default = some (b'd' ∷ []) })
          ∷ literal (b'$' ∷ [])
          ∷ [],
      StrKind.templated,
    )
unfolding parse_template
parse_template_mixed = refl

parse_template_unterminated :
    parse_template (b'$' ∷ b'{' ∷ b'k' ∷ []) ≡ err unterminated_placeholder
unfolding parse_template
parse_template_unterminated = refl

abbrev greeting : List Segment
greeting = literal (b'$' ∷ []) ∷ placeholder (record { key = b'k' ∷ []; default = none }) ∷ []

greeting-IsNormal : IsNormal greeting
greeting-IsNormal =
    (ground arith, tt, (record { key = ((ground arith, ground arith), tt); default = tt }, tt))

parse_template-print_example : parse_template (print greeting) ≡ ok (greeting, classify greeting)
parse_template-print_example = parse_template-print greeting greeting-IsNormal

greeting_text :
    parse_template (b'$' ∷ b'$' ∷ b'$' ∷ b'{' ∷ b'k' ∷ b'}' ∷ []) ≡ ok (greeting, StrKind.templated)
unfolding parse_template
greeting_text = refl

parse_template-IsNormal_example :
    IsNormal greeting
    × (StrKind.templated ≡ classify greeting)
    × (parse_template (print greeting) ≡ ok (greeting, StrKind.templated))
parse_template-IsNormal_example =
    parse_template-IsNormal (b'$' ∷ b'$' ∷ b'$' ∷ b'{' ∷ b'k' ∷ b'}' ∷ []) greeting_text
