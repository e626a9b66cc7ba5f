-- ===== src/Config/Template/RoundTrip.antt =====
-- Printed templates and `parse_template`, crates/config/src/parse.rs.
use overseerd.Base.{
  ◌≡◌, ◌≢◌, refl, ◌∙◌, Option, none, some, List, [], ◌∷◌, ◌++◌, Text, All, ◌==◌, if◌then◌else◌,
  arith, ok, append_assoc, append-nil,
}
use overseerd.Config.Value.{Placeholder, Segment, literal, placeholder}
use overseerd.Config.Template.{
  text, key, default, flush, push_placeholder, at, scan, classify, parse_template,
}

-- A `$` of a literal is written twice.
escape : Text → Text
escape [] = []
escape (c ∷ t) = if c == b'$' then b'$' ∷ b'$' ∷ escape t else c ∷ escape t

abbrev print_default : Option Text → Text
print_default none = []
print_default (some d) = b':' ∷ d

print_placeholder : Placeholder → Text
print_placeholder p = b'$' ∷ b'{' ∷ (p.key ++ (print_default p.default ++ b'}' ∷ []))

pub print : List Segment → Text
unfolding escape print_placeholder
print [] = []
print (literal t ∷ segments) = escape t ++ print segments
print (placeholder p ∷ segments) = print_placeholder p ++ print segments

abbrev pub IsDefault : Option Text → Type 0
IsDefault none = Unit
IsDefault (some d) = All (λ c. c ≢ b'}') d

-- A key ends at the first `:` or `}`, a default at the first `}`.
pub record IsPlaceholder (p : Placeholder) : Type 0 where
  pub key : All (λ c. (c ≢ b'}') × (c ≢ b':')) p.key
  pub default : IsDefault p.default

abbrev pub NoLiteral : List Segment → Type 0
NoLiteral (literal _ ∷ _) = ⊥
NoLiteral _ = Unit

-- What the parser builds: no empty literal, no two literals in a row, placeholders that can be
-- written.
abbrev pub IsNormal : List Segment → Type 0
IsNormal [] = Unit
IsNormal (literal t ∷ segments) = (t ≢ []) × NoLiteral segments × IsNormal segments
IsNormal (placeholder p ∷ segments) = IsPlaceholder p × IsNormal segments

module _ (segments : List Segment) where
  scan-escape :
      (pending t rest : Text)
      → scan (at text pending segments) (escape t ++ rest)
        ≡ scan (at text (pending ++ t) segments) rest
  unfolding scan escape
  scan-escape pending [] rest = rw append-nil
  scan-escape pending (c ∷ t) rest =
      ground (arith, scan-escape (pending ++ c ∷ []) t rest, append_assoc pending (c ∷ []) t)

  scan-key-append :
      (pending k more rest : Text)
      → All (λ c. (c ≢ b'}') × (c ≢ b':')) more
      → scan (at (key k) pending segments) (more ++ rest)
        ≡ scan (at (key (k ++ more)) pending segments) rest
  unfolding scan
  scan-key-append pending k [] rest h = rw append-nil
  scan-key-append pending k (c ∷ more) rest h =
      ground
        (arith, scan-key-append pending (k ++ c ∷ []) more rest h.1, append_assoc k (c ∷ []) more)

  scan-default-append :
      (pending k d more rest : Text)
      → All (λ c. c ≢ b'}') more
      → scan (at (default k d) pending segments) (more ++ rest)
        ≡ scan (at (default k (d ++ more)) pending segments) rest
  unfolding scan
  scan-default-append pending k d [] rest h = rw append-nil
  scan-default-append pending k d (c ∷ more) rest h = ground (
    arith,
    scan-default-append pending k (d ++ c ∷ []) more rest h.1,
    append_assoc d (c ∷ []) more,
  )

scan-placeholder :
    (segments : List Segment) (pending rest : Text) (p : Placeholder)
    → IsPlaceholder p
    → scan (at text pending segments) (print_placeholder p ++ rest)
      ≡ scan (at text [] (push_placeholder p pending segments)) rest
unfolding scan print_placeholder
scan-placeholder segments pending rest p h =
    rw (append_assoc p.key (print_default p.default ++ b'}' ∷ []) rest)
      (scan-key-append segments pending [] p.key _ h.key ∙ closing p.default h.default)
  where
    closing :
        (d : Option Text)
        → IsDefault d
        → scan (at (key p.key) pending segments) ((print_default d ++ b'}' ∷ []) ++ rest)
          ≡ scan
              (at text [] (push_placeholder (record { key = p.key; default = d }) pending segments))
              rest
    closing none hd = refl
    closing (some d) hd =
        rw (append_assoc d (b'}' ∷ []) rest)
          (scan-default-append segments pending p.key [] d (b'}' ∷ rest) hd)

flush-eq :
    (t : Text) (segments : List Segment) → t ≢ [] → flush t segments ≡ segments ++ literal t ∷ []
flush-eq [] segments h = absurd (h refl)
flush-eq (c ∷ t) segments h = refl

scan-print :
    (done segments : List Segment)
    → IsNormal segments
    → scan (at text [] done) (print segments) ≡ ok (done ++ segments)
unfolding print
scan-print done [] h = unfold scan in rw append-nil
scan-print done (literal t ∷ []) h =
    scan-escape done [] t [] ∙ (unfold scan in rw (flush-eq t done h.0))
scan-print done (literal t ∷ literal u ∷ segments) h = absurd h.1
scan-print done (literal t ∷ placeholder p ∷ segments) h =
    scan-escape done [] t (print_placeholder p ++ print segments)
    ∙ scan-placeholder done t (print segments) p h.2.0
    ∙ scan-print (push_placeholder p t done) segments h.2.1
    ∙ rw (flush-eq t done h.0) (simp append_assoc)
scan-print done (placeholder p ∷ segments) h =
    scan-placeholder done [] (print segments) p h.0
    ∙ scan-print (done ++ placeholder p ∷ []) segments h.1
    ∙ simp append_assoc

-- Printing segments that the parser can build, and parsing the text, gives the segments back with
-- their class.
pub parse_template-print :
    (segments : List Segment)
    → IsNormal segments
    → parse_template (print segments) ≡ ok (segments, classify segments)
unfolding parse_template
parse_template-print segments h = rw (scan-print [] segments h)
