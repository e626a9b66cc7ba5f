-- ===== src/Config/Template/Normal.antt =====
-- The segments that `parse_template` gives, crates/config/src/parse.rs.
use overseerd.Base.{
  ℕ, ◌≡◌, ◌≢◌, Bool-cases, ne_of_==, ok-injective, inl, inr, ◌∙◌, List, [], ◌∷◌, ◌++◌, Text, All,
  All-append, ◌==◌, arith, ok, >>=-eq-ok,
}
use overseerd.Config.Value.{Placeholder, Segment, literal, placeholder, StrKind}
use overseerd.Config.Template.{
  Scanner, Mode, text, dollar, key, default, flush, finish, read_char, push_placeholder, at, scan,
  classify, parse_template,
}
use overseerd.Config.Template.RoundTrip.{IsPlaceholder, IsNormal, print, parse_template-print}

-- The last segment, if there is one, is a placeholder.
abbrev EndsOpen : List Segment → Type 0
EndsOpen [] = Unit
EndsOpen (literal _ ∷ []) = ⊥
EndsOpen (placeholder _ ∷ []) = Unit
EndsOpen (x ∷ y ∷ rest) = EndsOpen (y ∷ rest)

abbrev IsKey : Text → Type 0
IsKey k = All (λ c. (c ≢ b'}') × (c ≢ b':')) k

abbrev IsMode : Mode → Type 0
IsMode text = Unit
IsMode dollar = Unit
IsMode (key k) = IsKey k
IsMode (default k d) = IsKey k × All (λ c. c ≢ b'}') d

record IsScanner (s : Scanner) : Type 0 where
  normal : IsNormal s.segments
  open_end : EndsOpen s.segments
  mode : IsMode s.mode

IsNormal-literal :
    (segments : List Segment) (t : Text)
    → IsNormal segments
    → EndsOpen segments
    → t ≢ []
    → IsNormal (segments ++ literal t ∷ [])
IsNormal-literal [] t n e h = (h, tt, tt)
IsNormal-literal (literal u ∷ []) t n e h = absurd e
IsNormal-literal (literal u ∷ literal v ∷ rest) t n e h = absurd n.1
IsNormal-literal (literal u ∷ placeholder p ∷ rest) t n e h =
    (n.0, tt, IsNormal-literal (placeholder p ∷ rest) t n.2 e h)
IsNormal-literal (placeholder p ∷ []) t n e h = (n.0, (h, tt, tt))
IsNormal-literal (placeholder p ∷ x ∷ rest) t n e h = (n.0, IsNormal-literal (x ∷ rest) t n.1 e h)

IsNormal-placeholder :
    (segments : List Segment) (p : Placeholder)
    → IsNormal segments
    → IsPlaceholder p
    → IsNormal (segments ++ placeholder p ∷ [])
IsNormal-placeholder [] p n h = (h, tt)
IsNormal-placeholder (literal u ∷ []) p n h = (n.0, tt, (h, tt))
IsNormal-placeholder (literal u ∷ literal v ∷ rest) p n h = absurd n.1
IsNormal-placeholder (literal u ∷ placeholder q ∷ rest) p n h =
    (n.0, tt, IsNormal-placeholder (placeholder q ∷ rest) p n.2 h)
IsNormal-placeholder (placeholder q ∷ rest) p n h = (n.0, IsNormal-placeholder rest p n.1 h)

EndsOpen-placeholder :
    (segments : List Segment) (p : Placeholder) → EndsOpen (segments ++ placeholder p ∷ [])
EndsOpen-placeholder [] p = tt
EndsOpen-placeholder (x ∷ []) p = tt
EndsOpen-placeholder (x ∷ y ∷ rest) p = EndsOpen-placeholder (y ∷ rest) p

IsNormal-flush :
    (pending : Text) (segments : List Segment)
    → IsNormal segments
    → EndsOpen segments
    → IsNormal (flush pending segments)
IsNormal-flush [] segments n e = n
IsNormal-flush (c ∷ t) segments n e = IsNormal-literal segments (c ∷ t) n e (λ p. cc)

pushed :
    (p : Placeholder) (s : Scanner)
    → IsScanner s
    → IsPlaceholder p
    → IsScanner (at text [] (push_placeholder p s.pending s.segments))
pushed p s i h = record {
  normal =
      IsNormal-placeholder (flush s.pending s.segments) p
        (IsNormal-flush s.pending s.segments i.normal i.open_end) h;
  open_end = EndsOpen-placeholder (flush s.pending s.segments) p;
  mode = tt;
}

IsKey-snoc : (k : Text) (c : ℕ) → IsKey k → c ≢ b'}' → c ≢ b':' → IsKey (k ++ c ∷ [])
IsKey-snoc k c h a b = All-append _ k (c ∷ []) h ((a, b), tt)

read_char-IsScanner :
    (c : ℕ) (mode : Mode) (pending : Text) (segments : List Segment)
    → IsScanner (at mode pending segments)
    → IsScanner (read_char c mode pending segments)
read_char-IsScanner c text pending segments i = ground (arith, i.normal, i.open_end)
read_char-IsScanner c dollar pending segments i = ground (arith, i.normal, i.open_end)
read_char-IsScanner c (key k) pending segments i = elim (Bool-cases (c == b'}')) [
  | inl close ↦ rw close (pushed _ _ i (record { key = i.mode; default = tt }))
  | inr on ↦ elim (Bool-cases (c == b':')) [
    | inl colon ↦
        rw (on, colon) (record { normal = i.normal; open_end = i.open_end; mode = (i.mode, tt) })
    | inr more ↦
        rw (on, more)
          (record {
            normal = i.normal;
            open_end = i.open_end;
            mode = IsKey-snoc k c i.mode (ne_of_== c _ on) (ne_of_== c _ more);
          })
  ]
]
read_char-IsScanner c (default k d) pending segments i = elim (Bool-cases (c == b'}')) [
  | inl close ↦ rw close (pushed _ _ i (record { key = i.mode.0; default = i.mode.1 }))
  | inr on ↦ rw on (record {
    normal = i.normal;
    open_end = i.open_end;
    mode = (i.mode.0, All-append _ d (c ∷ []) i.mode.1 (ne_of_== c _ on, tt));
  })
]

finish-IsNormal :
    (mode : Mode) (pending : Text) (segments : List Segment) {done : List Segment}
    → IsScanner (at mode pending segments)
    → finish mode pending segments ≡ ok done
    → IsNormal done
finish-IsNormal text pending segments i h =
    let e : flush pending segments ≡ _ = ok-injective h in
    rw e at (IsNormal-flush pending segments i.normal i.open_end)
finish-IsNormal dollar pending segments i h =
    let e : flush (pending ++ b'$' ∷ []) segments ≡ _ = ok-injective h in
    rw e at (IsNormal-flush (pending ++ b'$' ∷ []) segments i.normal i.open_end)
finish-IsNormal (key k) pending segments i h = cc
finish-IsNormal (default k d) pending segments i h = cc

scan-IsNormal :
    (s : Scanner) (chars : Text) {done : List Segment}
    → IsScanner s
    → scan s chars ≡ ok done
    → IsNormal done
unfolding scan
scan-IsNormal s [] i h = finish-IsNormal s.mode s.pending s.segments i h
scan-IsNormal s (c ∷ chars) i h =
    scan-IsNormal (read_char c s.mode s.pending s.segments) chars
      (read_char-IsScanner c s.mode s.pending s.segments i) h

-- A text that parses has normal segments, with the class that they have, and printing them gives a
-- text that parses to the same.
pub parse_template-IsNormal :
    (raw : Text) {segments : List Segment} {kind : StrKind}
    → parse_template raw ≡ ok (segments, kind)
    → IsNormal segments
      × (kind ≡ classify segments)
      × (parse_template (print segments) ≡ ok (segments, kind))
unfolding parse_template
parse_template-IsNormal raw {segments} {kind} h =
    let (done, scanned, e) = >>=-eq-ok (scan (at text [] []) raw) _ h in
    let split : done ≡ segments = cc in
    let same : kind ≡ classify segments = cc in
    let start : IsScanner (at text [] []) = record { normal = tt; open_end = tt; mode = tt } in
    let normal = rw split at (scan-IsNormal (at text [] []) raw start scanned) in
    (normal, same, parse_template-print segments normal ∙ rw (← same))
