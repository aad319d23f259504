-- ===== src/Pilot/Safety.antt =====
-- pilotpath.ts: what an encoded session key may hold.
use cubestack.Prelude.{
  ◌<◌, ◌&&◌, leb, ◌||◌, starts_with, ◌==◌, ℕ, ◌/◌, ◌%◌, ltb, ◌≡◌, ◌≢◌, refl, sym, ap, inl, inr,
  Bool-cases, Text, text_eq, codes, has_unit, Bool, true, false, Option, none, some, List, [], ◌∷◌,
  ◌++◌, All, All-append, arith, ◌>>=◌, bind-some, subst, ◌∙◌,
}
use cubestack.Pilot.{is_bad_segment}
use cubestack.Pilot.Encoding.{
  is_unreserved, hex_digit, percent, utf8, of_pair, is_high, is_low, encode_unit, encode_units,
  encode_uri_component,
}

-- The units that end a segment or the path, a backslash too, and the blanks and controls that a
-- parser of URLs strips
abbrev pub is_delimiter : ℕ → Bool
is_delimiter c = leb c 32 || has_unit c (codes "/?#\\")

abbrev pub Plain : ℕ → Type 0
Plain c = is_delimiter c ≡ false

is_unreserved-Plain : (c : ℕ) → is_unreserved c ≡ true → Plain c
unfolding is_unreserved
is_unreserved-Plain c h = ground (arith, h)

hex_digit-Plain : (d : ℕ) → d < 16 → Plain (hex_digit d)
hex_digit-Plain d h = ground arith

-- An octet, other than that of a dot
abbrev IsOctet : ℕ → Type 0
IsOctet o = (o < 256) × ((o == b'.') ≡ false)

percent-Plain : (os : List ℕ) → All IsOctet os → All Plain (percent os)
percent-Plain [] h = tt
percent-Plain (o ∷ os) ((e, d), h) = (
  refl,
  (
    hex_digit-Plain (o / 16) (omega (arith, e)),
    (hex_digit-Plain (o % 16) (omega arith), percent-Plain os h),
  ),
)

-- A text begins with a dot that is escaped.
abbrev pub is_escaped_dot : Text → Bool
is_escaped_dot t = starts_with (codes "%2E") t || starts_with (codes "%2e") t

abbrev pub has_escaped_dot : Text → Bool
has_escaped_dot [] = false
has_escaped_dot (c ∷ t) = is_escaped_dot (c ∷ t) || has_escaped_dot t

hex_digit-not_percent : (d : ℕ) → (b'%' == hex_digit d) ≡ false
hex_digit-not_percent d = ground arith

-- The digits of an octet are "2E" or "2e" for a dot only.
digits_lem :
    (o : ℕ)
    → IsOctet o
    → (b'2' == hex_digit (o / 16) && b'E' == hex_digit (o % 16) ≡ false)
      × (b'2' == hex_digit (o / 16) && b'e' == hex_digit (o % 16) ≡ false)
digits_lem o (e, d) = (ground (arith, e, d), ground (arith, e, d))

escape-has_escaped_dot :
    (o : ℕ) (t : Text)
    → IsOctet o
    → has_escaped_dot (b'%' ∷ hex_digit (o / 16) ∷ hex_digit (o % 16) ∷ t) ≡ has_escaped_dot t
escape-has_escaped_dot o t h =
    ground (arith, digits_lem o h, hex_digit-not_percent (o / 16), hex_digit-not_percent (o % 16))

percent-has_escaped_dot :
    (os : List ℕ) (t : Text)
    → All IsOctet os
    → has_escaped_dot (percent os ++ t) ≡ has_escaped_dot t
percent-has_escaped_dot [] t h = refl
percent-has_escaped_dot (o ∷ os) t (e, h) =
    escape-has_escaped_dot o (percent os ++ t) e ∙ percent-has_escaped_dot os t h

utf8-IsOctet : (n : ℕ) → (n == b'.') ≡ false → All IsOctet (utf8 n)
utf8-IsOctet n h = elim (Bool-cases (ltb n 128)) [
  | inl e ↦ rw e ((ground (arith, e), h), tt)
  | inr e ↦ elim (Bool-cases (ltb n 2048)) [
    | inl f ↦ rw (e, f) ((ground (arith, f), ground arith), ((ground arith, ground arith), tt))
    | inr f ↦ elim (Bool-cases (ltb n 65536)) [
      | inl g ↦
          rw (e, f, g)
            (
              (ground (arith, g), ground arith),
              ((ground arith, ground arith), ((ground arith, ground arith), tt)),
            )
      | inr g ↦
          rw (e, f, g)
            (
              (ground arith, ground arith),
              (
                (ground arith, ground arith),
                ((ground arith, ground arith), ((ground arith, ground arith), tt)),
              ),
            )
    ]
  ]
]

-- A unit whose text is not an escape stands for itself.
abbrev Escape : Text → Type 0
Escape out = (t : Text) × (out ≡ b'%' ∷ t)

percent-Escape : (n : ℕ) → Escape (percent (utf8 n))
percent-Escape n = elim (Bool-cases (ltb n 128)) [
  | inl e ↦ rw e (_, refl)
  | inr e ↦ elim (Bool-cases (ltb n 2048)) [
    | inl f ↦ rw (e, f) (_, refl)
    | inr f ↦ elim (Bool-cases (ltb n 65536)) [
      | inl g ↦ rw (e, f, g) (_, refl)
      | inr g ↦ rw (e, f, g) (_, refl)
    ]
  ]
]

-- What one unit gives: itself, nothing yet, or escaped octets.
data UnitResult : Option ℕ → ℕ → Option ℕ → Text → Type 0 where
  itself : {c : ℕ} → is_unreserved c ≡ true → UnitResult none c none (c ∷ [])
  waits : {c : ℕ} → UnitResult none c (some c) []
  escaped :
      {w : Option ℕ} {c : ℕ} (n : ℕ) → (n == b'.') ≡ false → UnitResult w c none (percent (utf8 n))

abbrev Put : Option ℕ → ℕ → Option (Option ℕ × Text) → Type 0
Put w c none = Unit
Put w c (some (n, out)) = UnitResult w c n out

unreserved-dot : (c : ℕ) → is_unreserved c ≡ false → (c == b'.') ≡ false
unfolding is_unreserved
unreserved-dot c h = ground (arith, h)

encode_unit-Put : (w : Option ℕ) (c : ℕ) → Put w c (encode_unit w c)
unfolding encode_unit
encode_unit-Put none c = elim (Bool-cases (is_unreserved c)) [
  | inl e ↦ rw e (UnitResult.itself e)
  | inr e ↦ elim (Bool-cases (is_high c)) [
    | inl f ↦ rw (e, f) UnitResult.waits
    | inr f ↦ elim (Bool-cases (is_low c)) [
      | inl g ↦ rw (e, f, g) tt
      | inr g ↦ rw (e, f, g) (UnitResult.escaped c (unreserved-dot c e))
    ]
  ]
]
encode_unit-Put (some high) c = elim (Bool-cases (is_low c)) [
  | inl g ↦ rw g (UnitResult.escaped (of_pair high c) (ground arith))
  | inr g ↦ rw g tt
]

UnitResult-Plain :
    (w : Option ℕ) (c : ℕ) (n : Option ℕ) (out : Text) → UnitResult w c n out → All Plain out
UnitResult-Plain _ _ _ _ (UnitResult.itself e) = (is_unreserved-Plain _ e, tt)
UnitResult-Plain _ _ _ _ UnitResult.waits = tt
UnitResult-Plain _ _ _ _ (UnitResult.escaped n d) = percent-Plain (utf8 n) (utf8-IsOctet n d)

-- The first unit of a text, and the rest.
abbrev FirstAndRest : Option ℕ → ℕ → Text → Text → Type 0
FirstAndRest w c t out =
    (n : Option ℕ) × (first : Text) × (rest : Text) × UnitResult w c n first
    × (encode_units n t ≡ some rest)
    × (out ≡ first ++ rest)

first_and_rest :
    (w : Option ℕ) (c : ℕ) (t out : Text) (step : Option (Option ℕ × Text))
    → Put w c step
    → (do (next, first) ← step; rest ← encode_units next t; some (first ++ rest)) ≡ some out
    → FirstAndRest w c t out
first_and_rest w c t out none p h = absurd (ground arith)
first_and_rest w c t out (some (n, first)) p h =
    let (rest, e, f) = bind-some (encode_units n t) (λ rest. some (first ++ rest)) out h in
    (n, first, rest, p, e, ground (arith, f))

encode_units-cons :
    (w : Option ℕ) (c : ℕ) (t out : Text)
    → encode_units w (c ∷ t) ≡ some out
    → FirstAndRest w c t out
unfolding encode_units
encode_units-cons none c t out h =
    first_and_rest none c t out (encode_unit none c) (encode_unit-Put none c) h
encode_units-cons (some w) c t out h =
    first_and_rest (some w) c t out (encode_unit (some w) c) (encode_unit-Put (some w) c) h

encode_units-Plain : (w : Option ℕ) (t out : Text) → encode_units w t ≡ some out → All Plain out
unfolding encode_units
encode_units-Plain none [] out h = let e : [] ≡ out = ground (arith, h) in subst (All Plain) e tt
encode_units-Plain (some w) [] out h = absurd (ground arith)
encode_units-Plain w (c ∷ t) out h =
    let (n, first, rest, p, e, f) = encode_units-cons w c t out h in
    rw f
      (All-append Plain first rest (UnitResult-Plain w c n first p) (encode_units-Plain n t rest e))

unit-has_escaped_dot :
    (w : Option ℕ) (c : ℕ) (n : Option ℕ) (out rest : Text)
    → UnitResult w c n out
    → has_escaped_dot (out ++ rest) ≡ has_escaped_dot rest
unfolding is_unreserved
unit-has_escaped_dot _ _ _ _ rest (UnitResult.itself {c = c} e) = ground (arith, e)
unit-has_escaped_dot _ _ _ _ rest UnitResult.waits = refl
unit-has_escaped_dot _ _ _ _ rest (UnitResult.escaped n d) =
    percent-has_escaped_dot (utf8 n) rest (utf8-IsOctet n d)

encode_units-has_escaped_dot :
    (w : Option ℕ) (t out : Text) → encode_units w t ≡ some out → has_escaped_dot out ≡ false
unfolding encode_units
encode_units-has_escaped_dot none [] out h =
    let e : [] ≡ out = ground (arith, h) in subst (λ o. has_escaped_dot o ≡ false) e refl
encode_units-has_escaped_dot (some w) [] out h = absurd (ground arith)
encode_units-has_escaped_dot w (c ∷ t) out h =
    let (n, first, rest, p, e, f) = encode_units-cons w c t out h in
    rw f (unit-has_escaped_dot w c n first rest p ∙ encode_units-has_escaped_dot n t rest e)

abbrev IsDot : ℕ → Type 0
IsDot c = c ≡ b'.'

escape-dot : (more rest : Text) → All IsDot (b'%' ∷ more ++ rest) → ⊥
escape-dot more rest (d, ds) = absurd (omega (arith, d))

dots-cons :
    (w : Option ℕ) (c : ℕ) (n : Option ℕ) (first : Text)
    → UnitResult w c n first
    → (rest t : Text) → All IsDot (first ++ rest)
    → (All IsDot rest → (n ≡ none) × (t ≡ rest))
    → (w ≡ none) × (c ∷ t ≡ first ++ rest)
dots-cons _ _ _ _ (UnitResult.itself {c = c} e) rest t (d, ds) ih = (refl, ap (◌∷◌ c) (ih ds).1)
dots-cons _ _ _ _ (UnitResult.waits {c = c}) rest t ds ih = absurd (ground (arith, (ih ds).0))
dots-cons _ _ _ _ (UnitResult.escaped n d) rest t ds ih =
    let (more, e) = percent-Escape n in absurd (escape-dot more rest (rw e at ds))

-- A text that is encoded as dots only is those dots.
encode_units-dots :
    (w : Option ℕ) (t out : Text)
    → encode_units w t ≡ some out
    → All IsDot out
    → (w ≡ none) × (t ≡ out)
unfolding encode_units
encode_units-dots none [] out h d = (refl, ground (arith, h))
encode_units-dots (some w) [] out h d = absurd (ground arith)
encode_units-dots w (c ∷ t) out h d =
    let (n, first, rest, p, e, f) = encode_units-cons w c t out h in
    rw f (dots-cons w c n first p rest t (rw f at d) λ dots. encode_units-dots n t rest e dots)

-- A segment of a path that a parser of URLs neither splits, resolves, strips nor cuts off: a dot
-- that is escaped counts for it as a dot.
abbrev pub IsPlainSegment : Text → Type 0
IsPlainSegment s =
    (s ≢ []) × (s ≢ codes ".") × (s ≢ codes "..") × (has_escaped_dot s ≡ false) × All Plain s

not_bad :
    (t out : Text)
    → encode_uri_component t ≡ some out
    → is_bad_segment t ≡ false
    → (s : Text) → All IsDot s
    → is_bad_segment s ≡ true
    → out ≢ s
unfolding encode_uri_component
not_bad t out h good s dots bad e =
    let (_, same) = encode_units-dots none t out h (subst (All IsDot) (sym e) dots) in
    absurd (cc (sym good ∙ (ap is_bad_segment (same ∙ e) ∙ bad)))

pub encode-IsPlainSegment :
    (t out : Text)
    → encode_uri_component t ≡ some out
    → is_bad_segment t ≡ false
    → IsPlainSegment out
unfolding encode_uri_component text_eq
encode-IsPlainSegment t out h good = (
  not_bad t out h good [] tt refl,
  not_bad t out h good (codes ".") (refl, tt) refl,
  not_bad t out h good (codes "..") (refl, (refl, tt)) refl,
  encode_units-has_escaped_dot none t out h,
  encode_units-Plain none t out h,
)
