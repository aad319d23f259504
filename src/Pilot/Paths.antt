-- ===== src/Pilot/Paths.antt =====
-- pilotpath.ts: the paths that requests are passed on to.
use cubestack.Prelude.{
  all-Mem, append-nil, ◌≡◌, ◌≢◌, refl, sym, ap, subst, ◌∙◌, inl, inr, Bool-cases, Text, text_eq,
  text_eq_iff, codes, join, any, all, Bool, true, false, not, ◌&&◌, some, List, [], ◌∷◌, ◌++◌,
  is_empty, All, All-append, arith, bind-some, append_assoc, and-true, Option-cases,
}
use cubestack.Pilot.{
  Mapped, Subresource, subresources, sessions_path, is_bad_segment, encode_all, enc, around,
  upstream_path,
}
use cubestack.Pilot.Encoding.{encode_uri_component}
use cubestack.Pilot.Safety.{
  IsPlainSegment, Plain, is_delimiter, has_escaped_dot, encode-IsPlainSegment,
}
use cubestack.Pilot.Sound.{Allowed, sessions_segments, upstream_path-Allowed}

encode_all-IsPlainSegment :
    (segments es : List Text)
    → any is_bad_segment segments ≡ false
    → encode_all segments ≡ some es
    → All IsPlainSegment es × (is_empty es ≡ is_empty segments)
encode_all-IsPlainSegment [] [] good h = (tt, refl)
encode_all-IsPlainSegment [] (e ∷ es) good h = absurd (ground arith)
encode_all-IsPlainSegment (s ∷ ss) es good h =
    let (e, f, more) = bind-some (encode_uri_component s) _ es h in
    let (rest, g, last) = bind-some (encode_all ss) (λ es. some (e ∷ es)) es more in
    let (plain, _) = encode_all-IsPlainSegment ss rest (ground (arith, good)) g in
    let same : e ∷ rest ≡ es = ground (arith, last) in
    subst (λ l. All IsPlainSegment l × (is_empty l ≡ false)) same
      ((encode-IsPlainSegment s e f (ground (arith, good)), plain), refl)

enc-IsPlainSegment :
    (key : List Text) (e : Text)
    → enc key ≡ Mapped.mapped e
    → (es : List Text) × (e ≡ join (codes "/") es)
      × All IsPlainSegment es
      × (is_empty es ≡ is_empty key)
unfolding enc
enc-IsPlainSegment key e h = elim (Bool-cases (any is_bad_segment key)) [
  | inl bad ↦ absurd (ground (arith, rw bad at h))
  | inr good ↦ elim (Option-cases (encode_all key)) [
    | inl f ↦ absurd (ground (arith, rw (good, f) at h))
    | inr (es, f) ↦
        let (plain, empty) = encode_all-IsPlainSegment key es good f in
        (es, ground (arith, rw (good, f) at h), plain, empty)
  ]
]

-- A path below /api/v1/sessions that is cut at its slashes and nowhere else.
abbrev pub IsPlainPath : Text → Type 0
IsPlainPath p =
    (rest : List Text) × (p ≡ codes "/" ++ join (codes "/") (sessions_segments rest))
    × All IsPlainSegment rest

join-append :
    (x y : Text) (xs ys : List Text)
    → join (codes "/") (x ∷ xs ++ y ∷ ys)
      ≡ join (codes "/") (x ∷ xs) ++ (codes "/" ++ join (codes "/") (y ∷ ys))
join-append x y [] ys = refl
join-append x y (z ∷ xs) ys = rw (join-append z y xs ys) (
    sym (
      append_assoc x (codes "/" ++ join (codes "/") (z ∷ xs))
        (codes "/" ++ join (codes "/") (y ∷ ys))))

is_plain_segment : Text → Bool
is_plain_segment s =
    not (text_eq s [])
    && (not (text_eq s (codes "."))
        && (not (text_eq s (codes ".."))
            && (not (has_escaped_dot s) && all (λ c. not (is_delimiter c)) s)))

not_truthy : (s t : Text) → not (text_eq s t) ≡ true → s ≢ t
not_truthy s t h e = absurd (ground (arith, h, (text_eq_iff s t).1 e))

all-Plain : (s : Text) → all (λ c. not (is_delimiter c)) s ≡ true → All Plain s
all-Plain [] h = tt
all-Plain (c ∷ s) h =
    let (e, es) = and-true (not (is_delimiter c)) (all (λ c. not (is_delimiter c)) s) h in
    (ground (arith, e), all-Plain s es)

is_plain_segment-IsPlainSegment : (s : Text) → is_plain_segment s ≡ true → IsPlainSegment s
unfolding is_plain_segment
is_plain_segment-IsPlainSegment s h =
    let (a, more) = and-true _ _ h in
    let (b, rest) = and-true _ _ more in
    let (c, others) = and-true _ _ rest in
    let (d, last) = and-true (not (has_escaped_dot s)) _ others in
    (
      not_truthy s [] a,
      not_truthy s (codes ".") b,
      not_truthy s (codes "..") c,
      ground (arith, d),
      all-Plain s last,
    )

all-IsPlainSegment : (ss : List Text) → all is_plain_segment ss ≡ true → All IsPlainSegment ss
all-IsPlainSegment [] h = tt
all-IsPlainSegment (s ∷ ss) h =
    let (e, es) = and-true (is_plain_segment s) (all is_plain_segment ss) h in
    (is_plain_segment-IsPlainSegment s e, all-IsPlainSegment ss es)

abbrev has_plain_tail : Subresource → Bool
has_plain_tail entry = not (is_empty entry.tail) && all is_plain_segment entry.tail

subresources-plain : all has_plain_tail subresources ≡ true
unfolding is_plain_segment text_eq
subresources-plain = refl

around-mapped :
    (before after : Text) (m : Mapped) (p : Text)
    → around before after m ≡ Mapped.mapped p
    → (key : Text) × (m ≡ Mapped.mapped key) × (p ≡ before ++ (key ++ after))
around-mapped before after Mapped.refused p h = absurd (ground arith)
around-mapped before after (Mapped.mapped key) p h = (key, refl, ground (arith, h))
around-mapped before after Mapped.uri_error p h = absurd (ground arith)

removal-IsPlainPath :
    (es : List Text) (p : Text)
    → is_empty es ≡ false
    → All IsPlainSegment es
    → p ≡ (sessions_path ++ codes "/") ++ (join (codes "/") es ++ [])
    → IsPlainPath p
removal-IsPlainPath [] p h plain e = absurd (ground arith)
removal-IsPlainPath (x ∷ es) p h plain e = (
  x ∷ es,
  e ∙ ap (λ t. (sessions_path ++ codes "/") ++ t) (append-nil (join (codes "/") (x ∷ es))),
  plain,
)

resource-IsPlainPath :
    (es tail : List Text) (p : Text)
    → is_empty es ≡ false
    → is_empty tail ≡ false
    → All IsPlainSegment es
    → All IsPlainSegment tail
    → p
      ≡ (sessions_path ++ codes "/")
        ++ (join (codes "/") es ++ (codes "/" ++ join (codes "/") tail))
    → IsPlainPath p
resource-IsPlainPath [] tail p h k plain ends e = absurd (ground arith)
resource-IsPlainPath (x ∷ es) [] p h k plain ends e = absurd (ground arith)
resource-IsPlainPath (x ∷ es) (t ∷ tail) p h k plain ends e = (
  x ∷ es ++ t ∷ tail,
  e ∙ ap (λ t. (sessions_path ++ codes "/") ++ t) (sym (join-append x t es tail)),
  All-append IsPlainSegment (x ∷ es) (t ∷ tail) plain ends,
)

Allowed-IsPlainPath :
    (method : Text) (segments : List Text) (p : Text) → Allowed method segments p → IsPlainPath p
Allowed-IsPlainPath method segments p (Allowed.sessions a b e) = ([], e, tt)
Allowed-IsPlainPath method segments p (Allowed.removal key a b some_key h) =
    let (k, e, f) = around-mapped (sessions_path ++ codes "/") [] (enc key) p h in
    let (es, g, plain, empty) = enc-IsPlainSegment key k e in
    removal-IsPlainPath es p (empty ∙ some_key) plain (rw g at f)
Allowed-IsPlainPath method segments p (Allowed.resource key entry m a b some_key h) =
    let (k, e, f) =
      around-mapped (sessions_path ++ codes "/") (codes "/" ++ join (codes "/") entry.tail)
        (enc key) p h in
    let (es, g, plain, empty) = enc-IsPlainSegment key k e in
    let (full, ends) =
      and-true (not (is_empty entry.tail)) _
        (all-Mem has_plain_tail entry subresources subresources-plain m) in
    resource-IsPlainPath es entry.tail p (empty ∙ some_key) (ground (arith, full)) plain
      (all-IsPlainSegment entry.tail ends) (rw g at f)

-- No request leaves the path of the sessions: each segment below it is neither empty nor one or two
-- dots, has no escaped dot, and holds no slash, backslash, question mark, number sign, blank or
-- control.
pub upstream_path-IsPlainPath :
    (method : Text) (segments : List Text) (p : Text)
    → upstream_path method segments ≡ Mapped.mapped p
    → IsPlainPath p
upstream_path-IsPlainPath method segments p h =
    Allowed-IsPlainPath method segments p (upstream_path-Allowed method segments p h)
