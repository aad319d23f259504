-- ===== src/Pilot/Encoding.antt =====
-- `encodeURIComponent` of the language: UTF-16 code units to percent-encoded UTF-8.
use cubestack.Prelude.{
  ℕ, ◌+◌, ◌-◌, ◌*◌, ◌/◌, ◌%◌, ltb, leb, Text, codes, has_unit, Bool, ◌&&◌, ◌||◌, Option, none, some,
  List, [], ◌∷◌, ◌++◌, if◌then◌else◌, ◌>>=◌,
}

abbrev marks : Text
marks = codes "-_.!~*'()"

-- What stays as it is.
unfoldable pub is_unreserved : ℕ → Bool
is_unreserved c =
    leb b'a' c && leb c b'z'
    || (leb b'A' c && leb c b'Z' || (leb b'0' c && leb c b'9' || has_unit c marks))

abbrev pub hex_digit : ℕ → ℕ
hex_digit d = if ltb d 10 then 48 + d else 55 + d

abbrev pub percent : List ℕ → Text
percent [] = []
percent (o ∷ os) = b'%' ∷ hex_digit (o / 16) ∷ hex_digit (o % 16) ∷ percent os

abbrev pub tail_octet : ℕ → ℕ
tail_octet n = 128 + n % 64

-- The octets of a code point: a lead that counts them, the last with 3 bits of it, and tails with 6.
abbrev pub utf8 : ℕ → List ℕ
utf8 n =
    if ltb n 128
    then n ∷ []
    else if ltb n 2048
    then (192 + n / 64) ∷ tail_octet n ∷ []
    else if ltb n 65536
    then (224 + n / 4096) ∷ tail_octet (n / 64) ∷ tail_octet n ∷ []
    else (240 + n / 262144 % 8) ∷ tail_octet (n / 4096) ∷ tail_octet (n / 64) ∷ tail_octet n ∷ []

abbrev pub is_high : ℕ → Bool
is_high c = leb 0xd800 c && leb c 0xdbff

abbrev pub is_low : ℕ → Bool
is_low c = leb 0xdc00 c && leb c 0xdfff

abbrev pub of_pair : ℕ → ℕ → ℕ
of_pair high low = 0x10000 + (high - 0xd800) * 1024 + (low - 0xdc00)

-- One unit: the high surrogate that waits for its low one after it, and the text put out. A
-- surrogate without its other half is an error.
unfoldable pub encode_unit : Option ℕ → ℕ → Option (Option ℕ × Text)
encode_unit none c =
    if is_unreserved c
    then some (none, c ∷ [])
    else if is_high c
    then some (some c, [])
    else if is_low c
    then none
    else some (none, percent (utf8 c))
encode_unit (some high) c = if is_low c then some (none, percent (utf8 (of_pair high c))) else none

unfoldable pub encode_units : Option ℕ → Text → Option Text
unfolding encode_unit
encode_units none [] = some []
encode_units (some high) [] = none
encode_units waiting (c ∷ t) = do
  (next, out) ← encode_unit waiting c
  rest ← encode_units next t
  some (out ++ rest)

unfoldable pub encode_uri_component : Text → Option Text
unfolding encode_units
encode_uri_component t = encode_units none t
