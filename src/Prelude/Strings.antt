-- ===== src/Prelude/Strings.antt =====
-- A JavaScript string as its code units. A literal of the source has code points below 2 ^ 16 only,
-- so that its code points are its units.
use Prim.Native.Nat.{ℕ, ◌+◌}
use Prim.Native.Char.{code}
use Prim.Native.String.{String}
use mathlib.Core.Path.{◌≡◌, refl}
use mathlib.Core.Logic.{◌↔◌}
use mathlib.Core.Bool.{Bool, true, false, ◌&&◌, ◌||◌}
use mathlib.Core.List.{List, [], ◌∷◌, ◌++◌}
use mathlib.Core.Option.{Option, none, some}
use native.Mathlib.Omega.{arith}
use cubestack.Prelude.Tests.{◌==◌, if◌then◌else◌, leb}

abbrev pub Text : Type 0
Text = List ℕ

abbrev pub codes : String → Text
codes String.[] = []
codes (String.◌∷◌ c s) = code c ∷ codes s

-- `s === t`
unfoldable pub text_eq : Text → Text → Bool
text_eq [] [] = true
text_eq [] (d ∷ t) = false
text_eq (c ∷ s) [] = false
text_eq (c ∷ s) (d ∷ t) = c == d && text_eq s t

pub text_eq_iff : (s t : Text) → (text_eq s t ≡ true) ↔ (s ≡ t)
unfolding text_eq
text_eq_iff [] [] = ground arith
text_eq_iff [] (d ∷ t) = ground arith
text_eq_iff (c ∷ s) [] = ground arith
text_eq_iff (c ∷ s) (d ∷ t) = ground (arith, text_eq_iff s t)

pub text_eq_refl : (s : Text) → text_eq s s ≡ true
text_eq_refl s = (text_eq_iff s s).1 refl

-- A text that equals one of two different texts is not the other.
pub not_both :
    (n name t : Text) → text_eq n name ≡ false → text_eq n t ≡ true → text_eq name t ≡ false
not_both n name t e f =
    ground (arith, e, f, text_eq_iff n t, text_eq_iff name t, text_eq_iff n name)

-- `s === t` where `s` may be undefined and `t` is not
abbrev pub is_text : Option Text → Text → Bool
is_text none t = false
is_text (some s) t = text_eq s t

pub is_text_iff : (o : Option Text) (t : Text) → (is_text o t ≡ true) ↔ (o ≡ some t)
is_text_iff none t = ground arith
is_text_iff (some s) t = ground (arith, text_eq_iff s t)

-- The truth value of a string: false on "".
abbrev pub is_truthy : Text → Bool
is_truthy [] = false
is_truthy (c ∷ s) = true

-- `xs.includes(t)`, `set.has(t)`
abbrev pub includes : List Text → Text → Bool
includes [] t = false
includes (s ∷ ss) t = text_eq s t || includes ss t

-- `s.startsWith(t)`, the prefix first
abbrev pub starts_with : Text → Text → Bool
starts_with [] s = true
starts_with (c ∷ t) [] = false
starts_with (c ∷ t) (d ∷ s) = c == d && starts_with t s

-- `s.includes(t)`, the part first
abbrev pub contains : Text → Text → Bool
contains t [] = starts_with t []
contains t (d ∷ s) = starts_with t (d ∷ s) || contains t s

-- One unit more on the first part of a text that is split
abbrev pub onto_first : ℕ → List Text → List Text
onto_first c [] = (c ∷ []) ∷ []
onto_first c (line ∷ lines) = (c ∷ line) ∷ lines

-- `xs.join(sep)`
abbrev pub join : Text → List Text → Text
join sep [] = []
join sep (t ∷ []) = t
join sep (t ∷ u ∷ ts) = t ++ (sep ++ join sep (u ∷ ts))

-- A code unit without its case, where it is an ASCII letter.
abbrev pub lower : ℕ → ℕ
lower c = if leb b'A' c && leb c b'Z' then c + 32 else c

-- The white space and line ends that `trim` and `\s` know.
abbrev pub space_units : Text
space_units =
    9 ∷ 10 ∷ 11 ∷ 12 ∷ 13 ∷ 32 ∷ 160 ∷ 0x1680 ∷ 0x2000 ∷ 0x2001 ∷ 0x2002 ∷ 0x2003 ∷ 0x2004 ∷ 0x2005
    ∷ 0x2006 ∷ 0x2007 ∷ 0x2008 ∷ 0x2009 ∷ 0x200a ∷ 0x2028 ∷ 0x2029 ∷ 0x202f ∷ 0x205f ∷ 0x3000
    ∷ 0xfeff ∷ []

abbrev pub has_unit : ℕ → Text → Bool
has_unit c [] = false
has_unit c (d ∷ s) = c == d || has_unit c s

unfoldable pub is_space : ℕ → Bool
is_space c = has_unit c space_units

unfoldable pub trim_start : Text → Text
unfolding is_space
trim_start [] = []
trim_start (c ∷ s) = let rest = trim_start s in if is_space c then rest else c ∷ s

keep_unit : ℕ → Text → Text
unfolding is_space
keep_unit c [] = if is_space c then [] else c ∷ []
keep_unit c (d ∷ s) = c ∷ d ∷ s

-- White space at the end is dropped, with the text before it kept.
unfoldable pub trim_end : Text → Text
unfolding keep_unit
trim_end [] = []
trim_end (c ∷ s) = keep_unit c (trim_end s)

unfoldable pub trim : Text → Text
unfolding trim_start trim_end
trim s = trim_end (trim_start s)

-- `.replace(/\/+$/, "")`
abbrev pub keep_before_slashes : ℕ → Text → Text
keep_before_slashes c [] = if c == b'/' then [] else c ∷ []
keep_before_slashes c (d ∷ t) = c ∷ d ∷ t

unfoldable pub without_end_slashes : Text → Text
without_end_slashes [] = []
without_end_slashes (c ∷ t) = keep_before_slashes c (without_end_slashes t)
