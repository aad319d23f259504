-- ===== src/Prelude/Distinct.antt =====
-- Lists of texts with no text twice, and their length.
use Prim.Native.Nat.{suc, ◌≤◌}
use mathlib.Core.Path.{◌≡◌}
use mathlib.Core.Bool.{Bool, true, false, not, ◌&&◌}
use mathlib.Core.List.{List, [], ◌∷◌}
use native.Mathlib.Omega.{arith}
use cubestack.Prelude.Tests.{if◌then◌else◌}
use cubestack.Prelude.Strings.{Text, text_eq, text_eq_iff, includes}
use cubestack.Prelude.Lists.{length, All}

abbrev pub distinct : List Text → Bool
distinct [] = true
distinct (t ∷ ts) = not (includes ts t) && distinct ts

abbrev remove : Text → List Text → List Text
remove t [] = []
remove t (s ∷ ss) = let rest = remove t ss in if text_eq s t then ss else s ∷ rest

length-remove :
    (t : Text) (ss : List Text) → includes ss t ≡ true → length ss ≡ suc (length (remove t ss))
length-remove t [] h = absurd (ground arith)
length-remove t (s ∷ ss) h = ground (arith, length-remove t ss)

includes-remove :
    (t u : Text) (ss : List Text)
    → text_eq t u ≡ false
    → includes ss u ≡ true
    → includes (remove t ss) u ≡ true
includes-remove t u [] e h = h
includes-remove t u (s ∷ ss) e h =
    ground (arith, includes-remove t u ss e, text_eq_iff s t, text_eq_iff s u, text_eq_iff t u)

All-remove :
    (t : Text) (ss us : List Text)
    → includes us t ≡ false
    → All (λ u. includes ss u ≡ true) us
    → All (λ u. includes (remove t ss) u ≡ true) us
All-remove t ss [] e h = tt
All-remove t ss (u ∷ us) e (h, hs) = (
  includes-remove t u ss (ground (arith, e, text_eq_iff t u, text_eq_iff u t)) h,
  All-remove t ss us (ground (arith, e)) hs,
)

-- A list with no text twice is not longer than a list that includes all its texts.
pub length-le_of_distinct :
    (ts ss : List Text)
    → distinct ts ≡ true
    → All (λ t. includes ss t ≡ true) ts
    → length ts ≤ length ss
length-le_of_distinct [] ss d h = omega arith
length-le_of_distinct (t ∷ ts) ss d (h, hs) = ground (
  arith,
  length-remove t ss h,
  length-le_of_distinct ts (remove t ss) (ground (arith, d))
      (All-remove t ss ts (ground (arith, d)) hs),
)
