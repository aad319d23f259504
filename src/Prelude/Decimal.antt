-- ===== src/Prelude/Decimal.antt =====
-- Numbers as texts of decimal digits, and back.
use Prim.Native.Nat.{ℕ, zero, suc, ◌+◌, ◌-◌, ◌*◌, ◌/◌, ◌%◌, ◌<◌}
use mathlib.Core.Path.{◌≡◌, refl, sym, ap, ◌∙◌}
use mathlib.Core.Logic.{inl, inr}
use mathlib.Core.List.{[], ◌∷◌, ◌++◌}
use native.Mathlib.Omega.{arith}
use cubestack.Prelude.Tests.{◌==◌, if◌then◌else◌, Bool-cases}
use cubestack.Prelude.Strings.{Text}

-- `Number(t)` of digits, behind those that were read
abbrev pub number_from : ℕ → Text → ℕ
number_from n [] = n
number_from n (c ∷ t) = number_from (n * 10 + (c - 48)) t

-- `String(n)`: a number has no more digits than it counts, and one more.
abbrev pub digits_of : ℕ → ℕ → Text
digits_of zero n = []
digits_of (suc fuel) n =
    let front = digits_of fuel (n / 10) in
    (if n / 10 == 0 then [] else front) ++ (b'0' + n % 10) ∷ []

unfoldable pub decimal : ℕ → Text
decimal n = digits_of (n + 1) n

number_from-append :
    (k : ℕ) (t : Text) (c : ℕ) → number_from k (t ++ c ∷ []) ≡ number_from k t * 10 + (c - 48)
number_from-append k [] c = refl
number_from-append k (d ∷ t) c = number_from-append (k * 10 + (d - 48)) t c

number_from-digits_of : (fuel n : ℕ) → n < fuel → number_from 0 (digits_of fuel n) ≡ n
number_from-digits_of zero n h = absurd (omega arith)
number_from-digits_of (suc fuel) n h = elim (Bool-cases (n / 10 == 0)) [
  | inl e ↦ rw e (ground (arith, e))
  | inr e ↦ rw e (
      number_from-append 0 (digits_of fuel (n / 10)) (48 + n % 10)
      ∙ ground (arith, e, number_from-digits_of fuel (n / 10)))
]

-- A number is read back from its digits.
pub number_from-decimal : (n : ℕ) → number_from 0 (decimal n) ≡ n
unfolding decimal
number_from-decimal n = number_from-digits_of (n + 1) n (omega arith)

pub decimal-injective : (m n : ℕ) → decimal m ≡ decimal n → m ≡ n
decimal-injective m n e =
    sym (number_from-decimal m) ∙ (ap (number_from 0) e ∙ number_from-decimal n)
