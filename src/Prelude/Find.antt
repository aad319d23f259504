-- ===== src/Prelude/Find.antt =====
-- What `find_index` finds.
use Prim.Native.Nat.{ℕ, zero, suc}
use mathlib.Core.Path.{◌≡◌, refl}
use mathlib.Core.Logic.{inl, inr}
use mathlib.Core.Bool.{Bool, true, false}
use mathlib.Core.List.{List, [], ◌∷◌, ◌++◌}
use mathlib.Core.Option.{none, some}
use mathlib.Core.List.{Mem, not-mem-nil, eq-or-mem_of_mem-cons}
use mathlib.Core.Logic.Or
use native.Mathlib.Omega.{arith}
use cubestack.Prelude.Lists.{find_index, get_elem?, update_at, length, All, all}
use cubestack.Prelude.Tests.{Bool-cases, and-true}

module _ {ℓ} {A : Type ℓ} (p : A → Bool) where
  pub find_index-none : (xs : List A) → find_index p xs ≡ none → All (λ x. p x ≡ false) xs
  find_index-none [] h = tt
  find_index-none (x ∷ xs) h = elim (Bool-cases (p x)) [
    | inl e ↦ absurd (ground arith)
    | inr e ↦ (e, find_index-none xs (ground arith))
  ]

  pub find_index-eq-none : (xs : List A) → All (λ x. p x ≡ false) xs → find_index p xs ≡ none
  find_index-eq-none [] h = refl
  find_index-eq-none (x ∷ xs) (e, h) = rw (e, find_index-eq-none xs h)

  pub find_index-some :
      (xs : List A) (i : ℕ)
      → find_index p xs ≡ some i
      → (x : A) × (get_elem? xs i ≡ some x) × (p x ≡ true)
  find_index-some [] i h = absurd (ground arith)
  find_index-some (x ∷ xs) zero h = elim (Bool-cases (p x)) [
    | inl e ↦ (x, refl, e)
    | inr e ↦ absurd (ground arith)
  ]
  find_index-some (x ∷ xs) (suc i) h = find_index-some xs i (ground arith)

  -- The first that passes is found.
  pub find_index-append :
      (xs ys : List A) (x : A)
      → All (λ y. p y ≡ false) xs
      → p x ≡ true
      → find_index p (xs ++ x ∷ ys) ≡ some (length xs)
  find_index-append [] ys x h e = rw e
  find_index-append (y ∷ xs) ys x (n, h) e = rw (n, find_index-append xs ys x h e)

pub update_at-append {ℓ} :
    {A : Type ℓ} (f : A → A) (xs ys : List A) (x : A)
    → update_at (length xs) f (xs ++ x ∷ ys) ≡ xs ++ f x ∷ ys
update_at-append f [] ys x = refl
update_at-append f (y ∷ xs) ys x = rw (update_at-append f xs ys x)

-- A test that all members pass is passed by each of them.
pub all-Mem {ℓ} :
    {A : Type ℓ} (p : A → Bool) (x : A) (xs : List A) → all p xs ≡ true → Mem x xs → p x ≡ true
all-Mem p x [] h m = absurd (not-mem-nil m)
all-Mem p x (y ∷ ys) h m =
    let (e, es) = and-true (p y) (all p ys) h in
    Or.elim (hlevel) (eq-or-mem_of_mem-cons m) (λ here. rw here e)
      (λ there. all-Mem p x ys es there)
