-- ===== src/Tasks/Choices.antt =====
-- The values that `resolveParams` of lib/cubepilot/taskcrd.ts gives the parameters of a schema.
use mathlib.Core.Logic.Or
use mathlib.Core.List.{Mem, mem-cons_self, mem-cons_of_mem, not-mem-nil, eq-or-mem_of_mem-cons}
use cubestack.Prelude.{
  ◌≡◌, inl, inr, refl, sym, subst, arith, Text, text_eq, text_eq_iff, includes, get_or, or_else,
  true, false, List, [], ◌∷◌, Option, none, some, Bool-cases,
}
use cubestack.Tasks.{Fields, get, get_in, TaskParam}
use cubestack.Tasks.Params.{value_of, fits_choices}

-- The override of a parameter, or else its default, or else the empty text
abbrev pub chosen : Option Fields → TaskParam → Text
chosen overrides p = get_or (or_else (get p.name (get_or overrides [])) p.default) []

-- A value that the choices of a parameter admit: one of them, where there are any
abbrev pub Admits : Option (List Text) → Text → Type 0
Admits none value = Unit
Admits (some []) value = Unit
Admits (some (c ∷ cs)) value = Mem value (c ∷ cs)

-- A parameter whose value it admits
abbrev pub IsAdmitted : Option Fields → TaskParam → Type 0
IsAdmitted overrides p = Admits p.choices (chosen overrides p)

get_or-or_else : (o d : Option Text) → get_or o (get_or d []) ≡ get_or (or_else o d) []
get_or-or_else none d = refl
get_or-or_else (some t) d = refl

pub get_in_lem :
    (overrides : Option Fields) (k : Text) → get_in overrides k ≡ get k (get_or overrides [])
get_in_lem none k = refl
get_in_lem (some fields) k = refl

pub value_of-chosen :
    (overrides : Option Fields) (p : TaskParam) → value_of overrides p ≡ chosen overrides p
unfolding value_of
value_of-chosen overrides p =
    rw (get_in_lem overrides p.name) (get_or-or_else (get p.name (get_or overrides [])) p.default)

includes-Mem : (ts : List Text) (t : Text) → includes ts t ≡ true → Mem t ts
includes-Mem [] t h = absurd (ground arith)
includes-Mem (u ∷ ts) t h = elim (Bool-cases (text_eq u t)) [
  | inl e ↦ subst (λ v. Mem v (u ∷ ts)) ((text_eq_iff u t).0 e) mem-cons_self
  | inr e ↦ mem-cons_of_mem u (includes-Mem ts t (ground (arith, e, h)))
]

Mem-includes : (ts : List Text) (t : Text) → Mem t ts → includes ts t ≡ true
Mem-includes [] t m = absurd (not-mem-nil m)
Mem-includes (u ∷ ts) t m =
    Or.elim (hlevel) (eq-or-mem_of_mem-cons m)
      (λ here. ground (arith, (text_eq_iff u t).1 (sym here)))
      (λ there. ground (arith, Mem-includes ts t there))

fits_choices-Admits :
    (choices : Option (List Text)) (value : Text)
    → fits_choices choices value ≡ true
    → Admits choices value
unfolding fits_choices
fits_choices-Admits none value h = tt
fits_choices-Admits (some []) value h = tt
fits_choices-Admits (some (c ∷ cs)) value h = includes-Mem (c ∷ cs) value h

Admits-fits_choices :
    (choices : Option (List Text)) (value : Text)
    → Admits choices value
    → fits_choices choices value ≡ true
unfolding fits_choices
Admits-fits_choices none value h = refl
Admits-fits_choices (some []) value h = refl
Admits-fits_choices (some (c ∷ cs)) value h = Mem-includes (c ∷ cs) value h

pub fits_choices-IsAdmitted :
    (overrides : Option Fields) (p : TaskParam)
    → fits_choices p.choices (value_of overrides p) ≡ true
    → IsAdmitted overrides p
fits_choices-IsAdmitted overrides p h =
    fits_choices-Admits p.choices (chosen overrides p)
      (subst (λ v. fits_choices p.choices v ≡ true) (value_of-chosen overrides p) h)

pub fits_choices-misfit :
    (overrides : Option Fields) (p : TaskParam)
    → fits_choices p.choices (value_of overrides p) ≡ false
    → ¬ IsAdmitted overrides p
fits_choices-misfit overrides p h admitted =
    let fits = Admits-fits_choices p.choices (chosen overrides p) admitted in
    let misfit = subst (λ v. fits_choices p.choices v ≡ false) (value_of-chosen overrides p) h in
    absurd (ground (arith, fits, misfit))
