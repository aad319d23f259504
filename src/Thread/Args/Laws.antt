-- ===== src/Thread/Args/Laws.antt =====
-- What the display line of a call can tell of a secret.
use cubestack.Prelude.{◌≡◌, refl, ap, Bool, true, some, arith, Text}
use cubestack.Thread.Args.{
  Json, null, bool, num, str, arr, obj, Items, nil, cons, Fields, end, field, JsonText,
  is_secret_key, redact, redact_items, redact_fields, fmt_tool_args, line_of, line_of_text,
}

-- Two values that differ under secret keys only, at any depth.
mutual
  pub data Alike : Json → Json → Type 0 where
    same_null : Alike null null
    same_bool : (b : Bool) → Alike (bool b) (bool b)
    same_num : (n : Text) → Alike (num n) (num n)
    same_str : (s : Text) → Alike (str s) (str s)
    alike_arr : {xs ys : Items} → AlikeItems xs ys → Alike (arr xs) (arr ys)
    alike_obj : {fs gs : Fields} → AlikeFields fs gs → Alike (obj fs) (obj gs)

  pub data AlikeItems : Items → Items → Type 0 where
    alike_nil : AlikeItems nil nil
    alike_cons :
        {x y : Json} {xs ys : Items}
        → Alike x y
        → AlikeItems xs ys
        → AlikeItems (cons x xs) (cons y ys)

  pub data AlikeFields : Fields → Fields → Type 0 where
    alike_end : AlikeFields end end
    hidden :
        {k : Text} {v w : Json} {fs gs : Fields}
        → is_secret_key k ≡ true
        → AlikeFields fs gs
        → AlikeFields (field k v fs) (field k w gs)
    visible :
        {k : Text} {v w : Json} {fs gs : Fields}
        → Alike v w
        → AlikeFields fs gs
        → AlikeFields (field k v fs) (field k w gs)

mutual
  unfolding redact

  redact-Alike : {a b : Json} → Alike a b → redact a ≡ redact b
  redact-Alike same_null = refl
  redact-Alike (same_bool b) = refl
  redact-Alike (same_num n) = refl
  redact-Alike (same_str s) = refl
  redact-Alike (alike_arr h) = ap arr (redact_items-Alike h)
  redact-Alike (alike_obj h) = ap obj (redact_fields-Alike h)

  redact_items-Alike : {xs ys : Items} → AlikeItems xs ys → redact_items xs ≡ redact_items ys
  redact_items-Alike alike_nil = refl
  redact_items-Alike (alike_cons h hs) = cc (redact-Alike h, redact_items-Alike hs)

  redact_fields-Alike : {fs gs : Fields} → AlikeFields fs gs → redact_fields fs ≡ redact_fields gs
  redact_fields-Alike alike_end = refl
  redact_fields-Alike (hidden s hs) = rw s (cc (redact_fields-Alike hs))
  redact_fields-Alike (visible h hs) = cc (redact-Alike h, redact_fields-Alike hs)

fmt_value-Alike :
    (runtime : JsonText) {a b : Json}
    → Alike a b
    → fmt_tool_args runtime (some a) ≡ fmt_tool_args runtime (some b)
unfolding fmt_tool_args
fmt_value-Alike runtime same_null = refl
fmt_value-Alike runtime (same_bool b) = refl
fmt_value-Alike runtime (same_num n) = refl
fmt_value-Alike runtime (same_str s) = refl
fmt_value-Alike runtime (alike_arr h) = ap (line_of runtime) (redact-Alike (alike_arr h))
fmt_value-Alike runtime (alike_obj h) = ap (line_of runtime) (redact-Alike (alike_obj h))

-- The line shown for a call does not depend on what stands under a secret key, at any depth: two
-- argument values that differ there only, given as values or as the texts that parse to them, are
-- shown alike.
pub fmt_tool_args-Alike :
    (runtime : JsonText) {a b : Json}
    → Alike a b
    → (fmt_tool_args runtime (some a) ≡ fmt_tool_args runtime (some b))
      × ((s t : Text)
          → runtime.parse s ≡ some a
          → runtime.parse t ≡ some b
          → fmt_tool_args runtime (some (str s)) ≡ fmt_tool_args runtime (some (str t)))
unfolding fmt_tool_args line_of_text
fmt_tool_args-Alike runtime h =
    (fmt_value-Alike runtime h, λ s t p q. rw (p, q) (ap (line_of runtime) (redact-Alike h)))

mutual
  unfolding redact

  redact-redact : (v : Json) → redact (redact v) ≡ redact v
  redact-redact null = refl
  redact-redact (bool b) = refl
  redact-redact (num n) = refl
  redact-redact (str s) = refl
  redact-redact (arr xs) = ap arr (redact_items-redact xs)
  redact-redact (obj fs) = ap obj (redact_fields-redact fs)

  redact_items-redact : (xs : Items) → redact_items (redact_items xs) ≡ redact_items xs
  redact_items-redact nil = refl
  redact_items-redact (cons x xs) = cc (redact-redact x, redact_items-redact xs)

  redact_fields-redact : (fs : Fields) → redact_fields (redact_fields fs) ≡ redact_fields fs
  redact_fields-redact end = refl
  redact_fields-redact (field k v fs) = ground (arith, redact-redact v, redact_fields-redact fs)
