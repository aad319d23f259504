-- ===== src/Panels/Sorting.antt =====
-- conditional-panels.ts: the order in which packItems takes the items.
use cubestack.Prelude.{
  ℕ, ◌≡◌, ◌≤◌, ◌<◌, refl, ap, inl, inr, sym, ◌∙◌, Bool-cases, true, List, [], ◌∷◌, map, All, arith,
}
use mathlib.Core.List.{Perm}
use mathlib.Core.List.Perm
use cubestack.Panels.{
  GridItem, Pen, wrap, advance, at, precedes, insert_item, in_order, place, pack_items, origin,
}
use cubestack.Panels.Packing.{
  panel_of, panels-place, place-panels, place-InReadingOrder, place-Fits, InReadingOrder, Follows,
  Fits,
}

insert_item-perm : (a : GridItem) (bs : List GridItem) → Perm (insert_item a bs) (a ∷ bs)
insert_item-perm a [] = Perm.rfl
insert_item-perm a (b ∷ bs) = elim (Bool-cases (precedes a b)) [
  | inl e ↦ rw e Perm.rfl
  | inr e ↦ rw e (Perm.trans (Perm.cons b (insert_item-perm a bs)) (Perm.swap a b bs))
]

in_order-perm : (items : List GridItem) → Perm (in_order items) items
unfolding in_order
in_order-perm [] = Perm.rfl
in_order-perm (a ∷ items) =
    Perm.trans (insert_item-perm a (in_order items)) (Perm.cons a (in_order-perm items))

insert_item-All {ℓ} :
    (P : GridItem → Type ℓ) (a : GridItem) (bs : List GridItem)
    → P a
    → All P bs
    → All P (insert_item a bs)
insert_item-All P a [] p h = (p, tt)
insert_item-All P a (b ∷ bs) p (q, h) = elim (Bool-cases (precedes a b)) [
  | inl e ↦ rw e (p, (q, h))
  | inr e ↦ rw e (q, insert_item-All P a bs p h)
]

in_order-All {ℓ} :
    (P : GridItem → Type ℓ) (items : List GridItem) → All P items → All P (in_order items)
unfolding in_order
in_order-All P [] h = tt
in_order-All P (a ∷ items) (p, h) = insert_item-All P a (in_order items) p (in_order-All P items h)

place-All {ℓ} :
    (P : GridItem → Type ℓ)
    → ((item : GridItem) (pen : Pen) → P item → P (at pen item))
    → (columns : ℕ) (pen : Pen) (items : List GridItem) → All P items
    → All P (place columns pen items)
unfolding place
place-All P moves columns pen [] h = tt
place-All P moves columns pen (item ∷ items) (p, h) =
    let here = wrap columns pen item in
    (moves item here p, place-All P moves columns (advance here item) items h)

-- The packed grid shows each item once, with its panel and its size, and no two items overlap.
pub pack_items-packs :
    (items : List GridItem) (columns : ℕ)
    → InReadingOrder (pack_items items columns)
      × Perm (map panel_of (pack_items items columns)) (map panel_of items)
unfolding pack_items
pack_items-packs items columns = (
  place-InReadingOrder columns origin (in_order items),
  rw (panels-place columns origin (in_order items)) (Perm.map panel_of (in_order-perm items)),
)

-- No packed item stands out of the columns, where none is wider than they are.
pub pack_items-Fits :
    (items : List GridItem) (columns : ℕ)
    → All (λ item. item.width ≤ columns) items
    → All (Fits columns) (pack_items items columns)
unfolding pack_items
pack_items-Fits items columns h =
    place-Fits columns origin (in_order items) (in_order-All (λ item. item.width ≤ columns) items h)

abbrev pub Tall : GridItem → Type 0
Tall item = 0 < item.height

Follows-precedes : (p q : GridItem) → Tall p → Follows p q → precedes p q ≡ true
Follows-precedes p q t (inl (e, h)) = ground arith
Follows-precedes p q t (inr h) = ground arith

in_order-InReadingOrder :
    (items : List GridItem) → All Tall items → InReadingOrder items → in_order items ≡ items
unfolding in_order
in_order-InReadingOrder [] h r = refl
in_order-InReadingOrder (a ∷ []) h r = refl
in_order-InReadingOrder (a ∷ b ∷ items) (t, h) ((f, fs), r) =
    rw (in_order-InReadingOrder (b ∷ items) h r, Follows-precedes a b t f)

-- Packing what is packed moves nothing, where each item has a height.
pub pack_items_idempotent :
    (items : List GridItem) (columns : ℕ)
    → All Tall items
    → pack_items (pack_items items columns) columns ≡ pack_items items columns
unfolding pack_items
pack_items_idempotent items columns h =
    let sorted = in_order items in
    let packed = place columns origin sorted in
    let stays =
      in_order-InReadingOrder packed
        (place-All Tall (λ item pen t. t) columns origin sorted (in_order-All Tall items h))
        (place-InReadingOrder columns origin sorted) in
    rw stays (
      sym (place-panels columns origin packed)
      ∙ (ap (place columns origin) (panels-place columns origin sorted)
          ∙ place-panels columns origin sorted))

-- What holds of the panels of all items holds of them where they are packed.
pub pack_items-All {ℓ} :
    (P : GridItem → Type ℓ) (items : List GridItem) (columns : ℕ)
    → ((item : GridItem) (pen : Pen) → P item → P (at pen item))
    → All P items
    → All P (pack_items items columns)
unfolding pack_items
pack_items-All P items columns moves h =
    place-All P moves columns origin (in_order items) (in_order-All P items h)
