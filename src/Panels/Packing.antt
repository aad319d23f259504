-- ===== src/Panels/Packing.antt =====
-- conditional-panels.ts: where packItems puts the items.
use cubestack.Prelude.{
  ℕ, ◌+◌, ◌≤◌, ◌≡◌, refl, ◌⊎◌, inl, inr, Bool-cases, List, [], ◌∷◌, map, ltb, arith, All, All-map,
  ap,
}
use cubestack.Panels.{GridItem, Pen, wrap, advance, at, place}

-- The second comes after the first in the reading order, and the two do not overlap: it is to the
-- right of the first in the same row, or below it.
abbrev pub Follows : GridItem → GridItem → Type 0
Follows p q = ((q.y ≡ p.y) × (p.x + p.width ≤ q.x)) ⊎ (p.y + p.height ≤ q.y)

abbrev pub InReadingOrder : List GridItem → Type 0
InReadingOrder [] = Unit
InReadingOrder (p ∷ ps) = All (Follows p) ps × InReadingOrder ps

-- To the right of the pen in its row, or below the row.
abbrev pub Beyond : Pen → GridItem → Type 0
Beyond pen q = ((q.y ≡ pen.y) × (pen.x ≤ q.x)) ⊎ (pen.y + pen.row_height ≤ q.y)

new_row-Beyond :
    (pen : Pen) (q : GridItem)
    → Beyond (record { x = 0; y = pen.y + pen.row_height; row_height = 0 }) q
    → Beyond pen q
new_row-Beyond pen q (inl (e, h)) = inr (omega (arith, e))
new_row-Beyond pen q (inr h) = inr (omega (arith, h))

wrap-Beyond :
    (columns : ℕ) (pen : Pen) (item q : GridItem) → Beyond (wrap columns pen item) q → Beyond pen q
wrap-Beyond columns pen item q h = elim (Bool-cases (ltb columns (pen.x + item.width))) [
  | inl e ↦ new_row-Beyond pen q (rw e at h)
  | inr e ↦ rw e at h
]

advance-Beyond : (pen : Pen) (item q : GridItem) → Beyond (advance pen item) q → Beyond pen q
advance-Beyond pen item q (inl (e, h)) = inl (e, omega (arith, h))
advance-Beyond pen item q (inr h) = inr (ground (arith, h))

advance-Follows :
    (pen : Pen) (item q : GridItem) → Beyond (advance pen item) q → Follows (at pen item) q
advance-Follows pen item q (inl (e, h)) = inl (e, h)
advance-Follows pen item q (inr h) = inr (ground (arith, h))

place-Beyond :
    (columns : ℕ) (pen : Pen) (items : List GridItem) → All (Beyond pen) (place columns pen items)
unfolding place
place-Beyond columns pen [] = tt
place-Beyond columns pen (item ∷ items) =
    let here = wrap columns pen item in
    (
      wrap-Beyond columns pen item (at here item) (inl (refl, omega arith)),
      All-map (Beyond (advance here item)) (Beyond pen)
          (λ q h. wrap-Beyond columns pen item q (advance-Beyond here item q h))
          (place columns (advance here item) items)
          (place-Beyond columns (advance here item) items),
    )

pub place-InReadingOrder :
    (columns : ℕ) (pen : Pen) (items : List GridItem) → InReadingOrder (place columns pen items)
unfolding place
place-InReadingOrder columns pen [] = tt
place-InReadingOrder columns pen (item ∷ items) =
    let here = wrap columns pen item in
    (
      All-map (Beyond (advance here item)) (Follows (at here item)) (advance-Follows here item)
          (place columns (advance here item) items)
          (place-Beyond columns (advance here item) items),
      place-InReadingOrder columns (advance here item) items,
    )

abbrev pub Fits : ℕ → GridItem → Type 0
Fits columns item = item.x + item.width ≤ columns

pub place-Fits :
    (columns : ℕ) (pen : Pen) (items : List GridItem)
    → All (λ item. item.width ≤ columns) items
    → All (Fits columns) (place columns pen items)
unfolding place
place-Fits columns pen [] h = tt
place-Fits columns pen (item ∷ items) (h, hs) =
    (ground (arith, h), place-Fits columns (advance (wrap columns pen item) item) items hs)

-- An item without its position.
abbrev pub panel_of : GridItem → GridItem
panel_of item = record item { x = 0; y = 0 }

pub panels-place :
    (columns : ℕ) (pen : Pen) (items : List GridItem)
    → map panel_of (place columns pen items) ≡ map panel_of items
unfolding place
panels-place columns pen [] = refl
panels-place columns pen (item ∷ items) =
    ap (◌∷◌ (panel_of item)) (panels-place columns (advance (wrap columns pen item) item) items)

-- Where the items stood before does not matter.
pub place-panels :
    (columns : ℕ) (pen : Pen) (items : List GridItem)
    → place columns pen (map panel_of items) ≡ place columns pen items
unfolding place
place-panels columns pen [] = refl
place-panels columns pen (item ∷ items) =
    rw (place-panels columns (advance (wrap columns pen item) item) items)
