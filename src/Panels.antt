-- ===== src/Panels.antt =====
-- conditional-panels.ts: the panels that a dashboard hides, and the grid without them.
pub mod Packing
pub mod Sorting
pub mod Filtering
pub mod Rules
mod Tests
use cubestack.Prelude.{
  is_empty, ℕ, zero, suc, ◌+◌, ltb, leb, ◌==◌, Text, codes, Bool, true, false, not, ◌&&◌, ◌||◌,
  Option, none, some, List, [], ◌∷◌, ◌++◌, map, length, filter, includes, text_eq, if◌then◌else◌,
  max,
}

-- A panel: what the code reads of it, and the rest.
pub record Panel {ℓ} (A : Type ℓ) : Type ℓ where
  pub description : Option Text
  pub body : A

pub record GridItem : Type 0 where
  pub x : ℕ
  pub y : ℕ
  pub width : ℕ
  pub height : ℕ
  pub ref : Text

-- A layout of kind "Grid" with its other fields, or a layout of another kind.
pub data Layout {ℓ} (A : Type ℓ) : Type ℓ where
  grid : A → List GridItem → Layout A
  other : A → Layout A

-- `spec.panels` as its entries in the order of `Object.entries`.
pub record DashboardResource {ℓ} (A : Type ℓ) : Type ℓ where
  pub panels : List (Text × Panel A)
  pub layouts : List (Layout A)
  pub body : A

-- `a.y - b.y || a.x - b.x` is not positive.
abbrev pub precedes : GridItem → GridItem → Bool
precedes a b = ltb a.y b.y || (a.y == b.y && leb a.x b.x)

-- `[...items].sort(...)`, which is stable: of items that compare equal the first stays first.
abbrev pub insert_item : GridItem → List GridItem → List GridItem
insert_item a [] = a ∷ []
insert_item a (b ∷ bs) =
    let rest = insert_item a bs in if precedes a b then a ∷ b ∷ bs else b ∷ rest

unfoldable pub in_order : List GridItem → List GridItem
in_order [] = []
in_order (a ∷ rest) = insert_item a (in_order rest)

-- The variables of the loop of `packItems`.
pub record Pen : Type 0 where
  pub x : ℕ
  pub y : ℕ
  pub row_height : ℕ

-- Where an item goes: it starts a new row if it does not fit into the one begun.
abbrev pub wrap : ℕ → Pen → GridItem → Pen
wrap columns pen item =
    if ltb columns (pen.x + item.width)
    then record { x = 0; y = pen.y + pen.row_height; row_height = 0 }
    else pen

abbrev pub advance : Pen → GridItem → Pen
advance pen item = record {
  x = pen.x + item.width;
  y = pen.y;
  row_height = max pen.row_height item.height;
}

abbrev pub at : Pen → GridItem → GridItem
at pen item = record item { x = pen.x; y = pen.y }

unfoldable pub place : ℕ → Pen → List GridItem → List GridItem
place columns pen [] = []
place columns pen (item ∷ items) =
    let here = wrap columns pen item in at here item ∷ place columns (advance here item) items

abbrev pub origin : Pen
origin = record { x = 0; y = 0; row_height = 0 }

unfoldable pub pack_items : List GridItem → ℕ → List GridItem
unfolding in_order place
pack_items items columns = place columns origin (in_order items)

-- `"#/spec/panels/".length`
abbrev pub panel_ref_prefix : Text
panel_ref_prefix = codes "#/spec/panels/"

-- `t.slice(n)`, with the prefix that is counted
abbrev pub slice_after : Text → Text → Text
slice_after [] t = t
slice_after (c ∷ p) [] = []
slice_after (c ∷ p) (d ∷ t) = slice_after p t

abbrev pub is_dropped : List Text → GridItem → Bool
is_dropped keys item = includes keys (slice_after panel_ref_prefix item.ref)

abbrev pub survivors : List Text → List GridItem → List GridItem
survivors keys items = filter (λ item. not (is_dropped keys item)) items

-- `Math.max(24, ...items.map((item) => item.x + item.width))`
abbrev pub columns_of : List GridItem → ℕ
columns_of [] = 24
columns_of (item ∷ items) = max (item.x + item.width) (columns_of items)

module _ {ℓ} {A : Type ℓ} where
  unfoldable pub filter_layout : List Text → Layout A → Layout A
  unfolding pack_items
  filter_layout keys (Layout.other a) = Layout.other a
  filter_layout keys (Layout.grid a items) =
      if length (survivors keys items) == length items
      then Layout.grid a items
      else Layout.grid a (pack_items (survivors keys items) (columns_of items))

  abbrev pub filter_layouts : List Text → List (Layout A) → List (Layout A)
  filter_layouts keys [] = []
  filter_layouts keys (l ∷ ls) = filter_layout keys l ∷ filter_layouts keys ls

  abbrev pub is_kept : List Text → Text × Panel A → Bool
  is_kept keys (key, panel) = not (includes keys key)

  -- `delete panels[key]` for every key
  abbrev pub drop_panels : List Text → List (Text × Panel A) → List (Text × Panel A)
  drop_panels keys panels = filter (is_kept keys) panels

  unfoldable pub build_filtered_resource : DashboardResource A → List Text → DashboardResource A
  unfolding filter_layout
  build_filtered_resource resource keys = if is_empty keys then resource else record resource {
    panels = drop_panels keys resource.panels;
    layouts = filter_layouts keys resource.layouts;
  }
