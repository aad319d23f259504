-- ===== src/Panels/Tests.antt =====
-- A grid of three items, and a dashboard of two panels.
use cubestack.Prelude.{
  text_eq, ℕ, ◌≡◌, refl, Text, codes, some, List, [], ◌∷◌, map, All, ◌≤◌, arith,
}
use Prim.Native.String.{String}
use mathlib.Core.List.{Perm}
use cubestack.Panels.{
  GridItem, Panel, Layout, DashboardResource, pack_items, build_filtered_resource,
}
use cubestack.Panels.Packing.{InReadingOrder, panel_of}
use cubestack.Panels.Sorting.{pack_items-packs}
use cubestack.Panels.Filtering.{LeftOf, hides_entry, AllFiltered, build_filtered_resource-filters}
use cubestack.Panels.Rules.{hidden_by, extract_hide_rules}

abbrev item_at : ℕ → ℕ → String → GridItem
item_at x y ref = record { x = x; y = y; width = 12; height = 8; ref = codes ref }

abbrev items : List GridItem
items =
    item_at 12 8 "#/spec/panels/c"
    ∷ item_at 0 8 "#/spec/panels/b"
    ∷ item_at 0 0 "#/spec/panels/a"
    ∷ []

abbrev panel_with : String → Panel ℕ
panel_with text = record { description = some (codes text); body = 0 }

abbrev panels : List (Text × Panel ℕ)
panels =
    (codes "a", panel_with "Load @hide-when-specific:gpu")
    ∷ (codes "b", panel_with "Memory")
    ∷ (codes "c", panel_with "@hide-when-specific: @hide-when-specific:gpu, see above")
    ∷ []

abbrev dashboard : DashboardResource ℕ
dashboard = record {
  panels = panels;
  layouts = Layout.grid 0 items ∷ Layout.other 1 ∷ [];
  body = 2;
}

packed :
    pack_items items 24
    ≡ item_at 0 0 "#/spec/panels/a"
      ∷ item_at 12 0 "#/spec/panels/b"
      ∷ item_at 0 8 "#/spec/panels/c"
      ∷ []
unfolding pack_items
packed = refl

rules : extract_hide_rules panels ≡ (codes "gpu", codes "a" ∷ codes "c" ∷ []) ∷ []
unfolding extract_hide_rules hidden_by text_eq
rules = refl

without_a :
    (build_filtered_resource dashboard (codes "a" ∷ [])).layouts
    ≡ Layout.grid 0 (item_at 0 0 "#/spec/panels/b" ∷ item_at 12 0 "#/spec/panels/c" ∷ [])
      ∷ Layout.other 1
      ∷ []
unfolding build_filtered_resource text_eq
without_a = refl

pack_items-packs_example :
    InReadingOrder (pack_items items 24)
    × Perm (map panel_of (pack_items items 24)) (map panel_of items)
pack_items-packs_example = pack_items-packs items 24

narrow : All (λ item. item.width ≤ 24) items
narrow = (omega arith, (omega arith, (omega arith, tt)))

build_filtered_resource-filters_example :
    AllFiltered
      (codes "a" ∷ [])
      dashboard.layouts
      (build_filtered_resource dashboard (codes "a" ∷ [])).layouts
    × LeftOf
        (hides_entry (codes "a" ∷ []))
        panels
        (build_filtered_resource dashboard (codes "a" ∷ [])).panels
build_filtered_resource-filters_example = build_filtered_resource-filters dashboard (codes "a" ∷ [])
