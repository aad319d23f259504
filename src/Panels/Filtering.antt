-- ===== src/Panels/Filtering.antt =====
-- conditional-panels.ts: what is left of a dashboard without some of its panels.
use cubestack.Prelude.{
  includes, drop, ◌≡◌, ◌≤◌, refl, ap, subst, ◌⊎◌, inl, inr, Bool-cases, true, Bool, not, Text, List,
  [], ◌∷◌, map, All, arith, length, filter, ◌==◌, ==_refl,
}
use mathlib.Core.List.{Perm}
use mathlib.Core.List.Perm
use cubestack.Panels.{
  slice_after, panel_ref_prefix, GridItem, Layout, DashboardResource, Panel, is_dropped, survivors,
  columns_of, filter_layout, filter_layouts, is_kept, drop_panels, build_filtered_resource, false,
}
use cubestack.Panels.Packing.{InReadingOrder, panel_of}
use cubestack.Panels.Sorting.{pack_items-packs, pack_items-All}

module _ {ℓ} {A : Type ℓ} (p : A → Bool) where
  filter-All : (xs : List A) → All (λ x. p x ≡ true) (filter p xs)
  filter-All [] = tt
  filter-All (x ∷ xs) = elim (Bool-cases (p x)) [
    | inl e ↦ rw e (e, filter-All xs)
    | inr e ↦ rw e (filter-All xs)
  ]

  filter-eq : (xs : List A) → All (λ x. p x ≡ true) xs → filter p xs ≡ xs
  filter-eq [] h = refl
  filter-eq (x ∷ xs) (e, h) = rw (e, filter-eq xs h)

  length-filter-le : (xs : List A) → length (filter p xs) ≤ length xs
  length-filter-le [] = omega arith
  length-filter-le (x ∷ xs) = ground (arith, length-filter-le xs)

  -- A filter that keeps the length keeps all.
  filter-eq_of_length : (xs : List A) → length (filter p xs) ≡ length xs → filter p xs ≡ xs
  filter-eq_of_length [] h = refl
  filter-eq_of_length (x ∷ xs) h = elim (Bool-cases (p x)) [
    | inl e ↦ rw e (ap (◌∷◌ x) (filter-eq_of_length xs (ground (arith, h))))
    | inr e ↦ absurd (ground (arith, length-filter-le xs))
  ]

abbrev keeps : List Text → GridItem → Bool
keeps keys item = not (is_dropped keys item)

abbrev pub NotDropped : List Text → GridItem → Type 0
NotDropped keys item = keeps keys item ≡ true

-- The entries that are left, in their order, where those that pass a test go
pub data LeftOf {ℓ} {A : Type ℓ} (goes : A → Bool) : List A → List A → Type ℓ where
  ends : LeftOf goes [] []
  gone : {a : A} {xs ys : List A} → goes a ≡ true → LeftOf goes xs ys → LeftOf goes (a ∷ xs) ys
  stays :
      {a : A} {xs ys : List A} → goes a ≡ false → LeftOf goes xs ys → LeftOf goes (a ∷ xs) (a ∷ ys)

filter-LeftOf {ℓ} :
    {A : Type ℓ} (goes stay : A → Bool)
    → ((a : A) → stay a ≡ not (goes a))
    → (xs : List A) → LeftOf goes xs (filter stay xs)
filter-LeftOf goes stay h [] = LeftOf.ends
filter-LeftOf goes stay h (a ∷ xs) = elim (Bool-cases (goes a)) [
  | inl e ↦ rw (h a, e) (LeftOf.gone e (filter-LeftOf goes stay h xs))
  | inr e ↦ rw (h a, e) (LeftOf.stays e (filter-LeftOf goes stay h xs))
]

-- An item of a hidden panel: its reference is "#/spec/panels/", of 14 units, and the key.
abbrev pub hides_item : List Text → GridItem → Bool
hides_item keys item = includes keys (drop 14 item.ref)

abbrev pub hides_entry : {A : Type 0} → List Text → Text × Panel A → Bool
hides_entry keys (key, panel) = includes keys key

slice_after-drop : (p t : Text) → slice_after p t ≡ drop (length p) t
slice_after-drop [] t = refl
slice_after-drop (c ∷ p) [] = refl
slice_after-drop (c ∷ p) (d ∷ t) = slice_after-drop p t

survivors-LeftOf :
    (keys : List Text) (items : List GridItem)
    → LeftOf (hides_item keys) items (survivors keys items)
survivors-LeftOf keys items =
    filter-LeftOf (hides_item keys) (keeps keys)
      (λ item. ap (λ t. not (includes keys t)) (slice_after-drop panel_ref_prefix item.ref)) items

drop_panels-LeftOf :
    {A : Type 0} (keys : List Text) (panels : List (Text × Panel A))
    → LeftOf (hides_entry keys) panels (drop_panels keys panels)
drop_panels-LeftOf keys panels = filter-LeftOf (hides_entry keys) (is_kept keys) (λ p. refl) panels

-- A grid shows the panels that are not dropped, each once and with its size, and it is either as it
-- was or packed. A layout of another kind is as it was.
abbrev pub Filtered : {A : Type 0} → List Text → Layout A → Layout A → Type 0
Filtered keys (Layout.other a) (Layout.other b) = a ≡ b
Filtered keys (Layout.grid a items) (Layout.grid b left) =
    (a ≡ b)
    × ((kept : List GridItem) × LeftOf (hides_item keys) items kept
        × Perm (map panel_of left) (map panel_of kept))
    × All (NotDropped keys) left
    × ((left ≡ items) ⊎ InReadingOrder left)
Filtered keys _ _ = ⊥

abbrev pub AllFiltered : {A : Type 0} → List Text → List (Layout A) → List (Layout A) → Type 0
AllFiltered keys [] [] = Unit
AllFiltered keys (l ∷ ls) (m ∷ ms) = Filtered keys l m × AllFiltered keys ls ms
AllFiltered keys _ _ = ⊥

filter_layout-Filtered :
    {A : Type 0} (keys : List Text) (l : Layout A) → Filtered keys l (filter_layout keys l)
unfolding filter_layout
filter_layout-Filtered keys (Layout.other a) = refl
filter_layout-Filtered keys (Layout.grid a items) =
    let kept = survivors keys items in
    elim (Bool-cases (length kept == length items)) [
      | inl e ↦
          let same = filter-eq_of_length (keeps keys) items (ground arith) in
          rw e (
            refl,
            (kept, survivors-LeftOf keys items, rw same Perm.rfl),
            subst (All (NotDropped keys)) same (filter-All (keeps keys) items),
            inl refl,
          )
      | inr e ↦
          let (order, perm) = pack_items-packs kept (columns_of items) in
          rw e (
            refl,
            (kept, survivors-LeftOf keys items, perm),
            pack_items-All (NotDropped keys) kept (columns_of items) (λ item pen h. h)
                (filter-All (keeps keys) items),
            inr order,
          )
    ]

filter_layouts-AllFiltered :
    {A : Type 0} (keys : List Text) (ls : List (Layout A))
    → AllFiltered keys ls (filter_layouts keys ls)
filter_layouts-AllFiltered keys [] = tt
filter_layouts-AllFiltered keys (l ∷ ls) =
    (filter_layout-Filtered keys l, filter_layouts-AllFiltered keys ls)

filter_layout-fixed :
    {A : Type 0} (keys : List Text) (a : A) (items : List GridItem)
    → All (NotDropped keys) items
    → filter_layout keys (Layout.grid a items) ≡ Layout.grid a items
unfolding filter_layout
filter_layout-fixed keys a items h = rw (filter-eq (keeps keys) items h, ==_refl (length items))

All-NotDropped : (items : List GridItem) → All (NotDropped []) items
All-NotDropped [] = tt
All-NotDropped (i ∷ items) = (refl, All-NotDropped items)

All-is_kept : {A : Type 0} (ps : List (Text × Panel A)) → All (λ p. is_kept [] p ≡ true) ps
All-is_kept [] = tt
All-is_kept ((key, panel) ∷ ps) = (refl, All-is_kept ps)

AllFiltered-nil : {A : Type 0} (ls : List (Layout A)) → AllFiltered [] ls ls
AllFiltered-nil [] = tt
AllFiltered-nil (Layout.other a ∷ ls) = (refl, AllFiltered-nil ls)
AllFiltered-nil (Layout.grid a items ∷ ls) =
    let all = All-NotDropped items in
    let perm : Perm (map panel_of items) (map panel_of (survivors [] items)) =
      rw (filter-eq (keeps []) items all) Perm.rfl in
    (
      (refl, (survivors [] items, survivors-LeftOf [] items, perm), all, inl refl),
      AllFiltered-nil ls,
    )

AllFiltered-fixed :
    {A : Type 0} (keys : List Text) (ls ms : List (Layout A))
    → AllFiltered keys ls ms
    → filter_layouts keys ms ≡ ms
unfolding filter_layout
AllFiltered-fixed keys [] [] h = refl
AllFiltered-fixed keys [] (m ∷ ms) h = absurd h
AllFiltered-fixed keys (l ∷ ls) [] h = absurd h
AllFiltered-fixed keys (Layout.other a ∷ ls) (Layout.other b ∷ ms) (f, h) =
    ap (◌∷◌ (Layout.other b)) (AllFiltered-fixed keys ls ms h)
AllFiltered-fixed keys (Layout.other a ∷ ls) (Layout.grid b left ∷ ms) (f, h) = absurd f
AllFiltered-fixed keys (Layout.grid a items ∷ ls) (Layout.other b ∷ ms) (f, h) = absurd f
AllFiltered-fixed keys (Layout.grid a items ∷ ls) (Layout.grid b left ∷ ms) ((e, p, kept, o), h) =
    rw (filter_layout-fixed keys b left kept, AllFiltered-fixed keys ls ms h)

-- The entries of the panels that are left are those whose key is not hidden, in their order. Each grid
-- shows exactly the items whose reference does not name a hidden panel, each once and with its size,
-- as it was or packed in reading order. Other layouts are as they were.
pub build_filtered_resource-filters :
    {A : Type 0} (r : DashboardResource A) (keys : List Text)
    → AllFiltered keys r.layouts (build_filtered_resource r keys).layouts
      × LeftOf (hides_entry keys) r.panels (build_filtered_resource r keys).panels
unfolding build_filtered_resource
build_filtered_resource-filters r [] = (
  AllFiltered-nil r.layouts,
  subst (LeftOf (hides_entry []) r.panels) (filter-eq (is_kept []) r.panels (All-is_kept r.panels))
      (drop_panels-LeftOf [] r.panels),
)
build_filtered_resource-filters r (k ∷ keys) =
    (filter_layouts-AllFiltered (k ∷ keys) r.layouts, drop_panels-LeftOf (k ∷ keys) r.panels)

-- Hiding the same panels again changes nothing.
pub build_filtered_resource_idempotent :
    {A : Type 0} (r : DashboardResource A) (keys : List Text)
    → build_filtered_resource (build_filtered_resource r keys) keys ≡ build_filtered_resource r keys
unfolding build_filtered_resource
build_filtered_resource_idempotent r [] = refl
build_filtered_resource_idempotent r (k ∷ keys) = rw (
  AllFiltered-fixed (k ∷ keys) r.layouts (filter_layouts (k ∷ keys) r.layouts)
      (filter_layouts-AllFiltered (k ∷ keys) r.layouts),
  filter-eq (is_kept (k ∷ keys)) (drop_panels (k ∷ keys) r.panels)
      (filter-All (is_kept (k ∷ keys)) r.panels),
)
