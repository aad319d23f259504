-- ===== src/DevEnvironments/Ports.antt =====
-- What holds of the ports that `POST` in app/api/devenvironments/route.ts takes over.
use cubestack.Prelude.{
  Bool-cases, inl, inr, is_some, subst, ℕ, ◌≤◌, ◌≡◌, refl, arith, Text, codes, text_eq, includes,
  has_unit, Bool, true, false, not, ◌&&◌, List, [], ◌∷◌, Option, none, some, All, map,
  if◌then◌else◌, is_empty, Bool-cases,
}
use cubestack.DevEnvironments.{negative, fraction, accepted, PortRow, trimmed, Number, whole}
use cubestack.DevEnvironments.Rows.{
  Port, pushed, port_of, ports_of, with_port_name, with_l4_port, outside_ports, port_number,
  port_types, port_type,
}
use cubestack.DevEnvironments.Accepted.{
  bind-accepted, accepted-injective, refuse_if-accepted, branch-some, some-injective, Fresh,
  Fresh-push,
}

-- the numbers of the ports that are not http
abbrev pub l4_numbers : List Port → List ℕ
l4_numbers [] = []
l4_numbers (p ∷ ps) =
    let rest = l4_numbers ps in
    if text_eq p.type (codes "http") then rest else p.container_port ∷ rest

abbrev pub all_different : List ℕ → Bool
all_different [] = true
all_different (n ∷ ns) = not (has_unit n ns) && all_different ns

abbrev FreshNumbers : List ℕ → List ℕ → Type 0
FreshNumbers taken ns = (All (λ n. has_unit n taken ≡ false) ns) × (all_different ns ≡ true)

numbers-apart :
    (n : ℕ) (taken ns : List ℕ)
    → All (λ m. has_unit m (n ∷ taken) ≡ false) ns
    → (has_unit n ns ≡ false) × (All (λ m. has_unit m taken ≡ false) ns)
numbers-apart n taken [] h = (refl, tt)
numbers-apart n taken (m ∷ ns) (h, hs) =
    let rest = numbers-apart n taken ns hs in
    (ground (arith, rest.0, h), (ground (arith, h), rest.1))

abbrev PortWell : Port → Type 0
PortWell p =
    (includes port_types p.type ≡ true) × (1 ≤ p.container_port) × (p.container_port ≤ 65535)

abbrev pub PortsWell : List Text → List ℕ → List Port → Type 0
PortsWell names taken ps =
    Fresh names (map (λ (p : Port). p.name) ps)
    × FreshNumbers taken (l4_numbers ps)
    × All PortWell ps

outside_ports_lem :
    (n : Option Number) → outside_ports n ≡ false → (1 ≤ port_number n) × (port_number n ≤ 65535)
outside_ports_lem none h = absurd (ground arith)
outside_ports_lem (some (whole n)) h = ground arith
outside_ports_lem (some (negative b)) h = absurd (ground arith)
outside_ports_lem (some (fraction n t)) h = absurd (ground arith)

port_of-some :
    (names : List Text) (taken : List ℕ) (row : PortRow) (p : Port)
    → port_of names taken row ≡ accepted (some p)
    → (includes names p.name ≡ false)
      × PortWell p
      × (not (text_eq p.type (codes "http")) && has_unit p.container_port taken ≡ false)
unfolding port_of
port_of-some names taken row p h =
    let name = trimmed row.name in
    let skipped = is_empty name && not (is_some row.container_port) in
    let (e, taken_over) = branch-some skipped _ p h in
    let (named, h1) = refuse_if-accepted (is_empty name) _ _ _ (some p) taken_over in
    let (fresh, h2) = refuse_if-accepted (includes names name) _ _ _ (some p) h1 in
    let (typed, h3) =
      refuse_if-accepted (not (includes port_types (port_type row.type))) _ _ _ (some p) h2 in
    let (inside, h4) = refuse_if-accepted (outside_ports row.container_port) _ _ _ (some p) h3 in
    let (free, h5) =
      refuse_if-accepted
        (not (text_eq (port_type row.type) (codes "http"))
          && has_unit (port_number row.container_port) taken)
        _ _ _ (some p) h4 in
    let made = some-injective _ p (accepted-injective _ (some p) h5) in
    subst
      (λ (q : Port).
        (includes names q.name ≡ false)
        × PortWell q
        × (not (text_eq q.type (codes "http")) && has_unit q.container_port taken ≡ false))
      made
      (
        fresh,
        (
          ground (arith, typed),
          (outside_ports_lem row.container_port inside).0,
          (outside_ports_lem row.container_port inside).1,
        ),
        free,
      )

FreshNumbers-push :
    (taken : List ℕ) (p : Port) (ns : List ℕ)
    → not (text_eq p.type (codes "http")) && has_unit p.container_port taken ≡ false
    → FreshNumbers (with_l4_port (some p) taken) ns
    → FreshNumbers taken (if text_eq p.type (codes "http") then ns else p.container_port ∷ ns)
FreshNumbers-push taken p ns free h = elim (Bool-cases (text_eq p.type (codes "http"))) [
  | inl e ↦ rw e (rw e at h)
  | inr e ↦
      let apart = numbers-apart p.container_port taken ns (rw e at h).0 in
      rw e ((ground (arith, free, e), apart.1), ground (arith, apart.0, (rw e at h).1))
]

ports_of-push :
    (names : List Text) (taken : List ℕ) (row : PortRow) (found : Option Port) (ps : List Port)
    → port_of names taken row ≡ accepted found
    → PortsWell (with_port_name found names) (with_l4_port found taken) ps
    → PortsWell names taken (pushed found ps)
ports_of-push names taken row none ps e h = h
ports_of-push names taken row (some p) ps e (n, l, m) =
    let (fresh, well, free) = port_of-some names taken row p e in
    (Fresh-push p.name names _ fresh n, FreshNumbers-push taken p (l4_numbers ps) free l, (well, m))

-- Of the ports that are taken over, no two have one name, and no two that are not http have one
-- number. None has a name, and none but http a number, that was taken before. Each has a type that
-- is known and a number from 1 to 65535.
pub ports_of-distinct :
    (names : List Text) (taken : List ℕ) (rows : List PortRow) (ps : List Port)
    → ports_of names taken rows ≡ accepted ps
    → PortsWell names taken ps
unfolding ports_of
ports_of-distinct names taken [] ps h =
    subst (PortsWell names taken) (accepted-injective [] ps h) ((tt, refl), (tt, refl), tt)
ports_of-distinct names taken (row ∷ rows) ps h =
    let (found, e, f) = bind-accepted (port_of names taken row) _ ps h in
    let (rest, g, k) =
      bind-accepted (ports_of (with_port_name found names) (with_l4_port found taken) rows) _ ps
        f in
    subst (PortsWell names taken) (accepted-injective (pushed found rest) ps k) (
      ports_of-push names taken row found rest e
        (ports_of-distinct (with_port_name found names) (with_l4_port found taken) rows rest g))
