-- ===== src/Gateway/Memo.antt =====
-- The caches of gateway.ts and the calls in flight: `gatewayCatalogAt`, with a key for each base,
-- and `resolveGatewayBases`, with one key.
use cubestack.Prelude.{
  ℕ, ◌+◌, ◌-◌, ltb, ◌==◌, Text, text_eq, Bool, false, not, List, [], ◌∷◌, filter, Option, none,
  some, if◌then◌else◌,
}

pub record Entry (V : Type 0) : Type 0 where
  pub value : V
  pub loaded_at : ℕ
  pub ttl_ms : ℕ

-- A call in flight, numbered in the order of their starts.
pub record Flight : Type 0 where
  pub id : ℕ
  pub key : Text

-- The two maps, and what the runtime keeps beside them: the flights that are not over, the number
-- of the next one, and that of the first one since the caches were cleared.
pub record Memo (V : Type 0) : Type 0 where
  pub cache : List (Text × Entry V)
  pub inflight : List (Text × ℕ)
  pub flights : List Flight
  pub next : ℕ
  pub epoch : ℕ

abbrev pub put {ℓ} : {A : Type ℓ} → Text → A → List (Text × A) → List (Text × A)
put key a [] = (key, a) ∷ []
put key a ((k, b) ∷ rest) =
    let others = put key a rest in if text_eq k key then (key, a) ∷ rest else (k, b) ∷ others

abbrev pub find {ℓ} : {A : Type ℓ} → Text → List (Text × A) → Option A
find key [] = none
find key ((k, a) ∷ rest) = let others = find key rest in if text_eq k key then some a else others

abbrev pub remove {ℓ} : {A : Type ℓ} → Text → List (Text × A) → List (Text × A)
remove key [] = []
remove key ((k, a) ∷ rest) =
    let others = remove key rest in if text_eq k key then others else (k, a) ∷ others

pub data Read (V : Type 0) : Type 0 where
  cached : V → Read V
  joined : ℕ → Read V
  started : ℕ → Read V

abbrev pub is_flight : ℕ → Option ℕ → Bool
is_flight id none = false
is_flight id (some other) = other == id

module _ {V : Type 0} where
  abbrev pub no_memo : Memo V
  no_memo = record { cache = []; inflight = []; flights = []; next = 0; epoch = 0 }

  abbrev pub fresh : ℕ → Option (Entry V) → Option V
  fresh now none = none
  fresh now (some e) = if ltb (now - e.loaded_at) e.ttl_ms then some e.value else none

  unfoldable pub start : Text → Memo V → Memo V
  start key m = record m {
    inflight = put key m.next m.inflight;
    flights = record { id = m.next; key = key } ∷ m.flights;
    next = m.next + 1;
  }

  abbrev pub unless_fresh : Text → Memo V → Option ℕ → Read V × Memo V
  unless_fresh key m (some id) = (Read.joined id, m)
  unless_fresh key m none = (Read.started m.next, start key m)

  abbrev pub read_with : Text → Memo V → Option V → Read V × Memo V
  read_with key m (some v) = (Read.cached v, m)
  read_with key m none = unless_fresh key m (find key m.inflight)

  -- A reader at a time: what the cache has, the call in flight, or a call that it starts.
  unfoldable pub read : Text → ℕ → Memo V → Read V × Memo V
  unfolding start
  read key now m = read_with key m (fresh now (find key m.cache))

  -- A call has its answer.
  unfoldable pub settle : (V → ℕ) → Text → V → ℕ → Memo V → Memo V
  settle ttl_of key v now m = record m {
    cache = put key (record { value = v; loaded_at = now; ttl_ms = ttl_of v }) m.cache;
  }

  -- `finally`, by the reader that started the call
  unfoldable pub release : ℕ → Text → Memo V → Memo V
  release id key m = record m {
    inflight = if is_flight id (find key m.inflight) then remove key m.inflight else m.inflight;
    flights = filter (λ (f : Flight). not (f.id == id)) m.flights;
  }

  -- `clearGatewayCaches`
  unfoldable pub clear : Memo V → Memo V
  clear m = record m { cache = []; inflight = []; epoch = m.next }

pub data Event (V : Type 0) : Type 0 where
  reading : Text → ℕ → Event V
  settling : Text → V → ℕ → Event V
  releasing : ℕ → Text → Event V
  clearing : Event V

module _ {V : Type 0} (ttl_of : V → ℕ) where
  unfoldable pub after : Memo V → Event V → Memo V
  unfolding read settle release clear
  after m (Event.reading key now) = (read key now m).1
  after m (Event.settling key v now) = settle ttl_of key v now m
  after m (Event.releasing id key) = release id key m
  after m Event.clearing = clear m

  -- The events in their order
  unfoldable pub run : Memo V → List (Event V) → Memo V
  unfolding after
  run m [] = m
  run m (e ∷ events) = run (after m e) events
