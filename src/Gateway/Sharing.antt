-- ===== src/Gateway/Sharing.antt =====
-- The calls in flight of gateway.ts are shared.
use cubestack.Prelude.{
  any, sym, ap, subst, ◌∙◌, and-true, ℕ, ◌+◌, ◌≤◌, ◌<◌, ◌≡◌, refl, arith, ◌==◌, ==_iff, Text,
  text_eq, text_eq_iff, text_eq_refl, Bool, true, false, not, ◌&&◌, List, [], ◌∷◌, filter, Option,
  none, some, if◌then◌else◌, All, Option-cases, inl, inr, Bool-cases,
}
use cubestack.Gateway.Memo.{
  Flight, Memo, Event, put, find, remove, no_memo, fresh, start, read_with, read, settle, is_flight,
  release, clear, after, run,
}

pub find-put {ℓ} :
    {A : Type ℓ} (key : Text) (a : A) (l : List (Text × A)) (other : Text)
    → find other (put key a l) ≡ (if text_eq key other then some a else find other l)
find-put key a [] other = refl
find-put key a ((k, b) ∷ rest) other = ground (
  arith,
  find-put key a rest other,
  text_eq_iff k key,
  text_eq_iff key other,
  text_eq_iff k other,
)

pub find-remove {ℓ} :
    {A : Type ℓ} (key : Text) (l : List (Text × A)) (other : Text)
    → find other (remove key l) ≡ (if text_eq key other then none else find other l)
find-remove key [] other = ground arith
find-remove key ((k, b) ∷ rest) other = ground (
  arith,
  find-remove key rest other,
  text_eq_iff k key,
  text_eq_iff key other,
  text_eq_iff k other,
)

-- A call that started since the caches were cleared is the one in flight under its key.
abbrev IsShared : List (Text × ℕ) → ℕ → ℕ → Flight → Type 0
IsShared inflight next epoch f = (f.id < next) × (epoch ≤ f.id → find f.key inflight ≡ some f.id)

abbrev AllShared : {V : Type 0} → Memo V → Type 0
AllShared m = (m.epoch ≤ m.next) × All (IsShared m.inflight m.next m.epoch) m.flights

start-IsShared :
    (key : Text) (inflight : List (Text × ℕ)) (next epoch : ℕ) (f : Flight)
    → find key inflight ≡ none
    → IsShared inflight next epoch f
    → IsShared (put key next inflight) (next + 1) epoch f
start-IsShared key inflight next epoch f free (l, shared) = (
  omega (arith, l),
  λ since. ground (arith, shared since, find-put key next inflight f.key, text_eq_iff key f.key),
)

release-IsShared :
    (id : ℕ) (key : Text) (inflight : List (Text × ℕ)) (next epoch : ℕ) (f : Flight)
    → (f.id == id) ≡ false
    → IsShared inflight next epoch f
    → IsShared
        (if is_flight id (find key inflight) then remove key inflight else inflight)
        next
        epoch
        f
release-IsShared id key inflight next epoch f other (l, shared) = (
  l,
  λ since.
      ground (arith, other, shared since, find-remove key inflight f.key, text_eq_iff key f.key),
)

All-map {ℓ κ μ} :
    {A : Type ℓ} (P : A → Type κ) (Q : A → Type μ)
    → ((a : A) → P a → Q a)
    → (l : List A) → All P l
    → All Q l
All-map P Q f [] h = tt
All-map P Q f (a ∷ l) (h, hs) = (f a h, All-map P Q f l hs)

release-flights :
    (id : ℕ) (key : Text) (inflight : List (Text × ℕ)) (next epoch : ℕ) (l : List Flight)
    → All (IsShared inflight next epoch) l
    → All
        (IsShared
          (if is_flight id (find key inflight) then remove key inflight else inflight)
          next
          epoch)
        (filter (λ (f : Flight). not (f.id == id)) l)
release-flights id key inflight next epoch [] h = tt
release-flights id key inflight next epoch (f ∷ l) (h, hs) =
    let rest = release-flights id key inflight next epoch l hs in
    elim (Bool-cases (f.id == id)) [
      | inl e ↦ rw e rest
      | inr e ↦ rw e (release-IsShared id key inflight next epoch f e h, rest)
    ]

clear-flights :
    (inflight : List (Text × ℕ)) (next epoch : ℕ) (l : List Flight)
    → All (IsShared inflight next epoch) l
    → All (IsShared [] next next) l
clear-flights inflight next epoch l h =
    All-map (IsShared inflight next epoch) (IsShared [] next next)
      (λ f s. (s.0, λ since. absurd (omega (arith, s.0, since)))) l h

module _ {V : Type 0} (ttl_of : V → ℕ) where
  start-AllShared :
      (key : Text) (m : Memo V) → find key m.inflight ≡ none → AllShared m → AllShared (start key m)
  unfolding start
  start-AllShared key m free (l, shared) = (
    omega (arith, l),
    (
      (omega arith, λ since. rw (find-put key m.next m.inflight key, text_eq_refl key) refl),
      All-map (IsShared m.inflight m.next m.epoch)
          (IsShared (put key m.next m.inflight) (m.next + 1) m.epoch)
          (λ f s. start-IsShared key m.inflight m.next m.epoch f free s) m.flights shared,
    ),
  )

  read_with-AllShared :
      (key : Text) (m : Memo V) (v : Option V) → AllShared m → AllShared (read_with key m v).1
  read_with-AllShared key m (some v) h = h
  read_with-AllShared key m none h = elim (Option-cases (find key m.inflight)) [
    | inl e ↦ rw e (start-AllShared key m e h)
    | inr (id, e) ↦ rw e h
  ]

  after-AllShared : (m : Memo V) (e : Event V) → AllShared m → AllShared (after ttl_of m e)
  unfolding after read settle release clear
  after-AllShared m (Event.reading key now) h =
      read_with-AllShared key m (fresh now (find key m.cache)) h
  after-AllShared m (Event.settling key v now) h = h
  after-AllShared m (Event.releasing id key) (l, h) =
      (l, release-flights id key m.inflight m.next m.epoch m.flights h)
  after-AllShared m Event.clearing (l, h) =
      (omega arith, clear-flights m.inflight m.next m.epoch m.flights h)

  run-AllShared :
      (m : Memo V) (events : List (Event V)) → AllShared m → AllShared (run ttl_of m events)
  unfolding run
  run-AllShared m [] h = h
  run-AllShared m (e ∷ events) h = run-AllShared (after ttl_of m e) events (after-AllShared m e h)

-- The call is in flight for the key.
abbrev pub is_running : ℕ → Text → List Flight → Bool
is_running id key flights = any (λ (f : Flight). (f.id == id) && text_eq f.key key) flights

shared-find :
    (inflight : List (Text × ℕ)) (next epoch : ℕ) (id : ℕ) (key : Text) (l : List Flight)
    → All (IsShared inflight next epoch) l
    → is_running id key l ≡ true
    → epoch ≤ id
    → find key inflight ≡ some id
shared-find inflight next epoch id key [] h r since = absurd (ground arith)
shared-find inflight next epoch id key (f ∷ l) (h, hs) r since =
    elim (Bool-cases ((f.id == id) && text_eq f.key key)) [
      | inl e ↦
          let (same, named) = and-true (f.id == id) (text_eq f.key key) e in
          let i = (==_iff f.id id).0 same in
          let k = (text_eq_iff f.key key).0 named in
          subst (λ q. find q inflight ≡ some id) k
            (h.1 (subst (λ n. epoch ≤ n) (sym i) since) ∙ ap some i)
      | inr e ↦ shared-find inflight next epoch id key l hs (rw e at r) since
    ]

some-injective : (i j : ℕ) → some i ≡ some j → i ≡ j
some-injective i j h = cc

-- Whatever readers, answers and clearings come in whatever order, two calls that are in flight for
-- one key, and started since the caches were cleared, are one call.
pub run-shares :
    {V : Type 0} (ttl_of : V → ℕ) (events : List (Event V)) (i j : ℕ) (key : Text)
    → is_running i key (run ttl_of no_memo events).flights ≡ true
    → is_running j key (run ttl_of no_memo events).flights ≡ true
    → (run ttl_of no_memo events).epoch ≤ i
    → (run ttl_of no_memo events).epoch ≤ j
    → i ≡ j
run-shares ttl_of events i j key a b p q =
    let m = run ttl_of no_memo events in
    let shared = (run-AllShared ttl_of no_memo events (omega arith, tt)).1 in
    let first = shared-find m.inflight m.next m.epoch i key m.flights shared a p in
    let second = shared-find m.inflight m.next m.epoch j key m.flights shared b q in
    some-injective i j (sym first ∙ second)
