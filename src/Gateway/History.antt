-- ===== src/Gateway/History.antt =====
-- The caches of gateway.ts against what happened: an answer is kept for its time, and no longer.
use cubestack.Prelude.{
  Option-cases, inl, inr, ℕ, ◌-◌, ◌≡◌, refl, ltb, Text, text_eq, Bool, true, false, List, [], ◌∷◌,
  Option, none, some, if◌then◌else◌, ap, ◌∙◌,
}
use cubestack.Gateway.Memo.{
  Entry, Memo, Read, Event, find, no_memo, fresh, start, read_with, read, settle, release, clear,
  after, run,
}
use cubestack.Gateway.Sharing.{find-put}

module _ {V : Type 0} (ttl_of : V → ℕ) where
  -- The last answer of a key and its time, of those behind the last clearing: `known` is what it was
  -- before the events.
  abbrev pub last_answer : Text → Option (V × ℕ) → List (Event V) → Option (V × ℕ)
  last_answer key known [] = known
  last_answer key known (Event.reading k now ∷ events) = last_answer key known events
  last_answer key known (Event.settling k v now ∷ events) =
      last_answer key (if text_eq k key then some (v, now) else known) events
  last_answer key known (Event.releasing id k ∷ events) = last_answer key known events
  last_answer key known (Event.clearing ∷ events) = last_answer key none events

  abbrev entry_of : Option (V × ℕ) → Option (Entry V)
  entry_of none = none
  entry_of (some (v, now)) = some (record { value = v; loaded_at = now; ttl_ms = ttl_of v })

  read_with-cache : (key : Text) (m : Memo V) (v : Option V) → (read_with key m v).1.cache ≡ m.cache
  unfolding start
  read_with-cache key m (some v) = refl
  read_with-cache key m none = elim (Option-cases (find key m.inflight)) [
    | inl e ↦ rw e refl
    | inr (id, e) ↦ rw e refl
  ]

  if-entry :
      (b : Bool) (v : V) (now : ℕ) (known : Option (V × ℕ))
      → (if b then entry_of (some (v, now)) else entry_of known)
        ≡ entry_of (if b then some (v, now) else known)
  if-entry true v now known = refl
  if-entry false v now known = refl

  run-cache :
      (events : List (Event V)) (key : Text) (m : Memo V) (known : Option (V × ℕ))
      → find key m.cache ≡ entry_of known
      → find key (run ttl_of m events).cache ≡ entry_of (last_answer key known events)
  unfolding run after read settle release clear
  run-cache [] key m known h = h
  run-cache (Event.reading k now ∷ events) key m known h =
      run-cache events key (read k now m).1 known
        (ap (find key) (read_with-cache k m (fresh now (find k m.cache))) ∙ h)
  run-cache (Event.settling k v now ∷ events) key m known h =
      run-cache events key (settle ttl_of k v now m)
        (if text_eq k key then some (v, now) else known)
        (find-put k _ m.cache key ∙ (rw h (if-entry (text_eq k key) v now known)))
  run-cache (Event.releasing id k ∷ events) key m known h =
      run-cache events key (release id k m) known h
  run-cache (Event.clearing ∷ events) key m known h = run-cache events key (clear m) none refl

  -- What a reader finds in the cache: the last answer of its key, while it is younger than its time.
  abbrev pub still_valid : ℕ → Option (V × ℕ) → Option V
  still_valid now none = none
  still_valid now (some (v, then_)) = if ltb (now - then_) (ttl_of v) then some v else none

  abbrev pub answered : Read V → Option V
  answered (Read.cached v) = some v
  answered (Read.joined id) = none
  answered (Read.started id) = none

  read_with-answered : (key : Text) (m : Memo V) (v : Option V) → answered (read_with key m v).0 ≡ v
  read_with-answered key m (some v) = refl
  read_with-answered key m none = elim (Option-cases (find key m.inflight)) [
    | inl e ↦ rw e refl
    | inr (id, e) ↦ rw e refl
  ]

  fresh-entry_of : (now : ℕ) (o : Option (V × ℕ)) → fresh now (entry_of o) ≡ still_valid now o
  fresh-entry_of now none = refl
  fresh-entry_of now (some (v, t)) = refl

  -- After whatever happened, a reader is answered from the cache exactly while the last answer for
  -- its key that came since the caches were cleared is younger than its time, and with that answer.
  pub read-last_answer :
      (events : List (Event V)) (key : Text) (now : ℕ)
      → answered (read key now (run ttl_of no_memo events)).0
        ≡ still_valid now (last_answer key none events)
  unfolding read
  read-last_answer events key now =
      let m = run ttl_of no_memo events in
      read_with-answered key m (fresh now (find key m.cache))
      ∙ (ap (fresh now) (run-cache events key no_memo none refl)
          ∙ fresh-entry_of now (last_answer key none events))
