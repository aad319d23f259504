-- ===== src/Pilot/Sound.antt =====
-- pilotpath.ts: what is passed on is an endpoint of the sessions, under their path.
use cubestack.Prelude.{
  and-true, zero, ◌<◌, ℕ, suc, ◌+◌, ◌-◌, ◌≤◌, ltb, ◌≡◌, refl, sym, ap, subst, ◌∙◌, inl, inr,
  Bool-cases, Text, text_eq, text_eq_iff, codes, join, true, false, ◌&&◌, ◌||◌, List, [], ◌∷◌, ◌++◌,
  length, take, drop, take-append-drop, length-drop, is_empty, if◌then◌else◌, arith,
}
use mathlib.Core.List.{Mem, mem-cons_self, mem-cons_of_mem}
use cubestack.Pilot.{
  Mapped, Subresource, subresources, sessions_path, enc, around, begins_with, addresses, address,
  find_resource, route, upstream_path,
}

abbrev pub sessions_segments : List Text → List Text
sessions_segments rest = codes "api" ∷ codes "v1" ∷ codes "sessions" ∷ rest

-- The requests for the endpoints of the sessions: the list, the removal of one under its key, and
-- the subresources of one.
pub data Allowed (method : Text) (segments : List Text) (path : Text) : Type 0 where
  sessions :
      method ≡ codes "GET"
      → segments ≡ sessions_segments []
      → path ≡ sessions_path
      → Allowed method segments path
  removal :
      (key : List Text)
      → method ≡ codes "DELETE"
      → segments ≡ sessions_segments key
      → is_empty key ≡ false
      → around (sessions_path ++ codes "/") [] (enc key) ≡ Mapped.mapped path
      → Allowed method segments path
  resource :
      (key : List Text) (entry : Subresource)
      → Mem entry subresources
      → method ≡ entry.answers
      → segments ≡ sessions_segments (key ++ entry.tail)
      → is_empty key ≡ false
      → around (sessions_path ++ codes "/") (codes "/" ++ join (codes "/") entry.tail) (enc key)
        ≡ Mapped.mapped path
      → Allowed method segments path

begins_with-eq :
    (tail xs : List Text) → begins_with tail xs ≡ true → length xs ≡ length tail → xs ≡ tail
begins_with-eq [] [] h e = refl
begins_with-eq [] (x ∷ xs) h e = absurd (omega (arith, e))
begins_with-eq (t ∷ tail) [] h e = absurd (omega (arith, e))
begins_with-eq (t ∷ tail) (x ∷ xs) h e = elim (Bool-cases (text_eq x t)) [
  | inl f ↦
      rw ((text_eq_iff x t).0 f, begins_with-eq tail xs (ground (arith, h)) (omega (arith, e)))
  | inr f ↦ absurd (ground (arith, h))
]

is_empty-take : (n : ℕ) (xs : List Text) → 0 < n → 0 < length xs → is_empty (take n xs) ≡ false
is_empty-take zero xs h k = absurd (omega (arith, h))
is_empty-take (suc n) [] h k = absurd (omega (arith, k))
is_empty-take (suc n) (x ∷ xs) h k = refl

-- An entry that a request addresses is its end, behind a key of one segment at least.
pub addresses-split :
    (method : Text) (path : List Text) (entry : Subresource)
    → addresses method path entry ≡ true
    → (method ≡ entry.answers)
      × (path ≡ take (length path - length entry.tail) path ++ entry.tail)
      × (is_empty (take (length path - length entry.tail) path) ≡ false)
addresses-split method path entry h =
    let (same, more) = and-true _ _ h in
    let (fits, ends) = and-true _ _ more in
    let long : length entry.tail + 1 ≤ length path = ground (arith, fits) in
    let n = length path - length entry.tail in
    let behind =
      begins_with-eq entry.tail (drop n path) ends (omega (arith, long, length-drop n path)) in
    (
      sym ((text_eq_iff entry.answers method).0 same),
      sym (take-append-drop n path) ∙ ap (λ t. take n path ++ t) behind,
      is_empty-take n path (omega (arith, long)) (omega (arith, long)),
    )

find_resource-Allowed :
    (method : Text) (path : List Text) (entries : List Subresource) (p : Text)
    → ((entry : Subresource) → Mem entry entries → Mem entry subresources)
    → find_resource method path entries ≡ Mapped.mapped p
    → Allowed method (sessions_segments path) p
unfolding address
find_resource-Allowed method path [] p within h = absurd (ground arith)
find_resource-Allowed method path (entry ∷ entries) p within h =
    elim (Bool-cases (addresses method path entry)) [
      | inl e ↦
          let (same, split, key) = addresses-split method path entry e in
          Allowed.resource (take (length path - length entry.tail) path) entry
            (within entry mem-cons_self) same (ap sessions_segments split) key (rw e at h)
      | inr e ↦
          find_resource-Allowed method path entries p (λ x m. within x (mem-cons_of_mem entry m))
            (rw e at h)
    ]

behind_sessions :
    (method x : Text) (path : List Text) (p : Text)
    → (if text_eq method (codes "DELETE")
        then around (sessions_path ++ codes "/") [] (enc (x ∷ path))
        else if ltb (length (x ∷ path)) 2 || false
        then Mapped.refused
        else find_resource method (x ∷ path) subresources)
      ≡ Mapped.mapped p
    → Allowed method (sessions_segments (x ∷ path)) p
behind_sessions method x path p h = elim (Bool-cases (text_eq method (codes "DELETE"))) [
  | inl e ↦
      Allowed.removal (x ∷ path) ((text_eq_iff method (codes "DELETE")).0 e) refl refl (rw e at h)
  | inr e ↦ elim (Bool-cases (ltb (length (x ∷ path)) 2 || false)) [
    | inl f ↦ absurd (ground (arith, rw (e, f) at h))
    | inr f ↦ find_resource-Allowed method (x ∷ path) subresources p (λ entry m. m) (rw (e, f) at h)
  ]
]

route-Allowed :
    (method : Text) (rest : List Text) (p : Text)
    → route method rest ≡ Mapped.mapped p
    → Allowed method (codes "api" ∷ codes "v1" ∷ rest) p
unfolding route
route-Allowed method [] p h = absurd (ground arith)
route-Allowed method (head ∷ []) p h =
    elim (Bool-cases (text_eq head (codes "sessions") && text_eq method (codes "GET"))) [
      | inl e ↦
          let (is_sessions, is_get) = and-true _ _ e in
          Allowed.sessions ((text_eq_iff method (codes "GET")).0 is_get)
            (ap (λ t. codes "api" ∷ codes "v1" ∷ t ∷ [])
              ((text_eq_iff head (codes "sessions")).0 is_sessions))
            (ground (arith, rw e at h))
      | inr e ↦ absurd (ground (arith, rw e at h))
    ]
route-Allowed method (head ∷ x ∷ path) p h = elim (Bool-cases (text_eq head (codes "sessions"))) [
  | inr e ↦ absurd (ground (arith, rw e at h))
  | inl e ↦
      subst (λ t. Allowed method (codes "api" ∷ codes "v1" ∷ t ∷ x ∷ path) p)
        (sym ((text_eq_iff head (codes "sessions")).0 e))
        (behind_sessions method x path p (rw e at h))
]

-- A request is passed on only for an endpoint of the sessions, to the path of that endpoint.
pub upstream_path-Allowed :
    (method : Text) (segments : List Text) (p : Text)
    → upstream_path method segments ≡ Mapped.mapped p
    → Allowed method segments p
unfolding upstream_path
upstream_path-Allowed method [] p h = absurd (ground arith)
upstream_path-Allowed method (api ∷ []) p h = absurd (ground arith)
upstream_path-Allowed method (api ∷ v1 ∷ rest) p h =
    elim (Bool-cases (text_eq api (codes "api") && text_eq v1 (codes "v1"))) [
      | inl e ↦
          let (is_api, is_v1) = and-true _ _ e in
          rw ((text_eq_iff api (codes "api")).0 is_api, (text_eq_iff v1 (codes "v1")).0 is_v1)
            (route-Allowed method rest p (rw e at h))
      | inr e ↦ absurd (ground (arith, rw e at h))
    ]
