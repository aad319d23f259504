-- ===== src/Pilot/Complete.antt =====
-- pilotpath.ts: each endpoint is reached.
use cubestack.Prelude.{
  all-Mem, ◌<◌, suc, ◌+◌, ◌-◌, ◌≤◌, ltb, ◌≡◌, ◌↔◌, refl, sym, ap, ◌∙◌, inl, inr, Bool-cases, Text,
  text_eq, text_eq_iff, text_eq_refl, codes, join, all, Bool, true, false, not, ◌&&◌, ◌||◌, List,
  [], ◌∷◌, ◌++◌, length, length-append, take, take-length, drop-length, is_empty, arith, and-true,
}
use mathlib.Core.List.{Mem, mem-cons_self, mem-cons_of_mem, not-mem-nil, eq-or-mem_of_mem-cons}
use mathlib.Core.Logic.Or
use cubestack.Pilot.{
  Mapped, Subresource, subresources, sessions_path, enc, around, begins_with, addresses, address,
  find_resource, route, upstream_path,
}
use cubestack.Pilot.Sound.{Allowed, sessions_segments, upstream_path-Allowed, addresses-split}

begins_with_self : (xs : List Text) → begins_with xs xs ≡ true
begins_with_self [] = refl
begins_with_self (x ∷ xs) = rw (text_eq_refl x, begins_with_self xs)

before_tail : (key tail : List Text) → length (key ++ tail) - length tail ≡ length key
before_tail key tail = omega (arith, length-append key tail)

length-pos : (key : List Text) → is_empty key ≡ false → 0 < length key
length-pos [] h = absurd (ground arith)
length-pos (x ∷ xs) h = omega arith

addresses-append :
    (key : List Text) (entry : Subresource)
    → is_empty key ≡ false
    → addresses entry.answers (key ++ entry.tail) entry ≡ true
addresses-append key entry some_key =
    let long : ltb (suc (length (key ++ entry.tail))) (length entry.tail + 2) ≡ false =
      ground (arith, length-append key entry.tail, length-pos key some_key) in
    rw (
      text_eq_refl entry.answers,
      long,
      before_tail key entry.tail,
      drop-length key entry.tail,
      begins_with_self entry.tail,
    )

address-append :
    (key : List Text) (entry : Subresource)
    → address (key ++ entry.tail) entry
      ≡ around (sessions_path ++ codes "/") (codes "/" ++ join (codes "/") entry.tail) (enc key)
unfolding address
address-append key entry = rw (before_tail key entry.tail, take-length key entry.tail)

abbrev last_of : List Text → Text
last_of [] = []
last_of (x ∷ []) = x
last_of (x ∷ y ∷ xs) = last_of (y ∷ xs)

last_of-append :
    (key : List Text) (y : Text) (ys : List Text) → last_of (key ++ y ∷ ys) ≡ last_of (y ∷ ys)
last_of-append [] y ys = refl
last_of-append (x ∷ []) y ys = refl
last_of-append (x ∷ z ∷ key) y ys = last_of-append (z ∷ key) y ys

same_segments : List Text → List Text → Bool
same_segments [] [] = true
same_segments [] (y ∷ ys) = false
same_segments (x ∷ xs) [] = false
same_segments (x ∷ xs) (y ∷ ys) = text_eq x y && same_segments xs ys

same_segments-eq : (xs ys : List Text) → same_segments xs ys ≡ true → xs ≡ ys
unfolding same_segments
same_segments-eq [] [] h = refl
same_segments-eq [] (y ∷ ys) h = absurd (ground arith)
same_segments-eq (x ∷ xs) [] h = absurd (ground arith)
same_segments-eq (x ∷ xs) (y ∷ ys) h =
    let (e, es) = and-true _ _ h in rw ((text_eq_iff x y).0 e, same_segments-eq xs ys es)

-- Two entries of one method that end in the same segment have the same tail, which is not empty.
abbrev agree : Subresource → Subresource → Bool
agree e f =
    not (text_eq e.answers f.answers && text_eq (last_of e.tail) (last_of f.tail))
    || same_segments e.tail f.tail

abbrev has_tail : Subresource → Bool
has_tail e =
    not (is_empty e.tail)
    && (not (text_eq e.answers (codes "DELETE")) && all (agree e) subresources)

subresources-agree : all has_tail subresources ≡ true
unfolding same_segments text_eq
subresources-agree = refl

tail_is_last : (key tail : List Text) → is_empty tail ≡ false → last_of (key ++ tail) ≡ last_of tail
tail_is_last key [] h = absurd (ground arith)
tail_is_last key (y ∷ ys) h = last_of-append key y ys

subresource-facts :
    (e : Subresource)
    → Mem e subresources
    → (is_empty e.tail ≡ false)
      × (text_eq e.answers (codes "DELETE") ≡ false)
      × (all (agree e) subresources ≡ true)
subresource-facts e m =
    let (t, more) =
      and-true (not (is_empty e.tail))
        (not (text_eq e.answers (codes "DELETE")) && all (agree e) subresources)
        (all-Mem has_tail e subresources subresources-agree m) in
    let (d, agrees) =
      and-true (not (text_eq e.answers (codes "DELETE"))) (all (agree e) subresources) more in
    (ground (arith, t), ground (arith, d), agrees)

agree-same : (a b c : Bool) → a ≡ true → b ≡ true → not (a && b) || c ≡ true → c ≡ true
agree-same a b c h k l = ground arith

-- No two entries compete for a request.
same_tail :
    (e f : Subresource)
    → Mem e subresources
    → Mem f subresources
    → e.answers ≡ f.answers
    → (k l : List Text) → k ++ e.tail ≡ l ++ f.tail
    → e.tail ≡ f.tail
same_tail e f m n same k l split =
    let (te, _, agrees) = subresource-facts e m in
    let (tf, _, _) = subresource-facts f n in
    let ends : last_of e.tail ≡ last_of f.tail =
      sym (tail_is_last k e.tail te) ∙ (ap last_of split ∙ tail_is_last l f.tail tf) in
    same_segments-eq e.tail f.tail (
      agree-same (text_eq e.answers f.answers) (text_eq (last_of e.tail) (last_of f.tail))
        (same_segments e.tail f.tail) ((text_eq_iff e.answers f.answers).1 same)
        ((text_eq_iff (last_of e.tail) (last_of f.tail)).1 ends)
        (all-Mem (agree e) f subresources agrees n))

address-tail :
    (path : List Text) (e f : Subresource) → e.tail ≡ f.tail → address path e ≡ address path f
unfolding address
address-tail path e f same = rw same

other :
    (path : List Text) (entry e : Subresource)
    → addresses entry.answers path entry ≡ true
    → addresses entry.answers path e ≡ false
    → entry ≡ e
    → ⊥
other path entry e h f here = absurd (cc (sym h ∙ (ap (addresses entry.answers path) here ∙ f)))

behind :
    (path : List Text) (entry e : Subresource) (es : List Subresource)
    → addresses entry.answers path entry ≡ true
    → addresses entry.answers path e ≡ false
    → Mem entry (e ∷ es)
    → Mem entry es
behind path entry e es h f m =
    Or.elim (hlevel) (eq-or-mem_of_mem-cons m) (λ here. absurd (other path entry e h f here))
      (λ there. there)

find_resource-Mem :
    (path : List Text) (entry : Subresource) (entries : List Subresource)
    → Mem entry subresources
    → ((e : Subresource) → Mem e entries → Mem e subresources)
    → addresses entry.answers path entry ≡ true
    → Mem entry entries
    → find_resource entry.answers path entries ≡ address path entry
unfolding address
find_resource-Mem path entry [] known within h m = absurd (not-mem-nil m)
find_resource-Mem path entry (e ∷ es) known within h m =
    elim (Bool-cases (addresses entry.answers path e)) [
      | inl f ↦
          let (same, split, _) = addresses-split entry.answers path e f in
          let (_, whole, _) = addresses-split entry.answers path entry h in
          rw f (
            address-tail path e entry (
              same_tail e entry (within e mem-cons_self) known (sym same)
                (take (length path - length e.tail) path)
                (take (length path - length entry.tail) path) (sym split ∙ whole)))
      | inr f ↦ rw f (
          find_resource-Mem path entry es known (λ x n. within x (mem-cons_of_mem e n)) h
            (behind path entry e es h f m))
    ]

route-list : route (codes "GET") (codes "sessions" ∷ []) ≡ Mapped.mapped sessions_path
unfolding route text_eq
route-list = refl

route-removal :
    (key : List Text)
    → is_empty key ≡ false
    → route (codes "DELETE") (codes "sessions" ∷ key)
      ≡ around (sessions_path ++ codes "/") [] (enc key)
unfolding route text_eq
route-removal [] h = absurd (ground arith)
route-removal (x ∷ key) h = refl

two_segments :
    (path key tail : List Text)
    → is_empty key ≡ false
    → is_empty tail ≡ false
    → path ≡ key ++ tail
    → 2 ≤ length path
two_segments path key tail k t e =
    rw e (omega (arith, length-append key tail, length-pos key k, length-pos tail t))

is_empty-long : (path : List Text) → 2 ≤ length path → is_empty path ≡ false
is_empty-long [] h = absurd (omega (arith, h))
is_empty-long (x ∷ path) h = refl

long-ltb : (path : List Text) → 2 ≤ length path → ltb (length path) 2 ≡ false
long-ltb path h = ground arith

route-resource :
    (path : List Text) (entry : Subresource)
    → Mem entry subresources
    → addresses entry.answers path entry ≡ true
    → route entry.answers (codes "sessions" ∷ path) ≡ address path entry
unfolding route
route-resource path entry m h =
    let (tail, not_delete, _) = subresource-facts entry m in
    let (_, split, key) = addresses-split entry.answers path entry h in
    let n = length path - length entry.tail in
    let two : 2 ≤ length path = two_segments path (take n path) entry.tail key tail split in
    rw (text_eq_refl (codes "sessions"), is_empty-long path two, not_delete, long-ltb path two)
      (find_resource-Mem path entry subresources m (λ e k. k) h m)

upstream_path-route :
    (method : Text) (rest : List Text)
    → upstream_path method (sessions_segments rest) ≡ route method (codes "sessions" ∷ rest)
unfolding upstream_path text_eq
upstream_path-route method rest = refl

Allowed-mapped :
    (method : Text) (segments : List Text) (p : Text)
    → Allowed method segments p
    → upstream_path method segments ≡ Mapped.mapped p
Allowed-mapped method segments p (Allowed.sessions a b e) =
    rw (a, b, e) (upstream_path-route (codes "GET") [] ∙ route-list)
Allowed-mapped method segments p (Allowed.removal key a b some_key h) =
    rw (a, b) (upstream_path-route (codes "DELETE") key ∙ (route-removal key some_key ∙ h))
Allowed-mapped method segments p (Allowed.resource key entry m a b some_key h) =
    rw (a, b)
      (upstream_path-route entry.answers (key ++ entry.tail)
        ∙ (route-resource (key ++ entry.tail) entry m (addresses-append key entry some_key)
            ∙ (address-append key entry ∙ h)))

-- A request is passed on to a path exactly if it is one for an endpoint of the sessions, and the
-- path is that endpoint's.
pub upstream_path-eq-mapped_iff :
    (method : Text) (segments : List Text) (p : Text)
    → (upstream_path method segments ≡ Mapped.mapped p) ↔ Allowed method segments p
upstream_path-eq-mapped_iff method segments p =
    (upstream_path-Allowed method segments p, Allowed-mapped method segments p)
