-- ===== src/DevEnvironments/Patch.antt =====
-- `PATCH` and `DELETE` of app/api/devenvironments/route.ts: start, stop and removal.
use cubestack.Prelude.{
  ==_iff, ap, ◌∙◌, ℕ, ◌≡◌, refl, arith, ◌==◌, Text, codes, get_or, is_truthy, is_empty, has_unit,
  Bool, true, false, ◌||◌, ◌&&◌, List, [], ◌∷◌, ◌++◌, Option, none, some, if◌then◌else◌, Bool-cases,
  inl, inr,
}
use cubestack.DevEnvironments.Words.{json_pointer_escape}

-- one operation of a JSON patch
pub record Operation : Type 0 where
  pub op : Text
  pub path : Text
  pub value : Option Bool

-- A call that throws, with the status of the error where it has one.
pub data Reply {ℓ} (A : Type ℓ) : Type ℓ where
  gives : A → Reply A
  throws : Option ℕ → Reply A

-- `ok`, an answer with its status and code, or the name of an object that is missing.
pub data PatchResponse : Type 0 where
  patched bad_request forbidden failure : PatchResponse

pub data DeleteResponse : Type 0 where
  removed incomplete failure : DeleteResponse
  name_missing : Text → DeleteResponse

pub record PatchBody : Type 0 where
  pub namespace : Option Text
  pub name : Option Text
  pub running : Option Bool

abbrev pub auto_stopped_annotation : Text
auto_stopped_annotation = codes "ai.cubestack.io/auto-stopped"

abbrev pub set_running : Bool → Operation
set_running running = record {
  op = codes "add";
  path = codes "/spec/running";
  value = some running;
}

abbrev pub clear_mark : Operation
unfolding json_pointer_escape
clear_mark = record {
  op = codes "remove";
  path = codes "/metadata/annotations/" ++ json_pointer_escape auto_stopped_annotation;
  value = none;
}

-- The operations for a mark that the environment has, or has not.
unfoldable pub operations : Bool → Option Text → List Operation
unfolding clear_mark
operations running mark =
    if running && is_truthy (get_or mark [])
    then set_running running ∷ clear_mark ∷ []
    else set_running running ∷ []

abbrev pub status_is : ℕ → Option ℕ → Bool
status_is code none = false
status_is code (some status) = status == code

abbrev pub patch_failed : Option ℕ → PatchResponse
patch_failed status =
    if status_is 403 status then PatchResponse.forbidden else PatchResponse.failure

abbrev pub patch_done : Reply (Unit {0}) → PatchResponse
patch_done (gives done) = PatchResponse.patched
patch_done (throws status) = patch_failed status

-- `current` is the mark that the read gives, which is made only to start, and `send` is the answer
-- to the patch.
abbrev pub patch_with :
    (List Operation → Reply (Unit {0})) → Bool → Reply (Option Text) → PatchResponse
unfolding operations
patch_with send false current = patch_done (send (operations false none))
patch_with send true (throws status) = patch_failed status
patch_with send true (gives mark) = patch_done (send (operations true mark))

abbrev pub patch_running :
    (List Operation → Reply (Unit {0})) → Reply (Option Text) → Option Bool → PatchResponse
unfolding patch_with
patch_running send current none = PatchResponse.bad_request
patch_running send current (some running) = patch_with send running current

unfoldable pub patch :
    (List Operation → Reply (Unit {0})) → Reply (Option Text) → PatchBody → PatchResponse
unfolding patch_running
patch send current body =
    if is_empty (get_or body.namespace []) || is_empty (get_or body.name [])
    then PatchResponse.bad_request
    else patch_running send current body.running

abbrev pub delete_done : Text → Reply (Unit {0}) → DeleteResponse
delete_done name (gives done) = DeleteResponse.removed
delete_done name (throws status) =
    if status_is 404 status then DeleteResponse.name_missing name else DeleteResponse.failure

-- The reply is that of the API to the removal.
unfoldable pub delete : Reply (Unit {0}) → Option Text → Option Text → DeleteResponse
delete reply namespace name =
    if is_empty (get_or namespace []) || is_empty (get_or name [])
    then DeleteResponse.incomplete
    else delete_done (get_or name []) reply

-- The token of a JSON pointer as the key it stands for (RFC 6901).
abbrev pub unescape : Text → Text
unescape [] = []
unescape (c ∷ []) = c ∷ []
unescape (c ∷ d ∷ t) =
    let short = unescape t in
    let long = unescape (d ∷ t) in
    if (c == b'~') && (d == b'0')
    then b'~' ∷ short
    else if (c == b'~') && (d == b'1')
    then b'/' ∷ short
    else c ∷ long

unescape-cons : (c : ℕ) (t : Text) → (c == b'~') ≡ false → unescape (c ∷ t) ≡ c ∷ unescape t
unescape-cons c [] h = refl
unescape-cons c (d ∷ t) h = ground (arith, h)

-- An escaped key is one token, which has no slash, and stands for the key.
pub json_pointer_escape-back :
    (key : Text)
    → (unescape (json_pointer_escape key) ≡ key) × (has_unit b'/' (json_pointer_escape key) ≡ false)
unfolding json_pointer_escape
json_pointer_escape-back [] = (refl, refl)
json_pointer_escape-back (c ∷ key) =
    let (back, free) = json_pointer_escape-back key in
    elim (Bool-cases (c == b'~')) [
      | inl e ↦ rw (e, back, free) (rw ((==_iff c b'~').0 e) refl, refl)
      | inr e ↦ elim (Bool-cases (c == b'/')) [
        | inl q ↦ rw (e, q, back, free) (rw ((==_iff c b'/').0 q) refl, refl)
        | inr q ↦
            rw (e, q)
              (
                unescape-cons c (json_pointer_escape key) e ∙ ap (λ t. c ∷ t) back,
                ground (arith, q, free),
              )
      ]
    ]
