-- ===== src/DevEnvironments/Unwind.antt =====
-- What `POST` of app/api/devenvironments/route.ts leaves in the cluster.
use cubestack.Prelude.{
  ◌≡◌, refl, Text, text_eq, text_eq_refl, any, is_truthy, Bool, true, false, ◌&&◌, List, [], ◌∷◌,
  Option, none, some, if◌then◌else◌, Bool-cases, inl, inr,
}
use cubestack.DevEnvironments.{Checked, accepted, refused, Body}
use cubestack.DevEnvironments.Request.{Plan, plan_of, name_of}
use cubestack.DevEnvironments.Create.{resource_of}
use cubestack.DevEnvironments.Post.{
  Api, Call, create_environment, create_secret, delete_environment, Response, bad_request, failure,
  ObjectName, namespace_of, has_name, is_object, write_secret, write_environment, with_existing,
  with_namespaces, with_plan, post,
}

abbrev same_name : Text → Text → Text × Text → Bool
same_name namespace name (ns, n) = text_eq ns namespace && text_eq n name

abbrev without : Text → Text → List (Text × Text) → List (Text × Text)
without namespace name [] = []
without namespace name (e ∷ es) =
    let rest = without namespace name es in if same_name namespace name e then rest else e ∷ rest

-- The environments that the calls leave, of those before: a call that did not succeed does nothing.
unfoldable pub left_by : List (Call × Bool) → List (Text × Text) → List (Text × Text)
left_by [] es = es
left_by ((call, false) ∷ calls) es = left_by calls es
left_by ((create_environment r, true) ∷ calls) es = left_by calls ((r.namespace, r.name) ∷ es)
left_by ((create_secret s, true) ∷ calls) es = left_by calls es
left_by ((delete_environment namespace name, true) ∷ calls) es =
    left_by calls (without namespace name es)

-- The environments that a response says to exist.
unfoldable pub announced : Text → Response → List (Text × Text)
announced namespace (Response.created name) = (namespace, name) ∷ []
announced namespace (bad_request refusal) = []
announced namespace failure = []

write_secret-left :
    (api : Api) (host : Text) (body : Body) (plan : Plan) (uid : Option Text)
    → api.deleted ≡ true
    → left_by (write_secret api body plan (resource_of host body plan) uid).calls []
      ≡ announced
          (namespace_of body)
          (write_secret api body plan (resource_of host body plan) uid).response
unfolding write_secret left_by announced resource_of
write_secret-left api host body plan uid d = elim (Bool-cases (is_truthy plan.ssh_user_keys)) [
  | inl e ↦ elim (Bool-cases api.secret_written) [
    | inl w ↦ rw (e, w) refl
    | inr w ↦ rw (e, w, d) (rw (text_eq_refl (namespace_of body), text_eq_refl (name_of body)) refl)
  ]
  | inr e ↦ rw e refl
]

write_environment-left :
    (api : Api) (host : Text) (body : Body) (plan : Plan) (created : Option (Option Text))
    → api.deleted ≡ true
    → left_by (write_environment api body plan (resource_of host body plan) created).calls []
      ≡ announced
          (namespace_of body)
          (write_environment api body plan (resource_of host body plan) created).response
unfolding write_environment left_by announced
write_environment-left api host body plan none d = refl
write_environment-left api host body plan (some uid) d = write_secret-left api host body plan uid d

with_existing-left :
    (api : Api) (host : Text) (body : Body) (plan : Plan) (existing : Option (List ObjectName))
    → api.deleted ≡ true
    → left_by (with_existing api host body plan existing).calls []
      ≡ announced (namespace_of body) (with_existing api host body plan existing).response
unfolding with_existing left_by announced
with_existing-left api host body plan none d = refl
with_existing-left api host body plan (some objects) d =
    elim (Bool-cases (any (is_object (namespace_of body) (name_of body)) objects)) [
      | inl e ↦ rw e refl
      | inr e ↦ rw e (write_environment-left api host body plan api.created d)
    ]

with_namespaces-left :
    (api : Api) (host : Text) (body : Body) (plan : Plan) (names : Option (List (Option Text)))
    → api.deleted ≡ true
    → left_by (with_namespaces api host body plan names).calls []
      ≡ announced (namespace_of body) (with_namespaces api host body plan names).response
unfolding with_namespaces left_by announced
with_namespaces-left api host body plan none d = refl
with_namespaces-left api host body plan (some names) d =
    elim (Bool-cases (has_name (namespace_of body) names)) [
      | inl e ↦ rw e (with_existing-left api host body plan api.existing d)
      | inr e ↦ rw e refl
    ]

with_plan-left :
    (api : Api) (host : Text) (body : Body) (checked : Checked Plan)
    → api.deleted ≡ true
    → left_by (with_plan api host body checked).calls []
      ≡ announced (namespace_of body) (with_plan api host body checked).response
unfolding with_plan left_by announced
with_plan-left api host body (refused refusal) d = refl
with_plan-left api host body (accepted plan) d =
    with_namespaces-left api host body plan api.namespaces d

-- A request leaves the environment that it announces, and none where it answers an error, also
-- where the Secret of the keys cannot be written. The API is to delete what it is asked to.
pub post-left :
    (to_lower_case : Text → Text) (api : Api) (host : Text) (body : Body)
    → api.deleted ≡ true
    → left_by (post to_lower_case api host body).calls []
      ≡ announced (namespace_of body) (post to_lower_case api host body).response
unfolding post
post-left to_lower_case api host body d =
    with_plan-left api host body (plan_of to_lower_case body) d
