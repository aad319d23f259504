-- ===== src/DevEnvironments/Post.antt =====
-- `POST` of app/api/devenvironments/route.ts with its calls of the API, in their order.
use cubestack.Prelude.{
  ◌||◌, is_text, Text, codes, text_eq, get_or, is_truthy, any, Bool, true, false, not, ◌&&◌, List,
  [], ◌∷◌, ◌++◌, Option, none, some, if◌then◌else◌, is_text,
}
use cubestack.DevEnvironments.{text, Refusal, Checked, accepted, refused, Body}
use cubestack.DevEnvironments.Request.{Plan, plan_of, name_of, secret_suffix}
use cubestack.DevEnvironments.Create.{DevEnvironment, resource_of}

-- The Secret of the keys, with the uid of its owner where the API gave one.
pub record KeySecret : Type 0 where
  pub name : Text
  pub namespace : Text
  pub owner : Option Text
  pub keys : Text

-- The names of an object of the API.
pub record ObjectName : Type 0 where
  pub name : Option Text
  pub namespace : Option Text

-- What the API answers to each call: `none` and `false` where the call throws.
pub record Api : Type 0 where
  pub namespaces : Option (List (Option Text))
  pub existing : Option (List ObjectName)
  pub created : Option (Option Text)
  pub secret_written : Bool
  pub deleted : Bool

-- The calls that write.
pub data Call : Type 0 where
  create_environment : DevEnvironment → Call
  create_secret : KeySecret → Call
  delete_environment : Text → Text → Call

pub data Response : Type 0 where
  created : Text → Response
  bad_request : Refusal → Response
  failure : Response

-- A response, with each call that writes and whether it succeeded.
pub record Outcome : Type 0 where
  pub response : Response
  pub calls : List (Call × Bool)

abbrev pub answer : Response → Outcome
answer response = record { response = response; calls = [] }

abbrev pub namespace_of : Body → Text
namespace_of body = get_or body.namespace []

abbrev pub has_name : Text → List (Option Text) → Bool
unfolding text_eq
has_name name [] = false
has_name name (none ∷ names) = has_name name names
has_name name (some n ∷ names) = text_eq n name || has_name name names

abbrev pub is_object : Text → Text → ObjectName → Bool
is_object namespace name o = is_text o.namespace namespace && is_text o.name name

abbrev pub key_secret : Body → Plan → Option Text → KeySecret
key_secret body plan uid = record {
  name = name_of body ++ secret_suffix;
  namespace = namespace_of body;
  owner = uid;
  keys = plan.ssh_user_keys;
}

-- the Secret behind the environment, and the environment's removal where it could not be written
unfoldable pub write_secret : Api → Body → Plan → DevEnvironment → Option Text → Outcome
write_secret api body plan resource uid =
    let written : Call × Bool = (create_environment resource, true) in
    let secret = key_secret body plan uid in
    if not (is_truthy plan.ssh_user_keys)
    then record { response = Response.created (name_of body); calls = written ∷ [] }
    else if api.secret_written
    then record {
      response = Response.created (name_of body);
      calls = written ∷ (create_secret secret, true) ∷ [];
    }
    else record {
      response = failure;
      calls =
          written
          ∷ (create_secret secret, false)
          ∷ (delete_environment (namespace_of body) (name_of body), api.deleted)
          ∷ [];
    }

unfoldable pub write_environment :
    Api → Body → Plan → DevEnvironment → Option (Option Text) → Outcome
unfolding write_secret
write_environment api body plan resource none = record {
  response = failure;
  calls = (create_environment resource, false) ∷ [];
}
write_environment api body plan resource (some uid) = write_secret api body plan resource uid

unfoldable pub with_existing : Api → Text → Body → Plan → Option (List ObjectName) → Outcome
unfolding write_environment resource_of text_eq
with_existing api host body plan none = answer failure
with_existing api host body plan (some objects) =
    if any (is_object (namespace_of body) (name_of body)) objects
    then answer (
        bad_request
          (record { code = codes "nameTaken"; params = (codes "name", text (name_of body)) ∷ [] }))
    else write_environment api body plan (resource_of host body plan) api.created

unfoldable pub with_namespaces : Api → Text → Body → Plan → Option (List (Option Text)) → Outcome
unfolding with_existing has_name
with_namespaces api host body plan none = answer failure
with_namespaces api host body plan (some names) =
    if not (has_name (namespace_of body) names)
    then answer (
        bad_request (record {
          code = codes "namespaceMissing";
          params = (codes "namespace", text (namespace_of body)) ∷ [];
        }))
    else with_existing api host body plan api.existing

unfoldable pub with_plan : Api → Text → Body → Checked Plan → Outcome
unfolding with_namespaces
with_plan api host body (refused refusal) = answer (bad_request refusal)
with_plan api host body (accepted plan) = with_namespaces api host body plan api.namespaces

-- The arguments are the API, the registry of the images and the body.
unfoldable pub post : (Text → Text) → Api → Text → Body → Outcome
unfolding with_plan plan_of
post to_lower_case api host body = with_plan api host body (plan_of to_lower_case body)
