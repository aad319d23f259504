-- ===== src/DevEnvironments/Sound.antt =====
-- The environments that `POST` of app/api/devenvironments/route.ts writes.
use mathlib.Core.List.{Mem, mem-cons_self}
use cubestack.DevEnvironments.Images.{dev_image_for}
use cubestack.DevEnvironments.Roles.{runtime_of-stated}
use cubestack.DevEnvironments.Passed.{PlanWell, plan_of-PlanWell}
use cubestack.Prelude.{
  All, ◌∙◌, is_truthy, Bool, ◌≡◌, refl, subst, arith, Text, any, true, false, List, [], Option,
  none, some, Bool-cases, inl, inr,
}
use cubestack.DevEnvironments.{trimmed, Checked, accepted, refused, Body}
use cubestack.DevEnvironments.Words.{is_dns_label}
use cubestack.DevEnvironments.Accepted.{VolumesWell, EnvWell}
use cubestack.DevEnvironments.Ports.{PortsWell}
use cubestack.DevEnvironments.Request.{Plan, plan_of, name_of, mounted_paths}
use cubestack.DevEnvironments.Create.{DevEnvironment, Runtime, resource_of}
use cubestack.DevEnvironments.Post.{
  Call, create_environment, create_secret, delete_environment, Outcome, Api, Response, ObjectName,
  namespace_of, has_name, is_object, write_secret, write_environment, with_existing,
  with_namespaces, with_plan, post,
}

created-injective : (a b : Text) → Response.created a ≡ Response.created b → a ≡ b
created-injective a b h = cc

module _ (to_lower_case : Text → Text) where
  -- What the reads of the cluster gave before an environment is written.
  abbrev pub ClusterReady : Api → Body → Type 0
  ClusterReady api body =
      (names : List (Option Text)) × (objects : List ObjectName) × (api.namespaces ≡ some names)
      × (has_name (namespace_of body) names ≡ true)
      × (api.existing ≡ some objects)
      × (any (is_object (namespace_of body) (name_of body)) objects ≡ false)

  -- A resource with the name and the namespace of the request, and with the rows of its spec apart
  abbrev pub ResourceWell : Body → DevEnvironment → Type 0
  ResourceWell body r =
      (r.name ≡ name_of body)
      × (r.namespace ≡ namespace_of body)
      × (is_dns_label r.name ≡ true)
      × VolumesWell to_lower_case [] (mounted_paths body) r.spec.volumes
      × ((runtime : Runtime) → r.spec.runtime ≡ some runtime → EnvWell [] runtime.env)
      × PortsWell [] [] r.spec.ports

  -- Of a call that writes an environment: the cluster was ready for it, and its resource is well.
  abbrev pub IsMade : Api → Body → Call × Bool → Type 0
  IsMade api body (create_environment r, done) = ClusterReady api body × ResourceWell body r
  IsMade api body (create_secret s, done) = Unit
  IsMade api body (delete_environment namespace name, done) = Unit

  -- What an outcome announces was written.
  abbrev pub IsWritten : Outcome → Text → Type 0
  IsWritten o n = (r : DevEnvironment) × Mem (create_environment r, true) o.calls × (r.name ≡ n)

  abbrev OutcomeWell : Api → Body → Outcome → Type 0
  OutcomeWell api body o =
      All (IsMade api body) o.calls × ((n : Text) → o.response ≡ Response.created n → IsWritten o n)

  resource_of-ResourceWell :
      (host : Text) (body : Body) (plan : Plan)
      → PlanWell to_lower_case body plan
      → ResourceWell body (resource_of host body plan)
  unfolding resource_of
  resource_of-ResourceWell host body plan (label, volumes, env, ports) = (
    refl,
    refl,
    label,
    volumes,
    λ runtime e.
        subst (λ (r : Runtime). EnvWell [] r.env)
          (runtime_of-stated body plan (dev_image_for host (trimmed body.image)) runtime e) env,
    ports,
  )

  write_environment-OutcomeWell :
      (api : Api) (body : Body) (plan : Plan) (r : DevEnvironment) (answer : Option (Option Text))
      → ClusterReady api body
      → ResourceWell body r
      → OutcomeWell api body (write_environment api body plan r answer)
  unfolding write_environment write_secret
  write_environment-OutcomeWell api body plan r none ready well =
      (((ready, well), tt), λ n h. absurd (ground arith))
  write_environment-OutcomeWell api body plan r (some uid) ready well =
      let named : (n : Text) → Response.created (name_of body) ≡ Response.created n → r.name ≡ n =
        λ n h. well.0 ∙ created-injective (name_of body) n h in
      elim (Bool-cases (is_truthy plan.ssh_user_keys)) [
        | inl e ↦ elim (Bool-cases api.secret_written) [
          | inl w ↦ rw (e, w) (((ready, well), (tt, tt)), λ n h. (r, mem-cons_self, named n h))
          | inr w ↦ rw (e, w) (((ready, well), (tt, (tt, tt))), λ n h. absurd (ground arith))
        ]
        | inr e ↦ rw e (((ready, well), tt), λ n h. (r, mem-cons_self, named n h))
      ]

  with_existing-OutcomeWell :
      (api : Api) (host : Text) (body : Body) (plan : Plan) (found : Option (List ObjectName))
      (names : List (Option Text))
      → PlanWell to_lower_case body plan
      → api.namespaces ≡ some names
      → has_name (namespace_of body) names ≡ true
      → api.existing ≡ found
      → OutcomeWell api body (with_existing api host body plan found)
  unfolding with_existing
  with_existing-OutcomeWell api host body plan none names well f g h =
      (tt, λ n k. absurd (ground arith))
  with_existing-OutcomeWell api host body plan (some objects) names well f g h =
      elim (Bool-cases (any (is_object (namespace_of body) (name_of body)) objects)) [
        | inl e ↦ rw e (tt, λ n k. absurd (ground arith))
        | inr e ↦ rw e (
            write_environment-OutcomeWell api body plan (resource_of host body plan) api.created
              (names, objects, f, g, h, e) (resource_of-ResourceWell host body plan well))
      ]

  with_namespaces-OutcomeWell :
      (api : Api) (host : Text) (body : Body) (plan : Plan) (found : Option (List (Option Text)))
      → PlanWell to_lower_case body plan
      → api.namespaces ≡ found
      → OutcomeWell api body (with_namespaces api host body plan found)
  unfolding with_namespaces
  with_namespaces-OutcomeWell api host body plan none well f = (tt, λ n k. absurd (ground arith))
  with_namespaces-OutcomeWell api host body plan (some names) well f =
      elim (Bool-cases (has_name (namespace_of body) names)) [
        | inl e ↦
            rw e (with_existing-OutcomeWell api host body plan api.existing names well f e refl)
        | inr e ↦ rw e (tt, λ n k. absurd (ground arith))
      ]

  with_plan-OutcomeWell :
      (api : Api) (host : Text) (body : Body) (checked : Checked Plan)
      → ((plan : Plan) → checked ≡ accepted plan → PlanWell to_lower_case body plan)
      → OutcomeWell api body (with_plan api host body checked)
  unfolding with_plan
  with_plan-OutcomeWell api host body (refused refusal) well = (tt, λ n k. absurd (ground arith))
  with_plan-OutcomeWell api host body (accepted plan) well =
      with_namespaces-OutcomeWell api host body plan api.namespaces (well plan refl) refl

  -- Each call that writes an environment, whether it succeeds or not, is made only where the
  -- namespace was found and no environment of the request's name in it. Its resource has the name of
  -- the request, a label, and the request's namespace; its volumes, variables and ports have names
  -- of their own, its paths are absolute, apart and not the workspace's, and a number is not
  -- published twice but for http. And where the answer is that an environment was created, such a
  -- call succeeded for that name.
  pub post-created :
      (api : Api) (host : Text) (body : Body)
      → All (IsMade api body) (post to_lower_case api host body).calls
        × ((n : Text)
            → (post to_lower_case api host body).response ≡ Response.created n
            → IsWritten (post to_lower_case api host body) n)
  unfolding post
  post-created api host body =
      with_plan-OutcomeWell api host body (plan_of to_lower_case body)
        (λ plan e. plan_of-PlanWell to_lower_case body plan e)
