-- ===== src/Tasks/Made.antt =====
-- What `POST` of app/api/cubepilot/tasks/route.ts makes and shows.
use cubestack.Prelude.{
  text_eq, ◌||◌, ◌≡◌, ◌⊎◌, inl, inr, refl, arith, Text, is_empty, is_truthy, get_or, Bool, true,
  false, [], ◌∷◌, Option, some, Bool-cases, ◌&&◌, not, ℕ, subst, sym,
}
use cubestack.Cron.{is_valid_cron}
use cubestack.DevEnvironments.Patch.{Reply, gives, throws, status_is}
use cubestack.Tasks.{Fields, TaskCr, TaskTemplateCr, Task, truthy, unless_falsy, task_from_cr}
use cubestack.Tasks.Params.{resolve_params, render_instruction}
use cubestack.Tasks.Routes.{Api, created, or_absent}
use cubestack.Tasks.Create.{
  CreateTaskBody, trimmed, resource_of, with_template, rendered, create, create_with,
  instruction_of, is_refused, input_of,
}

-- The instruction comes from the body, or from the template that it names, with its parameters.
abbrev pub ComesFrom : Api → CreateTaskBody → Text → Type 0
ComesFrom api body prompt =
    ((trimmed body.template_ref ≡ []) × (prompt ≡ trimmed body.prompt))
    ⊎ ((template : TaskTemplateCr) × (params : Fields) × (api.template (trimmed body.template_ref)
          ≡ gives template)
        × (resolve_params (get_or template.params_schema []) body.params ≡ inr params)
        × (prompt ≡ render_instruction (get_or template.instruction []) params))

-- A task as its request describes it
pub record IsMadeFrom (api : Api) (user name : Text) (body : CreateTaskBody) (task : Task)
    : Type 0 where
  pub id : task.id ≡ name
  pub shown_name : task.name ≡ trimmed body.name
  pub named : is_truthy task.name ≡ true
  pub schedule : task.schedule ≡ trimmed body.schedule
  pub valid_schedule : (task.schedule ≡ []) ⊎ (is_valid_cron task.schedule ≡ true)
  pub creator : task.creator ≡ user
  pub enabled : task.enabled ≡ true
  pub template_ref : task.template_ref ≡ truthy (some (trimmed body.template_ref))
  pub instruction : ComesFrom api body task.prompt

or-false : (a b : Bool) → (a || b) ≡ false → (a ≡ false) × (b ≡ false)
or-false a b h = ground (arith, h)

schedule-valid :
    (schedule : Text)
    → is_truthy schedule && not (is_valid_cron schedule) ≡ false
    → (schedule ≡ []) ⊎ (is_valid_cron schedule ≡ true)
schedule-valid [] h = inl refl
schedule-valid (c ∷ t) h = inr (ground (arith, h))

truthy_idempotent : (t : Text) → truthy (truthy (truthy (some t))) ≡ truthy (some t)
truthy_idempotent [] = refl
truthy_idempotent (c ∷ t) = refl

get_or-truthy : (t : Text) → get_or (truthy (some t)) [] ≡ t
get_or-truthy [] = refl
get_or-truthy (c ∷ t) = refl

not_empty-is_truthy : (t : Text) → is_empty t ≡ false → is_truthy t ≡ true
not_empty-is_truthy [] h = absurd (ground arith)
not_empty-is_truthy (c ∷ t) h = refl

unless_falsy-truthy : (t u : Text) → is_empty t ≡ false → unless_falsy (some t) u ≡ t
unless_falsy-truthy [] u h = absurd (ground arith)
unless_falsy-truthy (c ∷ t) u h = refl

-- The task that the page is shown, of the resource that the API is sent
abbrev shown : Text → Text → CreateTaskBody → Text × Option Fields → Text → Task
unfolding task_from_cr resource_of input_of
shown user name body found stamp =
    task_from_cr
      (record (resource_of name (input_of user body found)) { creation_timestamp = some stamp })

rendered-inr :
    (template : TaskTemplateCr) (resolved : Text ⊎ Fields) (found : Text × Option Fields)
    → rendered template resolved ≡ inr found
    → (params : Fields) × (resolved ≡ inr params)
      × (found.0 ≡ render_instruction (get_or template.instruction []) params)
unfolding rendered
rendered-inr template (inl name) found h = absurd (ground arith)
rendered-inr template (inr params) found h = (params, refl, cc)

with_template-inr :
    (body : CreateTaskBody) (reply : Reply TaskTemplateCr) (found : Text × Option Fields)
    → with_template body (or_absent reply) ≡ inr found
    → (template : TaskTemplateCr) × (params : Fields) × (reply ≡ gives template)
      × (resolve_params (get_or template.params_schema []) body.params ≡ inr params)
      × (found.0 ≡ render_instruction (get_or template.instruction []) params)
unfolding with_template
with_template-inr body (gives template) found h =
    let (params, e, q) =
      rendered-inr template (resolve_params (get_or template.params_schema []) body.params) found
        h in
    (template, params, refl, e, q)
with_template-inr body (throws status) found h = elim (Bool-cases (status_is 404 status)) [
  | inl e ↦ absurd (let g = rw e at h in ground (arith, g))
  | inr e ↦ absurd (let g = rw e at h in ground (arith, g))
]

instruction_of-ComesFrom :
    (api : Api) (body : CreateTaskBody) (ref : Text) (found : Text × Option Fields)
    → trimmed body.template_ref ≡ ref
    → instruction_of api body (truthy (some ref)) ≡ inr found
    → ComesFrom api body found.0
unfolding instruction_of
instruction_of-ComesFrom api body [] found e h = inl (e, cc)
instruction_of-ComesFrom api body (c ∷ t) found e h =
    let (template, params, given, resolved, q) =
      with_template-inr body (api.template (c ∷ t)) found h in
    inr (template, params, rw e given, resolved, q)

created-injective : (a b : Task) → created a ≡ created b → b ≡ a
created-injective a b h = cc

create_with-created :
    (api : Api) (user name : Text) (body : CreateTaskBody) (stamp : Text) (task : Task)
    (instructed : ℕ ⊎ (Text × Option Fields))
    → ((cr : TaskCr) → api.create cr ≡ gives (record cr { creation_timestamp = some stamp }))
    → create_with api user name body instructed ≡ created task
    → (found : Text × Option Fields) × (instructed ≡ inr found)
      × (task ≡ shown user name body found stamp)
unfolding create_with
create_with-created api user name body stamp task (inl status) stores h = absurd (ground arith)
create_with-created api user name body stamp task (inr found) stores h = (
  found,
  refl,
  created-injective (shown user name body found stamp) task
      (let g = rw (stores (resource_of name (input_of user body found))) at h in g),
)

is_refused-false :
    (body : CreateTaskBody)
    → is_refused body ≡ false
    → (is_empty (trimmed body.name) ≡ false)
      × (is_truthy (trimmed body.schedule) && not (is_valid_cron (trimmed body.schedule)) ≡ false)
unfolding is_refused
is_refused-false body h =
    let (named, later) =
      or-false (is_empty (trimmed body.name))
        ((is_truthy (trimmed body.schedule) && not (is_valid_cron (trimmed body.schedule)))
          || (is_empty (trimmed body.template_ref) && is_empty (trimmed body.prompt)))
        h in
    (
      named,
      (or-false (is_truthy (trimmed body.schedule) && not (is_valid_cron (trimmed body.schedule)))
          (is_empty (trimmed body.template_ref) && is_empty (trimmed body.prompt)) later).0,
    )

shown-IsMadeFrom :
    (api : Api) (user name stamp : Text) (body : CreateTaskBody) (found : Text × Option Fields)
    → is_empty (trimmed body.name) ≡ false
    → is_truthy (trimmed body.schedule) && not (is_valid_cron (trimmed body.schedule)) ≡ false
    → ComesFrom api body found.0
    → IsMadeFrom api user name body (shown user name body found stamp)
unfolding shown text_eq
shown-IsMadeFrom api user name stamp body found named schedule comes =
    let same = unless_falsy-truthy (trimmed body.name) (unless_falsy (some name) []) named in
    let cron = get_or-truthy (trimmed body.schedule) in
    record {
      id = refl;
      shown_name = same;
      named = rw same (not_empty-is_truthy (trimmed body.name) named);
      schedule = cron;
      valid_schedule = rw cron (schedule-valid (trimmed body.schedule) schedule);
      creator = refl;
      enabled = refl;
      template_ref = truthy_idempotent (trimmed body.template_ref);
      instruction = comes;
    }

-- Who is answered that a task was made is shown one of their own, under the name and the schedule
-- that they gave, trimmed. The name is not empty, and the schedule is empty or an expression that
-- isValidCron accepts. The task is enabled, and has the instruction of the request, or the one of the
-- template that the request names, with the resolved parameters in it. The API is to keep what it is
-- sent.
pub create-IsMadeFrom :
    (api : Api) (user name stamp : Text) (body : CreateTaskBody) (task : Task)
    → ((cr : TaskCr) → api.create cr ≡ gives (record cr { creation_timestamp = some stamp }))
    → create api user name body ≡ created task
    → IsMadeFrom api user name body task
unfolding create
create-IsMadeFrom api user name stamp body task stores h = elim (Bool-cases (is_refused body)) [
  | inl e ↦ absurd (let g = rw e at h in ground (arith, g))
  | inr e ↦
      let (found, q, e') =
        create_with-created api user name body stamp task
          (instruction_of api body (truthy (some (trimmed body.template_ref)))) stores
          (rw e at h) in
      let (named, schedule) = is_refused-false body e in
      subst (IsMadeFrom api user name body) (sym e') (
        shown-IsMadeFrom api user name stamp body found named schedule
          (instruction_of-ComesFrom api body (trimmed body.template_ref) found refl q))
]
