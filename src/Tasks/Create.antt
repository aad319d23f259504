-- ===== src/Tasks/Create.antt =====
-- `POST` of app/api/cubepilot/tasks/route.ts, with `taskCrName` and `createTaskCr`.
use cubestack.Prelude.{
  ℕ, Text, codes, trim, take, is_empty, is_truthy, get_or, ◌==◌, Bool, false, not, ◌&&◌, ◌||◌, [],
  ◌∷◌, ◌++◌, Option, none, some, if◌then◌else◌, ◌⊎◌, inl, inr,
}
use cubestack.Cron.{is_valid_cron}
use cubestack.DevEnvironments.Words.{is_small}
use cubestack.DevEnvironments.Names.{without_dashes, without_end_dashes}
use cubestack.DevEnvironments.Patch.{Reply, gives, throws}
use cubestack.Tasks.{
  Fields, TaskCr, TaskTemplateCr, display_name_annotation, truthy, unless_falsy, task_from_cr,
}
use cubestack.Tasks.Params.{resolve_params, render_instruction}
use cubestack.Tasks.Routes.{Api, Response, created, fails, cluster_status, or_absent, answered}

-- `.replace(/[^a-z0-9-]/g, "-")`
abbrev pub dashed : Text → Text
dashed [] = []
dashed (c ∷ t) = (if is_small c then c else b'-') ∷ dashed t

-- `.replace(/-+/g, "-")`; the flag says that the unit before was a dash.
abbrev pub single_dashes : Bool → Text → Text
single_dashes after_dash [] = []
single_dashes after_dash (c ∷ t) =
    let rest = single_dashes (c == b'-') t in if after_dash && (c == b'-') then rest else c ∷ rest

-- `to_lower_case` is `toLowerCase`, and `hex` the random bytes.
unfoldable pub task_cr_name : (Text → Text) → Text → Text → Text
task_cr_name to_lower_case hex owner =
    unless_falsy
      (some (
        take 50 (
          without_end_dashes
            (without_dashes (single_dashes false (dashed (to_lower_case owner)))))))
      (codes "user")
    ++ (codes "-task-" ++ hex)

pub record CreateTaskCrInput : Type 0 where
  pub name : Text
  pub instruction : Text
  pub cron : Text
  pub template_ref : Option Text
  pub params : Option Fields
  pub owner : Text

-- `o && Object.keys(o).length > 0 ? o : undefined`
abbrev pub unless_no_fields : Option Fields → Option Fields
unless_no_fields none = none
unless_no_fields (some []) = none
unless_no_fields (some (f ∷ fields)) = some (f ∷ fields)

-- The resource of `createTaskCr`, which the API is sent
unfoldable pub resource_of : Text → CreateTaskCrInput → TaskCr
resource_of name input = record {
  name = some name;
  creation_timestamp = none;
  annotations = some ((display_name_annotation, input.name) ∷ []);
  template_ref = truthy input.template_ref;
  instruction = some input.instruction;
  params = unless_no_fields input.params;
  owner = some input.owner;
  trigger = some (if is_truthy input.cron then codes "Cron" else codes "Manual");
  cron = truthy (some input.cron);
  state = some (codes "Enabled");
  last_run_time = none;
  last_status = none;
  next_run_time = none;
}

pub record CreateTaskBody : Type 0 where
  pub name : Option Text
  pub prompt : Option Text
  pub schedule : Option Text
  pub template_ref : Option Text
  pub params : Option Fields

unfoldable pub trimmed : Option Text → Text
unfolding trim
trimmed value = trim (get_or value [])

unfoldable pub rendered : TaskTemplateCr → Text ⊎ Fields → ℕ ⊎ (Text × Option Fields)
unfolding render_instruction
rendered template (inl name) = inl 400
rendered template (inr params) =
    inr (render_instruction (get_or template.instruction []) params, some params)

unfoldable pub with_template :
    CreateTaskBody → Reply (Option TaskTemplateCr) → ℕ ⊎ (Text × Option Fields)
unfolding resolve_params rendered
with_template body (throws status) = inl (cluster_status status)
with_template body (gives none) = inl 400
with_template body (gives (some template)) =
    rendered template (resolve_params (get_or template.params_schema []) body.params)

-- The instruction and the parameters, or the status of the error: those of the template that is named, or those of the body
unfoldable pub instruction_of : Api → CreateTaskBody → Option Text → ℕ ⊎ (Text × Option Fields)
unfolding with_template trimmed
instruction_of api body none = inr (trimmed body.prompt, unless_no_fields body.params)
instruction_of api body (some template_ref) =
    with_template body (or_absent (api.template template_ref))

unfoldable pub input_of : Text → CreateTaskBody → Text × Option Fields → CreateTaskCrInput
unfolding trimmed
input_of user body (instruction, params) = record {
  name = trimmed body.name;
  instruction = instruction;
  cron = trimmed body.schedule;
  template_ref = truthy (some (trimmed body.template_ref));
  params = params;
  owner = user;
}

unfoldable pub create_with :
    Api → Text → Text → CreateTaskBody → ℕ ⊎ (Text × Option Fields) → Response
unfolding resource_of task_from_cr input_of
create_with api user name body (inl status) = fails status
create_with api user name body (inr found) =
    answered (λ cr. created (task_from_cr cr))
      (api.create (resource_of name (input_of user body found)))

-- The body is refused for its name, its schedule, or the lack of an instruction.
unfoldable pub is_refused : CreateTaskBody → Bool
unfolding trimmed is_valid_cron
is_refused body =
    is_empty (trimmed body.name)
    || ((is_truthy (trimmed body.schedule) && not (is_valid_cron (trimmed body.schedule)))
        || (is_empty (trimmed body.template_ref) && is_empty (trimmed body.prompt)))

-- `POST`; `name` is what `taskCrName` gives for the user.
unfoldable pub create : Api → Text → Text → CreateTaskBody → Response
unfolding is_refused instruction_of create_with
create api user name body =
    if is_refused body
    then fails 400
    else create_with api user name body
        (instruction_of api body (truthy (some (trimmed body.template_ref))))
