-- ===== src/Tasks.antt =====
-- lib/cubepilot/taskcrd.ts and app/api/cubepilot/tasks: tasks as resources of the cluster, and the
-- routes that list, make and change them.
pub mod Params
pub mod Routes
pub mod Create
mod Choices
mod Resolving
mod Owners
mod Again
mod Made
mod Tests
use cubestack.Prelude.{
  ℕ, Text, codes, text_eq, is_text, trim, get_or, or_else, is_truthy, Bool, not, ◌||◌, List, [],
  ◌∷◌, ◌++◌, Option, none, some, if◌then◌else◌,
}

-- An object of strings: its own entries, in the order in which `Object.entries` lists them
abbrev pub Fields : Type 0
Fields = List (Text × Text)

-- A member of its own, `undefined` where there is none
abbrev pub get : Text → Fields → Option Text
get key [] = none
get key ((k, v) ∷ fields) = let rest = get key fields in if text_eq k key then some v else rest

pub record TaskCr : Type 0 where
  pub name : Option Text
  pub creation_timestamp : Option Text
  pub annotations : Option Fields
  pub template_ref : Option Text
  pub instruction : Option Text
  pub params : Option Fields
  pub owner : Option Text
  pub trigger : Option Text
  pub cron : Option Text
  pub state : Option Text
  pub last_run_time : Option Text
  pub last_status : Option Text
  pub next_run_time : Option Text

pub record TaskRunCr : Type 0 where
  pub name : Option Text
  pub creation_timestamp : Option Text
  pub creator_task : Option Text
  pub task_name : Option Text
  pub trigger : Option Text
  pub phase : Option Text
  pub content : Option Text
  pub started_at : Option Text
  pub finished_at : Option Text

pub record TaskParam : Type 0 where
  pub name : Text
  pub default : Option Text
  pub choices : Option (List Text)

pub record TaskTemplateCr : Type 0 where
  pub name : Option Text
  pub display_name : Option Text
  pub description : Option Text
  pub instruction : Option Text
  pub params_schema : Option (List TaskParam)
  pub default_cron : Option Text
  pub skills : Option (List Text)

pub record Task : Type 0 where
  pub id : Text
  pub name : Text
  pub prompt : Text
  pub schedule : Text
  pub template_ref : Option Text
  pub enabled : Bool
  pub creator : Text
  pub created_at : Text
  pub last_run_at : Option Text
  pub last_status : Option Text
  pub next_run_at : Option Text

pub data ReportStatus : Type 0 where
  success failed running : ReportStatus

pub record Report : Type 0 where
  pub id : Text
  pub task_id : Text
  pub task_name : Text
  pub is_cron : Bool
  pub status : ReportStatus
  pub started_at : Text
  pub finished_at : Text
  pub content : Text

pub record TaskTemplate : Type 0 where
  pub name : Text
  pub display_name : Text
  pub description : Text
  pub instruction : Text
  pub params_schema : List TaskParam
  pub default_cron : Text
  pub skills : List Text

abbrev pub display_name_annotation : Text
display_name_annotation = codes "cubepilot/display-name"

-- `a || b`, where `a` may be undefined
abbrev pub unless_falsy : Option Text → Text → Text
unless_falsy none b = b
unless_falsy (some []) b = b
unless_falsy (some (c ∷ t)) b = c ∷ t

-- `t || undefined`
abbrev pub truthy : Option Text → Option Text
truthy none = none
truthy (some []) = none
truthy (some (c ∷ t)) = some (c ∷ t)

-- `o?.[key]`
abbrev pub get_in : Option Fields → Text → Option Text
get_in none key = none
get_in (some fields) key = get key fields

unfoldable pub tasks_namespace : Option Text → Text
unfolding trim
tasks_namespace configured =
    unless_falsy (some (trim (get_or configured []))) (codes "cubestack-system")

unfoldable pub is_task_owner : TaskCr → Text → Bool
is_task_owner cr user = text_eq (get_or cr.owner []) user

abbrev pub known_status : Option Text → Option Text
known_status status =
    if is_text status (codes "success") || is_text status (codes "failed") then status else none

abbrev pub state_of : TaskCr → Text
state_of cr = get_or cr.state (codes "Enabled")

unfoldable pub task_from_cr : TaskCr → Task
task_from_cr cr = record {
  id = get_or cr.name [];
  name = unless_falsy (get_in cr.annotations display_name_annotation) (unless_falsy cr.name []);
  prompt = get_or cr.instruction [];
  schedule = get_or cr.cron [];
  template_ref = truthy cr.template_ref;
  enabled = not (text_eq (state_of cr) (codes "Paused"));
  creator = get_or cr.owner [];
  created_at = get_or cr.creation_timestamp [];
  last_run_at = cr.last_run_time;
  last_status = known_status cr.last_status;
  next_run_at = cr.next_run_time;
}

abbrev pub report_status : Text → ReportStatus
report_status phase =
    if text_eq phase (codes "Completed")
    then success
    else if text_eq phase (codes "Failed") || text_eq phase (codes "Cancelled")
    then failed
    else running

unfoldable pub report_from_cr : Text → TaskRunCr → Report
report_from_cr fallback_task_name cr = record {
  id = get_or cr.name [];
  task_id = get_or cr.creator_task [];
  task_name = unless_falsy cr.task_name fallback_task_name;
  is_cron = is_text cr.trigger (codes "Cron");
  status = report_status (get_or cr.phase []);
  started_at = get_or (or_else cr.started_at cr.creation_timestamp) [];
  finished_at = get_or cr.finished_at [];
  content = get_or cr.content [];
}

unfoldable pub template_from_cr : TaskTemplateCr → TaskTemplate
template_from_cr cr = record {
  name = get_or cr.name [];
  display_name = unless_falsy cr.display_name (unless_falsy cr.name []);
  description = get_or cr.description [];
  instruction = get_or cr.instruction [];
  params_schema = get_or cr.params_schema [];
  default_cron = get_or cr.default_cron [];
  skills = get_or cr.skills [];
}
