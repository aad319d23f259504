-- ===== src/Tasks/Tests.antt =====
-- Tasks of two users, and a template with two parameters.
use mathlib.Core.List.{Mem}
use cubestack.Prelude.{
  All, sym, ap, or_else, ◌⊎◌, if◌then◌else◌, any, ◌≡◌, refl, Text, codes, text_eq, ltb, Bool, true,
  false, List, [], ◌∷◌, Option, none, some, inl, inr, decimal, ap,
}
use cubestack.DevEnvironments.Patch.{Reply, gives, throws}
use cubestack.Tasks.{Fields, TaskCr, TaskTemplateCr, TaskParam, Task, task_from_cr, get}
use cubestack.Tasks.Params.{
  extra_onto, comes_before, is_inherited, resolve_params, render_instruction,
}
use cubestack.Tasks.Routes.{
  Api, Call, Response, wants, created, fails, delete, run_task, toggle, list, Mark,
  manual_run_annotation,
}
use cubestack.Tasks.Create.{CreateTaskBody, create, task_cr_name, rendered}
use cubestack.Tasks.Choices.{IsAdmitted}
use cubestack.Tasks.Resolving.{resolve_params-merges, schema_value}
use cubestack.Tasks.Owners.{serve, Request, serve-IsOwn, IsOwn}
use cubestack.Tasks.Again.{toggle-again, left_by, is_set}
use cubestack.Tasks.Made.{create-IsMadeFrom, IsMadeFrom}

abbrev task_of : Text → Text → Text → TaskCr
task_of name owner stamp = record {
  name = some name;
  creation_timestamp = some stamp;
  annotations = none;
  template_ref = none;
  instruction = some (codes "Look around");
  params = none;
  owner = some owner;
  trigger = some (codes "Manual");
  cron = none;
  state = none;
  last_run_time = none;
  last_status = some (codes "success");
  next_run_time = none;
}

abbrev theirs : TaskCr
theirs = task_of (codes "ann-task-1") (codes "ann") (codes "2026-01-01")

abbrev newer : TaskCr
newer = task_of (codes "bob-task-2") (codes "bob") (codes "2026-03-01")

abbrev older : TaskCr
older = task_of (codes "bob-task-1") (codes "bob") (codes "2026-02-01")

abbrev level : TaskParam
level = record {
  name = codes "level";
  default = some (codes "P1");
  choices = some (codes "P0" ∷ codes "P1" ∷ []);
}

abbrev area : TaskParam
area = record { name = codes "area"; default = none; choices = none }

abbrev schema : List TaskParam
schema = level ∷ area ∷ []

abbrev daily : TaskTemplateCr
daily = record {
  name = some (codes "daily");
  display_name = none;
  description = none;
  instruction = some (codes "Report {{level}} of {{area}}.");
  params_schema = some schema;
  default_cron = none;
  skills = none;
}

abbrev with_stamp : Text → TaskCr → TaskCr
with_stamp stamp cr = record cr { creation_timestamp = some stamp }

abbrev api_of : TaskCr → Api
api_of cr = record {
  read = λ id. gives cr;
  list_tasks = gives (older ∷ theirs ∷ newer ∷ []);
  template = λ name. gives daily;
  templates = gives (daily ∷ []);
  runs = λ id. gives [];
  create = λ cr. gives (with_stamp (codes "2026-04-01") cr);
  patch_state = λ id state. gives (record cr { state = some state });
  patch_mark = gives tt;
  remove = gives tt;
  stamp = codes "2026-04-02";
}

abbrev api : Api
api = api_of newer

-- Any order serves here, since the tests compare no texts but these.
abbrev month_before : Text → Text → Bool
month_before (a ∷ b ∷ c ∷ d ∷ e ∷ f ∷ g ∷ s) (h ∷ i ∷ j ∷ k ∷ l ∷ m ∷ n ∷ t) = ltb g n
month_before _ _ = false

abbrev overrides : Fields
overrides =
    (codes "area", codes "storage")
    ∷ (codes "note", codes "x")
    ∷ (codes "7", codes "seven")
    ∷ (codes "toString", codes "y")
    ∷ []

resolved :
    resolve_params schema (some overrides)
    ≡ inr (
        (codes "7", codes "seven")
        ∷ (codes "level", codes "P1")
        ∷ (codes "area", codes "storage")
        ∷ (codes "note", codes "x")
        ∷ [])
unfolding resolve_params extra_onto comes_before decimal
resolved = refl

refused : resolve_params schema (some ((codes "level", codes "P7") ∷ [])) ≡ inl (codes "level")
unfolding resolve_params extra_onto
refused = refl

rendered_text :
    render_instruction
      (codes "Report {{level}} of {{area}}, {{level}}.")
      ((codes "level", codes "P1") ∷ (codes "area", codes "storage") ∷ [])
    ≡ codes "Report P1 of storage, P1."
unfolding render_instruction text_eq
rendered_text = refl

named :
    task_cr_name (λ t. t) (codes "0a1b2c3d") (codes "-ann..b_c-@x.")
    ≡ codes "ann-b-c-x-task-0a1b2c3d"
unfolding task_cr_name
named = refl

listed :
    list month_before api (codes "bob")
    ≡ Response.lists (task_from_cr newer ∷ task_from_cr older ∷ [])
unfolding list task_from_cr text_eq
listed = refl

marked :
    (run_task api (codes "bob") (codes "bob-task-2")).calls
    ≡ Call.read_task (codes "bob-task-2")
      ∷ Call.mark_run
          (codes "bob-task-2")
          (Mark.whole_map ((manual_run_annotation, codes "2026-04-02") ∷ []))
      ∷ []
unfolding run_task text_eq
marked = refl

not_theirs : (delete api (codes "ann") (codes "bob-task-2")).response ≡ fails 403
unfolding delete text_eq
not_theirs = refl

resolve_params-merges_example :
    ((merged : Fields) × (resolve_params schema (some overrides) ≡ inr merged)
      × All (IsAdmitted (some overrides)) schema
      × ((k : Text)
          → get k merged
            ≡ or_else
                (schema_value (some overrides) schema k)
                (if is_inherited k then none else get k overrides)))
    ⊎ ((p : TaskParam) × Mem p schema
        × ¬ IsAdmitted (some overrides) p
        × (resolve_params schema (some overrides) ≡ inl p.name))
resolve_params-merges_example = resolve_params-merges schema (some overrides)

abbrev name_in : Reply TaskCr → Option Text
name_in (gives cr) = cr.name
name_in (throws status) = none

abbrev pause : Request
pause = Request.toggles (wants (codes "Paused"))

serve-IsOwn_example :
    IsOwn api
      (codes "bob")
      (codes "bob-task-2")
      (serve month_before api (codes "bob") (codes "bob-task-2") pause)
serve-IsOwn_example =
    serve-IsOwn month_before api (codes "bob") (codes "bob-task-2") pause
      (λ cr e. sym (ap name_in e))

abbrev later : Api
later = api_of (record newer { state = some (codes "Paused") })

kept :
    later.read (codes "bob-task-2")
    ≡ gives (
        left_by
          (toggle api (codes "bob") (codes "bob-task-2") (wants (codes "Paused"))).calls
          newer)
unfolding toggle text_eq
kept = refl

toggle-again_example :
    ((toggle later (codes "bob") (codes "bob-task-2") (wants (codes "Paused"))).response
      ≡ (toggle api (codes "bob") (codes "bob-task-2") (wants (codes "Paused"))).response)
    × (any is_set (toggle later (codes "bob") (codes "bob-task-2") (wants (codes "Paused"))).calls
        ≡ false)
toggle-again_example =
    toggle-again api later (codes "bob") (codes "bob-task-2") (codes "Paused") newer refl refl kept

abbrev body : CreateTaskBody
body = record {
  name = some (codes " Morning ");
  prompt = none;
  schedule = some (codes "0 9 * * *");
  template_ref = some (codes "daily");
  params = some overrides;
}

abbrev made : Task
made = record {
  id = codes "bob-task-3";
  name = codes "Morning";
  prompt = codes "Report P1 of storage.";
  schedule = codes "0 9 * * *";
  template_ref = some (codes "daily");
  enabled = true;
  creator = codes "bob";
  created_at = codes "2026-04-01";
  last_run_at = none;
  last_status = none;
  next_run_at = none;
}

answered : create api (codes "bob") (codes "bob-task-3") body ≡ created made
unfolding create resolve_params extra_onto rendered render_instruction decimal text_eq
answered = refl

create-IsMadeFrom_example : IsMadeFrom api (codes "bob") (codes "bob-task-3") body made
create-IsMadeFrom_example =
    create-IsMadeFrom api (codes "bob") (codes "bob-task-3") (codes "2026-04-01") body made
      (λ cr. refl) answered
