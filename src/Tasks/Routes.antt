-- ===== src/Tasks/Routes.antt =====
-- The routes of app/api/cubepilot/tasks, with the calls of lib/cubepilot/taskcrd.ts that they make.
use cubestack.Prelude.{
  ◌||◌, ◌++◌, ℕ, Text, codes, text_eq, is_truthy, map, filter, get_or, Bool, true, false, List, [],
  ◌∷◌, Option, none, some, if◌then◌else◌,
}
use cubestack.DevEnvironments.Patch.{Reply, gives, throws, status_is}
use cubestack.DevEnvironments.Words.{json_pointer_escape}
use cubestack.Tasks.{
  Fields, TaskCr, TaskRunCr, TaskTemplateCr, Task, Report, TaskTemplate, state_of, is_task_owner,
  task_from_cr, report_from_cr, template_from_cr,
}

-- What a patch of a manual run adds: one annotation, or the map that holds it
pub data Mark : Type 0 where
  one_annotation : Text → Text → Mark
  whole_map : Fields → Mark

-- The calls of the cluster's API, a task by its name
pub data Call : Type 0 where
  read_task : Text → Call
  delete_task : Text → Call
  set_state : Text → Text → Call
  mark_run : Text → Mark → Call
  list_runs : Text → Call

-- The answers of the API, and the time of the request
pub record Api : Type 0 where
  pub read : Text → Reply TaskCr
  pub list_tasks : Reply (List TaskCr)
  pub template : Text → Reply TaskTemplateCr
  pub templates : Reply (List TaskTemplateCr)
  pub runs : Text → Reply (List TaskRunCr)
  pub create : TaskCr → Reply TaskCr
  pub patch_state : Text → Text → Reply TaskCr
  pub patch_mark : Reply (Unit {0})
  pub remove : Reply (Unit {0})
  pub stamp : Text

-- The texts of the errors are left out, but for their status.
pub data Response : Type 0 where
  shows created : Task → Response
  lists : List Task → Response
  reports : List Report → Response
  offers : List TaskTemplate → Response
  deleted : Text → Response
  started : Response
  fails : ℕ → Response

pub record Outcome : Type 0 where
  pub response : Response
  pub calls : List Call

abbrev pub cluster_status : Option ℕ → ℕ
cluster_status status = if status_is 404 status then 503 else 502

-- `k8sErrorResponse`
abbrev pub cluster_error : Option ℕ → Response
cluster_error status = fails (cluster_status status)

-- `getCr`: an object that is missing is no error.
abbrev pub or_absent {ℓ} : {A : Type ℓ} → Reply A → Reply (Option A)
or_absent (gives a) = gives (some a)
or_absent (throws status) = if status_is 404 status then gives none else throws status

abbrev pub outcome : List Call → Response → Outcome
outcome calls response = record { response = response; calls = calls }

-- The head that the routes of one task share: `act` goes on with a task of the user.
unfoldable pub with_existing : Text → Text → (TaskCr → Outcome) → Reply (Option TaskCr) → Outcome
unfolding is_task_owner
with_existing user id act (throws status) = outcome (read_task id ∷ []) (cluster_error status)
with_existing user id act (gives none) = outcome (read_task id ∷ []) (fails 404)
with_existing user id act (gives (some cr)) =
    if is_task_owner cr user then act cr else outcome (read_task id ∷ []) (fails 403)

abbrev pub answered {ℓ} : {A : Type ℓ} → (A → Response) → Reply A → Response
answered f (gives a) = f a
answered f (throws status) = cluster_error status

-- `DELETE` of [id]/route.ts
unfoldable pub delete : Api → Text → Text → Outcome
unfolding with_existing
delete api user id =
    with_existing user id
      (λ cr.
        outcome (read_task id ∷ delete_task id ∷ []) (answered (λ done. deleted id) api.remove))
      (or_absent (api.read id))

abbrev pub manual_run_annotation : Text
manual_run_annotation = codes "cubepilot/manual-run"

-- The pointer to the annotation, escaped as in the routes of the development environments
unfoldable pub manual_run_path : Text
unfolding json_pointer_escape
manual_run_path = codes "/metadata/annotations/" ++ json_pointer_escape manual_run_annotation

-- `markManualRun`: a task without annotations gets a map of them.
unfoldable pub mark_of : Text → Option Fields → Mark
unfolding manual_run_path
mark_of stamp none = whole_map ((manual_run_annotation, stamp) ∷ [])
mark_of stamp (some annotations) = one_annotation manual_run_path stamp

-- `POST` of [id]/run/route.ts
unfoldable pub run_task : Api → Text → Text → Outcome
unfolding with_existing mark_of
run_task api user id =
    with_existing user id
      (λ cr.
        outcome
          (read_task id ∷ mark_run (get_or cr.name []) (mark_of api.stamp cr.annotations) ∷ [])
          (answered (λ done. started) api.patch_mark))
      (or_absent (api.read id))

-- The `state` of a body: none, a text, or a value of another type
pub data Desired : Type 0 where
  unset other : Desired
  wants : Text → Desired

unfoldable pub is_state : Desired → Bool
unfolding text_eq
is_state unset = true
is_state other = false
is_state (wants state) = text_eq state (codes "Enabled") || text_eq state (codes "Paused")

abbrev pub next_state : Desired → Text → Text
next_state (wants state) current = state
next_state _ current = if text_eq current (codes "Paused") then codes "Enabled" else codes "Paused"

unfoldable pub toggle_to : Api → Text → Text → TaskCr → Outcome
unfolding task_from_cr
toggle_to api id next cr =
    if text_eq next (state_of cr)
    then outcome (read_task id ∷ []) (shows (task_from_cr cr))
    else outcome (read_task id ∷ set_state id next ∷ [])
        (answered (λ updated. shows (task_from_cr updated)) (api.patch_state id next))

-- `POST` of [id]/toggle/route.ts
unfoldable pub toggle : Api → Text → Text → Desired → Outcome
unfolding with_existing is_state toggle_to
toggle api user id desired =
    if is_state desired
    then with_existing user id (λ cr. toggle_to api id (next_state desired (state_of cr)) cr)
        (or_absent (api.read id))
    else outcome [] (fails 400)

-- `a.localeCompare(b) < 0`, of an order that is a parameter, sorts what is newer first.
module _ {ℓ} {A : Type ℓ} (is_before : Text → Text → Bool) (time_of : A → Text) where
  abbrev pub insert_newest : A → List A → List A
  insert_newest a [] = a ∷ []
  insert_newest a (b ∷ bs) =
      let rest = insert_newest a bs in
      if is_before (time_of a) (time_of b) then b ∷ rest else a ∷ b ∷ bs

  unfoldable pub newest_first : List A → List A
  newest_first [] = []
  newest_first (a ∷ rest) = insert_newest a (newest_first rest)

abbrev pub reports_of : (Text → Text → Bool) → Text → List TaskRunCr → List Report
unfolding newest_first report_from_cr
reports_of is_before task_name runs =
    newest_first is_before (λ (r : Report). r.started_at)
      (filter (λ (r : Report). is_truthy r.id) (map (report_from_cr task_name) runs))

-- `GET` of [id]/reports/route.ts
unfoldable pub list_reports : (Text → Text → Bool) → Api → Text → Text → Outcome
unfolding with_existing reports_of task_from_cr
list_reports is_before api user id =
    with_existing user id
      (λ cr. outcome (read_task id ∷ list_runs id ∷ []) (
        answered (λ runs. reports (reports_of is_before (task_from_cr cr).name runs))
          (api.runs id)))
      (or_absent (api.read id))

-- `GET` of tasks/route.ts
unfoldable pub tasks_of : (Text → Text → Bool) → Text → List TaskCr → List Task
unfolding newest_first task_from_cr is_task_owner
tasks_of is_before user crs =
    newest_first is_before (λ (t : Task). t.created_at)
      (filter (λ (t : Task). is_truthy t.id)
        (map task_from_cr (filter (λ (cr : TaskCr). is_task_owner cr user) crs)))

unfoldable pub list : (Text → Text → Bool) → Api → Text → Response
unfolding tasks_of
list is_before api user = answered (λ crs. lists (tasks_of is_before user crs)) api.list_tasks

-- `GET` of tasktemplates/route.ts
unfoldable pub list_templates : Api → Response
unfolding template_from_cr
list_templates api =
    answered
      (λ crs. offers (filter (λ (t : TaskTemplate). is_truthy t.name) (map template_from_cr crs)))
      api.templates
