-- ===== src/Tasks/Owners.antt =====
-- Whose tasks the routes of app/api/cubepilot/tasks change and show.
use cubestack.Prelude.{
  ◌≡◌, ◌⊎◌, inl, inr, refl, Text, text_eq, text_eq_iff, get_or, All, Bool, true, false, [], some,
  Bool-cases,
}
use cubestack.DevEnvironments.Patch.{Reply, gives, throws, status_is}
use cubestack.Tasks.{TaskCr, is_task_owner, state_of}
use cubestack.Tasks.Routes.{
  Api, Call, read_task, Outcome, Response, fails, Desired, with_existing, or_absent, delete,
  run_task, toggle, list_reports, toggle_to, is_state, next_state,
}

-- A request for one task
pub data Request : Type 0 where
  deletes runs shows_reports : Request
  toggles : Desired → Request

unfoldable pub serve : (Text → Text → Bool) → Api → Text → Text → Request → Outcome
unfolding delete run_task toggle list_reports
serve is_before api user id Request.deletes = delete api user id
serve is_before api user id Request.runs = run_task api user id
serve is_before api user id Request.shows_reports = list_reports is_before api user id
serve is_before api user id (Request.toggles desired) = toggle api user id desired

-- The task of a name is there, and is the user's.
abbrev pub Owns : Api → Text → Text → Type 0
Owns api user id = (cr : TaskCr) × (api.read id ≡ gives cr) × (get_or cr.owner [] ≡ user)

abbrev pub target : Call → Text
target (read_task id) = id
target (Call.delete_task id) = id
target (Call.set_state id state) = id
target (Call.mark_run id mark) = id
target (Call.list_runs id) = id

abbrev pub is_read : Call → Bool
is_read (read_task id) = true
is_read _ = false

abbrev pub has_failed : Response → Bool
has_failed (fails status) = true
has_failed _ = false

-- The user's own task is read and then used, or the request fails and uses none.
abbrev pub IsOwn : Api → Text → Text → Outcome → Type 0
IsOwn api user id o =
    (Owns api user id × All (λ call. target call ≡ id) o.calls)
    ⊎ ((has_failed o.response ≡ true) × All (λ call. is_read call ≡ true) o.calls)

owner-eq :
    (cr : TaskCr) (user : Text)
    → is_task_owner cr user ≡ true
    → text_eq (get_or cr.owner []) user ≡ true
unfolding is_task_owner
owner-eq cr user h = h

toggle_to-target :
    (api : Api) (id next : Text) (cr : TaskCr)
    → All (λ call. target call ≡ id) (toggle_to api id next cr).calls
unfolding toggle_to
toggle_to-target api id next cr = elim (Bool-cases (text_eq next (state_of cr))) [
  | inl q ↦ rw q (refl, tt)
  | inr q ↦ rw q (refl, (refl, tt))
]

with_existing-IsOwn :
    (api : Api) (user id : Text) (act : TaskCr → Outcome)
    → ((cr : TaskCr) → api.read id ≡ gives cr → All (λ call. target call ≡ id) (act cr).calls)
    → (reply : Reply TaskCr) → api.read id ≡ reply
    → IsOwn api user id (with_existing user id act (or_absent reply))
unfolding with_existing
with_existing-IsOwn api user id act h (gives cr) e = elim (Bool-cases (is_task_owner cr user)) [
  | inl q ↦
      rw q (inl ((cr, e, (text_eq_iff (get_or cr.owner []) user).0 (owner-eq cr user q)), h cr e))
  | inr q ↦ rw q (inr (refl, (refl, tt)))
]
with_existing-IsOwn api user id act h (throws status) e = elim (Bool-cases (status_is 404 status)) [
  | inl q ↦ rw q (inr (refl, (refl, tt)))
  | inr q ↦ rw q (inr (refl, (refl, tt)))
]

-- A request for a task that is not the user's fails, whatever it asks for, and makes no call but
-- the read of the task; one for the user's own makes calls for that task only. The API is to give
-- the task that it is asked for.
pub serve-IsOwn :
    (is_before : Text → Text → Bool) (api : Api) (user id : Text) (request : Request)
    → ((cr : TaskCr) → api.read id ≡ gives cr → cr.name ≡ some id)
    → IsOwn api user id (serve is_before api user id request)
unfolding serve
serve-IsOwn is_before api user id Request.deletes named =
    with_existing-IsOwn api user id _ (λ cr e. (refl, (refl, tt))) (api.read id) refl
serve-IsOwn is_before api user id Request.runs named =
    with_existing-IsOwn api user id _ (λ cr e. (refl, (rw (named cr e) refl, tt))) (api.read id)
      refl
serve-IsOwn is_before api user id Request.shows_reports named =
    with_existing-IsOwn api user id _ (λ cr e. (refl, (refl, tt))) (api.read id) refl
serve-IsOwn is_before api user id (Request.toggles desired) named =
    elim (Bool-cases (is_state desired)) [
      | inl q ↦ rw q (
          with_existing-IsOwn api user id _
            (λ cr e. toggle_to-target api id (next_state desired (state_of cr)) cr) (api.read id)
            refl)
      | inr q ↦ rw q (inr (refl, tt))
    ]
