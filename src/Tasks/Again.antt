-- ===== src/Tasks/Again.antt =====
-- A repeated request of app/api/cubepilot/tasks/[id]/toggle/route.ts.
use cubestack.Prelude.{
  ◌≡◌, inl, inr, refl, Text, text_eq, any, Bool, true, false, List, [], ◌∷◌, some, if◌then◌else◌,
  Bool-cases, text_eq_refl, subst,
}
use cubestack.DevEnvironments.Patch.{gives}
use cubestack.Tasks.{TaskCr, is_task_owner, state_of}
use cubestack.Tasks.Routes.{
  Api, Call, read_task, Outcome, outcome, fails, wants, with_existing, toggle, toggle_to, is_state,
}

abbrev set_to : Text → TaskCr → TaskCr
set_to state cr = record cr { state = some state }

-- The task that the calls leave
abbrev pub left_by : List Call → TaskCr → TaskCr
left_by [] cr = cr
left_by (Call.set_state id state ∷ calls) cr = left_by calls (set_to state cr)
left_by (call ∷ calls) cr = left_by calls cr

abbrev pub is_set : Call → Bool
is_set (Call.set_state id state) = true
is_set _ = false

-- The request, for a task that is there
abbrev given : Api → Text → Text → Text → TaskCr → Outcome
given api user id state cr =
    if is_state (wants state)
    then (if is_task_owner cr user
        then toggle_to api id state cr
        else outcome (read_task id ∷ []) (fails 403))
    else outcome [] (fails 400)

toggle-given :
    (api : Api) (user id state : Text) (cr : TaskCr)
    → api.read id ≡ gives cr
    → toggle api user id (wants state) ≡ given api user id state cr
unfolding toggle with_existing
toggle-given api user id state cr r = rw r refl

-- The task shows the same where the state that it is set to is the one that it has.
toggle_to-again :
    (api later : Api) (id state : Text) (cr : TaskCr)
    → api.patch_state id state ≡ gives (set_to state cr)
    → ((toggle_to later id state (left_by (toggle_to api id state cr).calls cr)).response
        ≡ (toggle_to api id state cr).response)
      × (any is_set (toggle_to later id state (left_by (toggle_to api id state cr).calls cr)).calls
          ≡ false)
unfolding toggle_to
toggle_to-again api later id state cr p = elim (Bool-cases (text_eq state (state_of cr))) [
  | inl q ↦ rw (q, q) (refl, refl)
  | inr q ↦ rw (q, p, text_eq_refl state) (refl, refl)
]

toggle_to-owner :
    (api : Api) (id state user : Text) (cr : TaskCr)
    → is_task_owner (left_by (toggle_to api id state cr).calls cr) user ≡ is_task_owner cr user
unfolding toggle_to is_task_owner
toggle_to-owner api id state user cr = elim (Bool-cases (text_eq state (state_of cr))) [
  | inl q ↦ rw q refl
  | inr q ↦ rw q refl
]

given-again :
    (api later : Api) (user id state : Text) (cr : TaskCr)
    → api.patch_state id state ≡ gives (set_to state cr)
    → ((given later user id state (left_by (given api user id state cr).calls cr)).response
        ≡ (given api user id state cr).response)
      × (any is_set
            (given later user id state (left_by (given api user id state cr).calls cr)).calls
          ≡ false)
given-again api later user id state cr p = elim (Bool-cases (is_state (wants state))) [
  | inr e ↦ rw e (refl, refl)
  | inl e ↦ elim (Bool-cases (is_task_owner cr user)) [
    | inr o ↦ rw (e, o) (rw o (refl, refl))
    | inl o ↦
        rw (e, o)
          (rw (toggle_to-owner api id state user cr, o) (toggle_to-again api later id state cr p))
  ]
]

-- A repeated request for a state is answered like the first, and sets nothing. The API is to keep
-- the task as the calls leave it.
pub toggle-again :
    (api later : Api) (user id state : Text) (cr : TaskCr)
    → api.read id ≡ gives cr
    → api.patch_state id state ≡ gives (record cr { state = some state })
    → later.read id ≡ gives (left_by (toggle api user id (wants state)).calls cr)
    → ((toggle later user id (wants state)).response ≡ (toggle api user id (wants state)).response)
      × (any is_set (toggle later user id (wants state)).calls ≡ false)
toggle-again api later user id state cr r p again =
    let first = toggle-given api user id state cr r in
    let kept = subst (λ (o : Outcome). later.read id ≡ gives (left_by o.calls cr)) first again in
    let left = left_by (given api user id state cr).calls cr in
    rw (first, toggle-given later user id state left kept)
      (given-again api later user id state cr p)
