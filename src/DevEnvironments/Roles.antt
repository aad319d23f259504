-- ===== src/DevEnvironments/Roles.antt =====
-- The account that an environment of app/api/devenvironments/route.ts runs as.
use cubestack.Prelude.{◌≡◌, arith, Bool, true, false, Option, none, some, if◌then◌else◌}
use cubestack.DevEnvironments.{whole, Body}
use cubestack.DevEnvironments.Accepted.{some-injective}
use cubestack.DevEnvironments.Images.{DevImage}
use cubestack.DevEnvironments.Request.{Plan}
use cubestack.DevEnvironments.Create.{stated_runtime, is_stated, Runtime, runtime_of}

-- A request for the uid 0 gets no account, the uid and the gid 0 and no sudo.
abbrev pub RunsAsRoot : Runtime → Type 0
RunsAsRoot r =
    (r.user ≡ none)
    × (r.security_context
        ≡ some (record { run_as_user = some (whole 0); run_as_group = some (whole 0) }))
    × (r.sudo ≡ false)

if-some {ℓ} :
    {A : Type ℓ} (test : Bool) (a b : A) → (if test then some a else none) ≡ some b → a ≡ b
if-some true a b h = some-injective a b h
if-some false a b h = absurd (ground arith)

pub runtime_of-stated :
    (body : Body) (plan : Plan) (published : Option DevImage) (r : Runtime)
    → runtime_of body plan published ≡ some r
    → stated_runtime body plan published ≡ r
unfolding runtime_of
runtime_of-stated body plan published r h =
    if-some (is_stated (stated_runtime body plan published)) (stated_runtime body plan published) r
      h
