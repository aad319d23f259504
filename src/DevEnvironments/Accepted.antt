-- ===== src/DevEnvironments/Accepted.antt =====
-- What holds of the rows that `POST` in app/api/devenvironments/route.ts takes over.
use cubestack.Prelude.{
  subst, ◌≡◌, refl, arith, Text, codes, text_eq, text_eq_iff, includes, starts_with, distinct, Bool,
  true, false, not, ◌&&◌, List, [], ◌∷◌, Option, none, some, All, map, if◌then◌else◌,
}
use cubestack.DevEnvironments.{
  Param, Checked, accepted, refused, ◌>>=◌, VolumeRow, EnvRow, refuse_if, trimmed,
}
use cubestack.DevEnvironments.Words.{is_env_name}
use cubestack.DevEnvironments.Names.{unique_name-fresh, volume_name_base}
use cubestack.DevEnvironments.Rows.{
  Volume, EnvVar, is_no_mount_path, pushed, volume_of, volumes_of, with_name, with_path, env_var_of,
  env_of, with_variable,
}

pub bind-accepted {ℓ κ} :
    {A : Type ℓ} {B : Type κ} (m : Checked A) (f : A → Checked B) (b : B)
    → m >>= f ≡ accepted b
    → (a : A) × (m ≡ accepted a) × (f a ≡ accepted b)
bind-accepted (accepted a) f b h = (a, refl, h)
bind-accepted (refused e) f b h = absurd (ground arith)

pub accepted-injective {ℓ} : {A : Type ℓ} (a b : A) → accepted a ≡ accepted b → a ≡ b
accepted-injective a b h = cc

-- A check that does not refuse was false, and what follows it is the result.
pub refuse_if-accepted {ℓ} :
    {B : Type ℓ} (test : Bool) (code : Text) (params : List (Text × Param))
    (f : Unit {0} → Checked B) (b : B)
    → refuse_if test code params >>= f ≡ accepted b
    → (test ≡ false) × (f tt ≡ accepted b)
refuse_if-accepted true code params f b h = absurd (ground arith)
refuse_if-accepted false code params f b h = (refl, h)

pub branch-some {ℓ} :
    {A : Type ℓ} (test : Bool) (m : Checked (Option A)) (a : A)
    → (if test then accepted none else m) ≡ accepted (some a)
    → (test ≡ false) × (m ≡ accepted (some a))
branch-some true m a h = absurd (ground arith)
branch-some false m a h = (refl, h)

pub some-injective {ℓ} : {A : Type ℓ} (a b : A) → some a ≡ some b → a ≡ b
some-injective a b h = cc

-- The texts are not among the names, and none of them is there twice.
abbrev pub Fresh : List Text → List Text → Type 0
Fresh names ts = (All (λ t. includes names t ≡ false) ts) × (distinct ts ≡ true)

All-apart :
    (t : Text) (names ts : List Text)
    → All (λ u. includes (t ∷ names) u ≡ false) ts
    → (includes ts t ≡ false) × (All (λ u. includes names u ≡ false) ts)
All-apart t names [] h = (refl, tt)
All-apart t names (u ∷ ts) (h, hs) =
    let rest = All-apart t names ts hs in
    (ground (arith, rest.0, h, text_eq_iff t u, text_eq_iff u t), (ground (arith, h), rest.1))

pub Fresh-push :
    (t : Text) (names ts : List Text)
    → includes names t ≡ false
    → Fresh (t ∷ names) ts
    → Fresh names (t ∷ ts)
Fresh-push t names ts h (apart, d) =
    let both = All-apart t names ts apart in ((h, both.1), ground (arith, both.0, d))

abbrev MountsWell : Volume → Type 0
MountsWell v = is_no_mount_path v.mount_path ≡ false

module _ (to_lower_case : Text → Text) where
  volume_of-some :
      (names paths : List Text) (row : VolumeRow) (v : Volume)
      → volume_of to_lower_case names paths row ≡ accepted (some v)
      → (includes names v.name ≡ false) × (includes paths v.mount_path ≡ false) × MountsWell v
  unfolding volume_of
  volume_of-some names paths row v h =
      ground
        (arith, unique_name-fresh names (volume_name_base to_lower_case (trimmed row.pvc_name)))

  abbrev pub VolumesWell : List Text → List Text → List Volume → Type 0
  VolumesWell names paths vs =
      Fresh names (map (λ (v : Volume). v.name) vs)
      × Fresh paths (map (λ (v : Volume). v.mount_path) vs)
      × All MountsWell vs

  volumes_of-push :
      (names paths : List Text) (row : VolumeRow) (found : Option Volume) (vs : List Volume)
      → volume_of to_lower_case names paths row ≡ accepted found
      → VolumesWell (with_name to_lower_case found names) (with_path to_lower_case found paths) vs
      → VolumesWell names paths (pushed found vs)
  volumes_of-push names paths row none vs e h = h
  volumes_of-push names paths row (some v) vs e (n, p, m) =
      let (fresh_name, fresh_path, well) = volume_of-some names paths row v e in
      (
        Fresh-push v.name names _ fresh_name n,
        Fresh-push v.mount_path paths _ fresh_path p,
        (well, m),
      )

  -- Of the volumes that are taken over, no two have one name or one path, none has a name or a path
  -- that was taken before, and each path is absolute and not the root.
  pub volumes_of-distinct :
      (names paths : List Text) (rows : List VolumeRow) (vs : List Volume)
      → volumes_of to_lower_case names paths rows ≡ accepted vs
      → VolumesWell names paths vs
  unfolding volumes_of
  volumes_of-distinct names paths [] vs h =
      subst (VolumesWell names paths) (accepted-injective [] vs h) ((tt, refl), (tt, refl), tt)
  volumes_of-distinct names paths (row ∷ rows) vs h =
      let (found, e, f) = bind-accepted (volume_of to_lower_case names paths row) _ vs h in
      let (rest, g, k) =
        bind-accepted
          (volumes_of to_lower_case (with_name to_lower_case found names)
            (with_path to_lower_case found paths) rows)
          _ vs f in
      subst (VolumesWell names paths) (accepted-injective (pushed found rest) vs k) (
        volumes_of-push names paths row found rest e (
          volumes_of-distinct (with_name to_lower_case found names)
            (with_path to_lower_case found paths) rows rest g))

env_var_of-some :
    (names : List Text) (row : EnvRow) (v : EnvVar)
    → env_var_of names row ≡ accepted (some v)
    → (includes names v.name ≡ false)
      × (is_env_name v.name ≡ true)
      × (text_eq v.name (codes "HOME") && not (starts_with (codes "/") v.value) ≡ false)
unfolding env_var_of
env_var_of-some names row v h = ground arith

abbrev VariableWell : EnvVar → Type 0
VariableWell v =
    (is_env_name v.name ≡ true)
    × (text_eq v.name (codes "HOME") && not (starts_with (codes "/") v.value) ≡ false)

abbrev pub EnvWell : List Text → List EnvVar → Type 0
EnvWell names vs = Fresh names (map (λ (v : EnvVar). v.name) vs) × All VariableWell vs

env_of-push :
    (names : List Text) (row : EnvRow) (found : Option EnvVar) (vs : List EnvVar)
    → env_var_of names row ≡ accepted found
    → EnvWell (with_variable found names) vs
    → EnvWell names (pushed found vs)
env_of-push names row none vs e h = h
env_of-push names row (some v) vs e (n, m) =
    let (fresh, name, home) = env_var_of-some names row v e in
    (Fresh-push v.name names _ fresh n, ((name, home), m))

-- Of the variables that are taken over, no two have one name, none has a name that was taken
-- before, each name is one that a variable can have, and `HOME` is absolute.
pub env_of-distinct :
    (names : List Text) (rows : List EnvRow) (vs : List EnvVar)
    → env_of names rows ≡ accepted vs
    → EnvWell names vs
unfolding env_of
env_of-distinct names [] vs h = subst (EnvWell names) (accepted-injective [] vs h) ((tt, refl), tt)
env_of-distinct names (row ∷ rows) vs h =
    let (found, e, f) = bind-accepted (env_var_of names row) _ vs h in
    let (rest, g, k) = bind-accepted (env_of (with_variable found names) rows) _ vs f in
    subst (EnvWell names) (accepted-injective (pushed found rest) vs k)
      (env_of-push names row found rest e (env_of-distinct (with_variable found names) rows rest g))
