-- ===== src/DevEnvironments/Create.antt =====
-- The resource that `POST` in app/api/devenvironments/route.ts writes, and its calls of the API.
use cubestack.Prelude.{
  Text, codes, text_eq, trim, get_or, or_else, is_empty, is_some, Bool, true, false, not, ◌&&◌,
  ◌||◌, List, [], ◌∷◌, ◌++◌, Option, none, some, if◌then◌else◌,
}
use cubestack.DevEnvironments.{Number, whole, number_text, trimmed, Body}
use cubestack.DevEnvironments.Images.{DevImage, dev_image_for}
use cubestack.DevEnvironments.Rows.{Volume, EnvVar, Port}
use cubestack.DevEnvironments.Request.{
  Plan, name_of, accelerator_of, gpu_enabled, gpu_count_of, idle_timeout_of, is_zero,
  workspace_path, retention_of, rdma_type_of, secret_suffix,
}

pub record Gpu : Type 0 where
  pub vendor : Text
  pub count : Number
  pub model : Option Text

pub record Storage : Type 0 where
  pub size : Text
  pub mount_path : Option Text
  pub pvc_retention : Option Text

pub record SecurityContext : Type 0 where
  pub run_as_user : Option Number
  pub run_as_group : Option Number

-- A list that is empty, and a flag that is false, stand for a field that is not written.
pub record Runtime : Type 0 where
  pub user : Option Text
  pub security_context : Option SecurityContext
  pub sudo : Bool
  pub env : List EnvVar
  pub command : List Text
  pub args : List Text

-- the fabric, where RDMA is on
pub record Network : Type 0 where
  pub rdma_type : Option Text
  pub unrestricted : Bool

pub record KeyRef : Type 0 where
  pub name : Text
  pub key : Text

pub record Spec : Type 0 where
  pub type : Text
  pub image : Text
  pub running : Bool
  pub gpu : Option Gpu
  pub cpu : Option Text
  pub memory : Option Text
  pub runtime : Option Runtime
  pub storage : Option Storage
  pub volumes : List Volume
  pub ports : List Port
  pub idle_timeout : Number
  pub network : Option Network
  pub node_selector : Option Text
  pub ssh : Option (Option KeyRef)

pub record DevEnvironment : Type 0 where
  pub name : Text
  pub namespace : Text
  pub spec : Spec

-- `text || undefined`
abbrev pub unless_empty : Text → Option Text
unless_empty [] = none
unless_empty (c ∷ t) = some (c ∷ t)

abbrev pub if_on {ℓ} : {A : Type ℓ} → Bool → A → Option A
if_on true a = some a
if_on false a = none

abbrev pub runs_as_root : Body → Bool
runs_as_root body = is_zero body.run_as_user

abbrev pub published_user : Option DevImage → Option Text
published_user none = none
published_user (some image) = some image.user

abbrev pub published_group : Option DevImage → Option Number
published_group none = none
published_group (some image) = elim (image.run_as_group) [ none ↦ none | some id ↦ some (whole id) ]

abbrev pub user_of : Body → Option DevImage → Option Text
user_of body published =
    if runs_as_root body
    then none
    else or_else (unless_empty (get_or body.runtime_user [])) (published_user published)

abbrev pub group_of : Body → Option DevImage → Option Number
group_of body published =
    if runs_as_root body
    then some (whole 0)
    else or_else body.run_as_group (published_group published)

abbrev pub sudo_of : Body → Bool
sudo_of body = not (runs_as_root body) && body.sudo

abbrev pub security_context_of : Option Number → Option Number → Option SecurityContext
security_context_of none none = none
security_context_of (some id) group = some (record { run_as_user = some id; run_as_group = group })
security_context_of none (some id) = some (record { run_as_user = none; run_as_group = some id })

abbrev pub is_stated : Runtime → Bool
is_stated r =
    is_some r.user
    || (is_some r.security_context
        || (r.sudo
            || (not (is_empty r.env) || (not (is_empty r.command) || not (is_empty r.args)))))

abbrev pub stated_runtime : Body → Plan → Option DevImage → Runtime
stated_runtime body plan published = record {
  user = user_of body published;
  security_context = security_context_of body.run_as_user (group_of body published);
  sudo = sudo_of body;
  env = plan.env;
  command = plan.command;
  args = plan.args;
}

unfoldable pub runtime_of : Body → Plan → Option DevImage → Option Runtime
runtime_of body plan published =
    if is_stated (stated_runtime body plan published)
    then some (stated_runtime body plan published)
    else none

abbrev pub gpu_of : Body → Option Gpu
unfolding trim
gpu_of body = if_on (gpu_enabled body) (record {
  vendor = accelerator_of body;
  count = gpu_count_of body;
  model = unless_empty (trimmed body.gpu_model);
})

abbrev pub storage_of : Body → Option Number → Option Storage
unfolding trim
storage_of body none = none
storage_of body (some gi) = some (record {
  size = number_text gi ++ codes "Gi";
  mount_path = unless_empty (workspace_path body);
  pvc_retention =
      if text_eq (retention_of body) (codes "retain") then some (retention_of body) else none;
})

abbrev pub network_of : Body → Option Network
network_of body = if_on (body.rdma_enabled || body.egress_unrestricted) (record {
  rdma_type = if_on body.rdma_enabled (rdma_type_of body);
  unrestricted = body.egress_unrestricted;
})

abbrev pub key_ref : Body → Text → Option KeyRef
key_ref body [] = none
key_ref body (c ∷ keys) =
    some (record { name = name_of body ++ secret_suffix; key = codes "authorized_keys" })

abbrev pub spec_of : Body → Plan → Option DevImage → Spec
unfolding runtime_of gpu_of storage_of trim
spec_of body plan published = record {
  type = get_or body.type [];
  image = trimmed body.image;
  running = true;
  gpu = gpu_of body;
  cpu = unless_empty (get_or body.cpu []);
  memory = unless_empty (get_or body.memory []);
  runtime = runtime_of body plan published;
  storage = storage_of body body.storage_gi;
  volumes = plan.volumes;
  ports = plan.ports;
  idle_timeout = idle_timeout_of body;
  network = network_of body;
  node_selector = unless_empty (trimmed body.node_name);
  ssh = if_on body.ssh_enabled (key_ref body plan.ssh_user_keys);
}

-- The arguments are the registry, the request and what the checks made of it.
unfoldable pub resource_of : Text → Body → Plan → DevEnvironment
unfolding spec_of dev_image_for trim
resource_of host body plan = record {
  name = name_of body;
  namespace = get_or body.namespace [];
  spec = spec_of body plan (dev_image_for host (trimmed body.image));
}
