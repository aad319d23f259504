-- ===== src/DevEnvironments/Project.antt =====
-- `project` of app/api/devenvironments/route.ts: an environment as the page shows it.
use cubestack.Prelude.{
  is_text, or_else, ◌≡◌, refl, ap, ◌==◌, Text, codes, text_eq, trim, get_or, is_truthy, is_some,
  filter, map, Bool, false, ◌||◌, List, [], ◌∷◌, ◌++◌, Option, none, some, if◌then◌else◌, is_text,
  or_else,
}
use mathlib.Core.Option
use cubestack.DevEnvironments.{Number, whole}
use cubestack.DevEnvironments.Create.{unless_empty}
use cubestack.DevEnvironments.View.{
  Ref, EnvVarSource, EnvEntry, GpuBlock, StorageBlock, VolumeEntry, PortEntry, Endpoint, Condition,
  SecretRef, DevEnv, GpuSummary, StorageSummary, VolumeSummary, EnvSummary, PortSummary,
  ConditionSummary, DevEnvironmentSummary,
}

-- `num`
abbrev pub num : Option Number → Number
num n = get_or n (whole 0)

abbrev pub ref_text : Text → Ref → Text
ref_text kind r =
    kind ++ (codes " " ++ (get_or r.name (codes "?") ++ (codes "/" ++ get_or r.key (codes "?"))))

abbrev pub source_of_field : Option (Option Text) → Option (Option Text) → Text
source_of_field (some path) resource = codes "fieldRef " ++ get_or path (codes "?")
source_of_field none (some resource) = codes "resourceFieldRef " ++ get_or resource (codes "?")
source_of_field none none = codes "valueFrom"

abbrev pub source_of_key : Option Ref → Option Ref → Text → Text
source_of_key (some r) config other = ref_text (codes "secretKeyRef") r
source_of_key none (some r) other = ref_text (codes "configMapKeyRef") r
source_of_key none none other = other

unfoldable pub env_source : EnvVarSource → Text
env_source v =
    source_of_key v.secret_key_ref v.config_map_key_ref
      (source_of_field v.field_ref v.resource_field_ref)

abbrev pub known_type : Option Text → Text
unfolding text_eq
known_type type =
    let t = get_or type (codes "ssh") in
    if text_eq t (codes "jupyter") || (text_eq t (codes "ssh") || text_eq t (codes "vscode"))
    then t
    else codes "ssh"

abbrev pub is_zero_number : Number → Bool
is_zero_number (whole n) = n == 0
is_zero_number _ = false

-- `num(gpu.count) || 1`
abbrev pub count_or_one : Option Number → Number
count_or_one n = if is_zero_number (num n) then whole 1 else num n

abbrev pub trimmed_or_null : Option Text → Option Text
unfolding trim
trimmed_or_null value = unless_empty (trim (get_or value []))

abbrev pub gpu_summary : GpuBlock → GpuSummary
unfolding trimmed_or_null
gpu_summary g = record {
  is_metax = is_text g.vendor (codes "metax");
  count = count_or_one g.count;
  model = trimmed_or_null g.model;
}

abbrev pub storage_summary : StorageBlock → StorageSummary
unfolding trimmed_or_null
storage_summary s = record {
  size = get_or s.size (codes "10Gi");
  mount_path = trimmed_or_null s.mount_path;
  retain = is_text s.pvc_retention (codes "retain");
}

abbrev pub volume_summary : VolumeEntry → VolumeSummary
volume_summary v = record {
  name = get_or v.name [];
  pvc_name = get_or v.pvc_name [];
  mount_path = get_or v.mount_path [];
  read_only = get_or v.read_only false;
}

abbrev pub env_summary : EnvEntry → EnvSummary
unfolding env_source
env_summary e = record {
  name = get_or e.name [];
  has_value = is_some e.value;
  value_from = Option.map env_source e.value_from;
}

abbrev pub env_summaries : List EnvEntry → List EnvSummary
env_summaries entries = filter (λ (e : EnvSummary). is_truthy e.name) (map env_summary entries)

abbrev pub port_summary : PortEntry → PortSummary
port_summary p = record {
  name = get_or p.name [];
  type =
      if is_text p.type (codes "tcp") || is_text p.type (codes "udp")
      then get_or p.type []
      else codes "http";
  container_port = num p.container_port;
}

abbrev pub condition_summary : Condition → ConditionSummary
condition_summary c = record {
  type = get_or c.type (codes "?");
  status = get_or c.status (codes "Unknown");
  reason = get_or c.reason [];
  message = get_or c.message [];
}

-- The Secret of the token, beside its environment where the reference names no namespace.
abbrev pub token_secret : Option Text → Option SecretRef → Option (Text × Text)
token_secret namespace none = none
token_secret namespace (some r) =
    let name = get_or r.name [] in
    if is_truthy name then some (name, get_or (or_else r.namespace namespace) []) else none

unfoldable pub project : DevEnv → DevEnvironmentSummary
unfolding env_summary gpu_summary storage_summary known_type
project env = record {
  name = get_or env.name (codes "?");
  namespace = get_or env.namespace [];
  created_at = env.creation_timestamp;
  type = known_type env.type;
  image = get_or env.image (codes "—");
  running = get_or env.running false;
  gpu = Option.map gpu_summary env.gpu;
  cpu = get_or env.cpu (codes "—");
  memory = get_or env.memory (codes "—");
  storage = Option.map storage_summary env.storage;
  volumes = map volume_summary env.volumes;
  env = env_summaries env.env;
  command = env.command;
  args = env.args;
  ports = map port_summary env.ports;
  idle_timeout = num env.idle_timeout;
  ssh_enabled = get_or env.ssh_enabled false;
  node_selector = env.node_selector;
  egress_unrestricted = get_or env.egress_unrestricted false;
  phase = env.phase;
  phase_reason = env.phase_reason;
  endpoints = map (λ (e : Endpoint). (get_or e.name [], get_or e.address [])) env.endpoints;
  conditions = map condition_summary env.conditions;
  ssh_client_key_secret = env.ssh_client_key_secret;
  jupyter_token_secret = token_secret env.namespace env.jupyter_token_secret;
}

-- The entries with other values, where they have values.
abbrev pub with_values : (Text → Text) → List EnvEntry → List EnvEntry
with_values f entries = map (λ (e : EnvEntry). record e { value = Option.map f e.value }) entries

is_some-map : (f : Text → Text) (o : Option Text) → is_some (Option.map f o) ≡ is_some o
is_some-map f none = refl
is_some-map f (some t) = refl

env_summary-value :
    (f : Text → Text) (e : EnvEntry)
    → env_summary (record e { value = Option.map f e.value }) ≡ env_summary e
unfolding env_summary
env_summary-value f e = ap (λ b. record (env_summary e) { has_value = b }) (is_some-map f e.value)

with_values-summaries :
    (f : Text → Text) (entries : List EnvEntry)
    → env_summaries (with_values f entries) ≡ env_summaries entries
unfolding env_summary
with_values-summaries f [] = refl
with_values-summaries f (e ∷ entries) = λ i.
    if is_truthy (get_or e.name [])
    then env_summary-value f e i ∷ with_values-summaries f entries i
    else with_values-summaries f entries i

-- What is shown of an environment does not depend on the values of its variables, only on which of
-- them have one.
pub project-hides :
    (f : Text → Text) (env : DevEnv)
    → project (record env { env = with_values f env.env }) ≡ project env
unfolding project
project-hides f env = ap (λ es. record (project env) { env = es }) (with_values-summaries f env.env)
