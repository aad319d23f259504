-- ===== src/DevEnvironments/Request.antt =====
-- The checks of a request by `POST` in app/api/devenvironments/route.ts, in their order.
use cubestack.Prelude.{
  ℕ, ◌+◌, ◌-◌, ltb, ◌==◌, Text, codes, text_eq, trim, includes, get_or, is_truthy, is_empty,
  is_some, length, join, all, map, filter, Bool, false, not, ◌&&◌, ◌||◌, List, [], ◌∷◌, ◌++◌,
  Option, none, some, if◌then◌else◌, onto_first,
}
use cubestack.DevEnvironments.{
  Number, whole, outside, below, above, Param, text, number, Checked, accepted, refused, ◌>>=◌,
  refuse_if, trimmed, Body,
}
use cubestack.DevEnvironments.Words.{
  is_dns_label, is_runtime_user, is_gpu_model, is_node_name, is_public_key,
}
use cubestack.DevEnvironments.Arguments.{split_args}
use cubestack.DevEnvironments.Rows.{
  Volume, EnvVar, Port, is_no_mount_path, volumes_of, env_of, ports_of,
}

abbrev pub values : List Text → List (Text × Param)
values options = (codes "values", text (join (codes " / ") options)) ∷ []

abbrev pub types : List Text → List (Text × Param)
types options = (codes "types", text (join (codes " / ") options)) ∷ []

abbrev pub devenv_types : List Text
devenv_types = codes "jupyter" ∷ codes "ssh" ∷ codes "vscode" ∷ []

abbrev pub accelerators : List Text
accelerators = codes "none" ∷ codes "nvidia" ∷ codes "metax" ∷ []

abbrev pub rdma_types : List Text
rdma_types = codes "roce" ∷ codes "infiniband" ∷ []

abbrev pub pvc_retentions : List Text
pvc_retentions = codes "retain" ∷ codes "delete" ∷ []

abbrev pub int_max : ℕ
int_max = 2147483647

abbrev pub name_of : Body → Text
name_of body = get_or body.name []

unfoldable pub check_head : Body → Checked (Unit {0})
unfolding is_dns_label trim text_eq
check_head body = do
  _ ← refuse_if (not (is_dns_label (name_of body))) (codes "nameInvalid") []
  _ ←
      refuse_if (is_empty (get_or body.namespace []) || is_empty (trimmed body.image))
        (codes "namespaceImageRequired") []
  refuse_if (not (includes devenv_types (get_or body.type []))) (codes "typeInvalid")
      (types devenv_types)

abbrev pub accelerator_of : Body → Text
accelerator_of body = get_or body.accelerator (codes "none")

abbrev pub gpu_enabled : Body → Bool
gpu_enabled body = not (text_eq (accelerator_of body) (codes "none"))

abbrev pub gpu_count_of : Body → Number
gpu_count_of body = get_or body.gpu_count (whole 1)

abbrev pub is_bad_gpu_model : Text → Bool
is_bad_gpu_model model = is_truthy model && (ltb 63 (length model) || not (is_gpu_model model))

unfoldable pub check_accelerator : Body → Checked (Unit {0})
unfolding is_gpu_model trim text_eq
check_accelerator body = do
  _ ←
      refuse_if (not (includes accelerators (accelerator_of body))) (codes "acceleratorInvalid")
        (values accelerators)
  _ ← refuse_if (gpu_enabled body && outside 1 16 (gpu_count_of body)) (codes "gpuCountInvalid") []
  refuse_if (gpu_enabled body && is_bad_gpu_model (trimmed body.gpu_model))
      (codes "gpuModelInvalid") ((codes "max", number 63) ∷ [])

abbrev pub is_bad_storage : Option Number → Bool
is_bad_storage none = false
is_bad_storage (some gi) = below gi 20 || above gi 800

abbrev pub idle_timeout_of : Body → Number
idle_timeout_of body = get_or body.idle_timeout (whole 0)

unfoldable pub check_sizes : Body → Checked (Unit {0})
check_sizes body = do
  _ ← refuse_if (is_bad_storage body.storage_gi) (codes "storageInvalid") []
  refuse_if (outside 0 int_max (idle_timeout_of body)) (codes "idleTimeoutInvalid")
      ((codes "max", number int_max) ∷ [])

abbrev pub is_zero : Option Number → Bool
is_zero (some (whole n)) = n == 0
is_zero _ = false

abbrev pub is_bad_id : Option Number → Bool
is_bad_id none = false
is_bad_id (some id) = outside 0 int_max id

abbrev pub id_params : Text → List (Text × Param)
id_params field = (codes "field", text field) ∷ (codes "max", number int_max) ∷ []

unfoldable pub check_identity : Body → Checked (Unit {0})
unfolding is_runtime_user text_eq
check_identity body = do
  let user = get_or body.runtime_user []
  _ ←
      refuse_if (is_truthy user && (ltb 32 (length user) || not (is_runtime_user user)))
        (codes "runtimeUserInvalid") []
  _ ←
      refuse_if (text_eq user (codes "root") && not (is_zero body.run_as_user))
        (codes "rootAccountMismatch") []
  _ ←
      refuse_if (is_bad_id body.run_as_user) (codes "runAsIdInvalid")
        (id_params (codes "runAsUser"))
  refuse_if (is_bad_id body.run_as_group) (codes "runAsIdInvalid") (id_params (codes "runAsGroup"))

abbrev pub workspace_path : Body → Text
workspace_path body = trimmed body.mount_path

abbrev pub retention_of : Body → Text
retention_of body = get_or body.pvc_retention (codes "delete")

unfoldable pub check_workspace : Body → Checked (Unit {0})
unfolding is_no_mount_path trim text_eq
check_workspace body = do
  let path = workspace_path body
  _ ← refuse_if (is_truthy path && is_no_mount_path path) (codes "mountPathInvalid") []
  _ ←
      refuse_if (is_truthy path && not (is_some body.storage_gi)) (codes "mountPathWithoutStorage")
        []
  _ ←
      refuse_if (not (includes pvc_retentions (retention_of body))) (codes "pvcRetentionInvalid")
        (values pvc_retentions)
  refuse_if (is_some body.pvc_retention && not (is_some body.storage_gi))
      (codes "pvcRetentionWithoutStorage") []

-- an argument list, or the refusal where a quote stays open
abbrev pub unless_null : Option (List Text) → Text → Checked (List Text)
unless_null none code = refused (record { code = code; params = [] })
unless_null (some argv) code = accepted argv

unfoldable pub arguments_of : Option Text → Text → Checked (List Text)
unfolding split_args trim
arguments_of line code =
    if is_truthy (trimmed line) then unless_null (split_args (trimmed line)) code else accepted []

abbrev pub is_bad_node_name : Text → Bool
is_bad_node_name name = is_truthy name && (ltb 63 (length name) || not (is_node_name name))

abbrev pub rdma_type_of : Body → Text
rdma_type_of body = get_or body.rdma_type (codes "roce")

unfoldable pub check_network : Body → Checked (Unit {0})
unfolding is_node_name trim text_eq
check_network body = do
  let node_name = trimmed body.node_name
  _ ←
      refuse_if (body.rdma_enabled && not (includes rdma_types (rdma_type_of body)))
        (codes "rdmaTypeInvalid") (types rdma_types)
  refuse_if (is_bad_node_name node_name) (codes "nodeNameInvalid")
      ((codes "name", text node_name) ∷ [])

-- `split("\n")`
unfoldable pub split_newlines : Text → List Text
split_newlines [] = [] ∷ []
split_newlines (c ∷ t) =
    let rest = split_newlines t in if c == 10 then [] ∷ rest else onto_first c rest

unfoldable pub key_lines : Body → List Text
unfolding split_newlines trim
key_lines body = filter is_truthy (map trim (split_newlines (get_or body.ssh_keys [])))

abbrev pub secret_suffix : Text
secret_suffix = codes "-ssh-user-keys"

-- The keys of the request, joined, or "" where it has none.
unfoldable pub check_keys : Body → List Text → Checked Text
unfolding is_public_key
check_keys body [] = accepted []
check_keys body (line ∷ lines) = do
  _ ←
      refuse_if (ltb 50 (length (line ∷ lines))) (codes "sshKeysTooMany")
        ((codes "max", number 50) ∷ [])
  _ ← refuse_if (not (all is_public_key (line ∷ lines))) (codes "sshKeyInvalid") []
  _ ←
      refuse_if (ltb 63 (length (name_of body) + length secret_suffix)) (codes "nameTooLong")
        ((codes "max", number (63 - length secret_suffix)) ∷ [])
  accepted (join (codes "\n") (line ∷ lines) ++ codes "\n")

unfoldable pub ssh_keys_of : Body → Checked Text
unfolding check_keys key_lines
ssh_keys_of body = if body.ssh_enabled then check_keys body (key_lines body) else accepted []

-- What the checks make of a request.
pub record Plan : Type 0 where
  pub volumes : List Volume
  pub env : List EnvVar
  pub command : List Text
  pub args : List Text
  pub ports : List Port
  pub ssh_user_keys : Text

abbrev pub mounted_paths : Body → List Text
mounted_paths body = if is_truthy (workspace_path body) then workspace_path body ∷ [] else []

unfoldable pub plan_of : (Text → Text) → Body → Checked Plan
unfolding check_head check_accelerator check_sizes check_identity check_workspace check_network
    ssh_keys_of arguments_of volumes_of env_of ports_of trim
plan_of to_lower_case body = do
  _ ← check_head body
  _ ← check_accelerator body
  _ ← check_sizes body
  _ ← check_identity body
  _ ← check_workspace body
  volumes ← volumes_of to_lower_case [] (mounted_paths body) body.volumes
  env ← env_of [] body.env
  command ← arguments_of body.command (codes "commandUnbalanced")
  args ← arguments_of body.args (codes "argsUnbalanced")
  ports ← ports_of [] [] body.ports
  _ ← check_network body
  ssh_user_keys ← ssh_keys_of body
  accepted (record {
    volumes = volumes;
    env = env;
    command = command;
    args = args;
    ports = ports;
    ssh_user_keys = ssh_user_keys;
  })
