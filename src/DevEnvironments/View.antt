-- ===== src/DevEnvironments/View.antt =====
-- `project` of app/api/devenvironments/route.ts: an environment as the page shows it.
use cubestack.Prelude.{Text, Bool, List, Option}
use cubestack.DevEnvironments.{Number}

pub record Ref : Type 0 where
  pub name : Option Text
  pub key : Option Text

pub record EnvVarSource : Type 0 where
  pub secret_key_ref : Option Ref
  pub config_map_key_ref : Option Ref
  pub field_ref : Option (Option Text)
  pub resource_field_ref : Option (Option Text)

pub record EnvEntry : Type 0 where
  pub name : Option Text
  pub value : Option Text
  pub value_from : Option EnvVarSource

pub record GpuBlock : Type 0 where
  pub vendor : Option Text
  pub count : Option Number
  pub model : Option Text

pub record StorageBlock : Type 0 where
  pub size : Option Text
  pub mount_path : Option Text
  pub pvc_retention : Option Text

pub record VolumeEntry : Type 0 where
  pub name : Option Text
  pub pvc_name : Option Text
  pub mount_path : Option Text
  pub read_only : Option Bool

pub record PortEntry : Type 0 where
  pub name : Option Text
  pub type : Option Text
  pub container_port : Option Number

pub record Endpoint : Type 0 where
  pub name : Option Text
  pub address : Option Text

pub record Condition : Type 0 where
  pub type : Option Text
  pub status : Option Text
  pub reason : Option Text
  pub message : Option Text

pub record SecretRef : Type 0 where
  pub name : Option Text
  pub namespace : Option Text

-- The resource, with the fields of a block that is missing as missing, and a list as empty.
pub record DevEnv : Type 0 where
  pub name : Option Text
  pub namespace : Option Text
  pub creation_timestamp : Option Text
  pub type : Option Text
  pub image : Option Text
  pub running : Option Bool
  pub gpu : Option GpuBlock
  pub cpu : Option Text
  pub memory : Option Text
  pub storage : Option StorageBlock
  pub volumes : List VolumeEntry
  pub ports : List PortEntry
  pub env : List EnvEntry
  pub command : List Text
  pub args : List Text
  pub idle_timeout : Option Number
  pub node_selector : List (Text × Text)
  pub egress_unrestricted : Option Bool
  pub ssh_enabled : Option Bool
  pub phase : Option Text
  pub phase_reason : Option Text
  pub endpoints : List Endpoint
  pub conditions : List Condition
  pub ssh_client_key_secret : Option Text
  pub jupyter_token_secret : Option SecretRef

pub record GpuSummary : Type 0 where
  pub is_metax : Bool
  pub count : Number
  pub model : Option Text

pub record StorageSummary : Type 0 where
  pub size : Text
  pub mount_path : Option Text
  pub retain : Bool

pub record VolumeSummary : Type 0 where
  pub name : Text
  pub pvc_name : Text
  pub mount_path : Text
  pub read_only : Bool

pub record EnvSummary : Type 0 where
  pub name : Text
  pub has_value : Bool
  pub value_from : Option Text

pub record PortSummary : Type 0 where
  pub name : Text
  pub type : Text
  pub container_port : Number

pub record ConditionSummary : Type 0 where
  pub type : Text
  pub status : Text
  pub reason : Text
  pub message : Text

pub record DevEnvironmentSummary : Type 0 where
  pub name : Text
  pub namespace : Text
  pub created_at : Option Text
  pub type : Text
  pub image : Text
  pub running : Bool
  pub gpu : Option GpuSummary
  pub cpu : Text
  pub memory : Text
  pub storage : Option StorageSummary
  pub volumes : List VolumeSummary
  pub env : List EnvSummary
  pub command : List Text
  pub args : List Text
  pub ports : List PortSummary
  pub idle_timeout : Number
  pub ssh_enabled : Bool
  pub node_selector : List (Text × Text)
  pub egress_unrestricted : Bool
  pub phase : Option Text
  pub phase_reason : Option Text
  pub endpoints : List (Text × Text)
  pub conditions : List ConditionSummary
  pub ssh_client_key_secret : Option Text
  pub jupyter_token_secret : Option (Text × Text)
