-- ===== src/DevEnvironments.antt =====
-- app/api/devenvironments/route.ts and lib/devenvironments/images.ts: the requests for development
-- environments and their resources.
pub mod Words
mod Tests
pub mod Patch
mod View
mod Project
mod Ports
mod Passed
mod Sound
mod Roles
mod Unwind
mod Post
mod Create
mod Images
mod Request
mod Accepted
mod Rows
pub mod Names
mod Arguments
use cubestack.Prelude.{
  not, ◌||◌, ℕ, ltb, leb, Text, codes, decimal, trim, get_or, text_eq, Bool, true, false, Option,
  List, [], ◌∷◌, if◌then◌else◌,
}

-- A number of a request: whole and not negative, negative (whole or not), or between two whole
-- numbers, with the lower one and its text.
pub data Number : Type 0 where
  whole : ℕ → Number
  negative : Bool → Number
  fraction : ℕ → Text → Number

abbrev pub is_integer : Number → Bool
is_integer (whole n) = true
is_integer (negative is_whole) = is_whole
is_integer (fraction n text) = false

-- `x < k`
abbrev pub below : Number → ℕ → Bool
below (whole n) k = ltb n k
below (negative is_whole) k = true
below (fraction n text) k = ltb n k

-- `x > k`
abbrev pub above : Number → ℕ → Bool
above (whole n) k = ltb k n
above (negative is_whole) k = false
above (fraction n text) k = leb k n

-- `String(x)`, of a number that is not negative
abbrev pub number_text : Number → Text
number_text (whole n) = decimal n
number_text (negative is_whole) = []
number_text (fraction n text) = text

-- `Number.isInteger(x) && x >= least && x <= greatest`, negated
abbrev pub outside : ℕ → ℕ → Number → Bool
outside least greatest (whole n) = ltb n least || ltb greatest n
outside least greatest (negative is_whole) = true
outside least greatest (fraction n text) = true

-- A value of the parameters of a refusal.
pub data Param : Type 0 where
  text : Text → Param
  number : ℕ → Param

-- The answer with status 400.
pub record Refusal : Type 0 where
  pub code : Text
  pub params : List (Text × Param)

pub data Checked {ℓ} (A : Type ℓ) : Type ℓ where
  accepted : A → Checked A
  refused : Refusal → Checked A

infixl 5 ◌>>=◌
abbrev pub ◌>>=◌ {ℓ κ} : {A : Type ℓ} {B : Type κ} → Checked A → (A → Checked B) → Checked B
accepted a >>= f = f a
refused e >>= f = refused e

-- `if (test) return ValidationError(code, params)`
abbrev pub refuse_if : Bool → Text → List (Text × Param) → Checked {0} (Unit {0})
refuse_if true code params = refused (record { code = code; params = params })
refuse_if false code params = accepted tt

-- `value?.trim() ?? ""`
abbrev pub trimmed : Option Text → Text
trimmed value = trim (get_or value [])

pub record VolumeRow : Type 0 where
  pub pvc_name : Option Text
  pub mount_path : Option Text

pub record EnvRow : Type 0 where
  pub name : Option Text
  pub value : Option Text

pub record PortRow : Type 0 where
  pub name : Option Text
  pub type : Option Text
  pub container_port : Option Number

-- A flag is whether the field is `true`. A list that is missing is empty.
pub record Body : Type 0 where
  pub namespace : Option Text
  pub name : Option Text
  pub type : Option Text
  pub image : Option Text
  pub accelerator : Option Text
  pub gpu_count : Option Number
  pub gpu_model : Option Text
  pub cpu : Option Text
  pub memory : Option Text
  pub storage_gi : Option Number
  pub pvc_retention : Option Text
  pub idle_timeout : Option Number
  pub runtime_user : Option Text
  pub run_as_user : Option Number
  pub run_as_group : Option Number
  pub sudo : Bool
  pub mount_path : Option Text
  pub volumes : List VolumeRow
  pub env : List EnvRow
  pub command : Option Text
  pub args : Option Text
  pub ports : List PortRow
  pub rdma_enabled : Bool
  pub rdma_type : Option Text
  pub egress_unrestricted : Bool
  pub node_name : Option Text
  pub ssh_enabled : Bool
  pub ssh_keys : Option Text
