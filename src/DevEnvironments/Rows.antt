-- ===== src/DevEnvironments/Rows.antt =====
-- The loops of `POST` in app/api/devenvironments/route.ts over the volumes, the variables and the
-- ports of a request.
use cubestack.Prelude.{
  ℕ, Text, codes, text_eq, trim, starts_with, includes, get_or, is_truthy, is_empty, is_some,
  has_unit, Bool, true, not, ◌&&◌, ◌||◌, List, [], ◌∷◌, Option, none, some, if◌then◌else◌, join,
}
use cubestack.DevEnvironments.{
  Number, whole, outside, text, number, Checked, accepted, ◌>>=◌, refuse_if, trimmed, VolumeRow,
  EnvRow, PortRow,
}
use cubestack.DevEnvironments.Words.{is_env_name}
use cubestack.DevEnvironments.Names.{volume_name_base, unique_name}

pub record Volume : Type 0 where
  pub name : Text
  pub pvc_name : Text
  pub mount_path : Text

pub record EnvVar : Type 0 where
  pub name : Text
  pub value : Text

pub record Port : Type 0 where
  pub name : Text
  pub type : Text
  pub container_port : ℕ

-- `!path.startsWith("/") || path === "/"`
unfoldable pub is_no_mount_path : Text → Bool
unfolding text_eq
is_no_mount_path path = not (starts_with (codes "/") path) || text_eq path (codes "/")

-- What a row adds: nothing where it was never filled.
abbrev pub pushed {ℓ} : {A : Type ℓ} → Option A → List A → List A
pushed none rest = rest
pushed (some a) rest = a ∷ rest

module _ (to_lower_case : Text → Text) where
  abbrev pub new_volume : List Text → Text → Text → Volume
  new_volume names pvc_name mount_path = record {
    name = unique_name names (volume_name_base to_lower_case pvc_name);
    pvc_name = pvc_name;
    mount_path = mount_path;
  }

  -- One round: the names and the paths are those of the rounds before.
  unfoldable pub volume_of : List Text → List Text → VolumeRow → Checked (Option Volume)
  unfolding is_no_mount_path trim
  volume_of names paths row =
      let pvc_name = trimmed row.pvc_name in
      let mount_path = trimmed row.mount_path in
      if is_empty pvc_name && is_empty mount_path then accepted none else do
        _ ← refuse_if (is_empty pvc_name || is_empty mount_path) (codes "volumeIncomplete") []
        _ ←
            refuse_if (is_no_mount_path mount_path) (codes "volumePathInvalid")
              ((codes "path", text mount_path) ∷ [])
        _ ←
            refuse_if (includes paths mount_path) (codes "volumePathDuplicate")
              ((codes "path", text mount_path) ∷ [])
        accepted (some (new_volume names pvc_name mount_path))

  abbrev pub with_name : Option Volume → List Text → List Text
  with_name none names = names
  with_name (some v) names = v.name ∷ names

  abbrev pub with_path : Option Volume → List Text → List Text
  with_path none paths = paths
  with_path (some v) paths = v.mount_path ∷ paths

  unfoldable pub volumes_of : List Text → List Text → List VolumeRow → Checked (List Volume)
  unfolding volume_of
  volumes_of names paths [] = accepted []
  volumes_of names paths (row ∷ rows) = do
    found ← volume_of names paths row
    rest ← volumes_of (with_name found names) (with_path found paths) rows
    accepted (pushed found rest)

abbrev pub new_env_var : Text → Text → Checked (Option EnvVar)
new_env_var name value = do
  _ ←
      refuse_if (text_eq name (codes "HOME") && not (starts_with (codes "/") value))
        (codes "envHomeNotAbsolute") []
  accepted (some (record { name = name; value = value }))

unfoldable pub env_var_of : List Text → EnvRow → Checked (Option EnvVar)
unfolding trim is_env_name text_eq
env_var_of names row =
    let name = trimmed row.name in
    let value = get_or row.value [] in
    if is_empty name && is_empty value then accepted none else do
      _ ← refuse_if (is_empty name) (codes "envNameRequired") []
      _ ←
          refuse_if (not (is_env_name name)) (codes "envNameInvalid")
            ((codes "name", text name) ∷ [])
      _ ←
          refuse_if (includes names name) (codes "envNameDuplicate")
            ((codes "name", text name) ∷ [])
      new_env_var name value

abbrev pub with_variable : Option EnvVar → List Text → List Text
with_variable none names = names
with_variable (some v) names = v.name ∷ names

unfoldable pub env_of : List Text → List EnvRow → Checked (List EnvVar)
unfolding env_var_of
env_of names [] = accepted []
env_of names (row ∷ rows) = do
  found ← env_var_of names row
  rest ← env_of (with_variable found names) rows
  accepted (pushed found rest)

abbrev pub port_types : List Text
port_types = codes "http" ∷ codes "tcp" ∷ codes "udp" ∷ []

abbrev pub outside_ports : Option Number → Bool
outside_ports none = true
outside_ports (some n) = outside 1 65535 n

-- a number that passed the test
abbrev pub port_number : Option Number → ℕ
port_number (some (whole n)) = n
port_number _ = 0

-- `p.type?.trim() || "http"`
abbrev pub port_type : Option Text → Text
port_type type = if is_truthy (trimmed type) then trimmed type else codes "http"

unfoldable pub port_of : List Text → List ℕ → PortRow → Checked (Option Port)
unfolding trim text_eq
port_of names l4_ports row =
    let name = trimmed row.name in
    let type = port_type row.type in
    let port = port_number row.container_port in
    if is_empty name && not (is_some row.container_port) then accepted none else do
      _ ← refuse_if (is_empty name) (codes "portNameRequired") []
      _ ←
          refuse_if (includes names name) (codes "portNameDuplicate")
            ((codes "name", text name) ∷ [])
      _ ←
          refuse_if (not (includes port_types type)) (codes "portTypeInvalid")
            ((codes "types", text (join (codes " / ") port_types)) ∷ [])
      _ ← refuse_if (outside_ports row.container_port) (codes "portNumberInvalid") []
      _ ←
          refuse_if (not (text_eq type (codes "http")) && has_unit port l4_ports)
            (codes "portInUse") ((codes "port", number port) ∷ [])
      accepted (some (record { name = name; type = type; container_port = port }))

abbrev pub with_port_name : Option Port → List Text → List Text
with_port_name none names = names
with_port_name (some p) names = p.name ∷ names

abbrev pub with_l4_port : Option Port → List ℕ → List ℕ
with_l4_port none l4_ports = l4_ports
with_l4_port (some p) l4_ports =
    if text_eq p.type (codes "http") then l4_ports else p.container_port ∷ l4_ports

unfoldable pub ports_of : List Text → List ℕ → List PortRow → Checked (List Port)
unfolding port_of
ports_of names l4_ports [] = accepted []
ports_of names l4_ports (row ∷ rows) = do
  found ← port_of names l4_ports row
  rest ← ports_of (with_port_name found names) (with_l4_port found l4_ports) rows
  accepted (pushed found rest)
