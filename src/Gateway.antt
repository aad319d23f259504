-- ===== src/Gateway.antt =====
-- gateway.ts: the AI gateways, where they are and what they are called.
mod Memo
mod Sharing
mod Catalog
mod Union
mod Address
mod Tests
mod History
use cubestack.Prelude.{
  ℕ, ◌==◌, Text, codes, text_eq, trim, starts_with, without_end_slashes, decimal, get_or, is_truthy,
  is_text, includes, filter, map, length, take, drop, Bool, true, false, not, ◌&&◌, ◌||◌, List, [],
  ◌∷◌, ◌++◌, Option, none, some, if◌then◌else◌, onto_first,
}

-- The variables of the environment, and whether the portal runs in the cluster.
pub record Settings : Type 0 where
  pub namespace : Option Text
  pub gateway_name : Option Text
  pub gateway_names : Option Text
  pub gateway_url : Option Text
  pub token : Option Text
  pub in_cluster : Bool

pub record ServiceRef : Type 0 where
  pub name : Text
  pub namespace : Text
  pub port : ℕ

pub record GatewayBase : Type 0 where
  pub name : Option Text
  pub url : Text
  pub is_direct : Bool
  pub configured : Bool
  pub service : Option ServiceRef

-- A Service of the API: its label, its name and its first port.
pub record Service : Type 0 where
  pub gateway : Option Text
  pub name : Option Text
  pub port : Option ℕ

abbrev pub or_default : Text → Text → Text
or_default value default = if is_truthy value then value else default

unfoldable pub gateway_namespace : Settings → Text
unfolding trim
gateway_namespace s = or_default (trim (get_or s.namespace [])) (codes "envoy-gateway-system")

unfoldable pub gateway_name : Settings → Text
unfolding trim
gateway_name s = or_default (trim (get_or s.gateway_name [])) (codes "cubestack-gateway")

-- `split(",")`
abbrev pub split_commas : Text → List Text
split_commas [] = [] ∷ []
split_commas (c ∷ t) =
    let rest = split_commas t in if c == b',' then [] ∷ rest else onto_first c rest

unfoldable pub pinned_gateway_names : Settings → Option (List Text)
unfolding trim
pinned_gateway_names s =
    let names = trim (get_or s.gateway_names []) in
    if not (is_truthy names) then none else some (filter is_truthy (map trim (split_commas names)))

-- The first Service with the label: the later ones are not set.
abbrev pub service_of : Text → List Service → Option Service
service_of name [] = none
service_of name (s ∷ services) =
    let rest = service_of name services in if is_text s.gateway name then some s else rest

-- The labels, each at its first Service.
abbrev pub add_label : Option Text → List Text → List Text
add_label none seen = seen
add_label (some name) seen = if includes seen name then seen else seen ++ name ∷ []

unfoldable pub labels_from : List Text → List Service → List Text
unfolding text_eq
labels_from seen [] = seen
labels_from seen (s ∷ services) = labels_from (add_label s.gateway seen) services

-- `to_lower_case` is `toLowerCase`, and `locale_leb a b` is `a.localeCompare(b) <= 0`.
module _ (to_lower_case : Text → Text) (locale_leb : Text → Text → Bool) where
  unfoldable pub is_platform_gateway_name : Settings → Text → Bool
  unfolding gateway_name trim text_eq
  is_platform_gateway_name s name =
      let gateway = to_lower_case (trim name) in
      let base = to_lower_case (gateway_name s) in
      text_eq gateway base || starts_with (base ++ codes "-") gateway

  -- `byGatewayOrder(a, b) <= 0`
  unfoldable pub in_gateway_order : Settings → Text → Text → Bool
  unfolding gateway_name text_eq
  in_gateway_order s a b =
      let base = to_lower_case (gateway_name s) in
      let a_public = text_eq (to_lower_case a) base in
      let b_public = text_eq (to_lower_case b) base in
      if a_public && not b_public
      then true
      else if b_public && not a_public
      then false
      else locale_leb a b

  abbrev pub insert : Settings → Text → List Text → List Text
  unfolding in_gateway_order
  insert s a [] = a ∷ []
  insert s a (b ∷ names) =
      let rest = insert s a names in if in_gateway_order s a b then a ∷ b ∷ names else b ∷ rest

  unfoldable pub sort_gateways : Settings → List Text → List Text
  unfolding insert
  sort_gateways s [] = []
  sort_gateways s (a ∷ names) = insert s a (sort_gateways s names)

  unfoldable pub names_to_discover : Settings → List Service → List Text
  unfolding pinned_gateway_names sort_gateways labels_from is_platform_gateway_name
  names_to_discover s services =
      get_or (pinned_gateway_names s)
        (sort_gateways s (filter (is_platform_gateway_name s) (labels_from [] services)))

-- The server is that of the cluster's configuration, read outside the cluster only.
unfoldable pub base_of : Settings → Text → Text → Service → GatewayBase
unfolding gateway_namespace without_end_slashes decimal
base_of s server name svc =
    let service_name = get_or svc.name [] in
    let namespace = gateway_namespace s in
    let port = get_or svc.port 8080 in
    let in_cluster_url =
      codes "http://"
      ++ (service_name ++ (codes "." ++ (namespace ++ (codes ".svc:" ++ decimal port)))) in
    let proxy_url =
      without_end_slashes server
      ++ (codes "/api/v1/namespaces/"
          ++ (namespace
              ++ (codes "/services/"
                  ++ (service_name ++ (codes ":" ++ (decimal port ++ codes "/proxy")))))) in
    record {
      name = some name;
      url = if s.in_cluster then in_cluster_url else proxy_url;
      is_direct = s.in_cluster;
      configured = false;
      service = some (record { name = service_name; namespace = namespace; port = port });
    }

abbrev pub with_base : Settings → Text → Text → Option Service → List GatewayBase → List GatewayBase
unfolding base_of
with_base s server name none bases = bases
with_base s server name (some svc) bases = base_of s server name svc ∷ bases

abbrev pub bases_of : Settings → Text → List Service → List Text → List GatewayBase
unfolding with_base
bases_of s server services [] = []
bases_of s server services (name ∷ names) =
    with_base s server name (service_of name services) (bases_of s server services names)

abbrev pub reachable_bases : Settings → Option Text → List Service → List Text → List GatewayBase
unfolding bases_of
reachable_bases s server services names =
    if not s.in_cluster && not (is_truthy (get_or server []))
    then []
    else bases_of s (get_or server []) services names

-- The Services are `none` where they cannot be listed.
unfoldable pub discover_gateway_bases :
    (Text → Text)
    → (Text → Text → Bool)
    → Settings
    → Option Text
    → Option (List Service)
    → List GatewayBase
unfolding reachable_bases names_to_discover
discover_gateway_bases to_lower_case locale_leb s server none = []
discover_gateway_bases to_lower_case locale_leb s server (some services) =
    reachable_bases s server services (names_to_discover to_lower_case locale_leb s services)

-- The base that is configured, where a URL is.
unfoldable pub configured_bases : Settings → Option (List GatewayBase)
unfolding trim without_end_slashes
configured_bases s =
    let explicit = trim (get_or s.gateway_url []) in
    if is_truthy explicit
    then some (
        record {
          name = none;
          url = without_end_slashes explicit;
          is_direct = true;
          configured = true;
          service = none;
        }
        ∷ [])
    else none
