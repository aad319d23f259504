-- ===== src/Gateway/Address.antt =====
-- gateway.ts: the addresses, the names and the token with which the gateways are used.
use cubestack.Prelude.{
  ◌-◌, ◌≡◌, refl, Text, codes, text_eq, trim, starts_with, without_end_slashes, decimal, get_or,
  is_truthy, is_empty, is_text, length, take, drop, or_else, Bool, true, false, not, ◌&&◌, ◌||◌,
  List, [], ◌∷◌, ◌++◌, Option, none, some, if◌then◌else◌,
}
use cubestack.Providers.{
  dash_runs, strip_start, strip_end, platform_model_name, is_platform_provider_name,
}
use cubestack.Gateway.Catalog.{GatewayModel, gateway_base_for_model}
use cubestack.Gateway.{Settings, GatewayBase, ServiceRef, gateway_name}

abbrev pub first_base : List GatewayBase → Option GatewayBase
first_base [] = none
first_base (base ∷ bases) = some base

abbrev pub find_named : Text → List GatewayBase → Option GatewayBase
find_named name [] = none
find_named name (base ∷ bases) =
    let rest = find_named name bases in if is_text base.name name then some base else rest

abbrev pub service_address : Option ServiceRef → Option Text
service_address none = none
service_address (some r) = some (
    codes "http://"
    ++ (r.name ++ (codes "." ++ (r.namespace ++ (codes ".svc:" ++ decimal r.port)))))

abbrev pub address_of : Option GatewayBase → Option Text
address_of none = none
address_of (some base) = service_address base.service

unfoldable pub private_gateway_cluster_endpoint : Settings → List GatewayBase → Option Text
unfolding gateway_name decimal
private_gateway_cluster_endpoint s bases =
    address_of (find_named (gateway_name s ++ codes "-private") bases)

-- `text.endsWith(end)`
abbrev pub ends_in : Text → Text → Bool
ends_in text end = text_eq (drop (length text - length end) text) end

abbrev pub completions : Text
completions = codes "/chat/completions"

-- `to_lower_case` is `toLowerCase`.
module _ (to_lower_case : Text → Text) where
  abbrev pub without_request : Text → Text
  unfolding without_end_slashes
  without_request url =
      if ends_in (to_lower_case url) completions
      then without_end_slashes (take (length url - length completions) url)
      else url

  abbrev pub with_version : Text → Text
  with_version url = if ends_in (to_lower_case url) (codes "/v1") then url else url ++ codes "/v1"

  unfoldable pub gateway_open_ai_base_of : GatewayBase → Text
  unfolding without_request trim text_eq
  gateway_open_ai_base_of base =
      with_version (without_request (without_end_slashes (trim base.url)))

  -- `.replace(/^cubestack-(?:ai-gateway-)?/, "")`
  abbrev pub without_catalog_prefix : Text → Text
  without_catalog_prefix gateway =
      if starts_with (codes "cubestack-ai-gateway-") gateway
      then drop 21 gateway
      else if starts_with (codes "cubestack-") gateway
      then drop 10 gateway
      else gateway

  abbrev pub stripped_gateway : Text → Text → Text
  stripped_gateway public_name gateway =
      if starts_with (public_name ++ codes "-") gateway
      then drop (length (public_name ++ codes "-")) gateway
      else without_catalog_prefix gateway

  abbrev pub provider_with : Text → Text
  provider_with suffix =
      if is_truthy suffix then platform_model_name ++ (codes "-" ++ suffix) else platform_model_name

  unfoldable pub platform_provider_name_of : Settings → GatewayBase → Text
  unfolding gateway_name trim text_eq dash_runs strip_start strip_end
  platform_provider_name_of s base =
      let gateway = to_lower_case (trim (get_or base.name [])) in
      let public_name = to_lower_case (gateway_name s) in
      if is_empty gateway
        || (text_eq gateway public_name
            || (text_eq gateway (codes "cubestack-ai-gateway")
                || text_eq gateway platform_model_name))
      then platform_model_name
      else provider_with
          (strip_end (strip_start (dash_runs false (stripped_gateway public_name gateway))))

  provider_with-is_platform :
      (suffix : Text) → is_platform_provider_name (provider_with suffix) ≡ true
  unfolding is_platform_provider_name text_eq
  provider_with-is_platform [] = refl
  provider_with-is_platform (c ∷ t) = refl

  platform_model_name-is_platform : is_platform_provider_name platform_model_name ≡ true
  unfolding is_platform_provider_name text_eq
  platform_model_name-is_platform = refl

  either-is_platform :
      (b : Bool) (x y : Text)
      → is_platform_provider_name x ≡ true
      → is_platform_provider_name y ≡ true
      → is_platform_provider_name (if b then x else y) ≡ true
  either-is_platform true x y h k = h
  either-is_platform false x y h k = k

  -- The provider that a gateway's catalogue is written under is one that the platform owns.
  pub platform_provider_name_of-is_platform :
      (s : Settings) (base : GatewayBase)
      → is_platform_provider_name (platform_provider_name_of s base) ≡ true
  unfolding platform_provider_name_of
  platform_provider_name_of-is_platform s base =
      either-is_platform _ platform_model_name _ platform_model_name-is_platform
        (provider_with-is_platform _)

-- the token, "" where there is none
unfoldable pub gateway_token : Settings → Text
unfolding trim
gateway_token s = trim (get_or s.token [])

-- A call that is refused, or made: to which URL, with which token, past the API server or not.
pub record Request : Type 0 where
  pub url : Text
  pub token : Text
  pub is_direct : Bool

pub data Fetch : Type 0 where
  refuses : Fetch
  sends : Request → Fetch

abbrev pub is_https : Text → Bool
is_https url = starts_with (codes "https://") url

-- `warnIfTokenOverPlainHttp`: the flag says that the process has warned.
unfoldable pub warned_after : Settings → Text → Bool → Bool
unfolding gateway_token
warned_after s url warned = warned || (is_truthy (gateway_token s) && not (is_https url))

unfoldable pub fetch_at_base : Settings → GatewayBase → Text → Fetch
unfolding gateway_token
fetch_at_base s base path =
    if base.configured && (is_truthy (gateway_token s) && not (is_https base.url))
    then refuses
    else sends
        (record { url = base.url ++ path; token = gateway_token s; is_direct = base.is_direct })

abbrev pub fetch_if : Settings → Text → Option GatewayBase → Option Fetch
unfolding fetch_at_base
fetch_if s path none = none
fetch_if s path (some base) = some (fetch_at_base s base path)

-- `none` where there is no gateway: the code throws.
unfoldable pub gateway_fetch : Settings → List GatewayBase → Text → Option Fetch
unfolding fetch_if
gateway_fetch s bases path = fetch_if s path (first_base bases)

abbrev pub base_or_first :
    Text → List (GatewayBase × Option (List GatewayModel)) → List GatewayBase → Option GatewayBase
unfolding gateway_base_for_model
base_or_first model bases primary =
    or_else (gateway_base_for_model model bases) (first_base primary)

-- The bases that are resolved, first with the catalogues of each.
unfoldable pub gateway_fetch_for_model :
    Settings
    → Text
    → List (GatewayBase × Option (List GatewayModel))
    → List GatewayBase
    → Text
    → Option Fetch
unfolding fetch_if base_or_first
gateway_fetch_for_model s model bases primary path =
    fetch_if s path (base_or_first model bases primary)
