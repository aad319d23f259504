-- ===== src/Gateway/Tests.antt =====
-- Two gateways, their catalogues, and readers of a cache.
use cubestack.Prelude.{
  ℕ, ◌≡◌, refl, arith, Text, codes, text_eq, trim, trim_start, trim_end, is_space, decimal,
  without_end_slashes, true, false, is_some, distinct, List, [], ◌∷◌, Option, none, some,
}
use cubestack.Gateway.{
  Settings, GatewayBase, discover_gateway_bases, gateway_namespace, gateway_name,
  pinned_gateway_names, labels_from, is_platform_gateway_name, in_gateway_order, sort_gateways,
  names_to_discover, base_of, ℕ,
}
use cubestack.Gateway.Memo.{Event, no_memo, run, after, read, settle, release, clear, start}
use cubestack.Gateway.Sharing.{run-shares}
use cubestack.Gateway.History.{answered, still_valid, last_answer, read-last_answer}
use cubestack.Gateway.Catalog.{
  GatewayModel, CatalogAnswer, models_of, is_chat_model, has_non_chat_word, non_chat_at,
  gateway_catalog, has_model, gateway_base_for_model,
}
use cubestack.Gateway.Union.{IsFirst, ids, catalogs_of, gateway_catalog-serves}
use cubestack.Gateway.Address.{gateway_open_ai_base_of, Fetch, fetch_at_base, gateway_token}

abbrev same : Text → Text
same t = t

abbrev settings : Settings
settings = record {
  namespace = none;
  gateway_name = none;
  gateway_names = none;
  gateway_url = none;
  token = some (codes "s");
  in_cluster = true;
}

abbrev public_base : GatewayBase
public_base = record {
  name = some (codes "cubestack-gateway");
  url = codes "http://p.envoy-gateway-system.svc:80";
  is_direct = true;
  configured = false;
  service = some (record { name = codes "p"; namespace = codes "envoy-gateway-system"; port = 80 });
}

abbrev private_base : GatewayBase
private_base = record {
  name = some (codes "cubestack-gateway-private");
  url = codes "http://q.envoy-gateway-system.svc:8080";
  is_direct = true;
  configured = false;
  service =
      some (record { name = codes "q"; namespace = codes "envoy-gateway-system"; port = 8080 });
}

public_first :
    discover_gateway_bases same
      (λ a b. true)
      settings
      none
      (some (
        record {
          gateway = some (codes "cubestack-gateway-private");
          name = some (codes "q");
          port = none;
        }
        ∷ record { gateway = some (codes "other"); name = some (codes "o"); port = some 1 }
        ∷ record {
          gateway = some (codes "cubestack-gateway");
          name = some (codes "p");
          port = some 80;
        }
        ∷ []))
    ≡ public_base ∷ private_base ∷ []
unfolding discover_gateway_bases gateway_namespace gateway_name pinned_gateway_names labels_from
    is_platform_gateway_name in_gateway_order sort_gateways names_to_discover base_of trim
    trim_start trim_end is_space text_eq decimal without_end_slashes
public_first = refl

abbrev model : Text → GatewayModel
model id = record { id = id; owned_by = [] }

chat_models_only :
    models_of (
      CatalogAnswer.items (
        some (
          record { id = some (codes "Qwen-VL"); owned_by = none }
          ∷ record { id = some (codes "gpt-Image2"); owned_by = none }
          ∷ record { id = some (codes "fluxion"); owned_by = none }
          ∷ [])))
    ≡ some (model (codes "Qwen-VL") ∷ model (codes "fluxion") ∷ [])
unfolding models_of is_chat_model has_non_chat_word non_chat_at trim trim_start trim_end is_space
chat_models_only = refl

abbrev catalogues : List (GatewayBase × Option (List GatewayModel))
catalogues =
    (public_base, some (model (codes "a") ∷ []))
    ∷ (private_base, some (model (codes "a") ∷ model (codes "b") ∷ []))
    ∷ []

union : gateway_catalog (catalogs_of catalogues) ≡ some (model (codes "a") ∷ model (codes "b") ∷ [])
unfolding gateway_catalog text_eq
union = refl

gateway_catalog-serves_example :
    (distinct (ids (model (codes "a") ∷ model (codes "b") ∷ [])) ≡ true)
    × (has_model (codes "b") (model (codes "a") ∷ model (codes "b") ∷ [])
        ≡ is_some (gateway_base_for_model (codes "b") catalogues))
    × ((base : GatewayBase)
        → gateway_base_for_model (codes "b") catalogues ≡ some base
        → IsFirst (codes "b") base catalogues)
gateway_catalog-serves_example =
    gateway_catalog-serves catalogues (model (codes "a") ∷ model (codes "b") ∷ []) (codes "b") union

abbrev lasts : Text → ℕ
lasts t = 30_000

-- A reader starts a call, the caches are cleared, and another reader starts one before the first
-- call is over.
abbrev events : List (Event Text)
events =
    Event.reading (codes "u") 0
    ∷ Event.clearing
    ∷ Event.reading (codes "u") 1
    ∷ Event.settling (codes "u") (codes "old") 2
    ∷ Event.releasing 0 (codes "u")
    ∷ []

run-shares_example : ◌≡◌ {A = ℕ} 1 1
unfolding run after read settle release clear start text_eq
run-shares_example = run-shares lasts events 1 1 (codes "u") refl refl (omega arith) (omega arith)

read-last_answer_example :
    answered lasts (read (codes "u") 31_000 (run lasts no_memo events)).0
    ≡ still_valid lasts 31_000 (last_answer lasts (codes "u") none events)
read-last_answer_example = read-last_answer lasts events (codes "u") 31_000

no_plain_token :
    fetch_at_base settings (record public_base { configured = true }) (codes "/v1/models")
    ≡ Fetch.refuses
unfolding fetch_at_base gateway_token trim trim_start trim_end is_space
no_plain_token = refl

no_double_version :
    gateway_open_ai_base_of same
      (record public_base { url = codes " http://g/v1/chat/completions/ " })
    ≡ codes "http://g/v1"
unfolding gateway_open_ai_base_of trim trim_start trim_end is_space text_eq without_end_slashes
no_double_version = refl
