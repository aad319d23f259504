-- ===== src/Gateway/Catalog.antt =====
-- The catalogues of the gateways in gateway.ts, and `isChatModel` of llm.ts.
use cubestack.Prelude.{
  ℕ, leb, lower, Text, codes, text_eq, trim, starts_with, length, drop, is_truthy, get_or, any, all,
  filter, map, Bool, true, false, not, ◌&&◌, ◌||◌, List, [], ◌∷◌, ◌++◌, Option, none, some, is_some,
  if◌then◌else◌,
}
use cubestack.Gateway.{GatewayBase}

-- [a-z0-9], in any case
abbrev pub is_word_unit : ℕ → Bool
is_word_unit c = (leb b'a' (lower c) && leb (lower c) b'z') || (leb b'0' c && leb c b'9')

-- the words of `NON_CHAT_MODEL_ID`, but for "image" with its digits
abbrev pub non_chat_words : List Text
non_chat_words =
    codes "img"
    ∷ codes "dall-e"
    ∷ codes "dalle"
    ∷ codes "diffusion"
    ∷ codes "sdxl"
    ∷ codes "flux"
    ∷ codes "midjourney"
    ∷ codes "embed"
    ∷ codes "embeds"
    ∷ codes "embedding"
    ∷ codes "embeddings"
    ∷ codes "rerank"
    ∷ codes "reranker"
    ∷ codes "whisper"
    ∷ codes "tts"
    ∷ codes "audio"
    ∷ codes "speech"
    ∷ codes "video"
    ∷ codes "veo"
    ∷ codes "sora"
    ∷ codes "moderation"
    ∷ []

abbrev pub at_boundary : Text → Bool
at_boundary [] = true
at_boundary (c ∷ t) = not (is_word_unit c)

abbrev pub drop_digits : Text → Text
drop_digits [] = []
drop_digits (c ∷ t) = let rest = drop_digits t in if leb b'0' c && leb c b'9' then rest else c ∷ t

abbrev pub word_at : Text → Text → Bool
word_at t word = starts_with word t && at_boundary (drop (length word) t)

-- One of the words stands here, up to a boundary.
unfoldable pub non_chat_at : Text → Bool
non_chat_at t =
    (starts_with (codes "image") t && at_boundary (drop_digits (drop 5 t)))
    || any (word_at t) non_chat_words

-- `NON_CHAT_MODEL_ID.test`: the flag says that a boundary stands before.
unfoldable pub has_non_chat_word : Bool → Text → Bool
unfolding non_chat_at
has_non_chat_word boundary [] = boundary && non_chat_at []
has_non_chat_word boundary (c ∷ t) =
    (boundary && non_chat_at (c ∷ t)) || has_non_chat_word (not (is_word_unit c)) t

unfoldable pub is_chat_model : Text → Bool
unfolding has_non_chat_word trim
is_chat_model id = not (has_non_chat_word true (map lower (trim id)))

pub record GatewayModel : Type 0 where
  pub id : Text
  pub owned_by : Text

-- An item of the answer, with its fields that are strings.
pub record ModelItem : Type 0 where
  pub id : Option Text
  pub owned_by : Option Text

abbrev pub model_of : ModelItem → GatewayModel
model_of m = record { id = get_or m.id []; owned_by = get_or m.owned_by [] }

-- What the call gives: an error, or the items of a list, where it is one.
pub data CatalogAnswer : Type 0 where
  no_answer : CatalogAnswer
  items : Option (List ModelItem) → CatalogAnswer

unfoldable pub models_of : CatalogAnswer → Option (List GatewayModel)
unfolding is_chat_model
models_of CatalogAnswer.no_answer = none
models_of (CatalogAnswer.items none) = none
models_of (CatalogAnswer.items (some l)) = some (
    filter (λ (m : GatewayModel). is_chat_model m.id)
      (map model_of (filter (λ (m : ModelItem). is_truthy (get_or m.id [])) l)))

abbrev pub has_model : Text → List GatewayModel → Bool
has_model id [] = false
has_model id (m ∷ models) = text_eq m.id id || has_model id models

-- the inner loop: the models that are not seen yet
abbrev pub add_models : List GatewayModel → List GatewayModel → List GatewayModel
add_models merged [] = merged
add_models merged (m ∷ models) =
    add_models (if has_model m.id merged then merged else merged ++ m ∷ []) models

abbrev pub merge_catalogs :
    List GatewayModel → List (Option (List GatewayModel)) → List GatewayModel
merge_catalogs merged [] = merged
merge_catalogs merged (models ∷ catalogs) =
    merge_catalogs (add_models merged (get_or models [])) catalogs

-- The catalogues are those of the bases, in their order.
unfoldable pub gateway_catalog : List (Option (List GatewayModel)) → Option (List GatewayModel)
gateway_catalog [] = none
gateway_catalog (models ∷ catalogs) =
    if all (λ c. not (is_some c)) (models ∷ catalogs)
    then none
    else some (merge_catalogs [] (models ∷ catalogs))

abbrev pub serves : Text → Option (List GatewayModel) → Bool
serves model none = false
serves model (some models) = has_model model models

-- Each base with its catalogue: the first whose catalogue lists the model.
unfoldable pub gateway_base_for_model :
    Text → List (GatewayBase × Option (List GatewayModel)) → Option GatewayBase
gateway_base_for_model model [] = none
gateway_base_for_model model ((base, models) ∷ bases) =
    let rest = gateway_base_for_model model bases in if serves model models then some base else rest

unfoldable pub gateway_catalogs :
    List (GatewayBase × Option (List GatewayModel)) → List (GatewayBase × List GatewayModel)
gateway_catalogs [] = []
gateway_catalogs ((base, models) ∷ bases) = (base, get_or models []) ∷ gateway_catalogs bases
