-- ===== src/Providers/Meanings.antt =====
-- provider-names.ts: what a provider name means to the agent runtime.
pub mod Notices
use Prim.Native.String.{String}
use cubestack.Prelude.{
  ℕ, ◌-◌, Text, codes, text_eq, includes, trim, Bool, true, false, Option, none, some, or_else,
  List, [], ◌∷◌, ◌++◌, map, take, if◌then◌else◌, ◌==◌,
}
use cubestack.Providers.{max_provider_name, keep_before, strip_end}

-- `RESERVED_PLUGIN_PROVIDERS`: a name the runtime installs a plugin for, and the provider it means
abbrev pub reserved_plugin_providers : List (String × String)
reserved_plugin_providers =
    ("amazon-bedrock", "Amazon Bedrock")
    ∷ ("amazon-bedrock-mantle", "Amazon Bedrock Mantle")
    ∷ ("anthropic-vertex", "Anthropic Vertex")
    ∷ ("arcee", "Arcee AI")
    ∷ ("bailian-token-plan", "Alibaba Token Plan")
    ∷ ("baseten", "Baseten")
    ∷ ("byteplus", "BytePlus")
    ∷ ("byteplus-plan", "BytePlus")
    ∷ ("cerebras", "Cerebras")
    ∷ ("chutes", "Chutes")
    ∷ ("cloudflare-ai-gateway", "Cloudflare AI Gateway")
    ∷ ("cohere", "Cohere")
    ∷ ("comfy", "ComfyUI")
    ∷ ("dashscope", "Qwen Cloud")
    ∷ ("deepinfra", "DeepInfra")
    ∷ ("deepseek", "DeepSeek")
    ∷ ("featherless", "Featherless AI")
    ∷ ("fireworks", "Fireworks")
    ∷ ("fireworks-ai", "Fireworks")
    ∷ ("gmi", "GMI Cloud")
    ∷ ("gmi-cloud", "GMI Cloud")
    ∷ ("gmicloud", "GMI Cloud")
    ∷ ("groq", "Groq")
    ∷ ("kilocode", "Kilo Gateway")
    ∷ ("kimi", "Kimi Coding")
    ∷ ("kimi-coding", "Kimi Coding")
    ∷ ("longcat", "LongCat")
    ∷ ("meituan-longcat", "LongCat")
    ∷ ("meta", "Meta")
    ∷ ("mistral", "Mistral")
    ∷ ("modelstudio", "Qwen Cloud")
    ∷ ("moonshot", "Moonshot")
    ∷ ("moonshot-ai", "Moonshot")
    ∷ ("moonshotai", "Moonshot")
    ∷ ("novita", "NovitaAI")
    ∷ ("novita-ai", "NovitaAI")
    ∷ ("novitaai", "NovitaAI")
    ∷ ("opencode", "OpenCode Zen")
    ∷ ("opencode-go", "OpenCode Go")
    ∷ ("pixverse", "PixVerse")
    ∷ ("qianfan", "Qianfan")
    ∷ ("qwen", "Qwen Cloud")
    ∷ ("qwen-token-plan", "Qwen Token Plan")
    ∷ ("qwencloud", "Qwen Cloud")
    ∷ ("stepfun", "StepFun")
    ∷ ("stepfun-plan", "StepFun")
    ∷ ("synthetic", "Synthetic")
    ∷ ("tencent-tokenhub", "Tencent TokenHub")
    ∷ ("tencent-tokenplan", "Tencent TokenPlan")
    ∷ ("venice", "Venice")
    ∷ ("vercel-ai-gateway", "Vercel AI Gateway")
    ∷ ("volcengine", "Volcengine")
    ∷ ("volcengine-plan", "Volcengine Plan")
    ∷ ("voyage", "Voyage")
    ∷ ("vydra", "Vydra")
    ∷ ("xiaomi", "Xiaomi")
    ∷ ("xiaomi-token-plan", "Xiaomi Token Plan")
    ∷ ("z-ai", "Z.AI")
    ∷ ("zai", "Z.AI")
    ∷ []

-- `BUILTIN_PROVIDERS`
abbrev pub builtin_providers : List String
builtin_providers =
    "anthropic" ∷ "clawrouter" ∷ "copilot-proxy" ∷ "fal" ∷ "github-copilot" ∷ "google"
    ∷ "google-gemini-cli" ∷ "google-vertex" ∷ "huggingface" ∷ "litellm" ∷ "lmstudio"
    ∷ "microsoft-foundry" ∷ "minimax" ∷ "minimax-portal" ∷ "nvidia" ∷ "ollama" ∷ "ollama-cloud"
    ∷ "openai" ∷ "opencode-go" ∷ "openrouter" ∷ "sglang" ∷ "together" ∷ "vllm" ∷ "xai" ∷ []

-- The members that an object literal inherits, which `[id]` finds too
abbrev pub inherited_members : List String
inherited_members =
    "constructor" ∷ "__proto__" ∷ "__defineGetter__" ∷ "__defineSetter__" ∷ "__lookupGetter__"
    ∷ "__lookupSetter__" ∷ "hasOwnProperty" ∷ "isPrototypeOf" ∷ "propertyIsEnumerable"
    ∷ "toLocaleString" ∷ "toString" ∷ "valueOf" ∷ []

-- The value under a name: a provider's title, or an inherited member.
pub data Official : Type 0 where
  title : Text → Official
  inherited : Official

abbrev pub own_title : List (String × String) → Text → Option Official
own_title [] id = none
own_title ((name, meaning) ∷ rest) id =
    let found = own_title rest id in
    if text_eq (codes name) id then some (Official.title (codes meaning)) else found

abbrev pub inherited_under : Text → Option Official
inherited_under id =
    if includes (map codes inherited_members) id then some Official.inherited else none

-- `RESERVED_PLUGIN_PROVIDERS[id]`
unfoldable pub reserved_under : Text → Option Official
reserved_under id = or_else (own_title reserved_plugin_providers id) (inherited_under id)

pub data ProviderNameNotice : Type 0 where
  builtin custom : ProviderNameNotice
  reserved_plugin : Official → Text → ProviderNameNotice

-- `id.slice(0, MAX_PROVIDER_NAME - 6).replace(/-+$/, "")` and the suffix
unfoldable pub suggestion_for : Text → Text
unfolding strip_end
suggestion_for id = strip_end (take (max_provider_name - 6) id) ++ codes "-proxy"

abbrev pub notice_under : Text → Option Official → ProviderNameNotice
unfolding suggestion_for
notice_under id none = ProviderNameNotice.custom
notice_under id (some official) = ProviderNameNotice.reserved_plugin official (suggestion_for id)

unfoldable pub notice_of : Text → ProviderNameNotice
unfolding notice_under reserved_under
notice_of id =
    if includes (map codes builtin_providers) id
    then ProviderNameNotice.builtin
    else notice_under id (reserved_under id)

-- `to_lower_case` stands for the language's.
unfoldable pub provider_name_notice : (Text → Text) → Text → ProviderNameNotice
unfolding notice_of
provider_name_notice to_lower_case name = notice_of (to_lower_case (trim name))
