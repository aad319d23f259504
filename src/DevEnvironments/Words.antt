-- ===== src/DevEnvironments/Words.antt =====
-- The shapes of texts that app/api/devenvironments/route.ts asks for, and the split of a command.
use cubestack.Prelude.{
  ℕ, suc, leb, ◌==◌, Text, codes, starts_with, is_space, is_truthy, has_unit, Bool, true, false,
  not, ◌&&◌, ◌||◌, all, any, length, drop, List, [], ◌∷◌, if◌then◌else◌,
}

abbrev pub is_lower : ℕ → Bool
is_lower c = leb b'a' c && leb c b'z'

abbrev pub is_digit : ℕ → Bool
is_digit c = leb b'0' c && leb c b'9'

-- [a-z0-9]
abbrev pub is_small : ℕ → Bool
is_small c = is_lower c || is_digit c

-- [A-Za-z0-9]
abbrev pub is_alnum : ℕ → Bool
is_alnum c = is_small c || (leb b'A' c && leb c b'Z')

-- the last unit passes the test, where there is one
abbrev pub ends_with : (ℕ → Bool) → Text → Bool
ends_with p [] = true
ends_with p (c ∷ []) = p c
ends_with p (c ∷ d ∷ t) = ends_with p (d ∷ t)

-- a first unit, units between, and a last unit
abbrev pub shaped : (ℕ → Bool) → (ℕ → Bool) → (ℕ → Bool) → Text → Bool
shaped first inner last [] = false
shaped first inner last (c ∷ t) = first c && (all inner t && ends_with last t)

-- `DNS_LABEL_RE`
unfoldable pub is_dns_label : Text → Bool
is_dns_label t = shaped is_lower (λ c. is_small c || (c == b'-')) is_small t && leb (length t) 63

-- `RUNTIME_USER_RE`
unfoldable pub is_runtime_user : Text → Bool
is_runtime_user t =
    shaped (λ c. is_lower c || (c == b'_')) (λ c. is_small c || ((c == b'_') || (c == b'-')))
      (λ c. true) t

-- `GPU_MODEL_RE`
unfoldable pub is_gpu_model : Text → Bool
is_gpu_model t = shaped is_alnum (λ c. is_alnum c || has_unit c (codes "-_.")) is_alnum t

-- `NODE_NAME_RE`
unfoldable pub is_node_name : Text → Bool
is_node_name t = shaped is_small (λ c. is_small c || has_unit c (codes "-.")) is_small t

-- `ENV_NAME_RE`
unfoldable pub is_env_name : Text → Bool
is_env_name t =
    shaped (λ c. (is_alnum c && not (is_digit c)) || has_unit c (codes "-._"))
      (λ c. is_alnum c || has_unit c (codes "-._")) (λ c. true) t

-- the types of the keys in `OPENSSH_PUB_KEY_RE`
abbrev pub key_types : List Text
key_types =
    codes "ssh-rsa"
    ∷ codes "ssh-dss"
    ∷ codes "ssh-ed25519"
    ∷ codes "ssh-ed25519@openssh.com"
    ∷ codes "ecdsa-sha2-nistp256"
    ∷ codes "ecdsa-sha2-nistp384"
    ∷ codes "ecdsa-sha2-nistp521"
    ∷ codes "sk-ssh-ed25519@openssh.com"
    ∷ codes "sk-ecdsa-sha2-nistp256@openssh.com"
    ∷ codes "sk-ecdsa-sha2-nistp384@openssh.com"
    ∷ codes "sk-ecdsa-sha2-nistp521@openssh.com"
    ∷ []

abbrev pub drop_while : (ℕ → Bool) → Text → Text
drop_while p [] = []
drop_while p (c ∷ t) = let rest = drop_while p t in if p c then rest else c ∷ t

abbrev pub count_while : (ℕ → Bool) → Text → ℕ
count_while p [] = 0
count_while p (c ∷ t) = let rest = count_while p t in if p c then suc rest else 0

-- [A-Za-z0-9+/]
abbrev pub is_base64 : ℕ → Bool
is_base64 c = is_alnum c || has_unit c (codes "+/")

-- what `.` does not match
abbrev pub is_line_end : ℕ → Bool
is_line_end c = has_unit c (10 ∷ 13 ∷ 0x2028 ∷ 0x2029 ∷ [])

-- `(\s+\S.*)?$`
unfoldable pub is_comment : Text → Bool
unfolding is_space
is_comment [] = true
is_comment (c ∷ t) =
    is_space c
    && (is_truthy (drop_while is_space t) && not (any is_line_end (drop_while is_space t)))

-- up to two "=", and a comment
unfoldable pub is_key_end : Text → Bool
unfolding is_comment
is_key_end t = leb (count_while (λ c. c == b'=') t) 2 && is_comment (drop_while (λ c. c == b'=') t)

unfoldable pub is_key_of : Text → Text → Bool
unfolding is_key_end is_space
is_key_of line type =
    let rest = drop (length type) line in
    let blob = drop_while is_space rest in
    starts_with type line
    && (leb 1 (count_while is_space rest)
        && (leb 16 (count_while is_base64 blob) && is_key_end (drop_while is_base64 blob)))

-- `OPENSSH_PUB_KEY_RE`
unfoldable pub is_public_key : Text → Bool
unfolding is_key_of
is_public_key line = any (is_key_of line) key_types

-- `jsonPointerEscape`
unfoldable pub json_pointer_escape : Text → Text
json_pointer_escape [] = []
json_pointer_escape (c ∷ t) =
    let rest = json_pointer_escape t in
    if c == b'~' then b'~' ∷ b'0' ∷ rest else if c == b'/' then b'~' ∷ b'1' ∷ rest else c ∷ rest
