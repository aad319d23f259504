-- ===== src/Gateway/Union.antt =====
-- The union of the catalogues in gateway.ts, against the base that a model is sent to.
use cubestack.Prelude.{
  All, subst, any, ◌≡◌, refl, sym, ap, ◌∙◌, arith, Text, text_eq, text_eq_iff, map, true, false,
  not, ◌||◌, List, [], ◌∷◌, ◌++◌, Option, none, some, is_some, get_or, if◌then◌else◌, all, distinct,
  includes, Bool-cases, inl, inr,
}
use cubestack.Gateway.{GatewayBase}
use cubestack.Gateway.Catalog.{
  GatewayModel, has_model, add_models, merge_catalogs, gateway_catalog, serves,
  gateway_base_for_model,
}

abbrev pub ids : List GatewayModel → List Text
ids models = map (λ (m : GatewayModel). m.id) models

has_model-append :
    (id : Text) (s t : List GatewayModel) → has_model id (s ++ t) ≡ has_model id s || has_model id t
has_model-append id [] t = refl
has_model-append id (m ∷ s) t = ground (arith, has_model-append id s t)

has_model-add_models :
    (id : Text) (merged models : List GatewayModel)
    → has_model id (add_models merged models) ≡ has_model id merged || has_model id models
has_model-add_models id merged [] = ground arith
has_model-add_models id merged (m ∷ models) =
    has_model-add_models id (if has_model m.id merged then merged else merged ++ m ∷ []) models
    ∙ ground (
      arith,
      has_model-append id merged (m ∷ []),
      text_eq_iff m.id id,
      ap (λ t. has_model t merged) {x = m.id} {y = id},
    )

has_model-merge_catalogs :
    (id : Text) (merged : List GatewayModel) (catalogs : List (Option (List GatewayModel)))
    → has_model id (merge_catalogs merged catalogs)
      ≡ has_model id merged || any (serves id) catalogs
has_model-merge_catalogs id merged [] = ground arith
has_model-merge_catalogs id merged (none ∷ catalogs) =
    ground (arith, has_model-merge_catalogs id merged catalogs)
has_model-merge_catalogs id merged (some models ∷ catalogs) = ground (
  arith,
  has_model-merge_catalogs id (add_models merged models) catalogs,
  has_model-add_models id merged models,
)

includes-ids :
    (id : Text) (models : List GatewayModel) → includes (ids models) id ≡ has_model id models
includes-ids id [] = refl
includes-ids id (m ∷ models) = ap (λ b. text_eq m.id id || b) (includes-ids id models)

distinct-append :
    (models : List GatewayModel) (m : GatewayModel)
    → distinct (ids models) ≡ true
    → has_model m.id models ≡ false
    → distinct (ids (models ++ m ∷ [])) ≡ true
distinct-append [] m d h = refl
distinct-append (n ∷ models) m d h = ground (
  arith,
  d,
  h,
  distinct-append models m,
  includes-ids n.id (models ++ m ∷ []),
  includes-ids n.id models,
  has_model-append n.id models (m ∷ []),
  text_eq_iff n.id m.id,
  text_eq_iff m.id n.id,
)

add_models-distinct :
    (merged models : List GatewayModel)
    → distinct (ids merged) ≡ true
    → distinct (ids (add_models merged models)) ≡ true
add_models-distinct merged [] d = d
add_models-distinct merged (m ∷ models) d = elim (Bool-cases (has_model m.id merged)) [
  | inl e ↦ rw e (add_models-distinct merged models d)
  | inr e ↦ rw e (add_models-distinct (merged ++ m ∷ []) models (distinct-append merged m d e))
]

merge_catalogs-distinct :
    (merged : List GatewayModel) (catalogs : List (Option (List GatewayModel)))
    → distinct (ids merged) ≡ true
    → distinct (ids (merge_catalogs merged catalogs)) ≡ true
merge_catalogs-distinct merged [] d = d
merge_catalogs-distinct merged (models ∷ catalogs) d =
    merge_catalogs-distinct (add_models merged (get_or models [])) catalogs
      (add_models-distinct merged (get_or models []) d)

abbrev pub catalogs_of :
    List (GatewayBase × Option (List GatewayModel)) → List (Option (List GatewayModel))
catalogs_of [] = []
catalogs_of ((base, models) ∷ bases) = models ∷ catalogs_of bases

any-serves :
    (id : Text) (bases : List (GatewayBase × Option (List GatewayModel)))
    → any (serves id) (catalogs_of bases) ≡ is_some (gateway_base_for_model id bases)
unfolding gateway_base_for_model
any-serves id [] = refl
any-serves id ((base, models) ∷ bases) = ground (arith, any-serves id bases)

some-injective : (a b : List GatewayModel) → some a ≡ some b → a ≡ b
some-injective a b h = cc

base-injective : (a b : GatewayBase) → some a ≡ some b → a ≡ b
base-injective a b h = cc

-- A base whose catalogue lists the model, behind bases whose catalogues do not.
abbrev pub IsFirst : Text → GatewayBase → List (GatewayBase × Option (List GatewayModel)) → Type 0
IsFirst id base bases =
    (before : List (GatewayBase × Option (List GatewayModel))) × (models : List GatewayModel)
    × (after : List (GatewayBase × Option (List GatewayModel))) × (bases
        ≡ before ++ (base, some models) ∷ after)
    × (includes (ids models) id ≡ true)
    × All (λ b. includes (ids (get_or b.1 [])) id ≡ false) before

serves-includes :
    (id : Text) (models : Option (List GatewayModel))
    → serves id models ≡ includes (ids (get_or models [])) id
serves-includes id none = refl
serves-includes id (some models) = sym (includes-ids id models)

serves-some :
    (id : Text) (models : Option (List GatewayModel))
    → serves id models ≡ true
    → (found : List GatewayModel) × (models ≡ some found) × (includes (ids found) id ≡ true)
serves-some id none h = absurd (ground arith)
serves-some id (some models) h = (models, refl, includes-ids id models ∙ h)

gateway_base_for_model-IsFirst :
    (id : Text) (base : GatewayBase) (bases : List (GatewayBase × Option (List GatewayModel)))
    → gateway_base_for_model id bases ≡ some base
    → IsFirst id base bases
unfolding gateway_base_for_model
gateway_base_for_model-IsFirst id base [] h = absurd (ground arith)
gateway_base_for_model-IsFirst id base ((b, models) ∷ bases) h =
    elim (Bool-cases (serves id models)) [
      | inl e ↦
          let (found, f, listed) = serves-some id models e in
          let same : b ≡ base = base-injective b base (rw e at h) in
          ([], found, bases, rw (f, same) refl, listed, tt)
      | inr e ↦
          let (before, found, after, split, listed, apart) =
            gateway_base_for_model-IsFirst id base bases (rw e at h) in
          (
            (b, models) ∷ before,
            found,
            after,
            ap (◌∷◌ (b, models)) split,
            listed,
            (sym (serves-includes id models) ∙ e, apart),
          )
    ]

-- The union of the catalogues has no id twice, and lists exactly the models that a base is found
-- for. The base that is found is the first one whose catalogue lists the model.
pub gateway_catalog-serves :
    (bases : List (GatewayBase × Option (List GatewayModel))) (merged : List GatewayModel)
    (id : Text)
    → gateway_catalog (catalogs_of bases) ≡ some merged
    → (distinct (ids merged) ≡ true)
      × (has_model id merged ≡ is_some (gateway_base_for_model id bases))
      × ((base : GatewayBase) → gateway_base_for_model id bases ≡ some base → IsFirst id base bases)
unfolding gateway_catalog
gateway_catalog-serves [] merged id h = absurd (ground arith)
gateway_catalog-serves ((base, models) ∷ bases) merged id h =
    elim (Bool-cases (all (λ c. not (is_some c)) (models ∷ catalogs_of bases))) [
      | inl e ↦ absurd (ground (arith, rw e at h))
      | inr e ↦
          let made = some-injective _ merged (rw e at h) in
          let union = merge_catalogs [] (models ∷ catalogs_of bases) in
          (
            subst (λ l. distinct (ids l) ≡ true) made
                (merge_catalogs-distinct [] (models ∷ catalogs_of bases) refl),
            ap (has_model id) (sym made)
                ∙ (has_model-merge_catalogs id [] (models ∷ catalogs_of bases)
                    ∙ any-serves id ((base, models) ∷ bases)),
            λ b. gateway_base_for_model-IsFirst id b ((base, models) ∷ bases),
          )
    ]
