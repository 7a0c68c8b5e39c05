-- ===== src/Oauth/Scopes.antt =====
-- `validateScopes` and `validateResource` of src/lib/local-oauth-provider.ts.
use chatgpt_mcp_clean.Base.{
  Bool, true, false, not, Option, none, some, List, [], ◌∷◌, ◌++◌, if◌then◌else◌, any, filter, Text,
  codes, text_eq,
}
use chatgpt_mcp_clean.Oauth.Records.{Config, Result, ok, err, invalid_scope, invalid_target}

abbrev pub supported_scopes : List Text
supported_scopes = codes "mcp" ∷ codes "offline_access" ∷ []

-- `includes` and `Set.has`.
abbrev pub includes : List Text → Text → Bool
includes ts t = any (λ u. text_eq u t) ts

abbrev pub is_filled : Text → Bool
is_filled [] = false
is_filled (c ∷ s) = true

-- `[...new Set(out)]`: the first of equal entries stays.
unfoldable pub distinct : List Text → List Text
distinct [] = []
distinct (t ∷ ts) = t ∷ filter (λ u. not (text_eq t u)) (distinct ts)

abbrev pub or_default : List Text → List Text
or_default [] = codes "mcp" ∷ []
or_default (t ∷ ts) = t ∷ ts

abbrev pub or_none : Option (List Text) → List Text
or_none none = []
or_none (some ts) = ts

unfoldable pub validate_scopes : Option (List Text) → Result (List Text)
unfolding distinct
validate_scopes scopes =
    let out = or_default (filter is_filled (or_none scopes)) in
    if any (λ t. not (includes supported_scopes t)) out
    then err invalid_scope
    else ok (distinct out)

-- `join(" ")`.
unfoldable pub join : List Text → Text
join [] = []
join (t ∷ []) = t
join (t ∷ u ∷ us) = t ++ b' ' ∷ join (u ∷ us)

-- `canonical`, of a URL that has been parsed before.
abbrev pub canonical : Config → Text → Text
canonical cfg url = elim (cfg.parse_url url) [ none ↦ url | some u ↦ u.href ]

unfoldable pub validate_resource : Config → Option Text → Result Text
validate_resource cfg none = ok (canonical cfg cfg.resource_url)
validate_resource cfg (some resource) =
    if text_eq (canonical cfg resource) (canonical cfg cfg.resource_url)
    then ok (canonical cfg cfg.resource_url)
    else err invalid_target
