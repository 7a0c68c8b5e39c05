-- ===== src/Oauth/Rotation.antt =====
-- Refresh tokens of src/lib/local-oauth-provider.ts: rotation, retries, and the revocation of a
-- family of tokens.
pub mod Descent
pub mod Family
pub mod Cases
use chatgpt_mcp_clean.Base.{
  ℕ, zero, suc, ◌+◌, ◌*◌, Bool, true, false, not, ◌&&◌, ◌||◌, Option, none, some, List, [], ◌∷◌,
  if◌then◌else◌, ltb, leb, any, length, Text, codes, text_eq, Table, lookup, insert, erase,
}
use chatgpt_mcp_clean.Oauth.Records.{
  TokenRecord, Client, Recent, Provider, Result, ok, err, invalid_grant, invalid_scope,
  invalid_target, Tokens, Config, Env, access_ttl_sec, refresh_ttl_sec, refresh_reuse_grace_ms,
}
use chatgpt_mcp_clean.Oauth.Scopes.{includes, is_filled, join, validate_scopes}
use chatgpt_mcp_clean.Oauth.Store.{Action, mutate}
use chatgpt_mcp_clean.Oauth.Grants.{tokens_of, token_record, other_resource}

-- The digest of the token that took the place of a record's, where there is one.
abbrev pub successor_of : Option TokenRecord → Option Text
successor_of none = none
successor_of (some rec) = rec.successor_refresh_digest

-- The loop of `revokeRefreshFamily`; `none` where it outlives its fuel.
unfoldable pub revoke_loop :
    ℕ
    → (seen : List Text) → Option Text
    → Table TokenRecord
    → Table Recent
    → Option (Table TokenRecord × Table Recent)
revoke_loop zero seen next refresh recent = none
revoke_loop (suc fuel) seen none refresh recent = some (refresh, recent)
revoke_loop (suc fuel) seen (some key) refresh recent =
    elim (is_filled key && not (includes seen key)) [
      | false ↦ some (refresh, recent)
      | true ↦
          revoke_loop fuel (key ∷ seen) (successor_of (lookup key refresh)) (erase key refresh)
            (erase key recent)
    ]

abbrev pub revoked : Provider → Option (Table TokenRecord × Table Recent) → Provider
revoked s none = s
revoked s (some (refresh, recent)) = record s {
  refresh = refresh;
  recent_refresh_successors = recent;
}

-- `revokeRefreshFamily`; two rounds more than there are tokens are enough.
unfoldable pub revoke_refresh_family : Text → Provider → Provider
revoke_refresh_family key s =
    revoked s (
      revoke_loop (suc (suc (length s.refresh))) [] (some key) s.refresh
        s.recent_refresh_successors)

abbrev pub is_superseded : Option TokenRecord → Bool
is_superseded none = false
is_superseded (some rec) = elim rec.superseded_at [ none ↦ false | some since ↦ true ]

-- The record of the successor; an empty digest counts as none.
abbrev pub find_successor : Option Text → Table TokenRecord → Option TokenRecord
find_successor none refresh = none
find_successor (some digest) refresh = if is_filled digest then lookup digest refresh else none

abbrev pub is_successor : Recent → Option Text → Bool
is_successor recent none = false
is_successor recent (some digest) = text_eq recent.digest digest

-- A new access token like the record's, with the scopes `scopes`.
unfoldable pub grant_access :
    Config
    → Env
    → Client
    → TokenRecord
    → (scopes : List Text) (refresh_token : Text) → Action Tokens
grant_access cfg env client rec scopes refresh_token s = (
  ok (tokens_of env.first_token refresh_token scopes),
  record s {
    access =
        insert (cfg.digest env.first_token)
          (token_record client.client_id scopes rec.resource rec.subject
            (env.now + access_ttl_sec * 1000))
          s.access;
  },
)

-- A confidential client keeps its refresh token, for another term.
unfoldable pub renew_confidential :
    Config → Env → Client → (token : Text) → TokenRecord → (scopes : List Text) → Action Tokens
renew_confidential cfg env client token rec scopes s =
    grant_access cfg env client rec scopes token (record s {
      refresh =
          insert (cfg.digest token)
            (record rec {
              scopes = scopes;
              expires_at = env.now + refresh_ttl_sec * 1000;
              superseded_at = none;
              successor_refresh_digest = none;
            })
            s.refresh;
    })

-- The last part of a retry: the successor is in memory, and so is its token.
abbrev pub coalesce :
    Config
    → Env
    → Client
    → TokenRecord
    → (scopes : List Text) → Option Recent
    → Option TokenRecord
    → Action Tokens
coalesce cfg env client rec scopes (some recent) (some successor) s =
    if is_successor recent rec.successor_refresh_digest
    then (if text_eq (join scopes) (join successor.scopes)
        then grant_access cfg env client rec scopes recent.token s
        else (err invalid_scope, s))
    else (err invalid_grant, s)
coalesce cfg env client rec scopes _ _ s = (err invalid_grant, s)

-- A token that was superseded comes again.
unfoldable pub retry :
    Config
    → Env
    → Client
    → (token : Text) → TokenRecord
    → (scopes : List Text) → (since : ℕ) → Action Tokens
retry cfg env client token rec scopes since s =
    let key = cfg.digest token in
    let successor = find_successor rec.successor_refresh_digest s.refresh in
    if ltb (since + refresh_reuse_grace_ms) env.now
    then (err invalid_grant, revoke_refresh_family key s)
    else if is_superseded successor
    then (err invalid_grant, s)
    else coalesce cfg env client rec scopes (lookup key s.recent_refresh_successors) successor s

-- A token of a public client comes for the first time: its successor takes its place.
unfoldable pub rotate :
    Config → Env → Client → (token : Text) → TokenRecord → (scopes : List Text) → Action Tokens
rotate cfg env client token rec scopes s =
    let key = cfg.digest token in
    let next = cfg.digest env.second_token in
    let until = env.now + refresh_ttl_sec * 1000 in
    grant_access cfg env client rec scopes env.second_token (record s {
      refresh = insert next (token_record client.client_id scopes rec.resource rec.subject until) (
          insert key
            (record rec {
              scopes = scopes;
              expires_at = until;
              superseded_at = some env.now;
              successor_refresh_digest = some next;
            })
            s.refresh);
      recent_refresh_successors =
          insert key (record { token = env.second_token; digest = next; issued_at = env.now })
            s.recent_refresh_successors;
    })

abbrev pub rotate_or_retry :
    Config
    → Env
    → Client
    → (token : Text) → TokenRecord
    → (scopes : List Text) → Option ℕ
    → Action Tokens
rotate_or_retry cfg env client token rec scopes none s = rotate cfg env client token rec scopes s
rotate_or_retry cfg env client token rec scopes (some since) s =
    retry cfg env client token rec scopes since s

-- `(client.token_endpoint_auth_method || "none") === "none"`.
abbrev pub is_public : Option Text → Bool
is_public none = true
is_public (some []) = true
is_public (some (c ∷ s)) = text_eq (c ∷ s) (codes "none")

abbrev pub renew :
    Config → Env → Client → (token : Text) → TokenRecord → (scopes : List Text) → Action Tokens
renew cfg env client token rec scopes s =
    if is_public client.token_endpoint_auth_method
    then rotate_or_retry cfg env client token rec scopes rec.superseded_at s
    else renew_confidential cfg env client token rec scopes s

abbrev pub next_scopes : Option (List Text) → TokenRecord → Result (List Text)
next_scopes none rec = ok rec.scopes
next_scopes (some []) rec = ok rec.scopes
next_scopes (some (t ∷ ts)) rec = validate_scopes (some (t ∷ ts))

-- Scopes that the record does not have are refused.
abbrev pub renew_within :
    Config → Env → Client → (token : Text) → TokenRecord → Result (List Text) → Action Tokens
renew_within cfg env client token rec (err e) s = (err e, s)
renew_within cfg env client token rec (ok scopes) s =
    if any (λ t. not (includes rec.scopes t)) scopes
    then (err invalid_scope, s)
    else renew cfg env client token rec scopes s

abbrev pub refresh_with :
    Config
    → Env
    → Client
    → (token : Text) (scopes : Option (List Text)) (resource : Option Text) → Option TokenRecord
    → Action Tokens
refresh_with cfg env client token scopes resource none s = (err invalid_grant, s)
refresh_with cfg env client token scopes resource (some rec) s =
    if not (text_eq rec.client_id client.client_id) || leb rec.expires_at env.now
    then (err invalid_grant, s)
    else if other_resource cfg resource rec.resource
    then (err invalid_target, s)
    else renew_within cfg env client token rec (next_scopes scopes rec) s

unfoldable pub exchange_refresh_in :
    Config
    → Env
    → Client
    → (token : Text) (scopes : Option (List Text)) (resource : Option Text) → Action Tokens
exchange_refresh_in cfg env client token scopes resource s =
    refresh_with cfg env client token scopes resource (lookup (cfg.digest token) s.refresh) s

unfoldable pub exchange_refresh_token :
    Config
    → Env
    → Client
    → (token : Text) (scopes : Option (List Text)) (resource : Option Text) → Action Tokens
exchange_refresh_token cfg env client token scopes resource =
    mutate env (exchange_refresh_in cfg env client token scopes resource)
