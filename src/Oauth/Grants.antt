-- ===== src/Oauth/Grants.antt =====
-- Authorization codes and access tokens of src/lib/local-oauth-provider.ts. The client that asks has
-- been identified before, and stands here with its identifier.
use chatgpt_mcp_clean.Base.{
  ℕ, ◌+◌, ◌*◌, ◌/◌, Bool, false, not, ◌||◌, Option, none, some, List, [], ◌∷◌, if◌then◌else◌, leb,
  Text, text_eq, lookup, insert, erase,
}
use chatgpt_mcp_clean.Oauth.Records.{
  CodeRecord, TokenRecord, Provider, Result, ok, err, invalid_grant, invalid_target, invalid_token,
  Tokens, Config, Env, access_ttl_sec, refresh_ttl_sec, code_ttl_ms,
}
use chatgpt_mcp_clean.Oauth.Scopes.{canonical, join, validate_scopes, validate_resource}
use chatgpt_mcp_clean.Oauth.Store.{Action, prune, load, mutate}

pub record AuthorizationParams : Type 0 where
  pub redirect_uri : Text
  pub code_challenge : Text
  pub scopes : Option (List Text)
  pub resource : Option Text

-- A new code, once the resource and the scopes are settled.
abbrev pub new_code :
    Config
    → Env
    → (client_id : Text) → AuthorizationParams
    → Result Text
    → Result (List Text)
    → Action Text
new_code cfg env client_id params (err e) scopes s = (err e, s)
new_code cfg env client_id params (ok resource) (err e) s = (err e, s)
new_code cfg env client_id params (ok resource) (ok scopes) s = (
  ok env.first_token,
  record s {
    codes =
        insert (cfg.digest env.first_token)
          (record {
            client_id = client_id;
            redirect_uri = params.redirect_uri;
            code_challenge = params.code_challenge;
            scopes = scopes;
            resource = resource;
            expires_at = env.now + code_ttl_ms;
          })
          s.codes;
  },
)

-- The mutation of `authorize`: the code that the redirect then carries.
unfoldable pub authorize_in : Config → Env → (client_id : Text) → AuthorizationParams → Action Text
authorize_in cfg env client_id params s =
    new_code cfg env client_id params (validate_resource cfg params.resource)
      (validate_scopes params.scopes) s

unfoldable pub authorize : Config → Env → (client_id : Text) → AuthorizationParams → Action Text
authorize cfg env client_id params = mutate env (authorize_in cfg env client_id params)

abbrev pub check_code : Env → Text → Option CodeRecord → Result CodeRecord
check_code env client_id none = err invalid_grant
check_code env client_id (some rec) =
    if not (text_eq rec.client_id client_id) || leb rec.expires_at env.now
    then err invalid_grant
    else ok rec

unfoldable pub get_code : Config → Env → (client_id code : Text) → Action CodeRecord
get_code cfg env client_id code s =
    let s' = prune env.now s in (check_code env client_id (lookup (cfg.digest code) s'.codes), s')

unfoldable pub challenge_for_authorization_code :
    Config → Env → (client_id code : Text) → Action Text
challenge_for_authorization_code cfg env client_id code s =
    let (r, s') = get_code cfg env client_id code (load env s) in
    elim r [ err e ↦ (err e, s') | ok rec ↦ (ok rec.code_challenge, s') ]

abbrev pub token_record :
    (client_id : Text) (scopes : List Text) (resource subject : Text) (expires_at : ℕ) → TokenRecord
token_record client_id scopes resource subject expires_at = record {
  client_id = client_id;
  scopes = scopes;
  resource = resource;
  expires_at = expires_at;
  subject = subject;
  superseded_at = none;
  successor_refresh_digest = none;
}

abbrev pub tokens_of : (access_token refresh_token : Text) → List Text → Tokens
tokens_of access_token refresh_token scopes = record {
  access_token = access_token;
  expires_in = access_ttl_sec;
  refresh_token = refresh_token;
  scope = join scopes;
}

unfoldable pub issue_pair :
    Config
    → Env
    → (client_id : Text) (scopes : List Text) (resource : Text) → Provider
    → Tokens × Provider
issue_pair cfg env client_id scopes resource s =
    let common = token_record client_id scopes resource cfg.owner_login in
    (
      tokens_of env.first_token env.second_token scopes,
      record s {
        access =
            insert (cfg.digest env.first_token) (common (env.now + access_ttl_sec * 1000)) s.access;
        refresh =
            insert (cfg.digest env.second_token) (common (env.now + refresh_ttl_sec * 1000))
              s.refresh;
      },
    )

-- A text that is given and not empty, and differs.
abbrev pub mismatch : Option Text → Text → Bool
mismatch none t = false
mismatch (some []) t = false
mismatch (some (c ∷ s)) t = not (text_eq (c ∷ s) t)

-- A resource that is given, and differs.
abbrev pub other_resource : Config → Option Text → Text → Bool
other_resource cfg none resource = false
other_resource cfg (some given) resource = not (text_eq (canonical cfg given) resource)

-- What follows `getCode` in `exchangeAuthorizationCode`.
unfoldable pub redeem :
    Config
    → Env
    → (client_id code : Text) (redirect_uri resource : Option Text) → CodeRecord
    → Action Tokens
redeem cfg env client_id code redirect_uri resource rec s =
    if mismatch redirect_uri rec.redirect_uri
    then (err invalid_grant, s)
    else if other_resource cfg resource rec.resource
    then (err invalid_target, s)
    else (let (tokens, s') =
          issue_pair cfg env client_id rec.scopes rec.resource
            (record s { codes = erase (cfg.digest code) s.codes }) in
        (ok tokens, s'))

abbrev pub redeem_found :
    Config
    → Env
    → (client_id code : Text) (redirect_uri resource : Option Text) → Result CodeRecord
    → Action Tokens
redeem_found cfg env client_id code redirect_uri resource (err e) s = (err e, s)
redeem_found cfg env client_id code redirect_uri resource (ok rec) s =
    redeem cfg env client_id code redirect_uri resource rec s

unfoldable pub exchange_code_in :
    Config → Env → (client_id code : Text) (redirect_uri resource : Option Text) → Action Tokens
exchange_code_in cfg env client_id code redirect_uri resource s =
    let (r, s') = get_code cfg env client_id code s in
    redeem_found cfg env client_id code redirect_uri resource r s'

unfoldable pub exchange_authorization_code :
    Config → Env → (client_id code : Text) (redirect_uri resource : Option Text) → Action Tokens
exchange_authorization_code cfg env client_id code redirect_uri resource =
    mutate env (exchange_code_in cfg env client_id code redirect_uri resource)

pub record AuthInfo : Type 0 where
  pub client_id : Text
  pub scopes : List Text
  pub expires_at : ℕ
  pub resource : Text
  pub subject : Text

abbrev pub current : ℕ → Option TokenRecord → Bool
current now none = false
current now (some rec) = not (leb rec.expires_at now)

abbrev pub auth_info : ℕ → Option TokenRecord → Result AuthInfo
auth_info now none = err invalid_token
auth_info now (some rec) =
    if leb rec.expires_at now
    then err invalid_token
    else ok (record {
      client_id = rec.client_id;
      scopes = rec.scopes;
      expires_at = rec.expires_at / 1000;
      resource = rec.resource;
      subject = rec.subject;
    })

-- `verifyAccessToken`: memory first, then the file.
unfoldable pub verify_access_token : Config → Env → (token : Text) → Action AuthInfo
verify_access_token cfg env token s =
    let key = cfg.digest token in
    let pruned = prune env.now s in
    if current env.now (lookup key pruned.access)
    then (auth_info env.now (lookup key pruned.access), pruned)
    else (let reloaded = prune env.now (load env pruned) in
        (auth_info env.now (lookup key reloaded.access), reloaded))

unfoldable pub revoke_token : Config → Env → (token : Text) → Action (Unit {0})
revoke_token cfg env token = mutate env λ s. (
  ok tt,
  record s {
    access = erase (cfg.digest token) s.access;
    refresh = erase (cfg.digest token) s.refresh;
  },
)
