-- ===== src/Oauth/Rotation/Cases.antt =====
-- The ways that `exchangeRefreshToken` can go.
use chatgpt_mcp_clean.Base.{
  ℕ, ◌+◌, ◌≡◌, refl, Bool, true, false, not, ◌||◌, Option, none, some, List, ltb, leb, any, Text,
  text_eq, lookup, if-cases, arith,
}
use chatgpt_mcp_clean.Oauth.Records.{
  TokenRecord, Client, Recent, Provider, Result, ok, err, Error, invalid_grant, invalid_scope,
  invalid_target, Tokens, Config, Env, refresh_reuse_grace_ms,
}
use chatgpt_mcp_clean.Oauth.Scopes.{includes, join}
use chatgpt_mcp_clean.Oauth.Grants.{other_resource}
use chatgpt_mcp_clean.Oauth.Rotation.{
  grant_access, renew_confidential, coalesce, retry, rotate, rotate_or_retry, is_public,
  next_scopes, renew_within, refresh_with, exchange_refresh_in, revoke_refresh_family, is_successor,
  is_superseded, find_successor,
}

module _ (cfg : Config) (env : Env) (client : Client) (token : Text) (s : Provider) where
  -- The token is the client's and is not over, and the scopes are among its own.
  pub record Admitted (rec : TokenRecord) (scopes : List Text) : Type 0 where
    pub found : lookup (cfg.digest token) s.refresh ≡ some rec
    pub owned : text_eq rec.client_id client.client_id ≡ true
    pub current : leb rec.expires_at env.now ≡ false
    pub within : any (λ t. not (includes rec.scopes t)) scopes ≡ false

  -- A property of every way that an exchange can go.
  pub record Covers (P : Result Tokens × Provider → Type 0) : Type 0 where
    pub refused : (e : Error) → P (err e, s)
    pub replayed :
        (rec : TokenRecord) (scopes : List Text) (since : ℕ)
        → Admitted rec scopes
        → rec.superseded_at ≡ some since
        → P (err invalid_grant, revoke_refresh_family (cfg.digest token) s)
    pub renewed :
        (rec : TokenRecord) (scopes : List Text)
        → Admitted rec scopes
        → is_public client.token_endpoint_auth_method ≡ false
        → P (renew_confidential cfg env client token rec scopes s)
    pub rotated :
        (rec : TokenRecord) (scopes : List Text)
        → Admitted rec scopes
        → rec.superseded_at ≡ none
        → P (rotate cfg env client token rec scopes s)
    pub coalesced :
        (rec : TokenRecord) (scopes : List Text) (recent : Recent)
        → Admitted rec scopes
        → P (grant_access cfg env client rec scopes recent.token s)

  module _ (P : Result Tokens × Provider → Type 0) (h : Covers P) where
    coalesce-Covers :
        (rec : TokenRecord) (scopes : List Text)
        → Admitted rec scopes
        → (recent : Option Recent) (successor : Option TokenRecord)
        → P (coalesce cfg env client rec scopes recent successor s)
    coalesce-Covers rec scopes a (some recent) (some successor) =
        if-cases P (is_successor recent rec.successor_refresh_digest)
          (λ _.
            if-cases P (text_eq (join scopes) (join successor.scopes))
              (λ _. h.coalesced rec scopes recent a) (λ _. h.refused invalid_scope))
          (λ _. h.refused invalid_grant)
    coalesce-Covers rec scopes a (some recent) none = h.refused invalid_grant
    coalesce-Covers rec scopes a none successor = h.refused invalid_grant

    retry-Covers :
        (rec : TokenRecord) (scopes : List Text) (since : ℕ)
        → Admitted rec scopes
        → rec.superseded_at ≡ some since
        → P (retry cfg env client token rec scopes since s)
    unfolding retry
    retry-Covers rec scopes since a e =
        let successor = find_successor rec.successor_refresh_digest s.refresh in
        if-cases P (ltb (since + refresh_reuse_grace_ms) env.now)
          (λ _. h.replayed rec scopes since a e)
          λ _.
            if-cases P (is_superseded successor) (λ _. h.refused invalid_grant)
              λ _.
                coalesce-Covers rec scopes a (lookup (cfg.digest token) s.recent_refresh_successors)
                  successor

    rotate_or_retry-Covers :
        (rec : TokenRecord) (scopes : List Text) (since : Option ℕ)
        → Admitted rec scopes
        → rec.superseded_at ≡ since
        → P (rotate_or_retry cfg env client token rec scopes since s)
    rotate_or_retry-Covers rec scopes none a e = h.rotated rec scopes a e
    rotate_or_retry-Covers rec scopes (some since) a e = retry-Covers rec scopes since a e

    renew_within-Covers :
        (rec : TokenRecord) (scopes : Result (List Text))
        → lookup (cfg.digest token) s.refresh ≡ some rec
        → text_eq rec.client_id client.client_id ≡ true
        → leb rec.expires_at env.now ≡ false
        → P (renew_within cfg env client token rec scopes s)
    renew_within-Covers rec (err e) found owned current = h.refused e
    renew_within-Covers rec (ok scopes) found owned current =
        if-cases P _ (λ _. h.refused _)
          λ within.
            let a : Admitted rec scopes = record {
              found = found;
              owned = owned;
              current = current;
              within = within;
            } in
            if-cases P (is_public client.token_endpoint_auth_method)
              (λ _. rotate_or_retry-Covers rec scopes rec.superseded_at a refl)
              (h.renewed rec scopes a)

    refresh_with-Covers :
        (scopes : Option (List Text)) (resource : Option Text) (found : Option TokenRecord)
        → lookup (cfg.digest token) s.refresh ≡ found
        → P (refresh_with cfg env client token scopes resource found s)
    refresh_with-Covers scopes resource none e = h.refused invalid_grant
    refresh_with-Covers scopes resource (some rec) e =
        if-cases P (not (text_eq rec.client_id client.client_id) || leb rec.expires_at env.now)
          (λ _. h.refused invalid_grant)
          λ valid.
            if-cases P (other_resource cfg resource rec.resource) (λ _. h.refused invalid_target)
              λ _.
                renew_within-Covers rec (next_scopes scopes rec) e
                  (owned (text_eq rec.client_id client.client_id) _ valid)
                  (current (text_eq rec.client_id client.client_id) _ valid)
      where
        owned : (b c : Bool) → (not b || c) ≡ false → b ≡ true
        owned b c v = ground (arith, v)

        current : (b c : Bool) → (not b || c) ≡ false → c ≡ false
        current b c v = ground (arith, v)

    pub exchange_refresh_in-Covers :
        (scopes : Option (List Text)) (resource : Option Text)
        → P (exchange_refresh_in cfg env client token scopes resource s)
    unfolding exchange_refresh_in
    exchange_refresh_in-Covers scopes resource =
        refresh_with-Covers scopes resource (lookup (cfg.digest token) s.refresh) refl
