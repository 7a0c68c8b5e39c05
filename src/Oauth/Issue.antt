-- ===== src/Oauth/Issue.antt =====
-- What a refresh grants.
use chatgpt_mcp_clean.Base.{
  ℕ, ◌+◌, ◌*◌, ◌≡◌, refl, sym, ap, subst, ◌∙◌, true, Option, none, some, List, arith, Text, lookup,
  lookup-insert_self,
}
use chatgpt_mcp_clean.Oauth.Records.{
  TokenRecord, Client, Provider, Result, ok, err, Tokens, Config, Env, access_ttl_sec,
}
use chatgpt_mcp_clean.Oauth.Scopes.{is_filled, join}
use chatgpt_mcp_clean.Oauth.Grants.{token_record}
use chatgpt_mcp_clean.Oauth.Rotation.{
  exchange_refresh_in, rotate, renew_confidential, grant_access, is_public,
}
use chatgpt_mcp_clean.Oauth.Rotation.Cases.{Admitted, exchange_refresh_in-Covers}
use chatgpt_mcp_clean.Oauth.Rotation.Family.{revoke_refresh_family_lem}

module _ (cfg : Config) (env : Env) (client : Client) (token : Text) (s : Provider) where
  -- The access token of a reply: it is new in the table, and has the client, the resource and the
  -- subject of a record that was the refresh token's, and scopes that are among the record's.
  pub record Bounded (tokens : Tokens) (s' : Provider) : Type 0 where
    pub rec : TokenRecord
    pub scopes : List Text
    pub admitted : Admitted cfg env client token s rec scopes
    pub replied : tokens.scope ≡ join scopes
    pub granted :
        lookup (cfg.digest tokens.access_token) s'.access
        ≡ some (
            token_record client.client_id scopes rec.resource rec.subject
              (env.now + access_ttl_sec * 1000))

  abbrev tokens_or : Result Tokens → Tokens → Tokens
  tokens_or (ok tokens) d = tokens
  tokens_or (err e) d = d

  -- A property of the replies that are tokens.
  abbrev Grants : Result Tokens × Provider → Type 0
  Grants (ok tokens, s') = Bounded tokens s'
  Grants (err e, s') = Unit

  grant_access-Grants :
      (rec : TokenRecord) (scopes : List Text) (refresh_token : Text) (t : Provider)
      → Admitted cfg env client token s rec scopes
      → Grants (grant_access cfg env client rec scopes refresh_token t)
  unfolding grant_access
  grant_access-Grants rec scopes refresh_token t a = record {
    rec = rec;
    scopes = scopes;
    admitted = a;
    replied = refl;
    granted = lookup-insert_self (cfg.digest env.first_token) _ t.access;
  }

  Grants-all :
      (scopes : Option (List Text)) (resource : Option Text)
      → Grants (exchange_refresh_in cfg env client token scopes resource s)
  unfolding rotate renew_confidential
  Grants-all = exchange_refresh_in-Covers cfg env client token s Grants (record {
    refused = λ e. tt;
    replayed = λ rec scopes since a e. tt;
    renewed = λ rec scopes a e. grant_access-Grants rec scopes token _ a;
    rotated = λ rec scopes a e. grant_access-Grants rec scopes env.second_token _ a;
    coalesced = λ rec scopes recent a. grant_access-Grants rec scopes recent.token s a;
  })

  -- A refresh that replies with tokens was asked by the client that the refresh token was issued to,
  -- before the token was over; the new access token is in the table for one hour, with the record's
  -- resource and subject and no scope that the record does not have.
  pub exchange_refresh_in-Bounded :
      (scopes : Option (List Text)) (resource : Option Text) {tokens : Tokens}
      → (exchange_refresh_in cfg env client token scopes resource s).0 ≡ ok tokens
      → Bounded tokens (exchange_refresh_in cfg env client token scopes resource s).1
  exchange_refresh_in-Bounded scopes resource {tokens} h =
      go (exchange_refresh_in cfg env client token scopes resource s).0
        (exchange_refresh_in cfg env client token scopes resource s).1 (Grants-all scopes resource)
        h
    where
      go : (r : Result Tokens) (s' : Provider) → Grants (r, s') → r ≡ ok tokens → Bounded tokens s'
      go (ok given) s' g e = subst (λ t. Bounded t s') (ap (λ r. tokens_or r given) e) g
      go (err e) s' g f = ground arith

  abbrev since_of : Option TokenRecord → Option ℕ
  since_of none = none
  since_of (some r) = r.superseded_at

  -- A refresh token that was superseded brings in no refresh token, whatever the reply: the family
  -- does not branch. The client is a public one, and the table knows the token as superseded.
  pub superseded-stays :
      (scopes : Option (List Text)) (resource : Option Text) (rec : TokenRecord) (since : ℕ)
      → lookup (cfg.digest token) s.refresh ≡ some rec
      → rec.superseded_at ≡ some since
      → is_public client.token_endpoint_auth_method ≡ true
      → is_filled (cfg.digest token) ≡ true
      → (k : Text) → lookup k s.refresh ≡ none
      → lookup k (exchange_refresh_in cfg env client token scopes resource s).1.refresh ≡ none
  unfolding grant_access
  superseded-stays scopes resource rec since found over public solid k absent =
      exchange_refresh_in-Covers cfg env client token s
        (λ (r : Result Tokens × Provider). lookup k r.1.refresh ≡ none)
        (record {
          refused = λ e. absent;
          replayed = λ rec' scopes' since' a e.
              (revoke_refresh_family_lem (cfg.digest token) s solid).2 k absent;
          renewed = λ rec' scopes' a e. ground (arith, public);
          rotated = λ rec' scopes' a e.
              absurd (conflict (sym e ∙ ap (λ o. since_of o) (sym a.found ∙ found) ∙ over));
          coalesced = λ rec' scopes' recent a. absent;
        })
        scopes resource
    where
      conflict : ¬ (none ≡ some since)
      conflict h = ground arith
