-- ===== src/Oauth/Tests.antt =====
-- Runs of `LocalOAuthProvider` on small stores, with tokens as their own digests.
use chatgpt_mcp_clean.Base.{
  ℕ, zero, suc, ◌≤◌, arith, Distinct, ◌≡◌, refl, false, none, some, List, [], ◌∷◌, length,
  if◌then◌else◌, Text, codes, text_eq, Table, lookup, erase,
}
use chatgpt_mcp_clean.Oauth.Records.{
  CodeRecord, TokenRecord, Client, Recent, missing, Provider, ok, err, invalid_grant,
  store_write_failed, Tokens, Config, Env,
}
use chatgpt_mcp_clean.Oauth.Store.{prune, load, persist, mutate}
use chatgpt_mcp_clean.Oauth.Grants.{
  tokens_of, get_code, redeem, issue_pair, exchange_code_in, exchange_authorization_code,
  revoke_token,
}
use chatgpt_mcp_clean.Oauth.Rotation.{
  revoke_loop, revoke_refresh_family, grant_access, rotate, exchange_refresh_in,
}
use chatgpt_mcp_clean.Oauth.Rotation.Descent.{Descends}
use chatgpt_mcp_clean.Oauth.Rotation.Family.{revoke_refresh_family_lem}
use chatgpt_mcp_clean.Oauth.Issue.{Bounded, exchange_refresh_in-Bounded, superseded-stays}
use chatgpt_mcp_clean.Oauth.SingleUse.{done, then_revoke, exchange-once}
use chatgpt_mcp_clean.Oauth.Clients.{
  find_first, is_client_referenced, next_spare, room_loop, make_client_room,
}
use chatgpt_mcp_clean.Oauth.Clients.Room.{HasRoom, make_client_room_lem}

abbrev cfg : Config
cfg = record {
  resource_url = codes "r";
  owner_login = codes "o";
  digest = λ t. t;
  parse_url = λ t. none;
}

abbrev at : ℕ → Env
at now = record {
  now = now;
  first_token = codes "a";
  second_token = codes "b";
  uuid = codes "u";
  unreadable = false;
  unwritable = false;
}

abbrev app : Text
app = codes "app"

abbrev mcp : List Text
mcp = codes "mcp" ∷ []

abbrev code : CodeRecord
code = record {
  client_id = app;
  redirect_uri = codes "x";
  code_challenge = codes "y";
  scopes = mcp;
  resource = codes "r";
  expires_at = 500;
}

abbrev first : TokenRecord
first = record {
  client_id = app;
  scopes = mcp;
  resource = codes "r";
  expires_at = 900000;
  subject = codes "o";
  superseded_at = some 5;
  successor_refresh_digest = some (codes "2");
}

abbrev second : TokenRecord
second = record {
  client_id = app;
  scopes = mcp;
  resource = codes "r";
  expires_at = 900000;
  subject = codes "o";
  superseded_at = none;
  successor_refresh_digest = none;
}

abbrev public_client : Client
public_client = record {
  client_id = app;
  client_id_issued_at = none;
  client_secret = none;
  client_name = some (codes "busy-probe");
  redirect_uris = [];
  token_endpoint_auth_method = none;
  grant_types = none;
  response_types = none;
}

abbrev provider : Provider
provider = record {
  clients = (app, public_client) ∷ [];
  access = [];
  refresh = (codes "1", first) ∷ (codes "2", second) ∷ [];
  codes = (codes "c", code) ∷ [];
  recent_refresh_successors = [];
  file = missing;
}

abbrev issued : Tokens
issued = tokens_of (codes "a") (codes "b") mcp

code_exchanged :
    (exchange_authorization_code cfg (at 10) app (codes "c") none none provider).0 ≡ ok issued
unfolding exchange_authorization_code mutate exchange_code_in get_code prune load persist redeem
    issue_pair lookup text_eq
code_exchanged = refl

abbrev after : Provider
after = (exchange_authorization_code cfg (at 10) app (codes "c") none none provider).1

abbrev later : Provider
later = (revoke_token cfg (at 20) (codes "z") after).1

exchange-once_example :
    (exchange_authorization_code cfg (at 30) app (codes "c") none none later).0
    ≡ err (if false then store_write_failed else invalid_grant)
exchange-once_example =
    exchange-once cfg (at 10) app (codes "c") none none provider issued code_exchanged later.file
      (then_revoke (at 20) after (codes "z") refl refl done) (at 30) app none none later refl refl

revoke_refresh_family_lem_example :
    ((out : Table TokenRecord × Table Recent) × (revoke_loop
          (suc (suc (length provider.refresh)))
          []
          (some (codes "1"))
          provider.refresh
          provider.recent_refresh_successors
        ≡ some out))
    × ((i : Text)
        → Descends provider.refresh (codes "1") i
        → lookup i (revoke_refresh_family (codes "1") provider).refresh ≡ none)
    × ((i : Text)
        → lookup i provider.refresh ≡ none
        → lookup i (revoke_refresh_family (codes "1") provider).refresh ≡ none)
revoke_refresh_family_lem_example = revoke_refresh_family_lem (codes "1") provider refl

-- The token and its successor are gone.
family_revoked : (revoke_refresh_family (codes "1") provider).refresh ≡ []
unfolding revoke_refresh_family revoke_loop erase lookup text_eq
family_revoked = refl

second_refreshed :
    (exchange_refresh_in cfg (at 10) public_client (codes "2") none none provider).0 ≡ ok issued
unfolding exchange_refresh_in rotate grant_access lookup text_eq
second_refreshed = refl

exchange_refresh_in-Bounded_example :
    Bounded cfg
      (at 10)
      public_client
      (codes "2")
      provider
      issued
      (exchange_refresh_in cfg (at 10) public_client (codes "2") none none provider).1
exchange_refresh_in-Bounded_example =
    exchange_refresh_in-Bounded cfg (at 10) public_client (codes "2") provider none none
      second_refreshed

superseded-stays_example :
    lookup
      (codes "b")
      (exchange_refresh_in cfg (at 10) public_client (codes "1") none none provider).1.refresh
    ≡ none
superseded-stays_example =
    superseded-stays cfg (at 10) public_client (codes "1") provider none none first 5
      (unfold lookup text_eq in refl) refl refl refl (codes "b") (unfold lookup text_eq in refl)

-- Probes, one more than there is room for beside the client of the tests.
abbrev probe : Client
probe = record public_client { client_name = some (codes "busy-probe") }

abbrev probes : ℕ → Table Client
probes zero = []
probes (suc n) = (n ∷ [], probe) ∷ probes n

probes_absent : (j n : ℕ) → n ≤ j → lookup (j ∷ []) (probes n) ≡ none
unfolding lookup text_eq
probes_absent j zero below = refl
probes_absent j (suc n) below = let rest = probes_absent j n (omega arith) in ground arith

probes-Distinct : (n : ℕ) → Distinct (probes n)
probes-Distinct zero = tt
probes-Distinct (suc n) = (probes_absent n n (omega arith), probes-Distinct n)

app_absent : (n : ℕ) → lookup app (probes n) ≡ none
unfolding lookup text_eq
app_absent zero = refl
app_absent (suc n) = let rest = app_absent n in ground arith

abbrev crowded : Provider
crowded = record provider { clients = (app, public_client) ∷ probes 64 }

-- The last two probes are gone.
crowded_room : (make_client_room crowded).clients ≡ (app, public_client) ∷ probes 62
unfolding make_client_room room_loop next_spare find_first is_client_referenced erase text_eq
crowded_room = refl

make_client_room_lem_example :
    (room_loop (suc (length crowded.clients)) crowded ≡ some (make_client_room crowded))
    × HasRoom crowded (make_client_room crowded)
make_client_room_lem_example = make_client_room_lem crowded (app_absent 64, probes-Distinct 64)
