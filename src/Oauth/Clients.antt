-- ===== src/Oauth/Clients.antt =====
-- The clients of src/lib/local-oauth-provider.ts: registration, recovery and eviction.
pub mod Room
pub mod Spare
use chatgpt_mcp_clean.Base.{
  ℕ, zero, suc, ◌/◌, Bool, true, false, not, ◌&&◌, ◌||◌, Option, none, some, List, [], ◌∷◌,
  if◌then◌else◌, leb, any, all, length, Text, codes, text_eq, trim, to_lower, Table, lookup, insert,
  erase,
}
use chatgpt_mcp_clean.Oauth.Records.{
  Client, Provider, Result, ok, err, invalid_client_metadata, Config, Env, max_clients,
}
use chatgpt_mcp_clean.Oauth.Redirects.{is_allowed_redirect, is_chatgpt_redirect, is_uuid_client_id}
use chatgpt_mcp_clean.Oauth.Scopes.{includes, or_none}
use chatgpt_mcp_clean.Oauth.Store.{Action, has, prune, load, mutate}

abbrev pub disposable_client_names : List Text
disposable_client_names =
    codes "busy-probe"
    ∷ codes "restart-proof"
    ∷ codes "shell-mcp-probe"
    ∷ codes "shell-mcp-smoke"
    ∷ codes "shell-mcp-stress"
    ∷ []

unfoldable pub is_client_referenced : Text → Provider → Bool
is_client_referenced client_id s =
    any (λ e. text_eq e.1.client_id client_id) s.codes
    || any (λ e. text_eq e.1.client_id client_id) s.access
    || any (λ e. text_eq e.1.client_id client_id) s.refresh

abbrev pub text_or_empty : Option Text → Text
text_or_empty none = []
text_or_empty (some t) = t

-- A client that may be evicted.
abbrev pub is_spare : Provider → Text × Client → Bool
is_spare s e =
    not (is_client_referenced e.0 s)
    && includes disposable_client_names (text_or_empty e.1.client_name)

-- The key of the first entry that passes a test.
unfoldable pub find_first : {V : Type 0} → (Text × V → Bool) → Table V → Option Text
find_first p [] = none
find_first p ((k, v) ∷ m) = if p (k, v) then some k else find_first p m

-- The client that the loop of `makeClientRoom` evicts next, if it goes on.
unfoldable pub next_spare : Provider → Option Text
unfolding find_first
next_spare s =
    if leb max_clients (length s.clients) then find_first (is_spare s) s.clients else none

abbrev pub evict_client : Text → Provider → Provider
evict_client client_id s = record s { clients = erase client_id s.clients }

-- The loop of `makeClientRoom`; `none` where it outlives its fuel.
unfoldable pub room_loop : ℕ → Provider → Option Provider
unfolding next_spare
room_loop zero s = none
room_loop (suc fuel) s = elim (next_spare s) [
  | none ↦ some s
  | some unused ↦ room_loop fuel (evict_client unused s)
]

abbrev pub or_same : Provider → Option Provider → Provider
or_same s none = s
or_same s (some s') = s'

-- `makeClientRoom`; one round more than there are clients is enough.
unfoldable pub make_client_room : Provider → Provider
make_client_room s = or_same s (room_loop (suc (length s.clients)) s)

-- What `registerClient` is given.
pub record Registration : Type 0 where
  pub client_id : Option Text
  pub client_id_issued_at : Option ℕ
  pub client_secret : Option Text
  pub client_name : Option Text
  pub redirect_uris : List Text
  pub token_endpoint_auth_method : Option Text
  pub grant_types : Option (List Text)
  pub response_types : Option (List Text)

-- `||` on a text.
abbrev pub text_or : Option Text → Text → Text
text_or none d = d
text_or (some []) d = d
text_or (some (c ∷ s)) d = c ∷ s

abbrev number_or : Option ℕ → ℕ → ℕ
number_or none d = d
number_or (some zero) d = d
number_or (some (suc n)) d = suc n

abbrev pub auth_methods : List Text
auth_methods = codes "none" ∷ codes "client_secret_post" ∷ codes "client_secret_basic" ∷ []

abbrev pub auth_method : Text → Text
auth_method requested =
    if text_eq requested (codes "client_secret_basic")
    then codes "client_secret_post"
    else requested

abbrev filled_list : List Text → Bool
filled_list [] = false
filled_list (t ∷ ts) = true

-- The client that is stored.
abbrev pub full_client : Env → Registration → (method : Text) → Client
full_client env raw method = record {
  client_id = text_or raw.client_id env.uuid;
  client_id_issued_at = some (number_or raw.client_id_issued_at (env.now / 1000));
  client_secret =
      if text_eq method (codes "client_secret_post")
      then some env.first_token
      else raw.client_secret;
  client_name = raw.client_name;
  redirect_uris = raw.redirect_uris;
  token_endpoint_auth_method = some method;
  grant_types = raw.grant_types;
  response_types = raw.response_types;
}

-- The tests of `registerClient` that come before anything is stored.
unfoldable pub is_registrable : Config → Registration → Bool
is_registrable cfg raw =
    includes auth_methods (text_or raw.token_endpoint_auth_method (codes "none"))
    && (filled_list raw.redirect_uris && all (is_allowed_redirect cfg) raw.redirect_uris)
    && not (
        any
          (λ g.
            not (text_eq g (codes "authorization_code")) && not (text_eq g (codes "refresh_token")))
          (or_none raw.grant_types))
    && not (any (λ r. not (text_eq r (codes "code"))) (or_none raw.response_types))

unfoldable pub register_in : Config → Env → Registration → Action Client
register_in cfg env raw s =
    if is_registrable cfg raw
    then (let method = auth_method (text_or raw.token_endpoint_auth_method (codes "none")) in
        let full = full_client env raw method in
        let roomy = make_client_room (prune env.now s) in
        (ok full, record roomy { clients = insert full.client_id full roomy.clients }))
    else (err invalid_client_metadata, s)

unfoldable pub register_client : Config → Env → Registration → Action Client
register_client cfg env raw = mutate env (register_in cfg env raw)

unfoldable pub recover_in : Config → Env → (client_id redirect_uri : Text) → Action Bool
recover_in cfg env client_id redirect_uri s =
    let s' = prune env.now s in
    if has client_id s'.clients
    then (ok false, s')
    else if not (is_uuid_client_id client_id) || not (is_chatgpt_redirect cfg redirect_uri)
    then (ok false, s')
    else (
      ok true,
      record s' {
        clients =
            insert client_id
              (record {
                client_id = client_id;
                client_id_issued_at = some (env.now / 1000);
                client_secret = none;
                client_name = some (codes "recovered-chatgpt-client");
                redirect_uris = redirect_uri ∷ [];
                token_endpoint_auth_method = some (codes "none");
                grant_types = some (codes "authorization_code" ∷ codes "refresh_token" ∷ []);
                response_types = some (codes "code" ∷ []);
              })
              s'.clients;
      },
    )

unfoldable pub recover_legacy_chatgpt_client :
    Config → Env → (client_id redirect_uri : Text) → Action Bool
recover_legacy_chatgpt_client cfg env client_id redirect_uri =
    mutate env (recover_in cfg env client_id redirect_uri)

abbrev known_reconnect : Text → (redirect_uri : Text) → Provider → Option Client → Bool
known_reconnect client_id redirect_uri s none = is_client_referenced client_id s
known_reconnect client_id redirect_uri s (some registered) =
    let name = to_lower (trim (text_or_empty registered.client_name)) in
    (text_eq name (codes "chatgpt") || text_eq name (codes "recovered-chatgpt-client"))
    && includes registered.redirect_uris redirect_uri

unfoldable pub is_chatgpt_authorization_reconnect :
    Config → Env → (client_id redirect_uri : Text) → Provider → Bool × Provider
is_chatgpt_authorization_reconnect cfg env client_id redirect_uri s =
    let s' = prune env.now (load env s) in
    (
      if not (is_uuid_client_id client_id) || not (is_chatgpt_redirect cfg redirect_uri)
          then false
          else known_reconnect client_id redirect_uri s' (lookup client_id s'.clients),
      s',
    )

-- A client that only its tokens remember.
abbrev pub remembered_client : Text → Client
remembered_client client_id = record {
  client_id = client_id;
  client_id_issued_at = none;
  client_secret = none;
  client_name = none;
  redirect_uris = [];
  token_endpoint_auth_method = some (codes "none");
  grant_types = some (codes "refresh_token" ∷ []);
  response_types = some [];
}

abbrev registered_or_remembered : Text → Provider → Option Client → Option Client
registered_or_remembered client_id s (some registered) = some registered
registered_or_remembered client_id s none =
    if is_client_referenced client_id s then some (remembered_client client_id) else none

unfoldable pub get_client : Env → (client_id : Text) → Provider → Option Client × Provider
get_client env client_id s =
    let s' = prune env.now (load env s) in
    (registered_or_remembered client_id s' (lookup client_id s'.clients), s')
