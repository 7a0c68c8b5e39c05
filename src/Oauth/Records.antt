-- ===== src/Oauth/Records.antt =====
-- The records of src/lib/local-oauth-provider.ts, its constants, and what it takes from outside.
-- Times are milliseconds. A token and its digest are texts.
use chatgpt_mcp_clean.Base.{ℕ, ◌*◌, Bool, Option, List, Text, Table}

abbrev pub access_ttl_sec : ℕ
access_ttl_sec = 3600

abbrev pub refresh_ttl_sec : ℕ
refresh_ttl_sec = 7 * 24 * 60 * 60

abbrev pub code_ttl_ms : ℕ
code_ttl_ms = 60000

abbrev pub refresh_reuse_grace_ms : ℕ
refresh_reuse_grace_ms = 120000

abbrev pub max_clients : ℕ
max_clients = 64

pub record CodeRecord : Type 0 where
  pub client_id : Text
  pub redirect_uri : Text
  pub code_challenge : Text
  pub scopes : List Text
  pub resource : Text
  pub expires_at : ℕ

-- `supersededReuseCount` is only ever deleted, and left out.
pub record TokenRecord : Type 0 where
  pub client_id : Text
  pub scopes : List Text
  pub resource : Text
  pub expires_at : ℕ
  pub subject : Text
  pub superseded_at : Option ℕ
  pub successor_refresh_digest : Option Text

-- The fields of `OAuthClientInformationFull` that the provider reads or sets.
pub record Client : Type 0 where
  pub client_id : Text
  pub client_id_issued_at : Option ℕ
  pub client_secret : Option Text
  pub client_name : Option Text
  pub redirect_uris : List Text
  pub token_endpoint_auth_method : Option Text
  pub grant_types : Option (List Text)
  pub response_types : Option (List Text)

-- An entry of `recentRefreshSuccessors`.
pub record Recent : Type 0 where
  pub token : Text
  pub digest : Text
  pub issued_at : ℕ

pub record StoreShape : Type 0 where
  pub clients : Option (Table Client)
  pub access : Option (Table TokenRecord)
  pub refresh : Option (Table TokenRecord)
  pub codes : Option (Table CodeRecord)

-- What the store's file may be: not there, not readable as a store, or a store.
pub data StoreFile : Type 0 where
  missing : StoreFile
  garbled : StoreFile
  saved : StoreShape → StoreFile

pub record Provider : Type 0 where
  pub clients : Table Client
  pub access : Table TokenRecord
  pub refresh : Table TokenRecord
  pub codes : Table CodeRecord
  pub recent_refresh_successors : Table Recent
  pub file : StoreFile

pub data Error : Type 0 where
  invalid_client_metadata : Error
  invalid_grant : Error
  invalid_scope : Error
  invalid_target : Error
  invalid_token : Error
  store_write_failed : Error

pub data Result {ℓ} (A : Type ℓ) : Type ℓ where
  ok : A → Result A
  err : Error → Result A

pub record Tokens : Type 0 where
  pub access_token : Text
  pub expires_in : ℕ
  pub refresh_token : Text
  pub scope : Text

-- A parsed URL, as `new URL` of Node gives it.
pub record Url : Type 0 where
  pub protocol : Text
  pub hostname : Text
  pub port : Text
  pub pathname : Text
  pub search : Text
  pub hash : Text
  pub username : Text
  pub password : Text
  pub href : Text

-- The constructor's arguments, `sha256` in hexadecimal, and `new URL` with `none` where it throws.
pub record Config : Type 0 where
  pub resource_url : Text
  pub owner_login : Text
  pub digest : Text → Text
  pub parse_url : Text → Option Url

-- What one operation meets: the clock, the random tokens that it may draw, and whether the store's
-- file can be read and written.
pub record Env : Type 0 where
  pub now : ℕ
  pub first_token : Text
  pub second_token : Text
  pub uuid : Text
  pub unreadable : Bool
  pub unwritable : Bool
