-- ===== src/Oauth/Redirects.antt =====
-- The redirect addresses and client identifiers that src/lib/local-oauth-provider.ts accepts.
use chatgpt_mcp_clean.Base.{
  ℕ, zero, suc, Bool, true, false, not, ◌&&◌, ◌||◌, Option, none, some, List, [], ◌∷◌, ◌==◌, leb,
  all, any, Text, codes, text_eq, to_lower, starts_with, drop, length, ◌-◌,
}
use chatgpt_mcp_clean.Oauth.Records.{Url, Config}
use chatgpt_mcp_clean.Oauth.Scopes.{includes, is_filled}

abbrev is_empty : Text → Bool
is_empty s = not (is_filled s)

-- `!u.search && !u.hash && !u.username && !u.password`.
abbrev is_bare : Url → Bool
is_bare u = is_empty u.search && is_empty u.hash && is_empty u.username && is_empty u.password

is_digit : ℕ → Bool
is_digit c = leb b'0' c && leb c b'9'

-- The class `[A-Za-z0-9_-]`.
is_slug_unit : ℕ → Bool
unfolding is_digit
is_slug_unit c =
    (leb b'A' c && leb c b'Z') || (leb b'a' c && leb c b'z') || is_digit c || c == b'_' || c == b'-'

abbrev connector_path : Text
connector_path = codes "/connector/oauth/"

-- The pattern `^\/connector\/oauth\/[A-Za-z0-9_-]+$`.
unfoldable pub is_connector_path : Text → Bool
unfolding is_slug_unit starts_with
is_connector_path path =
    let slug = drop (length connector_path) path in
    starts_with connector_path path && is_filled slug && all is_slug_unit slug

abbrev is_chatgpt : Option Url → Bool
is_chatgpt none = false
is_chatgpt (some u) =
    text_eq u.protocol (codes "https:")
    && text_eq u.hostname (codes "chatgpt.com")
    && is_connector_path u.pathname
    && is_bare u

unfoldable pub is_chatgpt_redirect : Config → Text → Bool
is_chatgpt_redirect cfg value = is_chatgpt (cfg.parse_url value)

abbrev loopback_names : List Text
loopback_names = codes "localhost" ∷ codes "127.0.0.1" ∷ codes "::1" ∷ codes "[::1]" ∷ []

abbrev is_loopback : Option Url → Bool
is_loopback none = false
is_loopback (some u) =
    text_eq u.protocol (codes "http:")
    && includes loopback_names (to_lower u.hostname)
    && is_filled u.port
    && is_bare u

unfoldable pub is_loopback_redirect : Config → Text → Bool
is_loopback_redirect cfg value = is_loopback (cfg.parse_url value)

abbrev ends_with : Text → Text → Bool
ends_with suffix s =
    leb (length suffix) (length s) && text_eq (drop (length s - length suffix) s) suffix

abbrev is_traycer : Option Url → Bool
is_traycer none = false
is_traycer (some u) =
    text_eq u.protocol (codes "https:")
    && (text_eq (to_lower u.hostname) (codes "traycer.ai")
        || ends_with (codes ".traycer.ai") (to_lower u.hostname))
    && is_bare u

unfoldable pub is_traycer_redirect : Config → Text → Bool
is_traycer_redirect cfg value = is_traycer (cfg.parse_url value)

unfoldable pub is_allowed_redirect : Config → Text → Bool
is_allowed_redirect cfg value =
    is_chatgpt_redirect cfg value || is_loopback_redirect cfg value || is_traycer_redirect cfg value

is_hex : ℕ → Bool
unfolding is_digit
is_hex c = is_digit c || (leb b'a' c && leb c b'f') || (leb b'A' c && leb c b'F')

-- A pattern of tests, one for each unit, to the end of the text.
matches : List (ℕ → Bool) → Text → Bool
matches [] [] = true
matches (p ∷ ps) (c ∷ s) = p c && matches ps s
matches _ _ = false

repeated : ℕ → (ℕ → Bool) → List (ℕ → Bool) → List (ℕ → Bool)
repeated zero p ps = ps
repeated (suc n) p ps = p ∷ repeated n p ps

is_dash : ℕ → Bool
is_dash c = c == b'-'

is_variant : ℕ → Bool
is_variant c = any (λ d. c == d) (b'8' ∷ b'9' ∷ b'a' ∷ b'b' ∷ b'A' ∷ b'B' ∷ [])

-- `UUID_CLIENT_ID`.
unfoldable pub is_uuid_client_id : Text → Bool
unfolding is_hex matches repeated is_dash is_variant
is_uuid_client_id = matches (
    repeated 8 is_hex (
      is_dash
      ∷ repeated 4 is_hex (
          is_dash
          ∷ (λ c. c == b'4')
          ∷ repeated 3 is_hex
              (is_dash ∷ is_variant ∷ repeated 3 is_hex (is_dash ∷ repeated 12 is_hex [])))))
