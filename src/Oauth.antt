-- ===== src/Oauth.antt =====
-- `LocalOAuthProvider` of src/lib/local-oauth-provider.ts: clients, authorization codes and tokens,
-- kept in one file that server processes share.
pub mod Records
pub mod Redirects
pub mod Scopes
pub mod Store
pub mod Grants
pub mod Rotation
pub mod Clients
pub mod Spares
pub mod SingleUse
pub mod Issue
mod Tests
