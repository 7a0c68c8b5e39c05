-- ===== src/Busy.antt =====
-- `BusyStore` of src/lib/busy-store.ts: collision claims on scopes, kept in one JSON file that
-- several server processes share.
pub mod Claims
pub mod Jobs
pub mod Store
pub mod Reload
pub mod Passthrough
pub mod Pruning
pub mod Refresh
pub mod Upsert
pub mod Register
pub mod Commit
pub mod Refinement
pub mod Listing
pub mod Guarded
pub mod Exclusion
mod Tests
