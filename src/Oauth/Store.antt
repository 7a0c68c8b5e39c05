-- ===== src/Oauth/Store.antt =====
-- `prune`, `loadAsync`, `persistAsync` and `withStoreMutation` of src/lib/local-oauth-provider.ts.
-- One reading of the clock stands for all of an operation's.
use chatgpt_mcp_clean.Base.{
  ℕ, ◌+◌, Bool, true, false, not, ◌&&◌, Option, none, some, [], if◌then◌else◌, leb, filter, Text,
  Table, lookup,
}
use chatgpt_mcp_clean.Oauth.Records.{
  CodeRecord, TokenRecord, Recent, StoreShape, StoreFile, missing, garbled, saved, Provider, Result,
  ok, err, store_write_failed, Env, refresh_reuse_grace_ms,
}

abbrev pub Action : Type 0 → Type 0
Action A = Provider → Result A × Provider

-- `has`.
abbrev pub has {ℓ} : {V : Type ℓ} → Text → Table V → Bool
has k m = elim (lookup k m) [ none ↦ false | some v ↦ true ]

abbrev pub live_codes : ℕ → Table CodeRecord → Table CodeRecord
live_codes now = filter λ e. not (leb e.1.expires_at now)

abbrev pub live_tokens : ℕ → Table TokenRecord → Table TokenRecord
live_tokens now = filter λ e. not (leb e.1.expires_at now)

abbrev pub live_recents : ℕ → Table TokenRecord → Table Recent → Table Recent
live_recents now refresh =
    filter λ e. leb now (e.1.issued_at + refresh_reuse_grace_ms) && has e.0 refresh

unfoldable pub prune : ℕ → Provider → Provider
prune now s = record s {
  recent_refresh_successors = live_recents now s.refresh s.recent_refresh_successors;
  codes = live_codes now s.codes;
  access = live_tokens now s.access;
  refresh = live_tokens now s.refresh;
}

abbrev pub or_empty : {V : Type 0} → Option (Table V) → Table V
or_empty none = []
or_empty (some m) = m

abbrev pub load_file : ℕ → StoreFile → Provider → Provider
load_file now missing s = s
load_file now garbled s = s
load_file now (saved stored) s = prune now (record s {
  clients = or_empty stored.clients;
  access = or_empty stored.access;
  refresh = or_empty stored.refresh;
  codes = or_empty stored.codes;
})

-- A read or parse error leaves the maps as they were.
unfoldable pub load : Env → Provider → Provider
load env s = if env.unreadable then s else load_file env.now s.file s

unfoldable pub shape : Provider → StoreShape
shape s = record {
  clients = some s.clients;
  access = some s.access;
  refresh = some s.refresh;
  codes = some s.codes;
}

abbrev pub save : Bool → Provider → Result (Unit {0}) × Provider
save true s = (err store_write_failed, s)
save false s = (ok tt, record s { file = saved (shape s) })

unfoldable pub persist : Env → Provider → Result (Unit {0}) × Provider
persist env s = save env.unwritable (prune env.now s)

-- The reply of a mutation: an error of `persist` takes the place of what came before.
abbrev pub settle : {A : Type 0} → Result A → Result (Unit {0}) × Provider → Result A × Provider
settle r (ok _, s) = (r, s)
settle r (err e, s) = (err e, s)

-- `withStoreMutation`, once the lock is held.
unfoldable pub mutate : {A : Type 0} → Env → Action A → Action A
mutate env f s = let (r, s') = f (load env s) in settle r (persist env s')
