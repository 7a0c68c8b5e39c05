-- ===== src/Busy/Store.antt =====
-- The operations of `BusyStore`, each as the function that runs under the lock. An operation
-- returns its reply or the error that it throws, and the store as it then is.
use chatgpt_mcp_clean.Base.{
  ℕ, ◌+◌, Bool, true, false, Option, none, some, List, [], ◌∷◌, map, if◌then◌else◌, leb, Text,
  codes, text_eq, Table, lookup, insert, erase,
}
use chatgpt_mcp_clean.Base.Json.{Json, arr, obj, to_items, to_fields}
use chatgpt_mcp_clean.Scope.{Host, canonical_scope}
use chatgpt_mcp_clean.Busy.Claims.{
  Dates, Claim, Result, ok, err, scope_empty, write_failed, collision_lease_ms, claim_json, garbled,
  contents, Store, load,
}
use chatgpt_mcp_clean.Busy.Jobs.{upsert_compatibility_job, remove_coordinator_job}

-- How the file system answers `persist`: the rename works, it is denied and the file is rewritten in
-- place, the rewriting breaks off, or an error comes before the file is touched.
pub data Write : Type 0 where
  renamed rewritten broken failed : Write

-- What an operation meets: the clock, a read that fails, and the two writes that it may make.
pub record Env : Type 0 where
  pub now : ℕ
  pub unreadable : Bool
  pub prune_write : Write
  pub commit_write : Write

abbrev pub Action : Type 0 → Type 0
Action A = Store → Result A × Store

infixl 5 ◌>>=◌
abbrev pub ◌>>=◌ : {A B : Type 0} → Action A → (A → Action B) → Action B
◌>>=◌ m f s = let (r, s') = m s in elim r [ ok a ↦ f a s' | err e ↦ (err e, s') ]

-- The values of a map.
abbrev pub values {ℓ} : {V : Type ℓ} → Table V → List V
values [] = []
values ((k, v) ∷ m) = v ∷ values m

unfoldable pub payload : Table Claim → Table Json → Json
payload claims passthrough = obj (
    to_fields
      (insert (codes "claims") (arr (to_items (map claim_json (values claims)))) passthrough))

unfoldable pub persist : Write → Action (Unit {0})
persist renamed s = (ok tt, record s { file = contents (payload s.claims s.passthrough) })
persist rewritten s = (ok tt, record s { file = contents (payload s.claims s.passthrough) })
persist broken s = (err write_failed, record s { file = garbled })
persist failed s = (err write_failed, s)

abbrev pub expired : Option ℕ → ℕ → Bool
expired none now = false
expired (some t) now = leb (t + collision_lease_ms) now

abbrev pub drop_claim : Host → Text → Store → Result (Unit {0}) × Store
drop_claim host scope s =
    let (left, r) = remove_coordinator_job host scope s.passthrough in
    (r, record s { claims = erase scope s.claims; passthrough = left })

-- The loop of `prune`, over the entries that the map has when it starts.
unfoldable pub prune_loop : Host → Dates → ℕ → Table Claim → Bool → Action Bool
prune_loop host dates now [] changed s = (ok changed, s)
prune_loop host dates now ((scope, claim) ∷ entries) changed s =
    elim (expired (dates.parse claim.timestamp) now) [
      | false ↦ prune_loop host dates now entries changed s
      | true ↦
          let (r, s') = drop_claim host scope s in
          elim r [ err e ↦ (err e, s') | ok _ ↦ prune_loop host dates now entries true s' ]
    ]

abbrev pub persist_if : Bool → Write → Action (Unit {0})
persist_if true w s = persist w s
persist_if false w s = (ok tt, s)

unfoldable pub prune : Host → Dates → Env → Action (Unit {0})
prune host dates env s =
    (prune_loop host dates env.now s.claims false >>= λ changed. persist_if changed env.prune_write)
      s

abbrev pub load_action : Host → Dates → Bool → Action (Unit {0})
load_action host dates unreadable s = elim (load host dates unreadable s) [
  | ok s' ↦ (ok tt, s')
  | err e ↦ (err e, s)
]

unfoldable pub refresh : Host → Dates → Env → Action (Unit {0})
refresh host dates env = load_action host dates env.unreadable >>= λ _. prune host dates env

-- `canonicalScope` inside an operation: an empty scope is an error.
abbrev pub scope_or_error : Option Text → Action Text
scope_or_error none s = (err scope_empty, s)
scope_or_error (some c) s = (ok c, s)

abbrev pub canonical : Host → Text → Action Text
canonical host scope = scope_or_error (canonical_scope host scope)

pub data ClaimReply : Type 0 where
  granted : Claim → ClaimReply
  scope_already_claimed : Claim → ClaimReply

abbrev pub upsert_action : Host → Dates → Claim → Action (Unit {0})
upsert_action host dates claim s =
    let (passthrough, r) = upsert_compatibility_job host dates claim s.passthrough in
    (r, record s { passthrough = passthrough })

unfoldable pub grant : Host → Dates → Env → Claim → Action ClaimReply
grant host dates env claim s =
    (upsert_action host dates claim >>= λ _.
    persist env.commit_write >>= λ _ s'. (ok (granted claim), s'))
      (record s { claims = insert claim.scope claim s.claims })

abbrev pub new_claim : Dates → Env → Text → Text → Claim
new_claim dates env actor scope = record {
  actor = actor;
  scope = scope;
  timestamp = dates.iso env.now;
  rest = [];
}

abbrev pub decide_claim : Host → Dates → Env → Text → Text → Option Claim → Action ClaimReply
decide_claim host dates env actor scope none s =
    grant host dates env (new_claim dates env actor scope) s
decide_claim host dates env actor scope (some current) s =
    if text_eq current.actor actor
    then grant host dates env (new_claim dates env actor scope) s
    else (ok (scope_already_claimed current), s)

unfoldable pub claim : Host → Dates → Env → (actor scope : Text) → Action ClaimReply
claim host dates env actor scope = refresh host dates env >>= λ _.
    canonical host scope >>= λ c s. decide_claim host dates env actor c (lookup c s.claims) s

pub data ReleaseReply : Type 0 where
  released : Claim → ReleaseReply
  scope_not_claimed : ReleaseReply
  claim_belongs_to_another_actor : Claim → ReleaseReply

abbrev pub remove_job_action : Host → Text → Action (Unit {0})
remove_job_action host scope s =
    let (passthrough, r) = remove_coordinator_job host scope s.passthrough in
    (r, record s { passthrough = passthrough })

abbrev pub decide_release : Host → Env → Text → Text → Option Claim → Action ReleaseReply
decide_release host env actor scope none s = (ok scope_not_claimed, s)
decide_release host env actor scope (some current) s =
    if text_eq current.actor actor
    then ((remove_job_action host scope >>= λ _.
          persist env.commit_write >>= λ _ s'. (ok (released current), s'))
        (record s { claims = erase scope s.claims }))
    else (ok (claim_belongs_to_another_actor current), s)

unfoldable pub release : Host → Dates → Env → (actor scope : Text) → Action ReleaseReply
release host dates env actor scope = refresh host dates env >>= λ _.
    canonical host scope >>= λ c s. decide_release host env actor c (lookup c s.claims) s

-- `sort` by the host's `localeCompare`, where `after left right` stands for a positive result.
unfoldable pub insert_sorted : (Text → Text → Bool) → Claim → List Claim → List Claim
insert_sorted after c [] = c ∷ []
insert_sorted after c (d ∷ ds) =
    if after c.scope d.scope then d ∷ insert_sorted after c ds else c ∷ d ∷ ds

unfoldable pub sort_by_scope : (Text → Text → Bool) → List Claim → List Claim
unfolding insert_sorted
sort_by_scope after [] = []
sort_by_scope after (c ∷ cs) = insert_sorted after c (sort_by_scope after cs)

unfoldable pub list : Host → Dates → (after : Text → Text → Bool) → Env → Action (List Claim)
unfolding sort_by_scope
list host dates after env =
    refresh host dates env >>= λ _ s. (ok (sort_by_scope after (values s.claims)), s)
