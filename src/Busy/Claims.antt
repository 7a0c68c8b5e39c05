-- ===== src/Busy/Claims.antt =====
-- Claims, their JSON form, and `load` of src/lib/busy-store.ts.
-- Times are milliseconds since the earliest time that a `Date` holds, so that none is negative.
use chatgpt_mcp_clean.Base.{
  ℕ, ◌≡◌, Bool, true, false, Option, none, some, List, [], ◌∷◌, if◌then◌else◌, Text, codes, text_eq,
  text_lt, Table, lookup, insert, erase, ◌>>=◌,
}
use chatgpt_mcp_clean.Base.Json.{
  Json, null, str, arr, obj, items_of, fields_of, to_fields, as_string,
}
use chatgpt_mcp_clean.Scope.{Host, canonical_scope}

-- `Date.parse`, with `none` for `NaN`, and `toISOString`.
pub record Dates : Type 0 where
  pub parse : Text → Option ℕ
  pub iso : ℕ → Text
  pub parse-iso : (t : ℕ) → parse (iso t) ≡ some t

-- `rest` holds the further fields that a claim in the file may have.
pub record Claim : Type 0 where
  pub actor : Text
  pub scope : Text
  pub timestamp : Text
  pub rest : Table Json

pub data Error : Type 0 where
  scope_empty : Error
  conflicting : Text → Error
  type_error : Error
  invalid_date : Error
  write_failed : Error

pub data Result {ℓ} (A : Type ℓ) : Type ℓ where
  ok : A → Result A
  err : Error → Result A

abbrev pub collision_lease_ms : ℕ
collision_lease_ms = 240000

unfoldable pub claim_fields : Claim → Table Json
claim_fields c =
    (codes "actor", str c.actor)
    ∷ (codes "scope", str c.scope)
    ∷ (codes "timestamp", str c.timestamp)
    ∷ c.rest

unfoldable pub claim_json : Claim → Json
unfolding claim_fields
claim_json c = obj (to_fields (claim_fields c))

unfoldable pub erase_known : Table Json → Table Json
erase_known m = erase (codes "timestamp") (erase (codes "scope") (erase (codes "actor") m))

-- The tests of `load` on one element: `none` where it is skipped.
unfoldable pub read_fields : Dates → Table Json → Option Claim
read_fields dates m = as_string (lookup (codes "actor") m) >>= λ actor.
    as_string (lookup (codes "scope") m) >>= λ scope.
    as_string (lookup (codes "timestamp") m) >>= λ timestamp. dates.parse timestamp >>= λ _.
    some (record { actor = actor; scope = scope; timestamp = timestamp; rest = erase_known m })

unfoldable pub read_claim : Dates → Json → Option Claim
read_claim dates (obj fields) = read_fields dates (fields_of fields)
read_claim dates _ = none

-- The body of the loop of `load`, for a claim that was not skipped.
unfoldable pub merge_claim : Host → Claim → Table Claim → Result (Table Claim)
merge_claim host claim next = elim (canonical_scope host claim.scope) [
  | none ↦ err scope_empty
  | some scope ↦
      let normalized = record claim { scope = scope } in
      elim (lookup scope next) [
        | none ↦ ok (insert scope normalized next)
        | some previous ↦
            if text_eq previous.actor normalized.actor
            then (if text_lt previous.timestamp normalized.timestamp
                then ok (insert scope normalized next)
                else ok next)
            else err (conflicting scope)
      ]
]

unfoldable pub gather : Host → Dates → List Json → Table Claim → Result (Table Claim)
gather host dates [] next = ok next
gather host dates (element ∷ elements) next = elim (read_claim dates element) [
  | none ↦ gather host dates elements next
  | some claim ↦ elim (merge_claim host claim next) [
    | err e ↦ err e
    | ok next' ↦ gather host dates elements next'
  ]
]

pub data StoreFile : Type 0 where
  missing : StoreFile
  garbled : StoreFile
  contents : Json → StoreFile

pub record Store : Type 0 where
  pub claims : Table Claim
  pub passthrough : Table Json
  pub file : StoreFile

abbrev pub load_claims : Host → Dates → Table Json → Option Json → Store → Result Store
load_claims host dates parsed (some (arr elements)) s =
    elim (gather host dates (items_of elements) []) [
      | err e ↦ err e
      | ok next ↦ ok (record s { claims = next; passthrough = erase (codes "claims") parsed })
    ]
load_claims host dates parsed _ s = ok s

-- Any value but `null` has a property `claims`, if only an undefined one.
abbrev load_json : Host → Dates → Json → Store → Result Store
load_json host dates (obj fields) s =
    load_claims host dates (fields_of fields) (lookup (codes "claims") (fields_of fields)) s
load_json host dates null s = err type_error
load_json host dates _ s = ok s

abbrev pub load_file : Host → Dates → StoreFile → Store → Result Store
load_file host dates missing s = ok (record s { claims = []; passthrough = [] })
load_file host dates garbled s = ok s
load_file host dates (contents parsed) s = load_json host dates parsed s

-- `load`; `unreadable` says that the read fails, and not because the file is missing. An error
-- leaves the store as it was.
unfoldable pub load : Host → Dates → (unreadable : Bool) → Store → Result Store
load host dates true s = ok s
load host dates false s = load_file host dates s.file s
