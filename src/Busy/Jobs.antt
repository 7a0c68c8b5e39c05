-- ===== src/Busy/Jobs.antt =====
-- The compatibility jobs of src/lib/busy-store.ts, under `coordinator.jobs` in the store's file.
use chatgpt_mcp_clean.Base.{
  ◌+◌, Option, none, some, [], ◌∷◌, if◌then◌else◌, Text, codes, text_eq, Table, lookup, insert,
  erase,
}
use chatgpt_mcp_clean.Base.Json.{Json, null, num, str, obj, fields_of, to_fields, as_string}
use chatgpt_mcp_clean.Scope.{Host, canonical_scope}
use chatgpt_mcp_clean.Busy.Claims.{
  Dates, Claim, Result, ok, err, scope_empty, invalid_date, collision_lease_ms,
}

-- `asRecord`.
unfoldable pub as_record : Option Json → Option (Table Json)
as_record (some (obj fields)) = some (fields_of fields)
as_record _ = none

abbrev pub or_empty : Option (Table Json) → Table Json
or_empty none = []
or_empty (some m) = m

abbrev pub with_version : Option Json → Table Json → Table Json
with_version (some (num n)) coordinator = coordinator
with_version _ coordinator = insert (codes "version") (num (codes "1")) coordinator

-- What `coordinatorJobs` makes of the field, and the jobs in it.
unfoldable pub coordinator : Table Json → Table Json
coordinator passthrough =
    let found = or_empty (as_record (lookup (codes "coordinator") passthrough)) in
    with_version (lookup (codes "version") found) found

unfoldable pub jobs : Table Json → Table Json
unfolding coordinator
jobs passthrough = or_empty (as_record (lookup (codes "jobs") (coordinator passthrough)))

-- The jobs are shared by reference in the source: a change of them is a change of `passthrough`.
unfoldable pub set_jobs : Table Json → Table Json → Table Json
unfolding coordinator
set_jobs passthrough js =
    insert (codes "coordinator")
      (obj (to_fields (insert (codes "jobs") (obj (to_fields js)) (coordinator passthrough))))
      passthrough

-- `Object.keys(jobs).find(…)`, which throws at a blank key that it reaches.
unfoldable pub find_key : Host → Text → Table Json → Result (Option Text)
find_key host scope [] = ok none
find_key host scope ((key, job) ∷ js) = elim (canonical_scope host key) [
  | none ↦ err scope_empty
  | some canonical ↦ if text_eq canonical scope then ok (some key) else find_key host scope js
]

abbrev checkpoint : Option Text → Json
checkpoint none = null
checkpoint (some s) = str s

unfoldable pub compatibility_job : Claim → Text → Table Json → Table Json
compatibility_job claim lease_expires_at previous =
    let kept = checkpoint (as_string (lookup (codes "checkpoint") previous)) in
    insert (codes "updated_at") (str claim.timestamp) (
      insert (codes "checkpoint") kept (
        insert (codes "claim_timestamp") (str claim.timestamp) (
          insert (codes "lease_expires_at") (str lease_expires_at) (
            insert (codes "owner") (str claim.actor) (
              insert (codes "state") (str (codes "active")) (
                insert (codes "scope") (str claim.scope)
                  (insert (codes "job_id") (str claim.scope) previous)))))))

-- The jobs without a key under which the scope stood before.
abbrev pub drop_key : Claim → Text → Table Json → Table Json
drop_key claim key js = if text_eq key claim.scope then js else erase key js

-- The job under its key, once the key under which it stood is known.
unfoldable pub put_job : Claim → Text → Text → Table Json → Table Json
put_job claim lease_expires_at key js =
    let previous = or_empty (as_record (lookup key js)) in
    insert claim.scope (obj (to_fields (compatibility_job claim lease_expires_at previous)))
      (drop_key claim key js)

abbrev pub key_or : Option Text → Text → Text
key_or none scope = scope
key_or (some key) scope = key

-- The passthrough fields afterwards, also where it throws.
unfoldable pub upsert_compatibility_job :
    Host → Dates → Claim → Table Json → Table Json × Result (Unit {0})
upsert_compatibility_job host dates claim passthrough =
    let js = jobs passthrough in
    elim (find_key host claim.scope js) [
      | err e ↦ (set_jobs passthrough js, err e)
      | ok found ↦
          let key = key_or found claim.scope in
          elim (dates.parse claim.timestamp) [
            | none ↦ (set_jobs passthrough (drop_key claim key js), err invalid_date)
            | some t ↦ (
              set_jobs passthrough (put_job claim (dates.iso (t + collision_lease_ms)) key js),
              ok tt,
            )
          ]
    ]

-- The loop of `removeCoordinatorJob`: what is left, and whether it threw at a blank key.
unfoldable pub purge : Host → Text → Table Json → Table Json × Result (Unit {0})
purge host scope [] = ([], ok tt)
purge host scope ((key, job) ∷ js) = elim (canonical_scope host key) [
  | none ↦ ((key, job) ∷ js, err scope_empty)
  | some canonical ↦
      let (left, r) = purge host scope js in
      (if text_eq canonical scope then left else (key, job) ∷ left, r)
]

abbrev pub purge_jobs :
    Host → Text → Table Json → Table Json → Option (Table Json) → Table Json × Result (Unit {0})
purge_jobs host scope passthrough found none = (passthrough, ok tt)
purge_jobs host scope passthrough found (some js) =
    let (left, r) = purge host scope js in
    (
      insert (codes "coordinator")
          (obj (to_fields (insert (codes "jobs") (obj (to_fields left)) found))) passthrough,
      r,
    )

abbrev pub purge_coordinator :
    Host → Text → Table Json → Option (Table Json) → Table Json × Result (Unit {0})
purge_coordinator host scope passthrough none = (passthrough, ok tt)
purge_coordinator host scope passthrough (some found) =
    purge_jobs host scope passthrough found (as_record (lookup (codes "jobs") found))

unfoldable pub remove_coordinator_job : Host → Text → Table Json → Table Json × Result (Unit {0})
remove_coordinator_job host scope passthrough =
    purge_coordinator host scope passthrough (as_record (lookup (codes "coordinator") passthrough))
