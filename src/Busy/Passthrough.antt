-- ===== src/Busy/Passthrough.antt =====
-- The fields of the file beside the claims: the coordinator's jobs keep named keys.
use chatgpt_mcp_clean.Base.{
  ◌≡◌, refl, sym, ap, subst, ◌∙◌, Bool, true, false, Option, none, some, [], ◌∷◌, if◌then◌else◌,
  Text, codes, text_eq, Table, lookup, insert, lookup-insert, lookup-insert_self, All,
}
use chatgpt_mcp_clean.Base.Json.{Json, obj, fields_of-to_fields, to_fields}
use chatgpt_mcp_clean.Scope.{Host, canonical_scope}
use chatgpt_mcp_clean.Busy.Claims.{ok}
use chatgpt_mcp_clean.Busy.Jobs.{
  as_record, or_empty, purge, purge_jobs, purge_coordinator, remove_coordinator_job,
}

-- The jobs in the file, as `removeCoordinatorJob` finds them.
abbrev pub stored_jobs : Table Json → Table Json
stored_jobs p =
    or_empty
      (as_record (lookup (codes "jobs") (or_empty (as_record (lookup (codes "coordinator") p)))))

module _ (host : Host) where
  -- A job under a key that is not blank.
  pub record IsNamed (job : Text × Json) : Type 0 where
    pub canonical : Text
    pub named : canonical_scope host job.0 ≡ some canonical

  -- The other fields of the file: every job is named, and none of them is the claims.
  pub record IsPassthrough (p : Table Json) : Type 0 where
    pub jobs : All IsNamed (stored_jobs p)
    pub apart : lookup (codes "claims") p ≡ none

abbrev pub set_stored : Table Json → Table Json → Table Json → Table Json
set_stored p found js =
    insert (codes "coordinator")
      (obj (to_fields (insert (codes "jobs") (obj (to_fields js)) found))) p

stored_jobs-set_stored : (p found js : Table Json) → stored_jobs (set_stored p found js) ≡ js
unfolding as_record
stored_jobs-set_stored p found js =
    ap (λ o. or_empty (as_record (lookup (codes "jobs") (or_empty (as_record o)))))
      (lookup-insert_self (codes "coordinator") (obj (to_fields inner)) p)
    ∙ ap (λ m. or_empty (as_record (lookup (codes "jobs") m))) (fields_of-to_fields inner)
    ∙ ap (λ o. or_empty (as_record o))
        (lookup-insert_self (codes "jobs") (obj (to_fields js)) found)
    ∙ fields_of-to_fields js
  where
    inner : Table Json
    inner = insert (codes "jobs") (obj (to_fields js)) found

module _ (host : Host) where
  pub set_stored-IsPassthrough :
      (p found js : Table Json)
      → IsPassthrough host p
      → All (IsNamed host) js
      → IsPassthrough host (set_stored p found js)
  set_stored-IsPassthrough p found js h named = record {
    jobs = subst (All (IsNamed host)) (sym (stored_jobs-set_stored p found js)) named;
    apart = lookup-insert (codes "coordinator") (codes "claims") _ p ∙ apart;
  }
    where
      apart :
          (if text_eq (codes "coordinator") (codes "claims")
            then some (obj (to_fields (insert (codes "jobs") (obj (to_fields js)) found)))
            else lookup (codes "claims") p)
          ≡ none
      apart = unfold text_eq in h.apart

  purge_named :
      (scope : Text) (js : Table Json)
      → All (IsNamed host) js
      → ((purge host scope js).1 ≡ ok tt) × All (IsNamed host) (purge host scope js).0
  unfolding purge
  purge_named scope [] h = (refl, tt)
  purge_named scope ((key, job) ∷ js) h =
      let (done, named) = purge_named scope js h.1 in
      rw (h.0.named, purge) (done, keep (text_eq h.0.canonical scope) _ named)
    where
      keep :
          (b : Bool) (left : Table Json)
          → All (IsNamed host) left
          → All (IsNamed host) (if b then left else (key, job) ∷ left)
      keep true left named = named
      keep false left named = (h.0, named)

  purge_jobs_lem :
      (scope : Text) (p found : Table Json) (js : Option (Table Json))
      → IsPassthrough host p
      → All (IsNamed host) (or_empty js)
      → ((purge_jobs host scope p found js).1 ≡ ok tt)
        × IsPassthrough host (purge_jobs host scope p found js).0
  purge_jobs_lem scope p found none h named = (refl, h)
  purge_jobs_lem scope p found (some js) h named =
      let (done, left) = purge_named scope js named in
      (done, set_stored-IsPassthrough p found _ h left)

  purge_coordinator_lem :
      (scope : Text) (p : Table Json) (found : Option (Table Json))
      → IsPassthrough host p
      → All (IsNamed host) (or_empty (as_record (lookup (codes "jobs") (or_empty found))))
      → ((purge_coordinator host scope p found).1 ≡ ok tt)
        × IsPassthrough host (purge_coordinator host scope p found).0
  purge_coordinator_lem scope p none h named = (refl, h)
  purge_coordinator_lem scope p (some found) h named = purge_jobs_lem scope p found _ h named

  pub remove_coordinator_job_lem :
      (scope : Text) (p : Table Json)
      → IsPassthrough host p
      → ((remove_coordinator_job host scope p).1 ≡ ok tt)
        × IsPassthrough host (remove_coordinator_job host scope p).0
  unfolding remove_coordinator_job
  remove_coordinator_job_lem scope p h = purge_coordinator_lem scope p _ h h.jobs
