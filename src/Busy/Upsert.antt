-- ===== src/Busy/Upsert.antt =====
-- `upsertCompatibilityJob` and the keys of the jobs.
use chatgpt_mcp_clean.Base.{
  ℕ, ◌+◌, ◌≡◌, refl, sym, ap, subst, ◌∙◌, inl, inr, Bool, true, false, Option, none, some, [], ◌∷◌,
  if◌then◌else◌, Text, codes, text_eq, Table, lookup, insert, erase, lookup-insert, All, All-insert,
  All-erase, Bool-cases,
}
use chatgpt_mcp_clean.Base.Json.{Json, num}
use chatgpt_mcp_clean.Scope.{Host, canonical_scope}
use chatgpt_mcp_clean.Busy.Claims.{Dates, Claim, ok, collision_lease_ms}
use chatgpt_mcp_clean.Busy.Jobs.{
  as_record, or_empty, with_version, jobs, set_jobs, find_key, key_or, put_job, drop_key,
  upsert_compatibility_job,
}
use chatgpt_mcp_clean.Busy.Passthrough.{
  IsNamed, IsPassthrough, stored_jobs, set_stored-IsPassthrough,
}

lookup-version_added :
    (v : Json) (m : Table Json)
    → lookup (codes "jobs") (insert (codes "version") v m) ≡ lookup (codes "jobs") m
lookup-version_added v m =
    lookup-insert (codes "version") (codes "jobs") v m ∙ (unfold text_eq in refl)

lookup-with_version :
    (v : Option Json) (m : Table Json)
    → lookup (codes "jobs") (with_version v m) ≡ lookup (codes "jobs") m
lookup-with_version (some (num n)) m = refl
lookup-with_version v m = lookup-version_added (num (codes "1")) m

jobs-stored_jobs : (p : Table Json) → jobs p ≡ stored_jobs p
unfolding jobs
jobs-stored_jobs p = ap (λ o. or_empty (as_record o)) (lookup-with_version _ _)

module _ (host : Host) where
  find_key_named :
      (scope : Text) (js : Table Json)
      → All (IsNamed host) js
      → (found : Option Text) × (find_key host scope js ≡ ok found)
  unfolding find_key
  find_key_named scope [] h = (none, refl)
  find_key_named scope ((key, job) ∷ js) h = elim (Bool-cases (text_eq h.0.canonical scope)) [
    | inl e ↦ (some key, rw (h.0.named, find_key) (rw e))
    | inr e ↦
        let (found, rest) = find_key_named scope js h.1 in
        (found, rw (h.0.named, find_key) (rw e rest))
  ]

  put_job_named :
      (c : Claim) (lease key : Text) (js : Table Json)
      → canonical_scope host c.scope ≡ some c.scope
      → All (IsNamed host) js
      → All (IsNamed host) (put_job c lease key js)
  unfolding put_job
  put_job_named c lease key js stable h =
      All-insert (IsNamed host) c.scope _ (drop_key c key js)
        (record { canonical = c.scope; named = stable }) (dropped (text_eq key c.scope))
    where
      dropped : (b : Bool) → All (IsNamed host) (if b then js else erase key js)
      dropped true = h
      dropped false = All-erase (IsNamed host) key js h

  pub upsert_lem :
      (dates : Dates) (c : Claim) (p : Table Json) {t : ℕ}
      → canonical_scope host c.scope ≡ some c.scope
      → dates.parse c.timestamp ≡ some t
      → IsPassthrough host p
      → ((upsert_compatibility_job host dates c p).1 ≡ ok tt)
        × IsPassthrough host (upsert_compatibility_job host dates c p).0
  unfolding upsert_compatibility_job set_jobs
  upsert_lem dates c p {t} stable dated h =
      let named = subst (All (IsNamed host)) (sym (jobs-stored_jobs p)) h.jobs in
      let (found, e) = find_key_named c.scope (jobs p) named in
      rw (e, dated, upsert_compatibility_job)
        (
          refl,
          set_stored-IsPassthrough host p _ _ h (
              put_job_named c (dates.iso (t + collision_lease_ms)) (key_or found c.scope) (jobs p)
                stable named),
        )
