-- ===== src/Busy/Refinement.antt =====
-- `claim`, `release` and `list` against an abstract register of claims.
use chatgpt_mcp_clean.Base.{
  ◌≡◌, refl, sym, ap, subst, inl, inr, Bool, Option, none, some, Text, text_eq, Table, lookup,
  erase, Bool-cases,
}
use chatgpt_mcp_clean.Base.Json.{Json}
use chatgpt_mcp_clean.Scope.{Host, canonical_scope}
use chatgpt_mcp_clean.Busy.Claims.{Dates, Claim, Result, ok, err, scope_empty, StoreFile, Store}
use chatgpt_mcp_clean.Busy.Jobs.{remove_coordinator_job}
use chatgpt_mcp_clean.Busy.Store.{
  Env, Action, ◌>>=◌, decide_claim, claim, canonical, scope_or_error, released, remove_job_action,
  decide_release, persist, release, refresh, list, sort_by_scope, values,
}
use chatgpt_mcp_clean.Busy.Reload.{IsSoundTable}
use chatgpt_mcp_clean.Busy.Passthrough.{IsPassthrough, remove_coordinator_job_lem}
use chatgpt_mcp_clean.Busy.Pruning.{live, live-IsSoundTable}
use chatgpt_mcp_clean.Busy.Refresh.{Holds, Works, bind_of_ok, Refreshed}
use chatgpt_mcp_clean.Busy.Register.{claim_spec_at, claim_spec, release_spec_at, release_spec}
use chatgpt_mcp_clean.Busy.Commit.{
  Implements, Starts, Starts-Refreshed, erase-IsSoundTable, commit_lem, grant_lem, keep_lem,
}

module _ (host : Host) (dates : Dates) (env : Env) (actor : Text) where
  module _ (m : Table Claim) (p : Table Json) (file : StoreFile) (works : Works env.commit_write)
      (sound : IsSoundTable host dates m) (h : IsPassthrough host p) (holds : Holds file m p) where
    decide_claim_lem :
        (scope : Text) (found : Option Claim)
        → canonical_scope host scope ≡ some scope
        → Implements host dates
            (decide_claim host dates env actor scope found
              (record { claims = m; passthrough = p; file = file }))
            (claim_spec_at host dates env.now actor scope m found)
    decide_claim_lem scope none stable =
        grant_lem host dates env actor scope m p file stable works sound h
    decide_claim_lem scope (some current) stable = elim (Bool-cases (text_eq current.actor actor)) [
      | inl e ↦ rw e (grant_lem host dates env actor scope m p file stable works sound h)
      | inr e ↦ rw e (keep_lem host dates env _ m p file sound h holds)
    ]

    decide_release_lem :
        (scope : Text) (found : Option Claim)
        → Implements host dates
            (decide_release host env actor scope found
              (record { claims = m; passthrough = p; file = file }))
            (release_spec_at host dates env.now actor scope m found)
    decide_release_lem scope none = keep_lem host dates env _ m p file sound h holds
    decide_release_lem scope (some current) = elim (Bool-cases (text_eq current.actor actor)) [
      | inl e ↦ rw e dropped
      | inr e ↦ rw e (keep_lem host dates env _ m p file sound h holds)
    ]
      where
        s : Store
        s = record { claims = erase scope m; passthrough = p; file = file }

        dropped :
            Implements host dates
              ((remove_job_action host scope >>= λ _.
                  persist env.commit_write >>= λ _ s'. (ok (released current), s'))
                s)
              (ok (released current), erase scope m)
        dropped =
            let (done, fields) = remove_coordinator_job_lem host scope p h in
            commit_lem host dates env (remove_job_action host scope) (released current) s
              (remove_coordinator_job host scope p).0
              (ap (λ r. (r, record s { passthrough = (remove_coordinator_job host scope p).0 }))
                done)
              works (erase-IsSoundTable host dates env m scope sound) fields

module _ (host : Host) (dates : Dates) (env : Env) (scope : Text) where
  -- An operation refreshes the store, finds the scope, and goes on with the live claims.
  operation_lem :
      {R : Type 0} (f : Text → Action R) (spec : Option Text → Result R × Table Claim) (s : Store)
      (m : Table Claim) (p : Table Json)
      → Starts host dates env m p s
      → spec none ≡ (err scope_empty, live dates env.now m)
      → ((c : Text) (p' : Table Json) (file' : StoreFile)
          → canonical_scope host scope ≡ some c
          → IsPassthrough host p'
          → Holds file' (live dates env.now m) p'
          → Implements host dates
              (f c (record { claims = live dates env.now m; passthrough = p'; file = file' }))
              (spec (some c)))
      → Implements host dates
          ((refresh host dates env >>= λ _. canonical host scope >>= f) s)
          (spec (canonical_scope host scope))
  operation_lem f spec s m p h empty step =
      subst (λ r. Implements host dates r (spec (canonical_scope host scope)))
        (sym (bind_of_ok (refresh host dates env) (λ _. canonical host scope >>= f) s fresh.runs))
        (choose (canonical_scope host scope) refl)
    where
      fresh : Refreshed host dates env m s
      fresh = Starts-Refreshed host dates env m p s h

      sound : IsSoundTable host dates (live dates env.now m)
      sound = live-IsSoundTable host dates env.now m h.sound

      choose :
          (o : Option Text)
          → canonical_scope host scope ≡ o
          → Implements host dates
              ((scope_or_error o >>= f) (record {
                claims = live dates env.now m;
                passthrough = fresh.p';
                file = fresh.file';
              }))
              (spec o)
      choose none e =
          subst
            (Implements host dates (
              err scope_empty,
              record { claims = live dates env.now m; passthrough = fresh.p'; file = fresh.file' },
            ))
            (sym empty)
            (keep_lem host dates env (err scope_empty) _ fresh.p' fresh.file' sound fresh.sound
              fresh.holds)
      choose (some c) e = step c fresh.p' fresh.file' e fresh.sound fresh.holds

  -- Whatever a store has in memory, `claim` answers from the claims in the file whose lease is not
  -- over, as the register does, and leaves a file with the register's claims from which the next
  -- operation can start. The file can be read, the writes go through, and the canonical form of
  -- the scope is its own canonical form, as it is for every scope that is not a path. The file is
  -- missing, or what `persist` writes for claims each under its own canonical scope, one for each,
  -- with a time that can be read and no further field called actor, scope or timestamp, and for
  -- other fields of which none is the claims and in which no job of the coordinator has a blank
  -- key. A file that cannot be parsed, one with two claims of the same canonical scope, and one
  -- with a blank job key are outside.
  pub claim_lem :
      (actor : Text) (s : Store) (m : Table Claim) (p : Table Json)
      → ((c : Text) → canonical_scope host scope ≡ some c → canonical_scope host c ≡ some c)
      → Starts host dates env m p s
      → Implements host dates
          (claim host dates env actor scope s)
          (claim_spec host dates env.now actor (canonical_scope host scope) (live dates env.now m))
  unfolding claim
  claim_lem actor s m p stable h =
      operation_lem (λ c s'. decide_claim host dates env actor c (lookup c s'.claims) s')
        (λ o. claim_spec host dates env.now actor o (live dates env.now m)) s m p h refl
        λ c p' file' e sound holds.
          decide_claim_lem host dates env actor (live dates env.now m) p' file' h.commits
            (live-IsSoundTable host dates env.now m h.sound) sound holds c
            (lookup c (live dates env.now m)) (stable c e)

  -- Whatever a store has in memory, `release` answers from the claims in the file whose lease is
  -- not over, as the register does, for every scope, and leaves a file with the register's claims
  -- from which the next operation can start. The file can be read and the writes go through. The
  -- file is missing, or what `persist` writes for claims each under its own canonical scope, one
  -- for each, with a time that can be read and no further field called actor, scope or timestamp,
  -- and for other fields of which none is the claims and in which no job of the coordinator has a
  -- blank key. A file that cannot be parsed, one with two claims of the same canonical scope, and
  -- one with a blank job key are outside.
  pub release_lem :
      (actor : Text) (s : Store) (m : Table Claim) (p : Table Json)
      → Starts host dates env m p s
      → Implements host dates (release host dates env actor scope s) (
          release_spec host dates env.now actor (canonical_scope host scope) (live dates env.now m))
  unfolding release
  release_lem actor s m p h =
      operation_lem (λ c s'. decide_release host env actor c (lookup c s'.claims) s')
        (λ o. release_spec host dates env.now actor o (live dates env.now m)) s m p h refl
        λ c p' file' e sound holds.
          decide_release_lem host dates env actor (live dates env.now m) p' file' h.commits
            (live-IsSoundTable host dates env.now m h.sound) sound holds c
            (lookup c (live dates env.now m))

module _ (host : Host) (dates : Dates) (after : Text → Text → Bool) (env : Env) where
  -- From such a file, `list` returns the claims whose lease is not over as the model sorts them,
  -- and keeps them.
  pub list_lem :
      (s : Store) (m : Table Claim) (p : Table Json)
      → Starts host dates env m p s
      → Implements host dates
          (list host dates after env s)
          (ok (sort_by_scope after (values (live dates env.now m))), live dates env.now m)
  unfolding list
  list_lem s m p h =
      let fresh = Starts-Refreshed host dates env m p s h in
      subst
        (λ r.
          Implements host dates r
            (ok (sort_by_scope after (values (live dates env.now m))), live dates env.now m))
        (sym (
          bind_of_ok (refresh host dates env)
            (λ _ s'. (ok (sort_by_scope after (values s'.claims)), s')) s fresh.runs))
        (keep_lem host dates env _ (live dates env.now m) fresh.p' fresh.file'
          (live-IsSoundTable host dates env.now m h.sound) fresh.sound fresh.holds)
