-- ===== src/Busy/Commit.antt =====
-- The writes of `claim` and `release`: what is in the file once they went through.
use chatgpt_mcp_clean.Base.{
  ◌≡◌, refl, sym, ap, subst, ◌∙◌, false, some, Text, Table, lookup, insert, erase, All-insert,
  All-erase, Distinct-insert, Distinct-erase,
}
use chatgpt_mcp_clean.Base.Json.{Json}
use chatgpt_mcp_clean.Scope.{Host, canonical_scope}
use chatgpt_mcp_clean.Busy.Claims.{Dates, Claim, Result, ok, StoreFile, contents, Store}
use chatgpt_mcp_clean.Busy.Jobs.{upsert_compatibility_job}
use chatgpt_mcp_clean.Busy.Store.{
  Env, Action, ◌>>=◌, payload, persist, upsert_action, grant, new_claim, granted,
}
use chatgpt_mcp_clean.Busy.Reload.{IsSound, IsSoundTable}
use chatgpt_mcp_clean.Busy.Passthrough.{IsPassthrough}
use chatgpt_mcp_clean.Busy.Refresh.{
  Holds, written, Works, persist_lem, bind_of_ok, Refreshed, refresh_lem,
}
use chatgpt_mcp_clean.Busy.Upsert.{upsert_lem}

-- An operation has done what the register does, and left a file that the next one can start from.
pub record Implements {R : Type 0} (host : Host) (dates : Dates) (r : Result R × Store)
    (spec : Result R × Table Claim) : Type 0 where
  pub reply : r.0 ≡ spec.0
  pub claims : r.1.claims ≡ spec.1
  pub sound : IsSoundTable host dates spec.1
  pub fields : IsPassthrough host r.1.passthrough
  pub holds : Holds r.1.file spec.1 r.1.passthrough

-- What an operation needs of its surroundings: the file can be read, the writes go through, and the
-- file holds the claims `m` and the fields `p`. What the store has in memory does not matter.
pub record Starts (host : Host) (dates : Dates) (env : Env) (m : Table Claim) (p : Table Json)
    (s : Store) : Type 0 where
  pub readable : env.unreadable ≡ false
  pub prunes : Works env.prune_write
  pub commits : Works env.commit_write
  pub sound : IsSoundTable host dates m
  pub fields : IsPassthrough host p
  pub holds : Holds s.file m p

module _ (host : Host) (dates : Dates) (env : Env) where
  pub Starts-Refreshed :
      (m : Table Claim) (p : Table Json) (s : Store)
      → Starts host dates env m p s
      → Refreshed host dates env m s
  Starts-Refreshed m p s h =
      refresh_lem host dates env s m p h.readable h.prunes h.sound h.fields h.holds

  insert-IsSoundTable :
      (m : Table Claim) (actor scope : Text)
      → canonical_scope host scope ≡ some scope
      → IsSoundTable host dates m
      → IsSoundTable host dates (insert scope (new_claim dates env actor scope) m)
  insert-IsSoundTable m actor scope stable h = record {
    entries = All-insert (IsSound host dates) scope _ m sound h.entries;
    distinct = Distinct-insert scope _ m h.distinct;
  }
    where
      sound : IsSound host dates (scope, new_claim dates env actor scope)
      sound = record {
        keyed = refl;
        stable = stable;
        time = env.now;
        dated = dates.parse-iso env.now;
        apart = unfold lookup in record { actor = refl; scope = refl; timestamp = refl };
      }

  pub erase-IsSoundTable :
      (m : Table Claim) (scope : Text)
      → IsSoundTable host dates m
      → IsSoundTable host dates (erase scope m)
  erase-IsSoundTable m scope h = record {
    entries = All-erase (IsSound host dates) scope m h.entries;
    distinct = Distinct-erase scope m h.distinct;
  }

  -- A write that goes through leaves a file with the claims that the reply is about.
  pub commit_lem :
      {R : Type 0} (m : Action (Unit {0})) (reply : R) (s : Store) (left : Table Json)
      → m s ≡ (ok tt, record s { passthrough = left })
      → Works env.commit_write
      → IsSoundTable host dates s.claims
      → IsPassthrough host left
      → Implements host dates
          ((m >>= λ _. persist env.commit_write >>= λ _ s'. (ok reply, s')) s)
          (ok reply, s.claims)
  commit_lem {R} m reply s left e works sound h =
      subst (λ r. Implements host dates r (ok reply, s.claims)) (sym runs)
        (record { reply = refl; claims = refl; sound = sound; fields = h; holds = written refl })
    where
      runs :
          (m >>= λ _. persist env.commit_write >>= λ _ s'. (ok reply, s')) s
          ≡ (ok reply, record s { passthrough = left; file = contents (payload s.claims left) })
      runs =
          bind_of_ok m (λ _. persist env.commit_write >>= λ _ s'. (ok reply, s')) s e
          ∙ bind_of_ok (persist env.commit_write) (λ _ s'. (ok reply, s'))
              (record s { passthrough = left }) (persist_lem env.commit_write _ works)

  pub grant_lem :
      (actor scope : Text) (m : Table Claim) (p : Table Json) (file : StoreFile)
      → canonical_scope host scope ≡ some scope
      → Works env.commit_write
      → IsSoundTable host dates m
      → IsPassthrough host p
      → Implements host dates
          (grant host dates env
            (new_claim dates env actor scope)
            (record { claims = m; passthrough = p; file = file }))
          (
            ok (granted (new_claim dates env actor scope)),
            insert scope (new_claim dates env actor scope) m,
          )
  unfolding grant
  grant_lem actor scope m p file stable works sound h =
      let c = new_claim dates env actor scope in
      let (done, fields) = upsert_lem host dates c p stable (dates.parse-iso env.now) h in
      let s : Store = record { claims = insert scope c m; passthrough = p; file = file } in
      commit_lem (upsert_action host dates c) (granted c) s
        (upsert_compatibility_job host dates c p).0
        (ap (λ r. (r, record s { passthrough = (upsert_compatibility_job host dates c p).0 })) done)
        works (insert-IsSoundTable m actor scope stable sound) fields

  -- A reply that leaves the refreshed store as it is.
  pub keep_lem :
      {R : Type 0} (reply : Result R) (m : Table Claim) (p : Table Json) (file : StoreFile)
      → IsSoundTable host dates m
      → IsPassthrough host p
      → Holds file m p
      → Implements host dates
          (reply, record { claims = m; passthrough = p; file = file })
          (reply, m)
  keep_lem reply m p file sound h holds = record {
    reply = refl;
    claims = refl;
    sound = sound;
    fields = h;
    holds = holds;
  }
