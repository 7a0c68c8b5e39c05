-- ===== src/Busy/Exclusion.antt =====
-- Calls of several processes, one after the other under the lock, on the file that they share.
use chatgpt_mcp_clean.Base.{
  ℕ, ◌+◌, ◌≡◌, refl, sym, ap, subst, ◌∙◌, inl, inr, Bool, true, false, Option, none, some, arith,
  leb, if◌then◌else◌, Text, text_eq, Table, lookup, insert, lookup-insert_self, Bool-cases,
}
use chatgpt_mcp_clean.Base.Json.{Json}
use chatgpt_mcp_clean.Scope.{Host, canonical_scope}
use chatgpt_mcp_clean.Busy.Claims.{Dates, Claim, Result, ok, StoreFile, Store, collision_lease_ms}
use chatgpt_mcp_clean.Busy.Store.{
  Env, ClaimReply, granted, scope_already_claimed, claim, release, list,
}
use chatgpt_mcp_clean.Busy.Reload.{IsSoundTable}
use chatgpt_mcp_clean.Busy.Passthrough.{IsPassthrough}
use chatgpt_mcp_clean.Busy.Pruning.{live}
use chatgpt_mcp_clean.Busy.Refresh.{Holds, Works}
use chatgpt_mcp_clean.Busy.Register.{claim_spec_at, claim_spec}
use chatgpt_mcp_clean.Busy.Commit.{Implements, Starts}
use chatgpt_mcp_clean.Busy.Refinement.{claim_lem, release_lem, list_lem}
use chatgpt_mcp_clean.Busy.Guarded.{Guarded, live-Guarded, claim_spec-Guarded, release_spec-Guarded}

-- A call that runs before the lease since `since` is over, and whose reads and writes go through.
pub record InLease (since : ℕ) (env : Env) : Type 0 where
  pub readable : env.unreadable ≡ false
  pub prunes : Works env.prune_write
  pub commits : Works env.commit_write
  pub later : leb since env.now ≡ true
  pub soon : leb (since + collision_lease_ms) env.now ≡ false

-- The canonical form of a scope is its own canonical form.
abbrev pub IsStable : Host → Text → Type 0
IsStable host scope =
    (c : Text) → canonical_scope host scope ≡ some c → canonical_scope host c ≡ some c

module _ (host : Host) (dates : Dates) (after : Text → Text → Bool) (actor scope : Text)
    (since : ℕ) where
  -- The files that a row of calls leaves. Each call may be made by a process of its own, whose memory
  -- is whatever it is. Only `actor` itself releases its claim of `scope`, and here it does not.
  pub data Calls (last : StoreFile) : StoreFile → Type 0 where
    done : Calls last last
    then_claim :
        {file : StoreFile} (env : Env) (by other : Text) (s : Store)
        → s.file ≡ file
        → InLease since env
        → IsStable host other
        → Calls last (claim host dates env by other s).1.file
        → Calls last file
    then_release :
        {file : StoreFile} (env : Env) (by other : Text) (s : Store)
        → s.file ≡ file
        → InLease since env
        → (canonical_scope host other ≡ some scope → text_eq actor by ≡ false)
        → Calls last (release host dates env by other s).1.file
        → Calls last file
    then_list :
        {file : StoreFile} (env : Env) (s : Store)
        → s.file ≡ file
        → InLease since env
        → Calls last (list host dates after env s).1.file
        → Calls last file

  pub record Kept (file : StoreFile) : Type 0 where
    pub m : Table Claim
    pub p : Table Json
    pub sound : IsSoundTable host dates m
    pub fields : IsPassthrough host p
    pub holds : Holds file m p
    pub guarded : Guarded dates actor scope since m

  Kept-Starts :
      (env : Env) (s : Store) (file : StoreFile) (k : Kept file)
      → s.file ≡ file
      → InLease since env
      → Starts host dates env k.m k.p s
  Kept-Starts env s file k e h = record {
    readable = h.readable;
    prunes = h.prunes;
    commits = h.commits;
    sound = k.sound;
    fields = k.fields;
    holds = subst (λ f. Holds f k.m k.p) (sym e) k.holds;
  }

  Implements-Kept :
      {R : Type 0} (r : Result R × Store) (spec : Result R × Table Claim)
      → Implements host dates r spec
      → Guarded dates actor scope since spec.1
      → Kept r.1.file
  Implements-Kept r spec h g = record {
    m = spec.1;
    p = r.1.passthrough;
    sound = h.sound;
    fields = h.fields;
    holds = h.holds;
    guarded = g;
  }

  Calls-Kept : (last file : StoreFile) → Calls last file → Kept file → Kept last
  Calls-Kept last file done k = k
  Calls-Kept last file (then_claim env by other s e h stable rest) k = Calls-Kept last _ rest (
      Implements-Kept _ _
        (claim_lem host dates env other by s k.m k.p stable (Kept-Starts env s file k e h))
        (claim_spec-Guarded host dates actor scope since env.now by (canonical_scope host other) _
          h.later (live-Guarded host dates actor scope since env.now k.m h.soon k.guarded)))
  Calls-Kept last file (then_release env by other s e h own rest) k = Calls-Kept last _ rest (
      Implements-Kept _ _
        (release_lem host dates env other by s k.m k.p (Kept-Starts env s file k e h))
        (release_spec-Guarded host dates actor scope since env.now by (canonical_scope host other) _
          own (live-Guarded host dates actor scope since env.now k.m h.soon k.guarded)))
  Calls-Kept last file (then_list env s e h rest) k = Calls-Kept last _ rest (
      Implements-Kept _ _ (list_lem host dates after env s k.m k.p (Kept-Starts env s file k e h))
        (live-Guarded host dates actor scope since env.now k.m h.soon k.guarded))

abbrev from_option : Text → Option Text → Text
from_option d none = d
from_option d (some c) = c

abbrev granted_of : Result ClaimReply → Claim → Claim
granted_of (ok (granted c)) d = c
granted_of _ d = d

module _ (host : Host) (dates : Dates) (now : ℕ) (actor : Text) (m : Table Claim) (k : Claim) where
  granted-Guarded :
      (scope : Text) (c : Claim)
      → c ≡ k
      → c.scope ≡ scope
      → c.actor ≡ actor
      → dates.parse c.timestamp ≡ some now
      → Guarded dates actor k.scope now (insert scope c m)
  granted-Guarded scope c e in_scope by_actor dated = record {
    claim = c;
    found =
        ap (λ s. lookup s (insert scope c m)) (sym (ap (λ x. x.scope) e) ∙ in_scope)
        ∙ lookup-insert_self scope c m;
    owner = by_actor;
    time = now;
    dated = dated;
    recent = ground arith;
  }

  claim_spec_at-granted :
      (scope : Text) (found : Option Claim)
      → (claim_spec_at host dates now actor scope m found).0 ≡ ok (granted k)
      → (scope ≡ k.scope)
        × Guarded dates actor k.scope now (claim_spec_at host dates now actor scope m found).1
  claim_spec_at-granted scope none = λ e.
      let same = ap (λ r. granted_of r k) e in
      (ap (λ c. c.scope) same, granted-Guarded scope _ same refl refl (dates.parse-iso now))
  claim_spec_at-granted scope (some current) = elim (Bool-cases (text_eq current.actor actor)) [
    | inl mine ↦ rw mine λ e.
        let same = ap (λ r. granted_of r k) e in
        (ap (λ c. c.scope) same, granted-Guarded scope _ same refl refl (dates.parse-iso now))
    | inr theirs ↦ rw theirs λ e. absurd (refused current e)
  ]
    where
      refused : (c : Claim) → ¬ (ok (scope_already_claimed c) ≡ ok (granted k))
      refused c = ground arith

  claim_spec-granted :
      (o : Option Text)
      → (claim_spec host dates now actor o m).0 ≡ ok (granted k)
      → (o ≡ some k.scope) × Guarded dates actor k.scope now (claim_spec host dates now actor o m).1
  claim_spec-granted none e = ground arith
  claim_spec-granted (some scope) e =
      let (same, guarded) = claim_spec_at-granted scope (lookup scope m) e in
      (ap some same, guarded)

module _ (host : Host) (dates : Dates) (actor scope by : Text) (since now : ℕ)
    (m : Table Claim) where
  -- The register refuses the scope to anyone but the owner.
  claim_spec-refused :
      Guarded dates actor scope since m
      → text_eq actor by ≡ false
      → (current : Claim) × ((claim_spec host dates now by (some scope) m).0
          ≡ ok (scope_already_claimed current))
        × (current.actor ≡ actor)
  claim_spec-refused h other = (h.claim, rw h.found (rw (differs, if◌then◌else◌) refl), h.owner)
    where
      differs : text_eq h.claim.actor by ≡ false
      differs = ap (λ a. text_eq a by) h.owner ∙ other

-- Once `claim` has granted a scope, and until the lease is over, no `claim` of the scope in any
-- spelling by another actor is granted, in any process and whatever its memory: it is refused with
-- the owner's claim. In between, any processes may claim, release and list anything, one call
-- after the other, but for a release of the scope by its owner. Every call's reads and writes go
-- through, its time is from that of the grant on and before the end of the lease, and the
-- canonical form of every scope claimed is its own canonical form. Before the grant, the file is
-- missing, or what `persist` writes for claims each under its own canonical scope, one for each,
-- with a time that can be read and no further field called actor, scope or timestamp, and for
-- other fields of which none is the claims and in which no job of the coordinator has a blank key.
-- A file that cannot be parsed, one with two claims of the same canonical scope, and one with a
-- blank job key are outside.
pub claim-excludes :
    (host : Host) (dates : Dates) (after : Text → Text → Bool) (actor spelled : Text) (k : Claim)
    (first : Env) (s : Store) (m : Table Claim) (p : Table Json)
    → IsStable host spelled
    → Starts host dates first m p s
    → (claim host dates first actor spelled s).0 ≡ ok (granted k)
    → (last : StoreFile)
    → Calls host dates after actor k.scope first.now last
        (claim host dates first actor spelled s).1.file
    → (env : Env) (by other : Text) (s' : Store) → s'.file ≡ last
    → InLease first.now env
    → canonical_scope host other ≡ some k.scope
    → text_eq actor by ≡ false
    → (current : Claim) × ((claim host dates env by other s').0
        ≡ ok (scope_already_claimed current))
      × (current.actor ≡ actor)
claim-excludes host dates after actor spelled k first s m p stable start e last calls env by other
      s' at_last lease same differs =
    let begun = claim_lem host dates first spelled actor s m p stable start in
    let (named, guarded) =
      claim_spec-granted host dates first.now actor (live dates first.now m) k
        (canonical_scope host spelled) (sym begun.reply ∙ e) in
    let kept =
      Calls-Kept host dates after actor k.scope first.now last _ calls
        (Implements-Kept host dates after actor k.scope first.now _ _ begun guarded) in
    let ended =
      claim_lem host dates env other by s' kept.m kept.p (again (stable k.scope named))
        (Kept-Starts host dates after actor k.scope first.now env s' last kept at_last lease) in
    let (current, refused, owner) =
      claim_spec-refused host dates actor k.scope by first.now env.now (live dates env.now kept.m)
        (live-Guarded host dates actor k.scope first.now env.now kept.m lease.soon kept.guarded)
        differs in
    (
      current,
      ended.reply
          ∙ ap (λ o. (claim_spec host dates env.now by o (live dates env.now kept.m)).0) same
          ∙ refused,
      owner,
    )
  where
    again : canonical_scope host k.scope ≡ some k.scope → IsStable host other
    again fixed c h =
        let same_scope : c ≡ k.scope = ap (from_option k.scope) (sym h ∙ same) in
        ap (canonical_scope host) same_scope ∙ fixed ∙ ap some (sym same_scope)
