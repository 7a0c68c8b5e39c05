-- ===== src/Busy/Listing.antt =====
-- What `list` of src/lib/busy-store.ts returns, described without its sort.
use chatgpt_mcp_clean.Base.{◌≡◌, Bool, true, false, List, [], ◌∷◌, All, Text, Table, if-cases}
use mathlib.Core.List.Perm
use mathlib.Core.List.{Perm}
use chatgpt_mcp_clean.Base.Json.{Json}
use chatgpt_mcp_clean.Scope.{Host}
use chatgpt_mcp_clean.Busy.Claims.{Dates, Claim, Result, ok, Store}
use chatgpt_mcp_clean.Busy.Store.{Env, values, insert_sorted, sort_by_scope, list}
use chatgpt_mcp_clean.Busy.Reload.{IsSoundTable}
use chatgpt_mcp_clean.Busy.Passthrough.{IsPassthrough}
use chatgpt_mcp_clean.Busy.Pruning.{live}
use chatgpt_mcp_clean.Busy.Refresh.{Holds}
use chatgpt_mcp_clean.Busy.Commit.{Starts}
use chatgpt_mcp_clean.Busy.Refinement.{list_lem}

-- The host's comparison is one of an order: of two texts at most one is after the other, and what
-- is not after a text is not after a later one either.
pub record IsOrder (after : Text → Text → Bool) : Type 0 where
  pub one_way : (a b : Text) → after a b ≡ true → after b a ≡ false
  pub chained : (a b c : Text) → after a b ≡ false → after b c ≡ false → after a c ≡ false

-- No claim has a scope that is after the scope of a claim behind it.
abbrev pub IsSorted : (Text → Text → Bool) → List Claim → Type 0
IsSorted after [] = Unit
IsSorted after (c ∷ cs) = All (λ d. after c.scope d.scope ≡ false) cs × IsSorted after cs

module _ (after : Text → Text → Bool) where
  insert_sorted-perm : (c : Claim) (ds : List Claim) → Perm (insert_sorted after c ds) (c ∷ ds)
  unfolding insert_sorted
  insert_sorted-perm c [] = Perm.refl (c ∷ [])
  insert_sorted-perm c (d ∷ ds) =
      let rest = insert_sorted-perm c ds in
      if-cases (λ (l : List Claim). Perm l (c ∷ d ∷ ds)) (after c.scope d.scope)
        (λ _. Perm.trans (Perm.cons d rest) (Perm.swap c d ds)) λ _. Perm.refl (c ∷ d ∷ ds)

  sort_by_scope-perm : (cs : List Claim) → Perm (sort_by_scope after cs) cs
  unfolding sort_by_scope
  sort_by_scope-perm [] = Perm.refl []
  sort_by_scope-perm (c ∷ cs) =
      Perm.trans (insert_sorted-perm c (sort_by_scope after cs))
        (Perm.cons c (sort_by_scope-perm cs))

  All-insert_sorted :
      (P : Claim → Type 0) (c : Claim) (ds : List Claim)
      → P c
      → All P ds
      → All P (insert_sorted after c ds)
  unfolding insert_sorted
  All-insert_sorted P c [] h hs = (h, tt)
  All-insert_sorted P c (d ∷ ds) h hs =
      let rest = All-insert_sorted P c ds h hs.1 in
      if-cases (All P) (after c.scope d.scope) (λ _. (hs.0, rest)) λ _. (h, hs)

  module _ (order : IsOrder after) where
    All_chained :
        (c d : Claim) (ds : List Claim)
        → after c.scope d.scope ≡ false
        → All (λ e. after d.scope e.scope ≡ false) ds
        → All (λ e. after c.scope e.scope ≡ false) ds
    All_chained c d [] h hs = tt
    All_chained c d (e ∷ ds) h hs =
        (order.chained c.scope d.scope e.scope h hs.0, All_chained c d ds h hs.1)

    insert_sorted-IsSorted :
        (c : Claim) (ds : List Claim)
        → IsSorted after ds
        → IsSorted after (insert_sorted after c ds)
    unfolding insert_sorted
    insert_sorted-IsSorted c [] h = (tt, tt)
    insert_sorted-IsSorted c (d ∷ ds) h =
        let rest = insert_sorted-IsSorted c ds h.1 in
        if-cases (IsSorted after) (after c.scope d.scope)
          (λ e. (
            All-insert_sorted (λ f. after d.scope f.scope ≡ false) c ds
                (order.one_way c.scope d.scope e) h.0,
            rest,
          ))
          λ e. ((e, All_chained c d ds e h.0), h)

    sort_by_scope-IsSorted : (cs : List Claim) → IsSorted after (sort_by_scope after cs)
    unfolding sort_by_scope
    sort_by_scope-IsSorted [] = tt
    sort_by_scope-IsSorted (c ∷ cs) =
        insert_sorted-IsSorted c (sort_by_scope after cs) (sort_by_scope-IsSorted cs)

-- A reply with the claims `m`, in order, which the store and its file have as well.
pub record Lists (host : Host) (dates : Dates) (after : Text → Text → Bool) (m : Table Claim)
    (r : Result (List Claim) × Store) : Type 0 where
  pub claims : List Claim
  pub reply : r.0 ≡ ok claims
  pub complete : Perm claims (values m)
  pub sorted : IsSorted after claims
  pub memory : r.1.claims ≡ m
  pub sound : IsSoundTable host dates m
  pub fields : IsPassthrough host r.1.passthrough
  pub file : Holds r.1.file m r.1.passthrough

-- Whatever a store has in memory, `list` returns the claims in the file whose lease is not over,
-- each as often as it is there, and no scope in the reply is after one behind it in the host's
-- order. Those claims are then the ones in memory and in the file. The host's comparison of scopes
-- is that of an order, the file can be read and the write goes through. The file is missing, or
-- what `persist` writes for claims each under its own canonical scope, one for each, with a time
-- that can be read and no further field called actor, scope or timestamp, and for other fields of
-- which none is the claims and in which no job of the coordinator has a blank key. A file that
-- cannot be parsed, one with two claims of the same canonical scope, and one with a blank job key
-- are outside.
pub list-Lists :
    (host : Host) (dates : Dates) (after : Text → Text → Bool) (env : Env) (s : Store)
    → (m : Table Claim) (p : Table Json) → IsOrder after
    → Starts host dates env m p s
    → Lists host dates after (live dates env.now m) (list host dates after env s)
list-Lists host dates after env s m p order h =
    let done = list_lem host dates after env s m p h in
    let found = values (live dates env.now m) in
    record {
      claims = sort_by_scope after found;
      reply = done.reply;
      complete = sort_by_scope-perm after found;
      sorted = sort_by_scope-IsSorted after order found;
      memory = done.claims;
      sound = done.sound;
      fields = done.fields;
      file = done.holds;
    }
