-- ===== src/Busy/Guarded.antt =====
-- A claim in the register, and the calls of other actors.
use chatgpt_mcp_clean.Base.{
  ℕ, ◌+◌, ◌≡◌, refl, sym, ap, ◌∙◌, inl, inr, true, false, not, Option, none, some, [], arith, leb,
  Text, text_eq, text_eq_iff, Table, lookup, insert, erase, lookup-insert, lookup-erase, Bool-cases,
  lookup-filter_kept,
}
use mathlib.Core.Bool.{false≢true}
use chatgpt_mcp_clean.Scope.{Host}
use chatgpt_mcp_clean.Busy.Claims.{Dates, Claim, collision_lease_ms}
use chatgpt_mcp_clean.Busy.Pruning.{live}
use chatgpt_mcp_clean.Busy.Register.{claim_spec_at, claim_spec, release_spec_at, release_spec}

-- `actor` has the claim of `scope`, dated `since` or later.
pub record Guarded (dates : Dates) (actor scope : Text) (since : ℕ) (m : Table Claim) : Type 0 where
  pub claim : Claim
  pub found : lookup scope m ≡ some claim
  pub owner : claim.actor ≡ actor
  pub time : ℕ
  pub dated : dates.parse claim.timestamp ≡ some time
  pub recent : leb since time ≡ true

module _ (host : Host) (dates : Dates) (actor scope : Text) (since now : ℕ) where
  pub live-Guarded :
      (m : Table Claim)
      → leb (since + collision_lease_ms) now ≡ false
      → Guarded dates actor scope since m
      → Guarded dates actor scope since (live dates now m)
  live-Guarded m soon h = record {
    claim = h.claim;
    found = lookup-filter_kept _ scope h.claim m h.found (rw h.dated kept);
    owner = h.owner;
    time = h.time;
    dated = h.dated;
    recent = h.recent;
  }
    where
      kept : not (leb (h.time + collision_lease_ms) now) ≡ true
      kept = grind (arith, h.recent)

  other_found :
      (other : Text) (m m' : Table Claim)
      → lookup scope m' ≡ lookup scope m
      → Guarded dates actor scope since m
      → Guarded dates actor scope since m'
  other_found other m m' e h = record {
    claim = h.claim;
    found = e ∙ h.found;
    owner = h.owner;
    time = h.time;
    dated = h.dated;
    recent = h.recent;
  }

  abbrev owner_of : Option Claim → Text
  owner_of none = []
  owner_of (some c) = c.actor

  -- Whoever is found to own the claim is its owner.
  same_owner :
      (by other : Text) (m : Table Claim) (current : Claim)
      → Guarded dates actor scope since m
      → lookup other m ≡ some current
      → text_eq other scope ≡ true
      → text_eq current.actor by ≡ true
      → by ≡ actor
  same_owner by other m current h e same same_actor =
      sym ((text_eq_iff current.actor by).0 same_actor)
      ∙ ap owner_of (sym e ∙ ap (λ k. lookup k m) ((text_eq_iff other scope).0 same) ∙ h.found)
      ∙ h.owner

  renewed :
      (by other : Text) (m : Table Claim)
      → (text_eq other scope ≡ true → by ≡ actor)
      → leb since now ≡ true
      → Guarded dates actor scope since m
      → Guarded dates actor scope since (
          insert other
            (record { actor = by; scope = other; timestamp = dates.iso now; rest = [] })
            m)
  renewed by other m own later h = elim (Bool-cases (text_eq other scope)) [
    | inl e ↦ record {
      claim = record { actor = by; scope = other; timestamp = dates.iso now; rest = [] };
      found = lookup-insert other scope _ m ∙ rw e refl;
      owner = own e;
      time = now;
      dated = dates.parse-iso now;
      recent = later;
    }
    | inr e ↦ other_found other m _ (lookup-insert other scope _ m ∙ rw e refl) h
  ]

  -- No call of `claim` takes the claim from its owner.
  pub claim_spec-Guarded :
      (by : Text) (o : Option Text) (m : Table Claim)
      → leb since now ≡ true
      → Guarded dates actor scope since m
      → Guarded dates actor scope since (claim_spec host dates now by o m).1
  claim_spec-Guarded by none m later h = h
  claim_spec-Guarded by (some other) m later h = decide (lookup other m) refl
    where
      vacant : lookup other m ≡ none → text_eq other scope ≡ true → by ≡ actor
      vacant e same =
          let found = ap (λ k. lookup k m) ((text_eq_iff other scope).0 same) ∙ h.found in
          ground (arith, found)

      decide :
          (o : Option Claim)
          → lookup other m ≡ o
          → Guarded dates actor scope since (claim_spec_at host dates now by other m o).1
      decide none e = renewed by other m (vacant e) later h
      decide (some current) e = elim (Bool-cases (text_eq current.actor by)) [
        | inl same_actor ↦
            rw same_actor (
              renewed by other m (λ same. same_owner by other m current h e same same_actor) later
                h)
        | inr differs ↦ rw differs h
      ]

  -- No call of `release` by another actor takes the claim from its owner.
  pub release_spec-Guarded :
      (by : Text) (o : Option Text) (m : Table Claim)
      → (o ≡ some scope → text_eq actor by ≡ false)
      → Guarded dates actor scope since m
      → Guarded dates actor scope since (release_spec host dates now by o m).1
  release_spec-Guarded by none m own h = h
  release_spec-Guarded by (some other) m own h = decide (lookup other m) refl
    where
      kept : text_eq other scope ≡ false → Guarded dates actor scope since (erase other m)
      kept e = other_found other m _ (lookup-erase other scope m ∙ rw e refl) h

      decide :
          (o : Option Claim)
          → lookup other m ≡ o
          → Guarded dates actor scope since (release_spec_at host dates now by other m o).1
      decide none e = h
      decide (some current) e = elim (Bool-cases (text_eq current.actor by)) [
        | inl same_actor ↦ rw same_actor (elim (Bool-cases (text_eq other scope)) [
          | inl same ↦ absurd (
              false≢true (
                sym (own (ap some ((text_eq_iff other scope).0 same)))
                ∙ (text_eq_iff actor by).1
                    (sym (same_owner by other m current h e same same_actor))))
          | inr apart ↦ kept apart
        ])
        | inr differs ↦ rw differs h
      ]
