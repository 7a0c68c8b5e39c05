-- ===== src/Busy/Register.antt =====
-- The abstract register of claims that `BusyStore` implements.
use chatgpt_mcp_clean.Base.{
  ℕ, Option, none, some, [], if◌then◌else◌, Text, text_eq, Table, lookup, insert, erase,
}
use chatgpt_mcp_clean.Scope.{Host}
use chatgpt_mcp_clean.Busy.Claims.{Dates, Claim, Result, ok, err, scope_empty}
use chatgpt_mcp_clean.Busy.Store.{
  ClaimReply, granted, scope_already_claimed, ReleaseReply, released, scope_not_claimed,
  claim_belongs_to_another_actor,
}

-- The register: the live claims, at most one for each scope.
module _ (host : Host) (dates : Dates) (now : ℕ) where
  abbrev pub claim_spec_at :
      (actor scope : Text) → Table Claim → Option Claim → Result ClaimReply × Table Claim
  claim_spec_at actor scope m none =
      let c : Claim = record {
        actor = actor;
        scope = scope;
        timestamp = dates.iso now;
        rest = [];
      } in
      (ok (granted c), insert scope c m)
  claim_spec_at actor scope m (some current) =
      let c : Claim = record {
        actor = actor;
        scope = scope;
        timestamp = dates.iso now;
        rest = [];
      } in
      if text_eq current.actor actor
      then (ok (granted c), insert scope c m)
      else (ok (scope_already_claimed current), m)

  abbrev pub claim_spec :
      (actor : Text) → Option Text → Table Claim → Result ClaimReply × Table Claim
  claim_spec actor none m = (err scope_empty, m)
  claim_spec actor (some scope) m = claim_spec_at actor scope m (lookup scope m)

  abbrev pub release_spec_at :
      (actor scope : Text) → Table Claim → Option Claim → Result ReleaseReply × Table Claim
  release_spec_at actor scope m none = (ok scope_not_claimed, m)
  release_spec_at actor scope m (some current) =
      if text_eq current.actor actor
      then (ok (released current), erase scope m)
      else (ok (claim_belongs_to_another_actor current), m)

  abbrev pub release_spec :
      (actor : Text) → Option Text → Table Claim → Result ReleaseReply × Table Claim
  release_spec actor none m = (err scope_empty, m)
  release_spec actor (some scope) m = release_spec_at actor scope m (lookup scope m)
