-- ===== src/Busy/Pruning.antt =====
-- The loop of `prune`, and the claims whose lease is not over.
use chatgpt_mcp_clean.Base.{
  ℕ, ◌≡◌, refl, sym, ap, ◌∙◌, ◌⊎◌, inl, inr, Bool, true, false, not, [], ◌∷◌, ◌++◌, arith,
  if◌then◌else◌, filter, Text, Table, lookup-filter, erase, Distinct, Apart, Apart-concat,
  erase_middle, All, append_assoc, Bool-cases,
}
use chatgpt_mcp_clean.Base.Json.{Json}
use chatgpt_mcp_clean.Scope.{Host}
use chatgpt_mcp_clean.Busy.Claims.{Dates, Claim, ok, StoreFile, Store}
use chatgpt_mcp_clean.Busy.Jobs.{remove_coordinator_job}
use chatgpt_mcp_clean.Busy.Store.{expired, prune_loop}
use chatgpt_mcp_clean.Busy.Reload.{IsSound, IsSoundTable}
use chatgpt_mcp_clean.Busy.Passthrough.{IsPassthrough, remove_coordinator_job_lem}

-- The claims whose lease is not over.
abbrev pub live : Dates → ℕ → Table Claim → Table Claim
live dates now = filter λ e. not (expired (dates.parse e.1.timestamp) now)

filter-Distinct :
    (keep : Text × Claim → Bool) (m : Table Claim) → Distinct m → Distinct (filter keep m)
filter-Distinct keep [] h = tt
filter-Distinct keep ((k, c) ∷ m) h =
    grind (arith, filter-Distinct keep m h.1, lookup-filter keep k m h.0)

filter-All {κ} :
    (P : Text × Claim → Type κ) (keep : Text × Claim → Bool) (m : Table Claim)
    → All P m
    → All P (filter keep m)
filter-All P keep [] h = tt
filter-All P keep ((k, c) ∷ m) h = choose (keep (k, c)) (filter-All P keep m h.1)
  where
    choose :
        (b : Bool)
        → All P (filter keep m)
        → All P (if b then (k, c) ∷ filter keep m else filter keep m)
    choose true left = (h.0, left)
    choose false left = left

module _ (host : Host) (dates : Dates) where
  pub live-IsSoundTable :
      (now : ℕ) (m : Table Claim)
      → IsSoundTable host dates m
      → IsSoundTable host dates (live dates now m)
  live-IsSoundTable now m h = record {
    entries = filter-All (IsSound host dates) _ m h.entries;
    distinct = filter-Distinct _ m h.distinct;
  }

  prune_loop_fresh :
      (now : ℕ) (k : Text) (c : Claim) (left : Table Claim) (changed : Bool) (s : Store)
      → expired (dates.parse c.timestamp) now ≡ false
      → prune_loop host dates now ((k, c) ∷ left) changed s
        ≡ prune_loop host dates now left changed s
  unfolding prune_loop
  prune_loop_fresh now k c left changed s fresh = rw (fresh, prune_loop)

  prune_loop_over :
      (now : ℕ) (k : Text) (c : Claim) (left : Table Claim) (changed : Bool) (s : Store)
      → expired (dates.parse c.timestamp) now ≡ true
      → (remove_coordinator_job host k s.passthrough).1 ≡ ok tt
      → prune_loop host dates now ((k, c) ∷ left) changed s
        ≡ prune_loop host dates now left true (record s {
          claims = erase k s.claims;
          passthrough = (remove_coordinator_job host k s.passthrough).0;
        })
  unfolding prune_loop
  prune_loop_over now k c left changed s over done = rw (over, prune_loop) (rw done)

  -- What a run of the loop leaves.
  pub record Pruned (now : ℕ) (kept left : Table Claim) (p : Table Json) (file : StoreFile)
      (changed : Bool) : Type 0 where
    pub changed' : Bool
    pub p' : Table Json
    pub runs :
        prune_loop host dates now left changed
          (record { claims = kept ++ left; passthrough = p; file = file })
        ≡ (
          ok changed',
          record { claims = kept ++ live dates now left; passthrough = p'; file = file },
        )
    pub sound : IsPassthrough host p'
    pub unchanged :
        (changed' ≡ true) ⊎ ((changed' ≡ changed) × (live dates now left ≡ left) × (p' ≡ p))

  pub prune_loop_lem :
      (now : ℕ) (kept left : Table Claim) (p : Table Json) (file : StoreFile) (changed : Bool)
      → Apart kept left
      → Distinct left
      → IsPassthrough host p
      → Pruned now kept left p file changed
  prune_loop_lem now kept [] p file changed apart d h = record {
    changed' = changed;
    p' = p;
    runs = unfold prune_loop in refl;
    sound = h;
    unchanged = inr (refl, refl, refl);
  }
  prune_loop_lem now kept ((k, c) ∷ left) p file changed apart d h =
      elim (Bool-cases (expired (dates.parse c.timestamp) now)) [
        | inr fresh ↦
            let rest =
              prune_loop_lem now (kept ++ (k, c) ∷ []) left p file changed
                (Apart-concat kept left k c apart.1 d.0) d.1 h in
            let regroup = append_assoc kept ((k, c) ∷ []) in
            record {
              changed' = rest.changed';
              p' = rest.p';
              runs =
                  prune_loop_fresh now k c left changed _ fresh
                  ∙ ap
                      (λ m.
                        prune_loop host dates now left changed
                          (record { claims = m; passthrough = p; file = file }))
                      (sym (regroup left))
                  ∙ rest.runs
                  ∙ ap
                      (λ m. (
                        ok rest.changed',
                        record { claims = m; passthrough = rest.p'; file = file },
                      ))
                      (rw fresh (regroup (live dates now left)));
              sound = rest.sound;
              unchanged = rw fresh (elim rest.unchanged [
                | inl e ↦ inl e
                | inr (same, whole, kept_p) ↦ inr (same, ap (◌∷◌ (k, c)) whole, kept_p)
              ]);
            }
        | inl over ↦
            let removed = remove_coordinator_job_lem host k p h in
            let rest =
              prune_loop_lem now kept left (remove_coordinator_job host k p).0 file true apart.1 d.1
                removed.1 in
            record {
              changed' = rest.changed';
              p' = rest.p';
              runs =
                  prune_loop_over now k c left changed _ over removed.0
                  ∙ ap
                      (λ m. prune_loop host dates now left true (record {
                        claims = m;
                        passthrough = (remove_coordinator_job host k p).0;
                        file = file;
                      }))
                      (erase_middle k c kept left apart.0 d.0)
                  ∙ rest.runs
                  ∙ ap
                      (λ m. (
                        ok rest.changed',
                        record { claims = m; passthrough = rest.p'; file = file },
                      ))
                      (rw over refl);
              sound = rest.sound;
              unchanged = inl (ground (arith, rest.unchanged));
            }
      ]
