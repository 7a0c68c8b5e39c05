-- ===== src/Busy/Reload.antt =====
-- `load` on what `persist` writes.
use chatgpt_mcp_clean.Base.{
  ℕ, ◌≡◌, refl, sym, ap, ◌∙◌, false, none, some, List, [], ◌∷◌, ◌++◌, map, Text, codes, text_eq,
  Table, lookup, insert, erase, lookup-insert_self, insert_absent, erase_absent,
  erase-insert_absent, Distinct, Apart, Apart-concat, Apart-nil, All, append_assoc, append-nil,
  ◌>>=◌,
}
use chatgpt_mcp_clean.Base.Json.{
  Json, arr, items_of, to_items, items_of-to_items, fields_of, fields_of-to_fields, to_fields,
  as_string,
}
use chatgpt_mcp_clean.Scope.{Host, canonical_scope}
use chatgpt_mcp_clean.Busy.Claims.{
  Dates, Claim, ok, claim_fields, claim_json, erase_known, read_fields, read_claim, merge_claim,
  gather, contents, Store, load, load_claims, load_file,
}
use chatgpt_mcp_clean.Busy.Store.{values, payload}

-- The fields that `load` tests are not among the further fields.
pub record IsApart (m : Table Json) : Type 0 where
  pub actor : lookup (codes "actor") m ≡ none
  pub scope : lookup (codes "scope") m ≡ none
  pub timestamp : lookup (codes "timestamp") m ≡ none

module _ (host : Host) (dates : Dates) where
  -- An entry of the map that `load` would keep as it is.
  pub record IsSound (entry : Text × Claim) : Type 0 where
    pub keyed : entry.1.scope ≡ entry.0
    pub stable : canonical_scope host entry.0 ≡ some entry.0
    pub time : ℕ
    pub dated : dates.parse entry.1.timestamp ≡ some time
    pub apart : IsApart entry.1.rest

  pub record IsSoundTable (m : Table Claim) : Type 0 where
    pub entries : All IsSound m
    pub distinct : Distinct m

erase_known_of_IsApart : (m : Table Json) → IsApart m → erase_known m ≡ m
unfolding erase_known
erase_known_of_IsApart m apart =
    ap (λ n. erase (codes "timestamp") (erase (codes "scope") n))
      (erase_absent (codes "actor") m apart.actor)
    ∙ ap (erase (codes "timestamp")) (erase_absent (codes "scope") m apart.scope)
    ∙ erase_absent (codes "timestamp") m apart.timestamp

erase_known-claim_fields : (c : Claim) → IsApart c.rest → erase_known (claim_fields c) ≡ c.rest
erase_known-claim_fields c apart = computes ∙ erase_known_of_IsApart c.rest apart
  where
    computes : erase_known (claim_fields c) ≡ erase_known c.rest
    computes = unfold erase_known claim_fields erase text_eq in refl

module _ (host : Host) (dates : Dates) where
  read_fields-claim_fields :
      (k : Text) (c : Claim)
      → IsSound host dates (k, c)
      → read_fields dates (claim_fields c) ≡ some c
  read_fields-claim_fields k c h =
      computes
      ∙ ap (λ d. d >>= λ _. some (record c { rest = erase_known (claim_fields c) })) h.dated
      ∙ ap (λ r. some (record c { rest = r })) (erase_known-claim_fields c h.apart)
    where
      computes : read_fields dates (claim_fields c) ≡ (
          dates.parse c.timestamp >>= λ _. some (record c { rest = erase_known (claim_fields c) }))
      computes = unfold read_fields claim_fields lookup text_eq as_string in refl

  read_claim-claim_json :
      (k : Text) (c : Claim) → IsSound host dates (k, c) → read_claim dates (claim_json c) ≡ some c
  unfolding read_claim claim_json
  read_claim-claim_json k c h =
      ap (read_fields dates) (fields_of-to_fields (claim_fields c)) ∙ read_fields-claim_fields k c h

  merge_claim_fresh :
      (k : Text) (c : Claim) (next : Table Claim)
      → IsSound host dates (k, c)
      → lookup k next ≡ none
      → merge_claim host c next ≡ ok (next ++ (k, c) ∷ [])
  unfolding merge_claim
  merge_claim_fresh k c next h fresh =
      rw (canonical, fresh, merge_claim)
        (ap ok (
          insert_absent k (record c { scope = k }) next fresh
          ∙ ap (λ v. next ++ (k, record c { scope = v }) ∷ []) (sym h.keyed)))
    where
      canonical : canonical_scope host c.scope ≡ some k
      canonical = ap (canonical_scope host) h.keyed ∙ h.stable

  gather_reload :
      (m next : Table Claim)
      → All (IsSound host dates) m
      → Distinct m
      → Apart next m
      → gather host dates (map claim_json (values m)) next ≡ ok (next ++ m)
  unfolding gather
  gather_reload [] next h d apart = ap ok (sym (append-nil next))
  gather_reload ((k, c) ∷ m) next h d apart =
      rw (read_claim-claim_json k c h.0, merge_claim_fresh k c next h.0 apart.0, gather)
        (gather_reload m (next ++ (k, c) ∷ []) h.1 d.1 (Apart-concat next m k c apart.1 d.0)
          ∙ ap ok (append_assoc next ((k, c) ∷ []) m))

  -- What one store has written, every store reads back, whatever it had in memory: the same claims
  -- in the same order and the same other fields of the file.
  pub load-payload :
      (s : Store) (m : Table Claim) (passthrough : Table Json)
      → IsSoundTable host dates m
      → lookup (codes "claims") passthrough ≡ none
      → s.file ≡ contents (payload m passthrough)
      → load host dates false s ≡ ok (record s { claims = m; passthrough = passthrough })
  load-payload s m passthrough sound apart e =
      opened
      ∙ ap (λ x. load_claims host dates x (lookup (codes "claims") x) s)
          (fields_of-to_fields written)
      ∙ ap (λ v. load_claims host dates written v s)
          (lookup-insert_self (codes "claims") (arr (to_items elements)) passthrough)
      ∙ gathered
    where
      elements : List Json
      elements = map claim_json (values m)

      written : Table Json
      written = insert (codes "claims") (arr (to_items elements)) passthrough

      opened :
          load host dates false s
          ≡ load_claims host dates
              (fields_of (to_fields written))
              (lookup (codes "claims") (fields_of (to_fields written)))
              s
      opened = unfold load payload in ap (λ f. load_file host dates f s) e

      collected : gather host dates (items_of (to_items elements)) [] ≡ ok m
      collected =
          ap (λ js. gather host dates js []) (items_of-to_items elements)
          ∙ gather_reload m [] sound.entries sound.distinct (Apart-nil m)

      gathered :
          load_claims host dates written (some (arr (to_items elements))) s
          ≡ ok (record s { claims = m; passthrough = passthrough })
      gathered =
          rw (collected, load_claims)
            (ap (λ x. ok (record s { claims = m; passthrough = x }))
              (erase-insert_absent (codes "claims") (arr (to_items elements)) passthrough apart))
