-- ===== src/Oauth/Rotation/Family.antt =====
-- The loop of `revokeRefreshFamily`, and the family of a token.
use chatgpt_mcp_clean.Base.{
  ℕ, zero, suc, ◌+◌, ◌<◌, ◌≡◌, refl, sym, ap, subst, ◌∙◌, inl, inr, true, false, not, ◌&&◌, Option,
  none, some, List, [], ◌∷◌, arith, length, Text, Table, lookup, erase, lookup-erase,
  lookup-erase_self, lookup-erase_absent, Bool-cases,
}
use mathlib.Core.Bool.{false≢true}
use chatgpt_mcp_clean.Oauth.Records.{TokenRecord, Recent, Provider}
use chatgpt_mcp_clean.Oauth.Scopes.{includes, is_filled}
use chatgpt_mcp_clean.Oauth.Rotation.{successor_of, revoke_loop, revoked, revoke_refresh_family}
use chatgpt_mcp_clean.Oauth.Rotation.Descent.{
  Descends, length-erase_found, Descends-absent, successor-found, gone_behind, Descends-unfilled,
}

-- What the loop leaves when it starts at a key.
record Revoked (m : Table TokenRecord) (key : Text) (r : Option (Table TokenRecord × Table Recent))
    : Type 0 where
  left : Table TokenRecord
  recent : Table Recent
  runs : r ≡ some (left, recent)
  shrinks : (i : Text) → lookup i m ≡ none → lookup i left ≡ none
  gone : (i : Text) → Descends m key i → lookup i left ≡ none

revoke_loop_stops :
    (fuel : ℕ) (seen : List Text) (k : Text) (m : Table TokenRecord) (recent : Table Recent)
    → 0 < fuel
    → (is_filled k && not (includes seen k)) ≡ false
    → revoke_loop fuel seen (some k) m recent ≡ some (m, recent)
unfolding revoke_loop
revoke_loop_stops zero seen k m recent positive h = elim positive [ ]
revoke_loop_stops (suc fuel) seen k m recent positive h = rw (h, revoke_loop) refl

revoke_loop_steps :
    (fuel : ℕ) (seen : List Text) (k : Text) (m : Table TokenRecord) (recent : Table Recent)
    → (is_filled k && not (includes seen k)) ≡ true
    → revoke_loop (suc fuel) seen (some k) m recent
      ≡ revoke_loop fuel (k ∷ seen) (successor_of (lookup k m)) (erase k m) (erase k recent)
unfolding revoke_loop
revoke_loop_steps fuel seen k m recent h = rw (h, revoke_loop) refl

revoke_loop-none :
    (fuel : ℕ) (seen : List Text) (m : Table TokenRecord) (recent : Table Recent)
    → 0 < fuel
    → revoke_loop fuel seen none m recent ≡ some (m, recent)
unfolding revoke_loop
revoke_loop-none zero seen m recent h = elim h [ ]
revoke_loop-none (suc fuel) seen m recent h = refl

-- A key without descendants of its own.
Revoked-alone :
    (m : Table TokenRecord) (k : Text) (recent : Table Recent)
    (r : Option (Table TokenRecord × Table Recent))
    → r ≡ some (erase k m, recent)
    → ((i : Text) → Descends m k i → i ≡ k)
    → Revoked m k r
Revoked-alone m k recent r runs alone = record {
  left = erase k m;
  recent = recent;
  runs = runs;
  shrinks = λ i. lookup-erase_absent k i m;
  gone = λ i d. ap (λ t. lookup t (erase k m)) (alone i d) ∙ lookup-erase_self k m;
}

revoke_loop_lem :
    (fuel : ℕ) (seen : List Text) (k : Text) (m : Table TokenRecord) (recent : Table Recent)
    → length m + 1 < fuel
    → is_filled k ≡ true
    → includes seen k ≡ false
    → ((t : Text) → includes seen t ≡ true → lookup t m ≡ none)
    → Revoked m k (revoke_loop fuel seen (some k) m recent)
revoke_loop_lem zero seen k m recent enough filled fresh absent = elim enough [ ]
revoke_loop_lem (suc fuel) seen k m recent enough filled fresh absent =
    subst (Revoked m k) (sym (revoke_loop_steps fuel seen k m recent (rw (filled, fresh) refl))) (
      go (successor_of (lookup k m)) refl λ j r found solid fresh_next.
        revoke_loop_lem fuel (k ∷ seen) j (erase k m) (erase k recent)
          (omega (arith, enough, length-erase_found k m r found)) solid fresh_next seen_absent)
  where
    seen_absent : (t : Text) → includes (k ∷ seen) t ≡ true → lookup t (erase k m) ≡ none
    seen_absent t h = ground (arith, lookup-erase k t m, absent t)

    go :
        (o : Option Text)
        → successor_of (lookup k m) ≡ o
        → ((j : Text) (r : TokenRecord)
            → lookup k m ≡ some r
            → is_filled j ≡ true
            → includes (k ∷ seen) j ≡ false
            → Revoked
                (erase k m)
                j
                (revoke_loop fuel (k ∷ seen) (some j) (erase k m) (erase k recent)))
        → Revoked m k (revoke_loop fuel (k ∷ seen) o (erase k m) (erase k recent))
    go none e onward =
        Revoked-alone m k (erase k recent) _
          (revoke_loop-none fuel (k ∷ seen) (erase k m) (erase k recent) (omega (arith, enough)))
          (λ i. Descends-absent m k i e)
    go (some j) e onward = elim (Bool-cases (is_filled j)) [
      | inr unfilled ↦
          Revoked-alone m k (erase k recent) _
            (revoke_loop_stops fuel (k ∷ seen) j (erase k m) (erase k recent)
              (omega (arith, enough)) (rw unfilled refl))
            (λ i. Descends-unfilled m k j i e unfilled)
      | inl solid ↦ elim (Bool-cases (includes (k ∷ seen) j)) [
        | inl again ↦ record {
          left = erase k m;
          recent = erase k recent;
          runs =
              revoke_loop_stops fuel (k ∷ seen) j (erase k m) (erase k recent)
                (omega (arith, enough)) (rw (solid, again) refl);
          shrinks = λ i. lookup-erase_absent k i m;
          gone =
              gone_behind m (erase k m) k j e (λ i h. h)
                λ i d.
                  let nothing = seen_absent j again in
                  ap (λ t. lookup t (erase k m))
                    (Descends-absent (erase k m) j i (ap successor_of nothing) d)
                  ∙ nothing;
        }
        | inr fresh_next ↦
            let (r, found) = successor-found (lookup k m) j e in
            let rest = onward j r found solid fresh_next in
            record {
              left = rest.left;
              recent = rest.recent;
              runs = rest.runs;
              shrinks = λ i h. rest.shrinks i (lookup-erase_absent k i m h);
              gone = gone_behind m rest.left k j e rest.shrinks rest.gone;
            }
      ]
    ]

-- `revokeRefreshFamily` ends by its own tests, within the fuel that it has, and leaves no record of
-- the token that it starts from or of any that took its place, one after the other, even if their
-- digests go round in a circle; it brings no record back.
pub revoke_refresh_family_lem :
    (key : Text) (s : Provider)
    → is_filled key ≡ true
    → ((out : Table TokenRecord × Table Recent) × (revoke_loop
            (suc (suc (length s.refresh)))
            []
            (some key)
            s.refresh
            s.recent_refresh_successors
          ≡ some out))
      × ((i : Text)
          → Descends s.refresh key i
          → lookup i (revoke_refresh_family key s).refresh ≡ none)
      × ((i : Text)
          → lookup i s.refresh ≡ none
          → lookup i (revoke_refresh_family key s).refresh ≡ none)
unfolding revoke_refresh_family
revoke_refresh_family_lem key s filled =
    ((_, done.runs), (λ i d. left i ∙ done.gone i d), λ i h. left i ∙ done.shrinks i h)
  where
    done : Revoked s.refresh key (
        revoke_loop
          (suc (suc (length s.refresh)))
          []
          (some key)
          s.refresh
          s.recent_refresh_successors)
    done =
        revoke_loop_lem (suc (suc (length s.refresh))) [] key s.refresh s.recent_refresh_successors
          (omega arith) filled refl λ t h. absurd (false≢true h)

    left :
        (i : Text)
        → lookup i
            (revoked s (
              revoke_loop
                (suc (suc (length s.refresh)))
                []
                (some key)
                s.refresh
                s.recent_refresh_successors)).refresh
          ≡ lookup i done.left
    left i = ap (λ r. lookup i (revoked s r).refresh) done.runs
