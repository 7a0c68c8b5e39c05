-- ===== src/Oauth/Rotation/Descent.antt =====
-- The tokens that descend from a refresh token: each record names the digest of its successor.
use chatgpt_mcp_clean.Base.{
  ◌≤◌, ◌<◌, ◌≡◌, refl, sym, ap, subst, ◌∙◌, ◌⊎◌, inl, inr, true, false, Option, none, some, [], ◌∷◌,
  arith, length, Text, text_eq, text_eq_iff, Table, lookup, erase, lookup-erase, lookup-erase_self,
  Bool-cases,
}
use mathlib.Core.Bool.{false≢true}
use chatgpt_mcp_clean.Oauth.Clients.{text_or_empty}
use chatgpt_mcp_clean.Oauth.Records.{TokenRecord}
use chatgpt_mcp_clean.Oauth.Scopes.{is_filled}
use chatgpt_mcp_clean.Oauth.Rotation.{successor_of}

-- The tokens that took the place of a token, one after the other.
pub data Descends (m : Table TokenRecord) : Text → Text → Type 0 where
  self : {k : Text} → Descends m k k
  next :
      {k j i : Text}
      → successor_of (lookup k m) ≡ some j
      → is_filled j ≡ true
      → Descends m j i
      → Descends m k i

-- Without a key's entry, the descendants of its successor are still the same, but for the key.
Descends-erase :
    (m : Table TokenRecord) (k j : Text) {x i : Text}
    → successor_of (lookup k m) ≡ some j
    → Descends m x i
    → (i ≡ k) ⊎ (Descends (erase k m) x i ⊎ Descends (erase k m) j i)
Descends-erase m k j {x} e self = inr (inl self)
Descends-erase m k j {x} {i} e (next {j = y} f filled rest) = elim (Bool-cases (text_eq k x)) [
  | inl same ↦
      let onward : y ≡ j =
        ap (text_or_empty)
          (sym f ∙ ap (λ z. successor_of (lookup z m)) (sym ((text_eq_iff k x).0 same)) ∙ e) in
      elim (Descends-erase m k j e rest) [
        | inl gone ↦ inl gone
        | inr (inl there) ↦ inr (inr (subst (λ z. Descends (erase k m) z i) onward there))
        | inr (inr after) ↦ inr (inr after)
      ]
  | inr apart ↦
      let elsewhere : lookup x (erase k m) ≡ lookup x m = lookup-erase k x m ∙ rw apart refl in
      elim (Descends-erase m k j e rest) [
        | inl gone ↦ inl gone
        | inr (inl there) ↦ inr (inl (next (ap successor_of elsewhere ∙ f) filled there))
        | inr (inr after) ↦ inr (inr after)
      ]
]

module _ {V : Type 0} where
  length-erase : (k : Text) (m : Table V) → length (erase k m) ≤ length m
  unfolding erase
  length-erase k [] = omega arith
  length-erase k ((j, r) ∷ m) = ground (arith, length-erase k m)

  pub length-erase_found :
      (k : Text) (m : Table V) (r : V) → lookup k m ≡ some r → length (erase k m) < length m
  unfolding erase lookup
  length-erase_found k [] q h = ground arith
  length-erase_found k ((j, r) ∷ m) q h = ground (arith, length-erase k m, length-erase_found k m q)

-- Nothing descends from a key without an entry but the key.
pub Descends-absent :
    (m : Table TokenRecord) (k i : Text) → successor_of (lookup k m) ≡ none → Descends m k i → i ≡ k
Descends-absent m k i h self = refl
Descends-absent m k i h (next f filled rest) = ground (arith, f)

pub successor-found :
    (o : Option TokenRecord) (j : Text) → successor_of o ≡ some j → (r : TokenRecord) × (o ≡ some r)
successor-found none j h = ground arith
successor-found (some r) j h = (r, refl)

-- All that descends from a key, once all that descends from its successor is gone.
pub gone_behind :
    (m left : Table TokenRecord) (k j : Text)
    → successor_of (lookup k m) ≡ some j
    → ((i : Text) → lookup i (erase k m) ≡ none → lookup i left ≡ none)
    → ((i : Text) → Descends (erase k m) j i → lookup i left ≡ none)
    → (i : Text) → Descends m k i
    → lookup i left ≡ none
gone_behind m left k j e shrinks gone i d = elim (Descends-erase m k j e d) [
  | inl same ↦ at_key same
  | inr (inl there) ↦
      at_key (Descends-absent (erase k m) k i (ap successor_of (lookup-erase_self k m)) there)
  | inr (inr after) ↦ gone i after
]
  where
    at_key : i ≡ k → lookup i left ≡ none
    at_key same = shrinks i (ap (λ t. lookup t (erase k m)) same ∙ lookup-erase_self k m)

-- Nothing but the key descends from a key whose successor's digest is empty.
pub Descends-unfilled :
    (m : Table TokenRecord) (k j i : Text)
    → successor_of (lookup k m) ≡ some j
    → is_filled j ≡ false
    → Descends m k i
    → i ≡ k
Descends-unfilled m k j i e unfilled self = refl
Descends-unfilled m k j i e unfilled (next {j = y} f filled rest) =
    absurd
      (false≢true (sym unfilled ∙ ap is_filled (ap (λ o. text_or_empty o) (sym e ∙ f)) ∙ filled))
