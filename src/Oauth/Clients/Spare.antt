-- ===== src/Oauth/Clients/Spare.antt =====
-- The clients that `makeClientRoom` may evict, described without the tests of the code.
use chatgpt_mcp_clean.Base.{
  ◌≡◌, ◌↔◌, ◌⊎◌, refl, sym, ap, subst, ◌∙◌, inl, inr, Bool, true, false, not, ◌&&◌, ◌||◌, Option,
  none, some, List, [], ◌∷◌, any, Text, codes, text_eq, text_eq_iff, Table, Bool-cases, arith,
}
use mathlib.Core.Bool.{false≢true}
use chatgpt_mcp_clean.Oauth.Records.{CodeRecord, TokenRecord, Client, Provider}
use chatgpt_mcp_clean.Oauth.Clients.{
  is_client_referenced, is_spare, disposable_client_names, text_or_empty,
}
use chatgpt_mcp_clean.Oauth.Scopes.{includes}

-- An entry of the list has the property.
pub data Some {A : Type 0} (P : A → Type 0) : List A → Type 0 where
  first : (x : A) (xs : List A) → P x → Some P (x ∷ xs)
  later : (x : A) (xs : List A) → Some P xs → Some P (x ∷ xs)

any_of_Some :
    {A : Type 0} (P : A → Type 0) (p : A → Bool) (xs : List A)
    → ((x : A) → P x → p x ≡ true)
    → Some P xs
    → any p xs ≡ true
any_of_Some P p ys test (first x xs h) = let passes = test x h in ground arith
any_of_Some P p ys test (later x xs h) = let rest = any_of_Some P p xs test h in ground arith

any-Some :
    {A : Type 0} (P : A → Type 0) (p : A → Bool) (xs : List A)
    → ((x : A) → p x ≡ true → P x)
    → any p xs ≡ true
    → Some P xs
any-Some P p [] test e = absurd (false≢true e)
any-Some P p (x ∷ xs) test e = elim (Bool-cases (p x)) [
  | inl passes ↦ first x xs (test x passes)
  | inr fails ↦ later x xs (any-Some P p xs test (ground arith))
]

-- A code, an access token or a refresh token of the client is stored.
pub data IsRemembered (s : Provider) (client_id : Text) : Type 0 where
  by_code :
      Some (λ (e : Text × CodeRecord). e.1.client_id ≡ client_id) s.codes → IsRemembered s client_id
  by_access :
      Some (λ (e : Text × TokenRecord). e.1.client_id ≡ client_id) s.access
      → IsRemembered s client_id
  by_refresh :
      Some (λ (e : Text × TokenRecord). e.1.client_id ≡ client_id) s.refresh
      → IsRemembered s client_id

-- The client has one of the five names of the repository's own probes.
pub data IsDisposable (c : Client) : Type 0 where
  busy_probe : c.client_name ≡ some (codes "busy-probe") → IsDisposable c
  restart_proof : c.client_name ≡ some (codes "restart-proof") → IsDisposable c
  mcp_probe : c.client_name ≡ some (codes "shell-mcp-probe") → IsDisposable c
  mcp_smoke : c.client_name ≡ some (codes "shell-mcp-smoke") → IsDisposable c
  mcp_stress : c.client_name ≡ some (codes "shell-mcp-stress") → IsDisposable c

-- A client that must stay: something of it is stored, or it is not one of the probes.
abbrev pub Stays : Provider → Text → Client → Type 0
Stays s client_id c = IsRemembered s client_id ⊎ (IsDisposable c → ⊥)

owned :
    {V : Type 0} (owner : V → Text) (client_id : Text) (m : Table V)
    → (any (λ e. text_eq (owner e.1) client_id) m ≡ true) ↔ Some (λ e. owner e.1 ≡ client_id) m
owned {V} owner client_id m = (
  any-Some P _ m λ e. (text_eq_iff (owner e.1) client_id).0,
  any_of_Some P _ m λ e. (text_eq_iff (owner e.1) client_id).1,
)
  where
    P : Text × V → Type 0
    P e = owner e.1 ≡ client_id

or_true : (a b c : Bool) → (a || b || c) ≡ true → (a ≡ true) ⊎ ((b ≡ true) ⊎ (c ≡ true))
or_true true b c e = inl refl
or_true false true c e = inr (inl refl)
or_true false false c e = inr (inr e)

referenced-IsRemembered :
    (s : Provider) (client_id : Text)
    → is_client_referenced client_id s ≡ true
    → IsRemembered s client_id
unfolding is_client_referenced
referenced-IsRemembered s client_id e = elim (or_true _ _ _ e) [
  | inl a ↦ by_code ((owned (λ r. r.client_id) client_id s.codes).0 a)
  | inr (inl b) ↦ by_access ((owned (λ r. r.client_id) client_id s.access).0 b)
  | inr (inr c) ↦ by_refresh ((owned (λ r. r.client_id) client_id s.refresh).0 c)
]

referenced_of_IsRemembered :
    (s : Provider) (client_id : Text)
    → IsRemembered s client_id
    → is_client_referenced client_id s ≡ true
unfolding is_client_referenced
referenced_of_IsRemembered s client_id (by_code h) =
    let e = (owned (λ r. r.client_id) client_id s.codes).1 h in ground arith
referenced_of_IsRemembered s client_id (by_access h) =
    let e = (owned (λ r. r.client_id) client_id s.access).1 h in ground arith
referenced_of_IsRemembered s client_id (by_refresh h) =
    let e = (owned (λ r. r.client_id) client_id s.refresh).1 h in ground arith

includes-IsDisposable :
    (c : Client) (name : Option Text)
    → c.client_name ≡ name
    → includes disposable_client_names (text_or_empty name) ≡ true
    → IsDisposable c
includes-IsDisposable c none named e = absurd (false≢true (unfold text_eq in e))
includes-IsDisposable c (some t) named e =
    by_rest (codes "busy-probe") _ busy_probe
      (by_rest (codes "restart-proof") _ restart_proof (
        by_rest (codes "shell-mcp-probe") _ mcp_probe (
          by_rest (codes "shell-mcp-smoke") _ mcp_smoke
            (by_rest (codes "shell-mcp-stress") false mcp_stress λ no. absurd (false≢true no)))))
      e
  where
    is : (name : Text) → text_eq name t ≡ true → c.client_name ≡ some name
    is name same = named ∙ ap some (sym ((text_eq_iff name t).0 same))

    by_rest :
        (name : Text) (rest : Bool)
        → (c.client_name ≡ some name → IsDisposable c)
        → (rest ≡ true → IsDisposable c)
        → (text_eq name t || rest) ≡ true
        → IsDisposable c
    by_rest name rest one others h = elim (Bool-cases (text_eq name t)) [
      | inl same ↦ one (is name same)
      | inr apart ↦ others (subst (λ b. (b || rest) ≡ true) apart h)
    ]

includes_of_IsDisposable :
    (c : Client)
    → IsDisposable c
    → includes disposable_client_names (text_or_empty c.client_name) ≡ true
includes_of_IsDisposable c h = go h
  where
    by_name :
        (name : Text)
        → includes disposable_client_names name ≡ true
        → c.client_name ≡ some name
        → includes disposable_client_names (text_or_empty c.client_name) ≡ true
    by_name name found e = ap (λ o. includes disposable_client_names (text_or_empty o)) e ∙ found

    go : IsDisposable c → includes disposable_client_names (text_or_empty c.client_name) ≡ true
    go (busy_probe e) = by_name (codes "busy-probe") (unfold text_eq in refl) e
    go (restart_proof e) = by_name (codes "restart-proof") (unfold text_eq in refl) e
    go (mcp_probe e) = by_name (codes "shell-mcp-probe") (unfold text_eq in refl) e
    go (mcp_smoke e) = by_name (codes "shell-mcp-smoke") (unfold text_eq in refl) e
    go (mcp_stress e) = by_name (codes "shell-mcp-stress") (unfold text_eq in refl) e

-- The test of the code finds no client that must stay, and every other.
pub spare_of_Stays :
    (s : Provider) (client_id : Text) (c : Client)
    → Stays s client_id c
    → is_spare s (client_id, c) ≡ false
spare_of_Stays s client_id c (inl h) =
    let e = referenced_of_IsRemembered s client_id h in ground arith
spare_of_Stays s client_id c (inr h) =
    elim (Bool-cases (includes disposable_client_names (text_or_empty c.client_name))) [
      | inl e ↦ absurd (h (includes-IsDisposable c c.client_name refl e))
      | inr e ↦ and_false (not (is_client_referenced client_id s)) _ e
    ]
  where
    and_false : (a b : Bool) → b ≡ false → (a && b) ≡ false
    and_false true b e = e
    and_false false b e = refl

pub spare-Stays :
    (s : Provider) (client_id : Text) (c : Client)
    → is_spare s (client_id, c) ≡ false
    → Stays s client_id c
spare-Stays s client_id c e = elim (Bool-cases (is_client_referenced client_id s)) [
  | inl known ↦ inl (referenced-IsRemembered s client_id known)
  | inr unknown ↦
      inr
        λ h. let named = includes_of_IsDisposable c h in false≢true (sym e ∙ both _ _ unknown named)
]
  where
    both : (a b : Bool) → a ≡ false → b ≡ true → (not a && b) ≡ true
    both a b x y = ground arith
