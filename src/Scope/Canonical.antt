-- ===== src/Scope/Canonical.antt =====
-- A logical scope that has been canonicalised is left as it is from then on.
use mathlib.Core.List.{reverse-append, reverse-reverse}
use chatgpt_mcp_clean.Base.{
  ℕ, suc, ◌≡◌, refl, sym, ap, ◌∙◌, subst, ◌⊎◌, inl, inr, false, none, some, [], ◌∷◌, ◌++◌, reverse,
  arith, ◌==◌, Text, codes, is_space, trim_start, trim_end, trim, to_lower, append-nil, index_of,
  lookup, drop, take-append-drop, Bool-cases, Option-cases,
}
use chatgpt_mcp_clean.Scope.{
  Host, is_absolute, repo_scope_aliases, split_repo, logical_scope, canonical_value,
  canonical_scope, scope_code,
}

-- No white space in front.
abbrev NoLead : Text → Type 0
NoLead [] = Unit
NoLead (c ∷ s) = is_space c ≡ false

trim_start-NoLead : (s : Text) → NoLead (trim_start s)
unfolding trim_start
trim_start-NoLead [] = tt
trim_start-NoLead (c ∷ s) = elim (Bool-cases (is_space c)) [
  | inl space ↦ rw space (trim_start-NoLead s)
  | inr solid ↦ rw solid solid
]

trim_start_of_NoLead : (s : Text) → NoLead s → trim_start s ≡ s
unfolding trim_start
trim_start_of_NoLead [] h = refl
trim_start_of_NoLead (c ∷ s) h = rw h

-- `trim_start` cuts a prefix off.
trim_start-suffix : (s : Text) → (cut : Text) × (cut ++ trim_start s ≡ s)
unfolding trim_start
trim_start-suffix [] = ([], refl)
trim_start-suffix (c ∷ s) = elim (Bool-cases (is_space c)) [
  | inl space ↦ let (cut, e) = trim_start-suffix s in (c ∷ cut, rw space (ap (◌∷◌ c) e))
  | inr solid ↦ ([], rw solid)
]

NoLead-append : (s t : Text) → NoLead s → NoLead t → NoLead (s ++ t)
NoLead-append [] t h k = k
NoLead-append (c ∷ s) t h k = h

NoLead-left : (s t : Text) → NoLead (s ++ t) → NoLead s
NoLead-left [] t h = tt
NoLead-left (c ∷ s) t h = h

record IsTrimmed (s : Text) : Type 0 where
  lead : NoLead s
  last : NoLead (reverse s)

trim-IsTrimmed : (s : Text) → IsTrimmed (trim s)
unfolding trim trim_end
trim-IsTrimmed s =
    let body = trim_start s in
    let (cut, e) = trim_start-suffix (reverse body) in
    let whole : reverse (trim_start (reverse body)) ++ reverse cut ≡ body =
      sym (reverse-append cut (trim_start (reverse body))) ∙ ap reverse e ∙ reverse-reverse body in
    record {
      lead = NoLead-left _ (reverse cut) (subst NoLead (sym whole) (trim_start-NoLead s));
      last = subst NoLead (sym (reverse-reverse _)) (trim_start-NoLead (reverse body));
    }

trim_of_IsTrimmed : (s : Text) → IsTrimmed s → trim s ≡ s
unfolding trim trim_end
trim_of_IsTrimmed s h =
    ap (λ t. reverse (trim_start (reverse t))) (trim_start_of_NoLead s h.lead)
    ∙ ap reverse (trim_start_of_NoLead (reverse s) h.last)
    ∙ reverse-reverse s

-- What stands behind the repository is nothing, or begins with the colon.
abbrev IsRest : Text → Type 0
IsRest rest = (rest ≡ []) ⊎ ((r : Text) × (rest ≡ b':' ∷ r))

drop-index_of : (k n : ℕ) (s : Text) → index_of k s ≡ some n → (r : Text) × (drop n s ≡ k ∷ r)
unfolding index_of
drop-index_of k n [] h = cc
drop-index_of k n (c ∷ s) h = elim (Bool-cases (c == k)) [
  | inl here ↦ (s, ground arith)
  | inr later ↦ elim (Option-cases (index_of k s)) [
    | inl missing ↦ cc (rw (later, missing, index_of) at h)
    | inr (m, found) ↦
        let (r, e) = drop-index_of k m s found in
        let next : n ≡ suc m = ground arith in (r, ap (λ j. drop j (c ∷ s)) next ∙ e)
  ]
]

split_repo_lem :
    (value : Text)
    → ((split_repo value).0 ++ (split_repo value).1 ≡ value) × IsRest (split_repo value).1
unfolding split_repo
split_repo_lem value = elim (Option-cases (index_of b':' value)) [
  | inl missing ↦ rw (missing, split_repo) (append-nil value, inl refl)
  | inr (n, found) ↦
      rw (found, split_repo) (take-append-drop n value, inr (drop-index_of b':' n value found))
]

IsAlias : Text → Type 0
IsAlias r = (r ≡ codes "regression-research") ⊎ (r ≡ codes "agents")

lookup-aliases : (repo : Text) {r : Text} → lookup repo repo_scope_aliases ≡ some r → IsAlias r
unfolding lookup IsAlias
lookup-aliases repo h = ground arith

logical_scope_fixed :
    (r rest : Text) → IsAlias r → IsRest rest → logical_scope (r ++ rest) ≡ r ++ rest
unfolding scope_code IsAlias
logical_scope_fixed r rest (inl e) (inl k) = rw (e, k) refl
logical_scope_fixed r rest (inr e) (inl k) = rw (e, k) refl
logical_scope_fixed r rest (inl e) (inr (_, k)) = rw (e, k) refl
logical_scope_fixed r rest (inr e) (inr (_, k)) = rw (e, k) refl

alias-IsTrimmed : (r rest : Text) → IsAlias r → NoLead (reverse rest) → IsTrimmed (r ++ rest)
unfolding IsAlias is_space
alias-IsTrimmed r rest (inl e) h = record {
  lead = rw e refl;
  last =
      rw (e, reverse-append (codes "regression-research") rest)
        (NoLead-append (reverse rest) _ h refl);
}
alias-IsTrimmed r rest (inr e) h = record {
  lead = rw e refl;
  last = rw (e, reverse-append (codes "agents") rest) (NoLead-append (reverse rest) _ h refl);
}

alias-relative :
    (host : Host) (r rest : Text)
    → IsAlias r
    → canonical_value host (r ++ rest) ≡ some (logical_scope (r ++ rest))
unfolding IsAlias canonical_value is_absolute
alias-relative host r rest (inl e) = rw e (ground arith)
alias-relative host r rest (inr e) = rw e (ground arith)

logical_scope_unknown :
    (value : Text)
    → lookup (to_lower (split_repo value).0) repo_scope_aliases ≡ none
    → logical_scope value ≡ value
unfolding logical_scope
logical_scope_unknown value e = rw (e, logical_scope)

logical_scope_known :
    (value r : Text)
    → lookup (to_lower (split_repo value).0) repo_scope_aliases ≡ some r
    → logical_scope value ≡ r ++ (split_repo value).1
unfolding logical_scope
logical_scope_known value r e = rw (e, logical_scope)

canonical_scope_of_IsTrimmed :
    (host : Host) (value : Text)
    → IsTrimmed value
    → canonical_scope host value ≡ canonical_value host value
unfolding canonical_scope
canonical_scope_of_IsTrimmed host value h = ap (canonical_value host) (trim_of_IsTrimmed value h)

-- What a trimmed logical scope becomes is a fixed point.
logical_scope-stable :
    (host : Host) (value : Text)
    → IsTrimmed value
    → canonical_value host value ≡ some (logical_scope value)
    → canonical_scope host (logical_scope value) ≡ some (logical_scope value)
logical_scope-stable host value trimmed relative =
    elim (Option-cases (lookup (to_lower (split_repo value).0) repo_scope_aliases)) [
      | inl unknown ↦
          let same = logical_scope_unknown value unknown in
          ap (canonical_scope host) same
          ∙ canonical_scope_of_IsTrimmed host value trimmed
          ∙ relative
      | inr (r, known) ↦
          let (whole, tail) = split_repo_lem value in
          let rest = (split_repo value).1 in
          let alias = lookup-aliases (to_lower (split_repo value).0) known in
          let same = logical_scope_known value r known in
          let solid = NoLead-left (reverse rest) (reverse (split_repo value).0) (
            subst NoLead (ap reverse (sym whole) ∙ reverse-append (split_repo value).0 rest)
              trimmed.last) in
          ap (canonical_scope host) same
          ∙ canonical_scope_of_IsTrimmed host (r ++ rest) (alias-IsTrimmed r rest alias solid)
          ∙ alias-relative host r rest alias
          ∙ ap some (logical_scope_fixed r rest alias tail ∙ sym same)
    ]

canonical_value_relative :
    (host : Host) (value : Text) {v : Text}
    → is_absolute host value ≡ false
    → canonical_value host value ≡ some v
    → v ≡ logical_scope value
unfolding canonical_value
canonical_value_relative host [] relative h = cc
canonical_value_relative host (c ∷ s) relative h = ground arith

-- The canonical form of a scope that is no absolute path is its own canonical form.
pub canonical_scope_idem :
    (host : Host) (scope : Text) {v : Text}
    → is_absolute host (trim scope) ≡ false
    → canonical_scope host scope ≡ some v
    → canonical_scope host v ≡ some v
unfolding canonical_scope
canonical_scope_idem host scope {v} relative h =
    let e = canonical_value_relative host (trim scope) relative h in
    ap (canonical_scope host) e
    ∙ logical_scope-stable host (trim scope) (trim-IsTrimmed scope) (h ∙ ap some e)
    ∙ ap some (sym e)
