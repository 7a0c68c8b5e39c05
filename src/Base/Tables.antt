-- ===== src/Base/Tables.antt =====
-- JavaScript's `Map` with text keys: entries in order of insertion; `set` on a key that is there
-- keeps its place.
use mathlib.Core.Path.{◌≡◌, refl, sym, subst}
use mathlib.Core.Logic.{inl, inr}
use mathlib.Core.Option.{Option, none, some}
use mathlib.Core.List.{List, [], ◌∷◌, ◌++◌}
use native.Mathlib.Omega.{arith}
use mathlib.Core.Bool.{Bool, true}
use chatgpt_mcp_clean.Base.Lists.{All, filter}
use chatgpt_mcp_clean.Base.Tests.{Bool-cases, if◌then◌else◌}
use chatgpt_mcp_clean.Base.Texts.{Text, text_eq, text_eq_iff}

abbrev pub Table {ℓ} : Type ℓ → Type ℓ
Table V = List (Text × V)

module _ {ℓ} {V : Type ℓ} where
  unfoldable pub lookup : Text → Table V → Option V
  lookup k [] = none
  lookup k ((j, v) ∷ m) = if text_eq j k then some v else lookup k m

  unfoldable pub insert : Text → V → Table V → Table V
  insert k v [] = (k, v) ∷ []
  insert k v ((j, w) ∷ m) = if text_eq j k then (j, v) ∷ m else (j, w) ∷ insert k v m

  unfoldable pub erase : Text → Table V → Table V
  erase k [] = []
  erase k ((j, w) ∷ m) = if text_eq j k then erase k m else (j, w) ∷ erase k m

  pub lookup-insert :
      (k j : Text) (v : V) (m : Table V)
      → lookup j (insert k v m) ≡ (if text_eq k j then some v else lookup j m)
  unfolding lookup insert
  lookup-insert k j v [] = refl
  lookup-insert k j v ((i, w) ∷ m) =
      ground (arith, text_eq_iff k j, text_eq_iff i k, text_eq_iff i j, lookup-insert k j v m)

  pub lookup-erase :
      (k j : Text) (m : Table V) → lookup j (erase k m) ≡ (if text_eq k j then none else lookup j m)
  unfolding lookup erase
  lookup-erase k j [] = ground arith
  lookup-erase k j ((i, w) ∷ m) =
      ground (arith, text_eq_iff k j, text_eq_iff i k, text_eq_iff i j, lookup-erase k j m)

  pub lookup-insert_self : (k : Text) (v : V) (m : Table V) → lookup k (insert k v m) ≡ some v
  lookup-insert_self k v m = ground (arith, lookup-insert k k v m, text_eq_iff k k)

  pub lookup-erase_self : (k : Text) (m : Table V) → lookup k (erase k m) ≡ none
  lookup-erase_self k m = ground (arith, lookup-erase k k m, text_eq_iff k k)

  pub lookup-erase_absent :
      (k j : Text) (m : Table V) → lookup j m ≡ none → lookup j (erase k m) ≡ none
  lookup-erase_absent k j m h = ground (arith, lookup-erase k j m)

  pub insert_absent :
      (k : Text) (v : V) (m : Table V) → lookup k m ≡ none → insert k v m ≡ m ++ (k, v) ∷ []
  unfolding lookup insert
  insert_absent k v [] h = refl
  insert_absent k v ((j, w) ∷ m) h = ground (arith, insert_absent k v m)

  pub erase_absent : (k : Text) (m : Table V) → lookup k m ≡ none → erase k m ≡ m
  unfolding lookup erase
  erase_absent k [] h = refl
  erase_absent k ((j, w) ∷ m) h = ground (arith, erase_absent k m)

  pub erase-insert_absent :
      (k : Text) (v : V) (m : Table V) → lookup k m ≡ none → erase k (insert k v m) ≡ m
  unfolding lookup erase insert
  erase-insert_absent k v [] h = ground (arith, text_eq_iff k k)
  erase-insert_absent k v ((j, w) ∷ m) h = ground (arith, erase-insert_absent k v m)

  pub lookup-append :
      (k : Text) (m n : Table V)
      → lookup k (m ++ n) ≡ elim (lookup k m) [ none ↦ lookup k n | some v ↦ some v ]
  unfolding lookup
  lookup-append k [] n = refl
  lookup-append k ((j, w) ∷ m) n = ground (arith, lookup-append k m n)

  -- No key stands in front of an entry with the same key.
  abbrev pub Distinct : Table V → Type ℓ
  Distinct [] = Unit
  Distinct ((k, v) ∷ m) = (lookup k m ≡ none) × Distinct m

  -- The keys of the second table are not in the first.
  abbrev pub Apart : Table V → Table V → Type ℓ
  Apart m [] = Unit
  Apart m ((k, v) ∷ n) = (lookup k m ≡ none) × Apart m n

  pub Apart-concat :
      (m n : Table V) (k : Text) (v : V)
      → Apart m n
      → lookup k n ≡ none
      → Apart (m ++ (k, v) ∷ []) n
  unfolding lookup
  Apart-concat m [] k v h g = tt
  Apart-concat m ((j, w) ∷ n) k v h g = (
    ground (arith, lookup-append j m ((k, v) ∷ []), text_eq_iff k j, text_eq_iff j k),
    Apart-concat m n k v h.1 (ground arith),
  )

  pub Apart-nil : (m : Table V) → Apart [] m
  unfolding lookup
  Apart-nil [] = tt
  Apart-nil ((k, v) ∷ m) = (refl, Apart-nil m)

  -- An entry that stands between apart tables is the only one with its key.
  pub erase_middle :
      (k : Text) (v : V) (m n : Table V)
      → lookup k m ≡ none
      → lookup k n ≡ none
      → erase k (m ++ (k, v) ∷ n) ≡ m ++ n
  unfolding lookup erase
  erase_middle k v [] n h g = ground (arith, text_eq_iff k k, erase_absent k n)
  erase_middle k v ((j, w) ∷ m) n h g = ground (arith, erase_middle k v m n)

module _ {V : Type 0} (P : Text × V → Type 0) (k : Text) (v : V) where
  pub All-insert : (m : Table V) → P (k, v) → All P m → All P (insert k v m)
  unfolding insert
  All-insert [] h g = (h, tt)
  All-insert ((j, w) ∷ m) h g = elim (Bool-cases (text_eq j k)) [
    | inl e ↦ rw e (subst (λ i. P (i, v)) (sym ((text_eq_iff j k).0 e)) h, g.1)
    | inr e ↦ rw e (g.0, All-insert m h g.1)
  ]

module _ {V : Type 0} (P : Text × V → Type 0) (k : Text) where
  pub All-erase : (m : Table V) → All P m → All P (erase k m)
  unfolding erase
  All-erase [] h = tt
  All-erase ((j, w) ∷ m) h = elim (Bool-cases (text_eq j k)) [
    | inl e ↦ rw e (All-erase m h.1)
    | inr e ↦ rw e (h.0, All-erase m h.1)
  ]

module _ {V : Type 0} where
  pub Distinct-insert : (k : Text) (v : V) (m : Table V) → Distinct m → Distinct (insert k v m)
  unfolding insert lookup
  Distinct-insert k v [] h = (refl, tt)
  Distinct-insert k v ((j, w) ∷ m) h = elim (Bool-cases (text_eq j k)) [
    | inl e ↦ rw e h
    | inr e ↦ rw e (
      ground (arith, lookup-insert k j v m, text_eq_iff k j, text_eq_iff j k),
      Distinct-insert k v m h.1,
    )
  ]

  pub Distinct-erase : (k : Text) (m : Table V) → Distinct m → Distinct (erase k m)
  unfolding erase
  Distinct-erase k [] h = tt
  Distinct-erase k ((j, w) ∷ m) h = elim (Bool-cases (text_eq j k)) [
    | inl e ↦ rw e (Distinct-erase k m h.1)
    | inr e ↦ rw e (ground (arith, lookup-erase k j m), Distinct-erase k m h.1)
  ]

module _ {ℓ} {V : Type ℓ} (keep : Text × V → Bool) where
  -- A key that is not there is not there among the entries that are kept.
  pub lookup-filter : (k : Text) (m : Table V) → lookup k m ≡ none → lookup k (filter keep m) ≡ none
  unfolding lookup
  lookup-filter k [] h = refl
  lookup-filter k ((j, c) ∷ m) h = ground (arith, lookup-filter k m)

  pub lookup-filter_kept :
      (k : Text) (c : V) (m : Table V)
      → lookup k m ≡ some c
      → keep (k, c) ≡ true
      → lookup k (filter keep m) ≡ some c
  unfolding lookup
  lookup-filter_kept k c [] h g = ground arith
  lookup-filter_kept k c ((j, d) ∷ m) h g =
      ground (arith, text_eq_iff j k, lookup-filter_kept k c m)

  -- What is found among the entries that are kept is kept.
  pub lookup-filter_found :
      (k : Text) (c : V) (m : Table V) → lookup k (filter keep m) ≡ some c → keep (k, c) ≡ true
  unfolding lookup
  lookup-filter_found k c [] h = ground arith
  lookup-filter_found k c ((j, d) ∷ m) h =
      ground (arith, text_eq_iff j k, lookup-filter_found k c m)
