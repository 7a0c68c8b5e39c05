-- ===== src/Capture/Window.antt =====
-- `append` of `BoundedCapture`: the window at the end of the stream.
use chatgpt_mcp_clean.Base.{
  ℕ, zero, suc, ◌+◌, ◌-◌, ◌≤◌, ◌<◌, ◌≡◌, refl, sym, ap, ◌∙◌, Bool, true, false, ◌||◌, some, List,
  [], ◌∷◌, ◌++◌, arith, ltb, leb, length, drop, flatten, take_last, Text, length-append,
  length-drop, drop-append_le, drop-append_ge, flatten-append, Bool-cases, ltb→lt, leb→le,
  append-nil, inl, inr,
}
use chatgpt_mcp_clean.Capture.{Capture, evict, append}

-- The counter agrees with the chunks, and the bound holds.
pub record IsValid (bound : ℕ) (c : Capture) : Type 0 where
  pub counted : c.length ≡ length (flatten c.chunks)
  pub bounded : c.length ≤ bound

module _ {ℓ} {A : Type ℓ} where
  pub take_last_all : (n : ℕ) (xs : List A) → length xs ≤ n → take_last n xs ≡ xs
  take_last_all n xs h = ap (λ k. drop k xs) (let e : length xs - n ≡ 0 = omega arith in e)

  pub take_last-append_short :
      (n : ℕ) (xs ys : List A)
      → length xs + n ≤ length (xs ++ ys)
      → take_last n (xs ++ ys) ≡ take_last n ys
  take_last-append_short n xs ys h =
      drop-append_ge (length (xs ++ ys) - n) xs ys (omega arith)
      ∙ ap (λ k. drop k ys)
          (let e : length (xs ++ ys) - n - length xs ≡ length ys - n =
              omega (arith, length-append xs ys) in
            e)

-- What a run of the loop has done when it ends.
record Evicts (bound : ℕ) (c c' : Capture) : Type 0 where
  valid : IsValid bound c'
  kept : flatten c'.chunks ≡ take_last bound (flatten c.chunks)
  flagged : c'.truncated ≡ (c.truncated || ltb bound c.length)

evict_within : (bound fuel : ℕ) (c : Capture) → c.length ≤ bound → evict bound (suc fuel) c ≡ some c
unfolding evict
evict_within bound fuel c h = ground arith

-- The loop does nothing when the bound holds.
Evicts-refl :
    (bound : ℕ) (c : Capture)
    → c.length ≡ length (flatten c.chunks)
    → c.length ≤ bound
    → Evicts bound c c
Evicts-refl bound c counted h = record {
  valid = record { counted = counted; bounded = h };
  kept = sym (take_last_all bound (flatten c.chunks) (omega arith));
  flagged = ground arith;
}

abbrev capture_of : List Text → ℕ → Bool → Capture
capture_of chunks n flag = record { chunks = chunks; length = n; truncated = flag }

-- One round: a whole chunk goes.
Evicts-shift :
    (bound : ℕ) (first : Text) (rest : List Text) (n : ℕ) (flag : Bool) (c' : Capture)
    → n ≡ length (flatten (first ∷ rest))
    → bound < n
    → length first ≤ n - bound
    → Evicts bound (capture_of rest (n - length first) true) c'
    → Evicts bound (capture_of (first ∷ rest) n flag) c'
Evicts-shift bound first rest n flag c' counted over fits e = record {
  valid = e.valid;
  kept =
      e.kept
      ∙ sym (
          take_last-append_short bound first (flatten rest)
            (omega (arith, length-append first (flatten rest))));
  flagged = ground (arith, e.flagged);
}

-- The other round: the first chunk is cut.
Evicts-cut :
    (bound : ℕ) (first : Text) (rest : List Text) (n : ℕ) (flag : Bool)
    → n ≡ length (flatten (first ∷ rest))
    → bound < n
    → n - bound < length first
    → Evicts bound
        (capture_of (first ∷ rest) n flag)
        (capture_of (drop (n - bound) first ∷ rest) (n - (n - bound)) true)
Evicts-cut bound first rest n flag counted over long = record {
  valid = record {
    counted = omega (
      arith,
      length-append first (flatten rest),
      length-drop (n - bound) first,
      length-append (drop (n - bound) first) (flatten rest),
    );
    bounded = omega arith;
  };
  kept =
      sym (drop-append_le (n - bound) first (flatten rest) (omega arith))
      ∙ ap (λ k. drop (k - bound) (first ++ flatten rest)) counted;
  flagged = ground arith;
}

evict_shift :
    (bound fuel : ℕ) (first : Text) (rest : List Text) (n : ℕ) (flag : Bool)
    → ltb bound n ≡ true
    → leb (length first) (n - bound) ≡ true
    → evict bound (suc fuel) (capture_of (first ∷ rest) n flag)
      ≡ evict bound fuel (capture_of rest (n - length first) true)
unfolding evict
evict_shift bound fuel first rest n flag over whole = ground arith

evict_cut :
    (bound fuel : ℕ) (first : Text) (rest : List Text) (n : ℕ) (flag : Bool)
    → ltb bound n ≡ true
    → leb (length first) (n - bound) ≡ false
    → evict bound (suc fuel) (capture_of (first ∷ rest) n flag)
      ≡ evict bound fuel (capture_of (drop (n - bound) first ∷ rest) (n - (n - bound)) true)
unfolding evict
evict_cut bound fuel first rest n flag over cut = ground arith

-- With a round for each chunk and two more the loop ends by its test, and nothing is thrown.
evict_ends :
    (bound : ℕ) (chunks : List Text) (fuel n : ℕ) (flag : Bool)
    → n ≡ length (flatten chunks)
    → length chunks < fuel
    → (c' : Capture) × (evict bound (suc fuel) (capture_of chunks n flag) ≡ some c')
      × Evicts bound (capture_of chunks n flag) c'
evict_ends bound [] fuel n flag counted h =
    (_, evict_within bound fuel _ (omega arith), Evicts-refl bound _ counted (omega arith))
evict_ends bound (first ∷ rest) zero n flag counted h = elim h [ ]
evict_ends bound (first ∷ rest) (suc fuel) n flag counted h = elim (Bool-cases (ltb bound n)) [
  | inr within ↦ (
    _,
    evict_within bound (suc fuel) _ (ground arith),
    Evicts-refl bound _ counted (ground arith),
  )
  | inl over ↦ elim (Bool-cases (leb (length first) (n - bound))) [
    | inl whole ↦
        let (c', e, done) =
          evict_ends bound rest fuel (n - length first) true
            (omega (arith, length-append first (flatten rest))) (omega arith) in
        (
          c',
          evict_shift bound (suc fuel) first rest n flag over whole ∙ e,
          Evicts-shift bound first rest n flag c' counted (ltb→lt _ _ over) (leb→le _ _ whole) done,
        )
    | inr cut ↦
        let e =
          evict_within bound fuel
            (capture_of (drop (n - bound) first ∷ rest) (n - (n - bound)) true) (ground arith) in
        (
          _,
          evict_cut bound (suc fuel) first rest n flag over cut ∙ e,
          Evicts-cut bound first rest n flag counted (ltb→lt _ _ over) (ground arith),
        )
  ]
]

pub flatten-concat :
    (chunks : List Text) (text : Text) → flatten (chunks ++ text ∷ []) ≡ flatten chunks ++ text
flatten-concat chunks text =
    flatten-append chunks (text ∷ []) ∙ ap (◌++◌ (flatten chunks)) (append-nil text)

-- `append` never throws, its loop ends, and of the characters kept so far and the new ones it
-- keeps the last `bound`. The flag is raised when the new text alone fills the bound or the two
-- together pass it, and stays raised.
pub record Appends (bound : ℕ) (c : Capture) (text : Text) (c' : Capture) : Type 0 where
  pub valid : IsValid bound c'
  pub kept : flatten c'.chunks ≡ take_last bound (flatten c.chunks ++ text)
  pub flagged :
      c'.truncated
      ≡ (c.truncated || (leb bound (length text) || ltb bound (c.length + length text)))

module _ (bound : ℕ) (positive : 0 < bound) where
  append_nil :
      (c : Capture)
      → IsValid bound c
      → (c' : Capture) × (append bound c [] ≡ some c') × Appends bound c [] c'
  unfolding append
  append_nil c v = (
    c,
    refl,
    record {
      valid = v;
      kept = sym (
          ap (take_last bound) (append-nil (flatten c.chunks))
          ∙ take_last_all bound (flatten c.chunks) (omega (arith, v.counted, v.bounded)));
      flagged = ground (arith, v.bounded);
    },
  )

  append_long :
      (c : Capture) (u : ℕ) (us : Text)
      → leb bound (length (u ∷ us)) ≡ true
      → (c' : Capture) × (append bound c (u ∷ us) ≡ some c') × Appends bound c (u ∷ us) c'
  unfolding append
  append_long c u us long = (
    record {
      chunks = take_last bound (u ∷ us) ∷ [];
      length = length (take_last bound (u ∷ us));
      truncated = true;
    },
    ground arith,
    record {
      valid = record {
        counted = ap length (sym (append-nil (take_last bound (u ∷ us))));
        bounded = omega (arith, leb→le _ _ long, length-drop (length (u ∷ us) - bound) (u ∷ us));
      };
      kept =
          append-nil _
          ∙ sym (
              take_last-append_short bound (flatten c.chunks) (u ∷ us)
                (omega (arith, leb→le _ _ long, length-append (flatten c.chunks) (u ∷ us))));
      flagged = ground arith;
    },
  )

  append_short :
      (c : Capture) (u : ℕ) (us : Text)
      → IsValid bound c
      → leb bound (length (u ∷ us)) ≡ false
      → (c' : Capture) × (append bound c (u ∷ us) ≡ some c') × Appends bound c (u ∷ us) c'
  unfolding append
  append_short c u us v short =
      let text = u ∷ us in
      let (c', e, done) =
        evict_ends bound (c.chunks ++ text ∷ []) (suc (suc (length c.chunks)))
          (c.length + length text) c.truncated
          (omega (
            arith,
            v.counted,
            ap length (flatten-concat c.chunks text),
            length-append (flatten c.chunks) text,
          ))
          (omega (arith, length-append c.chunks (text ∷ []))) in
      (
        c',
        rw short e,
        record {
          valid = done.valid;
          kept = done.kept ∙ ap (take_last bound) (flatten-concat c.chunks text);
          flagged = done.flagged ∙ ground arith;
        },
      )

  pub append-Appends :
      (c : Capture) (text : Text)
      → IsValid bound c
      → (c' : Capture) × (append bound c text ≡ some c') × Appends bound c text c'
  append-Appends c [] v = append_nil c v
  append-Appends c (u ∷ us) v = elim (Bool-cases (leb bound (length (u ∷ us)))) [
    | inl long ↦ append_long c u us long
    | inr short ↦ append_short c u us v short
  ]
