-- ===== src/Capture/Stream.antt =====
-- A whole stream through `BoundedCapture`.
use chatgpt_mcp_clean.Base.{
  ℕ, ◌+◌, ◌-◌, ◌≤◌, ◌<◌, ◌≡◌, refl, sym, ap, ◌∙◌, true, false, some, List, [], ◌∷◌, ◌++◌, arith,
  leb, length, take, drop, flatten, take_last, Text, length-append, length-take, length-drop,
  take-append-drop, append-nil, append_assoc, Bool-cases, inl, inr, leb→le,
}
use chatgpt_mcp_clean.Capture.{Capture, reset, append, append_all}
use chatgpt_mcp_clean.Capture.Window.{
  IsValid, Appends, append-Appends, take_last_all, take_last-append_short,
}

take_last-append_take_last {ℓ} :
    {A : Type ℓ} (n : ℕ) (xs ys : List A)
    → take_last n (take_last n xs ++ ys) ≡ take_last n (xs ++ ys)
take_last-append_take_last n xs ys = elim (Bool-cases (leb n (length xs))) [
  | inr few ↦ ap (λ zs. take_last n (zs ++ ys)) (take_last_all n xs (ground arith))
  | inl enough ↦
      let k = length xs - n in
      sym (
        ap (λ zs. take_last n (zs ++ ys)) (sym (take-append-drop k xs))
        ∙ ap (take_last n) (append_assoc (take k xs) (drop k xs) ys)
        ∙ take_last-append_short n (take k xs) (drop k xs ++ ys) (
            omega (
              arith,
              leb→le _ _ enough,
              length-take k xs,
              length-drop k xs,
              length-append (drop k xs) ys,
              length-append (take k xs) (drop k xs ++ ys),
            )))
]

-- With the flag down the bound has not been passed, so the window is the whole text.
Appends-complete :
    (bound : ℕ) (c next : Capture) (text : Text)
    → IsValid bound c
    → Appends bound c text next
    → next.truncated ≡ false
    → (c.truncated ≡ false) × (flatten next.chunks ≡ flatten c.chunks ++ text)
Appends-complete bound c next text v a down =
    let within : (c.truncated ≡ false) × (c.length + length text ≤ bound) =
      (ground (arith, a.flagged), ground (arith, a.flagged)) in
    (
      within.0,
      a.kept
          ∙ take_last_all bound (flatten c.chunks ++ text)
              (omega (arith, within.1, v.counted, length-append (flatten c.chunks) text)),
    )

-- `bound` characters at the end of the stream are kept, and all of it while the flag is down.
pub record Streams (bound : ℕ) (c : Capture) (texts : List Text) (c' : Capture) : Type 0 where
  pub valid : IsValid bound c'
  pub kept : flatten c'.chunks ≡ take_last bound (flatten c.chunks ++ flatten texts)
  pub complete :
      c'.truncated ≡ false
      → (c.truncated ≡ false) × (flatten c'.chunks ≡ flatten c.chunks ++ flatten texts)

module _ (bound : ℕ) (positive : 0 < bound) where
  append_all_nil : (c : Capture) → IsValid bound c → Streams bound c [] c
  append_all_nil c v = record {
    valid = v;
    kept = sym (
        ap (take_last bound) (append-nil (flatten c.chunks))
        ∙ take_last_all bound (flatten c.chunks) (omega (arith, v.counted, v.bounded)));
    complete = λ down. (down, sym (append-nil (flatten c.chunks)));
  }

  append_all_cons :
      (c next c' : Capture) (text : Text) (texts : List Text)
      → IsValid bound c
      → Appends bound c text next
      → Streams bound next texts c'
      → Streams bound c (text ∷ texts) c'
  append_all_cons c next c' text texts v a s = record {
    valid = s.valid;
    kept =
        s.kept
        ∙ ap (λ xs. take_last bound (xs ++ flatten texts)) a.kept
        ∙ take_last-append_take_last bound (flatten c.chunks ++ text) (flatten texts)
        ∙ ap (take_last bound) (append_assoc (flatten c.chunks) text (flatten texts));
    complete = λ down.
        let (down', rest) = s.complete down in
        let (flag, here) = Appends-complete bound c next text v a down' in
        (
          flag,
          rest
              ∙ ap (λ xs. xs ++ flatten texts) here
              ∙ append_assoc (flatten c.chunks) text (flatten texts),
        );
  }

  -- Whatever a process writes, and in whatever pieces it arrives, `append` accepts every piece, and
  -- the capture holds exactly the last `bound` characters of what it held and what came; if the flag
  -- is down at the end, nothing at all is missing.
  pub append_all-Streams :
      (c : Capture) (texts : List Text)
      → IsValid bound c
      → (c' : Capture) × (append_all bound c texts ≡ some c') × Streams bound c texts c'
  unfolding append_all
  append_all-Streams c [] v = (c, refl, append_all_nil c v)
  append_all-Streams c (text ∷ texts) v =
      let (next, e, a) = append-Appends bound positive c text v in
      let (c', e', s) = append_all-Streams next texts a.valid in
      (c', rw e e', append_all_cons c next c' text texts v a s)

  -- One text that fills an empty capture exactly is kept whole, and the flag goes up all the same.
  pub append-reset_exact :
      (text : Text)
      → length text ≡ bound
      → (c' : Capture) × (append bound reset text ≡ some c')
        × (flatten c'.chunks ≡ text)
        × (c'.truncated ≡ true)
  unfolding reset
  append-reset_exact text exact =
      let (c', e, a) = append-Appends bound positive reset text reset-IsValid in
      (
        c',
        e,
        a.kept ∙ take_last_all bound text (omega (arith, exact)),
        ground (arith, a.flagged, exact),
      )
    where
      reset-IsValid : IsValid bound reset
      reset-IsValid = omega arith
