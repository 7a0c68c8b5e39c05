-- ===== src/Capture/Suffix.antt =====
-- `tail` of `BoundedCapture` returns a suffix of what is kept, and says how much it left out.
use mathlib.Core.List.{reverse-cons, reverse-reverse}
use chatgpt_mcp_clean.Base.{
  ℕ, ◌-◌, ◌≤◌, ◌<◌, min, max, ◌≡◌, refl, sym, ap, ◌∙◌, true, false, ◌||◌, List, [], ◌∷◌, ◌++◌,
  reverse, arith, ltb, leb, length, take, drop, flatten, take_last, Text, length-append,
  length-drop, take-append-drop, append-nil, drop_all, drop-append_le, Bool-cases, inl, inr, leb→le,
}
use chatgpt_mcp_clean.Capture.{Capture, tail_parts, tail}
use chatgpt_mcp_clean.Capture.Window.{IsValid, take_last-append_short, flatten-concat}

flatten-reverse-cons :
    (x : Text) (xs : List Text) → flatten (reverse (x ∷ xs)) ≡ flatten (reverse xs) ++ x
flatten-reverse-cons x xs = ap flatten (reverse-cons x xs) ∙ flatten-concat (reverse xs) x

take_last_zero : (xs : Text) → take_last 0 xs ≡ []
take_last_zero xs = drop_all (length xs - 0) xs (omega arith)

take_last-append_long :
    (n : ℕ) (xs ys : Text)
    → length ys ≤ n
    → take_last n (xs ++ ys) ≡ take_last (n - length ys) xs ++ ys
take_last-append_long n xs ys h =
    let e : length (xs ++ ys) - n ≡ length xs - (n - length ys) =
      omega (arith, length-append xs ys) in
    ap (λ k. drop k (xs ++ ys)) e ∙ drop-append_le (length xs - (n - length ys)) xs ys (omega arith)

tail_parts_spent : (earlier : List Text) → tail_parts 0 earlier ≡ []
unfolding tail_parts
tail_parts_spent [] = refl
tail_parts_spent (chunk ∷ earlier) = refl

module _ (remaining : ℕ) (chunk : Text) (earlier : List Text) where
  tail_parts_whole :
      ltb 0 remaining ≡ true
      → leb (length chunk) remaining ≡ true
      → tail_parts remaining (chunk ∷ earlier)
        ≡ chunk ∷ tail_parts (remaining - length chunk) earlier
  unfolding tail_parts
  tail_parts_whole more whole = rw (more, whole)

  tail_parts_cut :
      ltb 0 remaining ≡ true
      → leb (length chunk) remaining ≡ false
      → tail_parts remaining (chunk ∷ earlier) ≡ take_last remaining chunk ∷ []
  tail_parts_cut more cut =
      step
      ∙ ap (λ k. take_last remaining chunk ∷ tail_parts k earlier) (omega (arith, all_taken, short))
      ∙ ap (◌∷◌ (take_last remaining chunk)) (tail_parts_spent earlier)
    where
      short : remaining < length chunk
      short = ground arith

      all_taken : length (take_last remaining chunk) ≡ length chunk - (length chunk - remaining)
      all_taken = length-drop (length chunk - remaining) chunk

      step :
          tail_parts remaining (chunk ∷ earlier)
          ≡ take_last remaining chunk
            ∷ tail_parts (remaining - length (take_last remaining chunk)) earlier
      step = unfold tail_parts in rw (more, cut)

-- The loop, over the chunks from the last one backwards.
flatten-tail_parts :
    (remaining : ℕ) (newest : List Text)
    → flatten (reverse (tail_parts remaining newest))
      ≡ take_last remaining (flatten (reverse newest))
unfolding tail_parts
flatten-tail_parts remaining [] = sym (drop_all (0 - remaining) [] (omega arith))
flatten-tail_parts remaining (chunk ∷ earlier) = elim (Bool-cases (ltb 0 remaining)) [
  | inr spent ↦
      let none_left : remaining ≡ 0 = ground arith in
      ap (λ k. flatten (reverse (tail_parts k (chunk ∷ earlier)))) none_left
      ∙ ap (λ ps. flatten (reverse ps)) (tail_parts_spent (chunk ∷ earlier))
      ∙ sym (take_last_zero (flatten (reverse (chunk ∷ earlier))))
      ∙ ap (λ k. take_last k (flatten (reverse (chunk ∷ earlier)))) (sym none_left)
  | inl more ↦ elim (Bool-cases (leb (length chunk) remaining)) [
    | inl whole ↦
        ap (λ ps. flatten (reverse ps)) (tail_parts_whole remaining chunk earlier more whole)
        ∙ flatten-reverse-cons chunk (tail_parts (remaining - length chunk) earlier)
        ∙ ap (λ xs. xs ++ chunk) (flatten-tail_parts (remaining - length chunk) earlier)
        ∙ sym (take_last-append_long remaining (flatten (reverse earlier)) chunk (leb→le _ _ whole))
        ∙ ap (take_last remaining) (sym (flatten-reverse-cons chunk earlier))
    | inr cut ↦
        ap (λ ps. flatten (reverse ps)) (tail_parts_cut remaining chunk earlier more cut)
        ∙ append-nil (take_last remaining chunk)
        ∙ sym (
            take_last-append_short remaining (flatten (reverse earlier)) chunk
              (omega (arith, short cut, length-append (flatten (reverse earlier)) chunk)))
        ∙ ap (take_last remaining) (sym (flatten-reverse-cons chunk earlier))
  ]
]
  where
    short : leb (length chunk) remaining ≡ false → remaining < length chunk
    short cut = ground arith

-- `text` is the last characters of what is kept, at least one and at most what was asked for and
-- the ceiling; `dropped` counts the ones in front of them exactly; and the flag says whether the
-- capture had lost anything or holds more than was asked for.
pub tail_lem :
    (bound : ℕ) (c : Capture) (max_chars ceiling : ℕ)
    → IsValid bound c
    → let t = tail c max_chars ceiling in
      (t.text ≡ take_last (max 1 (min max_chars ceiling)) (flatten c.chunks))
      × (take t.dropped (flatten c.chunks) ++ t.text ≡ flatten c.chunks)
      × (t.truncated ≡ (c.truncated || ltb max_chars (length (flatten c.chunks))))
unfolding tail
tail_lem bound c max_chars ceiling v =
    let asked = max 1 (min max_chars ceiling) in
    let stored = flatten c.chunks in
    let text = flatten (reverse (tail_parts asked (reverse c.chunks))) in
    let shown : text ≡ take_last asked stored =
      flatten-tail_parts asked (reverse c.chunks)
      ∙ ap (λ cs. take_last asked (flatten cs)) (reverse-reverse c.chunks) in
    let cut : c.length - length text ≡ length stored - asked =
      omega (arith, v.counted, ap length shown, length-drop (length stored - asked) stored) in
    (
      shown,
      ap (λ k. take k stored ++ text) cut
          ∙ ap (λ xs. take (length stored - asked) stored ++ xs) shown
          ∙ take-append-drop (length stored - asked) stored,
      ap (λ n. c.truncated || ltb max_chars n) v.counted,
    )
