-- ===== src/Plan/Parts.antt =====
-- The parts that src/lib/command-execution-plan.ts splits a command into.
use chatgpt_mcp_clean.Base.{
  All, ℕ, ◌≤◌, Bool, true, false, ◌||◌, Option, none, some, List, [], ◌∷◌, ◌++◌, ◌==◌,
  if◌then◌else◌, ◌>>=◌, Text, trim, length, length-append, ◌≡◌, refl, sym, ap, ap₂, ◌∙◌, subst,
  append-nil, arith,
}
use chatgpt_mcp_clean.Plan.Split.{
  RunCondition, always, SequencePart, Skip, none_skipped, kept, dropped, Split, start, add,
  is_empty, in_quotes, pipe_or_add, separator_or_add, by_quote, by_skip, split_loop, is_open,
  last_part, is_unsplit, end_pipeline, split_pipeline, several, end_sequence, split_sequence,
}
use chatgpt_mcp_clean.Plan.Pieces.{
  Separator, pipe, line_end, Piece, joined, next_run, parts_of, part_if,
}
use chatgpt_mcp_clean.Plan.Whole.{
  if-split, if_false, Left, Cut, Before, Cut-add, in_quotes-Cut, OtherCuts, pipe_or_add-Cuts,
  separator_or_add-Cuts,
}

module _ (P : Separator → Type 0) (command : Text) (backslash : Bool)
    (other : ℕ → Text → Split → Option Split) where
  by_quote-Cut :
      (c : ℕ) (rest : Text) (s t : Split)
      → OtherCuts P command other
      → s.skip ≡ none_skipped
      → Before P command (c ∷ rest) s
      → (quote : Option ℕ) → by_quote backslash other quote c rest s ≡ some t
      → Cut P command rest t
  by_quote-Cut c rest s t cuts unskipped b (some q) e =
      let same : in_quotes backslash q c rest s ≡ t = cc e in
      subst (Cut P command rest) same (in_quotes-Cut P command backslash q c rest s unskipped b)
  by_quote-Cut c rest s t cuts unskipped b none e =
      if-split (c == b'\'' || c == b'"') e (λ _ f. plain s.escaped (some c) f)
        λ _ e.
          if-split (c == b'`') e (λ _ f. plain true s.quote f) λ _ f. cuts c rest s t unskipped b f
    where
      plain :
          (escaped : Bool) (quote : Option ℕ)
          → some (record (add c s) { escaped = escaped; quote = quote }) ≡ some t
          → Cut P command rest t
      plain escaped quote e =
          let same : record (add c s) { escaped = escaped; quote = quote } ≡ t = cc e in
          subst (Cut P command rest) same (
            Cut-add P command c rest s (record (add c s) { escaped = escaped; quote = quote }) b
              refl refl refl
              λ left f. subst (λ skip. Left skip (s.segment ++ c ∷ []) rest left) (sym unskipped) f)

  by_skip-Cut :
      (c : ℕ) (rest : Text) (s t : Split)
      → OtherCuts P command other
      → Cut P command (c ∷ rest) s
      → by_skip backslash other s.skip c rest s ≡ some t
      → Cut P command rest t
  by_skip-Cut c rest s t cuts (ps, allowed, left, whole, l, parts, run) e = go s.skip refl l e
    where
      go :
          (skip : Skip)
          → s.skip ≡ skip
          → Left skip s.segment (c ∷ rest) left
          → by_skip backslash other skip c rest s ≡ some t
          → Cut P command rest t
      go kept k l e =
          let same : record (add c s) { skip = none_skipped } ≡ t = cc e in
          subst (Cut P command rest) same (
            Cut-add P command c rest s (record (add c s) { skip = none_skipped })
              (ps, allowed, whole ∙ ap (◌++◌ (joined ps)) l, parts, run) refl refl refl λ left f. f)
      go dropped k (d, after, f, l) e =
          let same : record s { skip = none_skipped } ≡ t = cc e in
          let there : after ≡ rest = cc f in
          subst (Cut P command rest) same
            (ps, allowed, left, whole, l ∙ ap (◌++◌ s.segment) there, parts, run)
      go none_skipped k l e =
          let b : Before P command (c ∷ rest) s =
            (ps, allowed, whole ∙ ap (◌++◌ (joined ps)) l, parts, run) in
          if-split s.escaped e
            (λ _ f.
              let same : record (add c s) { escaped = false } ≡ t = cc f in
              subst (Cut P command rest) same (
                Cut-add P command c rest s (record (add c s) { escaped = false }) b refl refl refl
                  λ left f. subst (λ skip. Left skip (s.segment ++ c ∷ []) rest left) (sym k) f))
            λ _ f. by_quote-Cut c rest s t cuts k b s.quote f

  split_loop-Cut :
      (rest : Text) (s t : Split)
      → OtherCuts P command other
      → Cut P command rest s
      → split_loop backslash other rest s ≡ some t
      → Cut P command [] t
  unfolding split_loop
  split_loop-Cut [] s t cuts cut e = let same : s ≡ t = cc e in subst (Cut P command []) same cut
  split_loop-Cut (c ∷ rest) s t cuts cut e =
      go (by_skip backslash other s.skip c rest s) refl e (λ u. split_loop-Cut rest u t cuts)
    where
      go :
          (u : Option Split)
          → by_skip backslash other s.skip c rest s ≡ u
          → (u >>= split_loop backslash other rest) ≡ some t
          → ((u : Split)
              → Cut P command rest u
              → split_loop backslash other rest u ≡ some t
              → Cut P command [] t)
          → Cut P command [] t
      go none f e next = absurd (cc e)
      go (some u) f e next = next u (by_skip-Cut c rest s u cuts cut f) e

-- The command is the pieces and a tail, and the parts are those of the pieces and of the tail.
-- `P` holds of the separators.
abbrev pub Covers : (Separator → Type 0) → Text → List SequencePart → Type 0
Covers P command parts =
    (pieces : List Piece) × All (λ (piece : Piece). P piece.1) pieces
    × (tail : Text) × (command ≡ joined pieces ++ tail)
    × (parts ≡ parts_of always pieces ++ part_if (next_run always pieces) tail)

Cut-Covers :
    (P : Separator → Type 0) (command : Text) (t : Split)
    → Cut P command [] t
    → Covers P command (t.parts ++ part_if t.run_if t.segment)
Cut-Covers P command t (ps, allowed, left, whole, l, parts, run) = (
  ps,
  allowed,
  t.segment,
  whole ∙ ap (◌++◌ (joined ps)) (go t.skip l),
  ap₂ (λ (xs : List SequencePart) (r : RunCondition). xs ++ part_if r t.segment) parts run,
)
  where
    go : (skip : Skip) → Left skip t.segment [] left → left ≡ t.segment
    go none_skipped l = l ∙ append-nil t.segment
    go kept l = l ∙ append-nil t.segment
    go dropped (d, after, e, l) = absurd (cc e)

begins : (P : Separator → Type 0) (command : Text) → Cut P command command start
begins P command = ([], tt, command, refl, refl, refl, refl)

found :
    {A : Type 0} (o : Option Split) (f : Split → Option A) (a : A)
    → (o >>= f) ≡ some a
    → (t : Split) × (o ≡ some t) × (f t ≡ some a)
found none f a e = absurd (cc e)
found (some t) f a e = (t, refl, e)

-- The separators of a sequence.
abbrev pub is_sequence : Separator → Bool
is_sequence pipe = false
is_sequence (line_end c) = c == 13 || c == 10
is_sequence _ = true

several-same : (xs ys : List SequencePart) → several xs ≡ some ys → (xs ≡ ys) × (2 ≤ length ys)
several-same [] ys e = absurd (cc e)
several-same (p ∷ []) ys e = absurd (cc e)
several-same (p ∷ q ∷ ps) ys e =
    let same : p ∷ q ∷ ps ≡ ys = cc e in
    (same, subst (λ (zs : List SequencePart). 2 ≤ length zs) same (omega arith))

end_sequence-same :
    (t : Split) (parts : List SequencePart)
    → end_sequence t ≡ some parts
    → (t.parts ++ part_if t.run_if t.segment ≡ parts) × (2 ≤ length parts)
end_sequence-same t parts e =
    if-split (is_open t) e (λ _ f. absurd (cc f))
      λ _ e.
        if-split (is_empty (trim t.segment)) e
          (λ blank f.
            let same = several-same t.parts parts f in
            (
              ap (◌++◌ t.parts) (ap (λ b. if b then [] else last_part t ∷ []) blank)
                  ∙ append-nil t.parts
                  ∙ same.0,
              same.1,
            ))
          λ full f.
            let same = several-same (t.parts ++ last_part t ∷ []) parts f in
            (ap (◌++◌ t.parts) (if_false [] (last_part t ∷ []) full) ∙ same.0, same.1)

-- When a command is split into a sequence, the command is stretches of itself with a separator after
-- each, `&&`, `||`, `;` or the end of a line, and a tail. The parts are the stretches and the tail,
-- trimmed and in order, less the blank ones, each with the condition of the separator before it;
-- and there are two at least.
pub split_sequence-Covers :
    (command : Text) (parts : List SequencePart)
    → split_sequence command ≡ some parts
    → Covers (λ e. is_sequence e ≡ true) command parts × (2 ≤ length parts)
unfolding split_sequence
split_sequence-Covers command parts e =
    let loop = found (split_loop false separator_or_add command start) end_sequence parts e in
    let cut =
      split_loop-Cut (λ e. is_sequence e ≡ true) command false separator_or_add command start loop.0
        (separator_or_add-Cuts (λ e. is_sequence e ≡ true) command refl refl refl λ c e. e)
        (begins (λ e. is_sequence e ≡ true) command) loop.1 in
    let same = end_sequence-same loop.0 parts loop.2 in
    (
      subst (Covers (λ e. is_sequence e ≡ true) command) same.0
          (Cut-Covers (λ e. is_sequence e ≡ true) command loop.0 cut),
      same.1,
    )

end_pipeline-same :
    (t : Split) (parts : List SequencePart)
    → end_pipeline t ≡ some parts
    → (t.parts ++ part_if t.run_if t.segment ≡ parts) × (2 ≤ length parts)
end_pipeline-same t parts e =
    if-split (is_open t || is_unsplit t.parts) e (λ _ f. absurd (cc f))
      λ split e.
        if-split (is_empty (trim t.segment)) e (λ _ f. absurd (cc f))
          λ full f.
            let same : t.parts ++ last_part t ∷ [] ≡ parts = cc f in
            (
              ap (◌++◌ t.parts) (if_false [] (last_part t ∷ []) full) ∙ same,
              subst (λ (zs : List SequencePart). 2 ≤ length zs) same
                  (two t.parts (right (is_open t) (is_unsplit t.parts) split)),
            )
  where
    right : (a b : Bool) → (a || b) ≡ false → b ≡ false
    right true b e = absurd (cc e)
    right false b e = e

    two : (ps : List SequencePart) → is_unsplit ps ≡ false → 2 ≤ length (ps ++ last_part t ∷ [])
    two [] e = absurd (cc e)
    two (p ∷ ps) e = let more = length-append ps (last_part t ∷ []) in omega (arith, more)

-- When a command is split into a pipeline, the command is stretches of itself with `|` after each, and
-- a tail. The parts are the stretches and the tail, trimmed and in order, less the blank ones, and
-- there are two at least.
pub split_pipeline-Covers :
    (command : Text) (parts : List SequencePart)
    → split_pipeline command ≡ some parts
    → Covers (λ e. e ≡ pipe) command parts × (2 ≤ length parts)
unfolding split_pipeline
split_pipeline-Covers command parts e =
    let loop = found (split_loop true pipe_or_add command start) end_pipeline parts e in
    let cut =
      split_loop-Cut (λ e. e ≡ pipe) command true pipe_or_add command start loop.0
        (pipe_or_add-Cuts (λ e. e ≡ pipe) command refl) (begins (λ e. e ≡ pipe) command) loop.1 in
    let same = end_pipeline-same loop.0 parts loop.2 in
    (
      subst (Covers (λ e. e ≡ pipe) command) same.0 (Cut-Covers (λ e. e ≡ pipe) command loop.0 cut),
      same.1,
    )
