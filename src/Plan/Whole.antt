-- ===== src/Plan/Whole.antt =====
-- The loops of the two functions of src/lib/command-execution-plan.ts that split a command.
use chatgpt_mcp_clean.Base.{
  All, ℕ, Bool, true, false, ◌&&◌, ◌||◌, Option, none, some, List, [], ◌∷◌, ◌++◌, ◌==◌, ==_iff,
  if◌then◌else◌, if-cases, Text, trim, ◌≡◌, refl, sym, ap, ap₂, ◌∙◌, subst, append_assoc,
  append-nil,
}
use chatgpt_mcp_clean.Plan.Split.{
  RunCondition, always, SequencePart, Skip, none_skipped, kept, dropped, Split, add, is_next,
  is_empty, in_quotes, push, drop_next, pipe_or_add, end_line, separator_or_add,
}
use chatgpt_mcp_clean.Plan.Pieces.{
  Separator, and_then, or_else, semicolon, pipe, line_end, separator_text, run_after, Piece, joined,
  next_run, parts_of, joined-append, next_run-append, parts_of-append, after_piece, part_if,
}

pub if-split :
    {A G : Type 0} (b : Bool) {x y : Option A} {a : A}
    → (if b then x else y) ≡ some a
    → (b ≡ true → x ≡ some a → G)
    → (b ≡ false → y ≡ some a → G)
    → G
if-split true e f g = f refl e
if-split false e f g = g refl e

pub if_false : {A : Type 0} {b : Bool} (x y : A) → b ≡ false → (if b then x else y) ≡ y
if_false x y e = ap (λ b. if b then x else y) e

if_true : {A : Type 0} {b : Bool} (x y : A) → b ≡ true → (if b then x else y) ≡ x
if_true x y e = ap (λ b. if b then x else y) e

-- What is left of the command, after the pieces: the segment, and the units that are still to come,
-- less the one that the loop drops.
abbrev pub Left : Skip → Text → Text → Text → Type 0
Left none_skipped segment rest left = left ≡ segment ++ rest
Left kept segment rest left = left ≡ segment ++ rest
Left dropped segment rest left =
    (d : ℕ) × (after : Text) × (rest ≡ d ∷ after) × (left ≡ segment ++ after)

abbrev pub Cut : (Separator → Type 0) → Text → Text → Split → Type 0
Cut P command rest s =
    (pieces : List Piece) × All (λ (piece : Piece). P piece.1) pieces
    × (left : Text) × (command ≡ joined pieces ++ left)
    × Left s.skip s.segment rest left
    × (s.parts ≡ parts_of always pieces)
    × (s.run_if ≡ next_run always pieces)

-- The state before a unit that is not skipped.
abbrev pub Before : (Separator → Type 0) → Text → Text → Split → Type 0
Before P command rest s =
    (pieces : List Piece) × All (λ (piece : Piece). P piece.1) pieces
    × (command ≡ joined pieces ++ (s.segment ++ rest))
    × (s.parts ≡ parts_of always pieces)
    × (s.run_if ≡ next_run always pieces)

All-snoc :
    {A : Type 0} (Q : A → Type 0) (xs : List A) (x : A) → All Q xs → Q x → All Q (xs ++ x ∷ [])
All-snoc Q [] x h q = (q, tt)
All-snoc Q (y ∷ xs) x h q = (h.0, All-snoc Q xs x h.1 q)

module _ (P : Separator → Type 0) (command : Text) where
  -- A step that takes the unit into the segment.
  pub Cut-add :
      (c : ℕ) (rest : Text) (s t : Split)
      → Before P command (c ∷ rest) s
      → (t.segment ≡ s.segment ++ c ∷ [])
      → (t.parts ≡ s.parts)
      → (t.run_if ≡ s.run_if)
      → ((left : Text) → left ≡ t.segment ++ rest → Left t.skip t.segment rest left)
      → Cut P command rest t
  Cut-add c rest s t (ps, allowed, e, parts, run) seg parts' run' left = (
    ps,
    allowed,
    t.segment ++ rest,
    e
        ∙ ap (◌++◌ (joined ps))
            (sym (append_assoc s.segment (c ∷ []) rest) ∙ ap (λ u. u ++ rest) (sym seg)),
    left _ refl,
    parts' ∙ parts,
    run' ∙ run,
  )

  -- A step that ends a piece with the units of a separator; `left` has what the loop has still.
  Cut-end :
      (rest rest' segment after : Text) (e : Separator) (s t : Split)
      → P e
      → Before P command rest s
      → (s.segment ++ rest ≡ segment ++ (separator_text e ++ rest'))
      → (t.parts ≡ s.parts ++ part_if s.run_if segment)
      → (t.run_if ≡ after_piece s.run_if segment e)
      → Left t.skip t.segment after rest'
      → Cut P command after t
  Cut-end rest rest' segment after e s t fits (ps, allowed, whole, parts, run) cut parts' run'
        left =
      (
        ps ++ (segment, e) ∷ [],
        All-snoc (λ (piece : Piece). P piece.1) ps (segment, e) allowed fits,
        rest',
        whole ∙ ap (◌++◌ (joined ps)) cut ∙ sym (joined-append ps segment e rest'),
        left,
        parts'
            ∙ ap₂ (λ (xs : List SequencePart) (r : RunCondition). xs ++ part_if r segment) parts run
            ∙ sym (parts_of-append always ps segment e),
        run' ∙ ap (λ r. after_piece r segment e) run ∙ sym (next_run-append always ps segment e),
      )

  pub in_quotes-Cut :
      (backslash : Bool) (q c : ℕ) (rest : Text) (s : Split)
      → s.skip ≡ none_skipped
      → Before P command (c ∷ rest) s
      → Cut P command rest (in_quotes backslash q c rest s)
  in_quotes-Cut backslash q c rest s unskipped b =
      if-cases (Cut P command rest) (backslash && q == b'"' && c == b'\\' && is_next b'"' rest)
        (λ _. keep)
        λ _.
          if-cases (Cut P command rest) (c == b'`' && q == b'"') (λ _. plain true s.quote)
            λ _.
              if-cases (Cut P command rest) (c == q)
                (λ _.
                  if-cases (Cut P command rest) (q == b'\'' && is_next b'\'' rest) (λ _. keep)
                    λ _. plain s.escaped none)
                λ _. plain s.escaped s.quote
    where
      keep : Cut P command rest (record (add c s) { skip = kept })
      keep = Cut-add c rest s (record (add c s) { skip = kept }) b refl refl refl λ left e. e

      plain :
          (escaped : Bool) (quote : Option ℕ)
          → Cut P command rest (record (add c s) { escaped = escaped; quote = quote })
      plain escaped quote =
          Cut-add c rest s (record (add c s) { escaped = escaped; quote = quote }) b refl refl refl
            (λ left e. subst (λ skip. Left skip (s.segment ++ c ∷ []) rest left) (sym unskipped) e)

  push-Cut :
      (rest rest' segment after : Text) (e : Separator) (s t : Split)
      → P e
      → push (run_after e) (trim segment) s ≡ some t
      → Before P command rest s
      → (s.segment ++ rest ≡ segment ++ (separator_text e ++ rest'))
      → Left s.skip [] after rest'
      → Cut P command after t
  unfolding push
  push-Cut rest rest' segment after e s t fits pushed b cut left =
      if-split (is_empty (trim segment)) pushed (λ blank f. absurd (cc f))
        λ full f.
          let same : pushed_state ≡ t = cc f in
          subst (Cut P command after) same (
            Cut-end rest rest' segment after e s pushed_state fits b cut
              (ap (◌++◌ s.parts) (sym (if_false _ _ full))) (sym (if_false _ _ full)) left)
    where
      pushed_state : Split
      pushed_state = record s {
        parts = s.parts ++ record { command = trim segment; run_if = s.run_if } ∷ [];
        segment = [];
        run_if = run_after e;
      }

  end_line-Cut :
      (rest rest' segment after : Text) (c : ℕ) (s t : Split)
      → P (line_end c)
      → end_line segment s ≡ some t
      → Before P command rest s
      → (s.segment ++ rest ≡ segment ++ (c ∷ rest'))
      → Left s.skip [] after rest'
      → Cut P command after t
  end_line-Cut rest rest' segment after c s t fits ended b cut left =
      if-split (is_empty (trim segment)) ended
        (λ blank f.
          let same : blank_state ≡ t = cc f in
          subst (Cut P command after) same (
            Cut-end rest rest' segment after (line_end c) s blank_state fits b cut
              (sym (append-nil s.parts) ∙ ap (◌++◌ s.parts) (sym (if_true _ _ blank)))
              (sym (if_true _ _ blank)) left))
        λ full f. push-Cut rest rest' segment after (line_end c) s t fits f b cut left
    where
      blank_state : Split
      blank_state = record s { segment = [] }

  abbrev pub OtherCuts : (ℕ → Text → Split → Option Split) → Type 0
  OtherCuts other =
      (c : ℕ) (rest : Text) (s t : Split)
      → s.skip ≡ none_skipped
      → Before P command (c ∷ rest) s
      → other c rest s ≡ some t
      → Cut P command rest t

  is_next-cons : (d : ℕ) (rest : Text) → is_next d rest ≡ true → (after : Text) × (rest ≡ d ∷ after)
  is_next-cons d [] e = absurd (cc e)
  is_next-cons d (x ∷ rest) e = (rest, ap (λ y. y ∷ rest) ((==_iff x d).0 e))

  add-Cut :
      (c : ℕ) (rest : Text) (s t : Split)
      → s.skip ≡ none_skipped
      → Before P command (c ∷ rest) s
      → some (add c s) ≡ some t
      → Cut P command rest t
  add-Cut c rest s t unskipped b e =
      let same : add c s ≡ t = cc e in
      subst (Cut P command rest) same (
        Cut-add c rest s (add c s) b refl refl refl
          λ left f. subst (λ skip. Left skip (s.segment ++ c ∷ []) rest left) (sym unskipped) f)

  -- A separator of one unit, and one of two.
  Left-one : (s : Split) (rest : Text) → s.skip ≡ none_skipped → Left s.skip [] rest rest
  Left-one s rest e = subst (λ skip. Left skip [] rest rest) (sym e) refl

  pub pipe_or_add-Cuts : P pipe → OtherCuts pipe_or_add
  pipe_or_add-Cuts may c rest s t unskipped b e =
      if-split (c == b'|' && is_next b'|' rest) e (λ _ f. absurd (cc f))
        λ _ e.
          if-split (c == b'|') e
            (λ is_pipe f.
              push-Cut (c ∷ rest) rest s.segment rest pipe s t may f b
                (ap (λ d. s.segment ++ (d ∷ rest)) ((==_iff c b'|').0 is_pipe))
                (Left-one s rest unskipped))
            λ _ e.
              if-split (c == b';' || c == b'&' || c == 13 || c == 10) e (λ _ f. absurd (cc f))
                λ _ f. add-Cut c rest s t unskipped b f

  pair-Cut :
      (c d : ℕ) (rest : Text) (e : Separator) (s t : Split)
      → P e
      → separator_text e ≡ d ∷ d ∷ []
      → c ≡ d
      → is_next d rest ≡ true
      → push (run_after e) (trim s.segment) (drop_next s) ≡ some t
      → Before P command (c ∷ rest) s
      → Cut P command rest t
  pair-Cut c d rest e s t fits text same follows pushed b =
      let next = is_next-cons d rest follows in
      push-Cut (c ∷ rest) next.0 s.segment rest e (drop_next s) t fits pushed b
        (ap₂ (λ (x : ℕ) (xs : Text). s.segment ++ (x ∷ xs)) same next.1
          ∙ ap (λ u. s.segment ++ (u ++ next.0)) (sym text))
        (d, next.0, next.1, refl)

  both : (a b : Bool) → (a && b) ≡ true → (a ≡ true) × (b ≡ true)
  both true b e = (refl, e)
  both false b e = absurd (cc e)

  pub separator_or_add-Cuts :
      P and_then
      → P or_else
      → P semicolon
      → ((c : ℕ) → (c == 13 || c == 10) ≡ true → P (line_end c))
      → OtherCuts separator_or_add
  separator_or_add-Cuts may_and may_or may_semicolon may_line c rest s t unskipped b e =
      if-split (c == b'&' && is_next b'&' rest) e
        (λ h f.
          let p = both (c == b'&') (is_next b'&' rest) h in
          pair-Cut c b'&' rest and_then s t may_and refl ((==_iff c b'&').0 p.0) p.1 f b)
        λ _ e.
          if-split (c == b'|' && is_next b'|' rest) e
            (λ h f.
              let p = both (c == b'|') (is_next b'|' rest) h in
              pair-Cut c b'|' rest or_else s t may_or refl ((==_iff c b'|').0 p.0) p.1 f b)
            λ _ e.
              if-split (c == b';') e
                (λ h f.
                  push-Cut (c ∷ rest) rest s.segment rest semicolon s t may_semicolon f b
                    (ap (λ d. s.segment ++ (d ∷ rest)) ((==_iff c b';').0 h))
                    (Left-one s rest unskipped))
                λ _ e. line_or_add e
    where
      line_or_add :
          (if c == 13 && is_next 10 rest
              then end_line (s.segment ++ 13 ∷ []) (drop_next s)
              else if c == 13 || c == 10
              then end_line s.segment s
              else if c == b'|' || c == b'&'
              then none
              else some (add c s))
            ≡ some t
          → Cut P command rest t
      line_or_add e =
          if-split (c == 13 && is_next 10 rest) e
            (λ h f.
              let p = both (c == 13) (is_next 10 rest) h in
              let next = is_next-cons 10 rest p.1 in
              end_line-Cut (c ∷ rest) next.0 (s.segment ++ 13 ∷ []) rest 10 (drop_next s) t
                (may_line 10 refl) f b
                (ap₂ (λ (x : ℕ) (xs : Text). s.segment ++ (x ∷ xs)) ((==_iff c 13).0 p.0) next.1
                  ∙ sym (append_assoc s.segment (13 ∷ []) (10 ∷ next.0)))
                (10, next.0, next.1, refl))
            λ _ e.
              if-split (c == 13 || c == 10) e
                (λ ends f.
                  end_line-Cut (c ∷ rest) rest s.segment rest c s t (may_line c ends) f b refl
                    (Left-one s rest unskipped))
                λ _ e.
                  if-split (c == b'|' || c == b'&') e (λ _ f. absurd (cc f))
                    λ _ f. add-Cut c rest s t unskipped b f
