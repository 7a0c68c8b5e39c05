-- ===== src/Plan/Pieces.antt =====
-- What the parts of a command in src/lib/command-execution-plan.ts are of the command.
use chatgpt_mcp_clean.Base.{
  ℕ, Bool, true, false, List, [], ◌∷◌, ◌++◌, if◌then◌else◌, Text, codes, trim, ◌≡◌, refl, sym, ap,
  ◌∙◌, append_assoc, append-nil,
}
use chatgpt_mcp_clean.Plan.Split.{RunCondition, always, success, failure, SequencePart, is_empty}

pub data Separator : Type 0 where
  and_then : Separator
  or_else : Separator
  semicolon : Separator
  pipe : Separator
  line_end : ℕ → Separator

abbrev pub separator_text : Separator → Text
separator_text and_then = codes "&&"
separator_text or_else = codes "||"
separator_text semicolon = codes ";"
separator_text pipe = codes "|"
separator_text (line_end c) = c ∷ []

abbrev pub run_after : Separator → RunCondition
run_after and_then = success
run_after or_else = failure
run_after _ = always

-- A stretch of the command, and the separator after it.
abbrev pub Piece : Type 0
Piece = Text × Separator

abbrev pub joined : List Piece → Text
joined [] = []
joined ((segment, separator) ∷ pieces) = segment ++ (separator_text separator ++ joined pieces)

abbrev pub next_run : RunCondition → List Piece → RunCondition
next_run run [] = run
next_run run ((segment, separator) ∷ pieces) =
    if is_empty (trim segment) then next_run run pieces else next_run (run_after separator) pieces

-- The parts of the pieces: each that is not blank, trimmed, with the condition of the separator
-- before it.
abbrev pub parts_of : RunCondition → List Piece → List SequencePart
parts_of run [] = []
parts_of run ((segment, separator) ∷ pieces) =
    if is_empty (trim segment)
    then parts_of run pieces
    else record { command = trim segment; run_if = run } ∷ parts_of (run_after separator) pieces

pub joined-append :
    (ps : List Piece) (segment : Text) (e : Separator) (rest : Text)
    → joined (ps ++ (segment, e) ∷ []) ++ rest
      ≡ joined ps ++ (segment ++ (separator_text e ++ rest))
joined-append [] segment e rest =
    append_assoc segment (separator_text e ++ []) rest
    ∙ ap (λ t. segment ++ (t ++ rest)) (append-nil (separator_text e))
joined-append ((s, f) ∷ ps) segment e rest =
    append_assoc s (separator_text f ++ joined (ps ++ (segment, e) ∷ [])) rest
    ∙ ap (◌++◌ s) (
        append_assoc (separator_text f) (joined (ps ++ (segment, e) ∷ [])) rest
        ∙ ap (◌++◌ (separator_text f)) (joined-append ps segment e rest)
        ∙ sym (append_assoc (separator_text f) (joined ps) _))
    ∙ sym (append_assoc s (separator_text f ++ joined ps) _)

abbrev pub after_piece : RunCondition → Text → Separator → RunCondition
after_piece run segment e = if is_empty (trim segment) then run else run_after e

abbrev pub part_if : RunCondition → Text → List SequencePart
part_if run segment =
    if is_empty (trim segment) then [] else record { command = trim segment; run_if = run } ∷ []

pub next_run-append :
    (run : RunCondition) (ps : List Piece) (segment : Text) (e : Separator)
    → next_run run (ps ++ (segment, e) ∷ []) ≡ after_piece (next_run run ps) segment e
next_run-append run [] segment e = refl
next_run-append run ((s, f) ∷ ps) segment e =
    go (is_empty (trim s)) (λ r. next_run-append r ps segment e)
  where
    go :
        (b : Bool)
        → ((r : RunCondition)
            → next_run r (ps ++ (segment, e) ∷ []) ≡ after_piece (next_run r ps) segment e)
        → (if b
            then next_run run (ps ++ (segment, e) ∷ [])
            else next_run (run_after f) (ps ++ (segment, e) ∷ []))
          ≡ after_piece (if b then next_run run ps else next_run (run_after f) ps) segment e
    go true h = h run
    go false h = h (run_after f)

pub parts_of-append :
    (run : RunCondition) (ps : List Piece) (segment : Text) (e : Separator)
    → parts_of run (ps ++ (segment, e) ∷ []) ≡ parts_of run ps ++ part_if (next_run run ps) segment
parts_of-append run [] segment e = refl
parts_of-append run ((s, f) ∷ ps) segment e =
    go (is_empty (trim s)) (λ r. parts_of-append r ps segment e)
  where
    part : SequencePart
    part = record { command = trim s; run_if = run }

    go :
        (b : Bool)
        → ((r : RunCondition)
            → parts_of r (ps ++ (segment, e) ∷ [])
              ≡ parts_of r ps ++ part_if (next_run r ps) segment)
        → (if b
            then parts_of run (ps ++ (segment, e) ∷ [])
            else part ∷ parts_of (run_after f) (ps ++ (segment, e) ∷ []))
          ≡ (if b then parts_of run ps else part ∷ parts_of (run_after f) ps)
            ++ part_if (if b then next_run run ps else next_run (run_after f) ps) segment
    go true h = h run
    go false h = ap (◌∷◌ part) (h (run_after f))
