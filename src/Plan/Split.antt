-- ===== src/Plan/Split.antt =====
-- `splitTopLevelPipeline` and `splitTopLevelSequence` of src/lib/command-execution-plan.ts. The slice
-- of the command from `start` to the index is kept as the text `segment`.
use chatgpt_mcp_clean.Base.{
  ℕ, Bool, true, false, ◌&&◌, ◌||◌, Option, none, some, List, [], ◌∷◌, ◌++◌, ◌==◌, if◌then◌else◌,
  ◌>>=◌, Text, trim,
}

pub data RunCondition : Type 0 where
  always : RunCondition
  success : RunCondition
  failure : RunCondition

pub record SequencePart : Type 0 where
  pub command : Text
  pub run_if : RunCondition

-- What the loop does with the next unit when it has added one to the index: it stays in the segment
-- or, as the second unit of a separator, it does not.
pub data Skip : Type 0 where
  none_skipped : Skip
  kept : Skip
  dropped : Skip

pub record Split : Type 0 where
  pub parts : List SequencePart
  pub segment : Text
  pub run_if : RunCondition
  pub quote : Option ℕ
  pub escaped : Bool
  pub skip : Skip

abbrev pub start : Split
start = record {
  parts = [];
  segment = [];
  run_if = always;
  quote = none;
  escaped = false;
  skip = none_skipped;
}

abbrev pub add : ℕ → Split → Split
add c s = record s { segment = s.segment ++ c ∷ [] }

abbrev pub is_next : ℕ → Text → Bool
is_next c [] = false
is_next c (d ∷ s) = d == c

abbrev pub is_empty : Text → Bool
is_empty [] = true
is_empty (c ∷ s) = false

-- One unit inside quotes `q`; of the two functions only the one for pipelines knows `\"`.
abbrev pub in_quotes : (backslash : Bool) → ℕ → ℕ → Text → Split → Split
in_quotes backslash q c rest s =
    if backslash && q == b'"' && c == b'\\' && is_next b'"' rest
    then record (add c s) { skip = kept }
    else if c == b'`' && q == b'"'
    then record (add c s) { escaped = true }
    else if c == q
    then (if q == b'\'' && is_next b'\'' rest
        then record (add c s) { skip = kept }
        else record (add c s) { quote = none })
    else add c s

-- `push`, which is also what a pipe does: the segment is a part, unless it is blank.
unfoldable pub push : RunCondition → Text → Split → Option Split
push next command s =
    if is_empty command
    then none
    else some (record s {
      parts = s.parts ++ record { command = command; run_if = s.run_if } ∷ [];
      segment = [];
      run_if = next;
    })

abbrev pub drop_next : Split → Split
drop_next s = record s { skip = dropped }

-- Outside quotes, a unit that neither opens quotes nor escapes.
abbrev pub pipe_or_add : ℕ → Text → Split → Option Split
pipe_or_add c rest s =
    if c == b'|' && is_next b'|' rest
    then none
    else if c == b'|'
    then push always (trim s.segment) s
    else if c == b';' || c == b'&' || c == 13 || c == 10
    then none
    else some (add c s)

-- A line end after a blank line is passed over.
abbrev pub end_line : Text → Split → Option Split
end_line segment s =
    if is_empty (trim segment)
    then some (record s { segment = [] })
    else push always (trim segment) s

abbrev pub separator_or_add : ℕ → Text → Split → Option Split
separator_or_add c rest s =
    if c == b'&' && is_next b'&' rest
    then push success (trim s.segment) (drop_next s)
    else if c == b'|' && is_next b'|' rest
    then push failure (trim s.segment) (drop_next s)
    else if c == b';'
    then push always (trim s.segment) s
    else if c == 13 && is_next 10 rest
    then end_line (s.segment ++ 13 ∷ []) (drop_next s)
    else if c == 13 || c == 10
    then end_line s.segment s
    else if c == b'|' || c == b'&'
    then none
    else some (add c s)

abbrev pub outside : (ℕ → Text → Split → Option Split) → ℕ → Text → Split → Option Split
outside other c rest s =
    if c == b'\'' || c == b'"'
    then some (record (add c s) { quote = some c })
    else if c == b'`'
    then some (record (add c s) { escaped = true })
    else other c rest s

abbrev pub by_quote :
    (backslash : Bool)
    → (ℕ → Text → Split → Option Split)
    → Option ℕ
    → ℕ
    → Text
    → Split
    → Option Split
by_quote backslash other (some q) c rest s = some (in_quotes backslash q c rest s)
by_quote backslash other none c rest s = outside other c rest s

abbrev pub by_skip :
    (backslash : Bool) → (ℕ → Text → Split → Option Split) → Skip → ℕ → Text → Split → Option Split
by_skip backslash other kept c rest s = some (record (add c s) { skip = none_skipped })
by_skip backslash other dropped c rest s = some (record s { skip = none_skipped })
by_skip backslash other none_skipped c rest s =
    if s.escaped
    then some (record (add c s) { escaped = false })
    else by_quote backslash other s.quote c rest s

-- The loops, for one unit after the other.
unfoldable pub split_loop :
    (backslash : Bool) → (ℕ → Text → Split → Option Split) → Text → Split → Option Split
unfolding push
split_loop backslash other [] s = some s
split_loop backslash other (c ∷ rest) s =
    by_skip backslash other s.skip c rest s >>= split_loop backslash other rest

abbrev pub is_open : Split → Bool
is_open s = s.escaped || elim s.quote [ none ↦ false | some q ↦ true ]

abbrev pub last_part : Split → SequencePart
last_part s = record { command = trim s.segment; run_if = s.run_if }

abbrev pub is_unsplit : List SequencePart → Bool
is_unsplit [] = true
is_unsplit (p ∷ ps) = false

-- A pipeline has a pipe, and so two parts.
abbrev pub end_pipeline : Split → Option (List SequencePart)
end_pipeline s =
    if is_open s || is_unsplit s.parts
    then none
    else if is_empty (trim s.segment)
    then none
    else some (s.parts ++ last_part s ∷ [])

unfoldable pub split_pipeline : Text → Option (List SequencePart)
unfolding split_loop
split_pipeline command = split_loop true pipe_or_add command start >>= end_pipeline

abbrev pub several : List SequencePart → Option (List SequencePart)
several [] = none
several (p ∷ []) = none
several (p ∷ q ∷ ps) = some (p ∷ q ∷ ps)

abbrev pub end_sequence : Split → Option (List SequencePart)
end_sequence s =
    if is_open s
    then none
    else if is_empty (trim s.segment)
    then several s.parts
    else several (s.parts ++ last_part s ∷ [])

unfoldable pub split_sequence : Text → Option (List SequencePart)
unfolding split_loop
split_sequence command = split_loop false separator_or_add command start >>= end_sequence
