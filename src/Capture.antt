-- ===== src/Capture.antt =====
-- `BoundedCapture` of src/lib/process-manager.ts: the in-memory tail of one output stream.
-- A text is its UTF-16 code units. `max_capture_chars` is a section parameter: the source fixes it
-- at 256,000, and what is proved holds for every positive bound.
pub mod Window
pub mod Stream
pub mod Suffix
mod Tests
use chatgpt_mcp_clean.Base.{
  ℕ, zero, suc, ◌+◌, ◌-◌, min, max, Bool, true, false, ◌||◌, Option, none, some, List, [], ◌∷◌,
  ◌++◌, reverse, ltb, leb, ◌==◌, if◌then◌else◌, length, drop, flatten, take_last, Text, ◌>>=◌,
}

pub record Capture : Type 0 where
  pub chunks : List Text
  pub length : ℕ
  pub truncated : Bool

abbrev pub max_capture_chars : ℕ
max_capture_chars = 256000

unfoldable pub reset : Capture
reset = record { chunks = []; length = 0; truncated = false }

-- The loop that drops characters at the front. `none` stands for the `TypeError` of reading
-- `length` of a chunk that is not there, and for a loop that outlives its fuel.
unfoldable pub evict : ℕ → ℕ → Capture → Option Capture
evict bound zero c = none
evict bound (suc fuel) c = elim (ltb bound c.length) [
  | false ↦ some c
  | true ↦
      let overflow = c.length - bound in
      elim c.chunks [
        | [] ↦ none
        | first ∷ rest ↦ elim (leb (length first) overflow) [
          | true ↦
              evict bound fuel
                (record { chunks = rest; length = c.length - length first; truncated = true })
          | false ↦ evict bound fuel (record {
            chunks = drop overflow first ∷ rest;
            length = c.length - overflow;
            truncated = true;
          })
        ]
      ]
]

-- `append`, at the bound `max_capture_chars`; two rounds more than there are chunks are enough.
unfoldable pub append : ℕ → Capture → Text → Option Capture
unfolding evict
append bound c [] = some c
append bound c (u ∷ us) =
    let text = u ∷ us in
    if leb bound (length text)
    then (let kept = take_last bound text in
        some (record { chunks = kept ∷ []; length = length kept; truncated = true }))
    else evict bound (suc (suc (suc (length c.chunks))))
        (record c { chunks = c.chunks ++ text ∷ []; length = c.length + length text })

-- The loop of `tail`, from the last chunk backwards.
unfoldable pub tail_parts : ℕ → List Text → List Text
tail_parts remaining [] = []
tail_parts remaining (chunk ∷ earlier) =
    if ltb 0 remaining
    then (let part = if leb (length chunk) remaining then chunk else take_last remaining chunk in
        part ∷ tail_parts (remaining - length part) earlier)
    else []

pub record Tail : Type 0 where
  pub text : Text
  pub truncated : Bool
  pub dropped : ℕ

unfoldable pub tail : Capture → ℕ → ℕ → Tail
unfolding tail_parts
tail c max_chars ceiling =
    let text = flatten (reverse (tail_parts (max 1 (min max_chars ceiling)) (reverse c.chunks))) in
    record {
      text = text;
      truncated = c.truncated || ltb max_chars c.length;
      dropped = c.length - length text;
    }

unfoldable pub full : Capture → Text × Bool
full c = (flatten c.chunks, c.truncated)

-- What the reader of a stream does: one `append` for each chunk that arrives.
unfoldable pub append_all : ℕ → Capture → List Text → Option Capture
append_all bound c [] = some c
append_all bound c (text ∷ texts) = append bound c text >>= λ next. append_all bound next texts
