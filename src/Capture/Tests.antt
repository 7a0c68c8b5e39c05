-- ===== src/Capture/Tests.antt =====
-- `BoundedCapture` at a bound of five characters.
use chatgpt_mcp_clean.Base.{
  ◌≡◌, refl, true, false, some, List, [], ◌∷◌, ◌++◌, arith, take, flatten, take_last, Text, min,
  max, ltb, length, ◌||◌, codes,
}
use chatgpt_mcp_clean.Capture.{Capture, reset, append, append_all, tail, full}
use chatgpt_mcp_clean.Capture.Window.{Appends, append-Appends}
use chatgpt_mcp_clean.Capture.Stream.{Streams, append_all-Streams, append-reset_exact}
use chatgpt_mcp_clean.Capture.Suffix.{tail_lem}

abbrev held : Capture
held = record { chunks = codes "ab" ∷ codes "cd" ∷ []; length = 4; truncated = false }

append_evicts :
    append 5 held (codes "efg")
    ≡ some (record { chunks = codes "cd" ∷ codes "efg" ∷ []; length = 5; truncated = true })
unfolding append
append_evicts = refl

append_cuts :
    append 5 held (codes "ef")
    ≡ some
        (record { chunks = codes "b" ∷ codes "cd" ∷ codes "ef" ∷ []; length = 5; truncated = true })
unfolding append
append_cuts = refl

append_replaces :
    append 5 held (codes "uvwxyz")
    ≡ some (record { chunks = codes "vwxyz" ∷ []; length = 5; truncated = true })
unfolding append
append_replaces = refl

tail_cuts : tail held 3 9 ≡ record { text = codes "bcd"; truncated = true; dropped = 1 }
unfolding tail
tail_cuts = refl

full_text : full held ≡ (codes "abcd", false)
unfolding full
full_text = refl

abbrev pieces : List Text
pieces = codes "ef" ∷ [] ∷ codes "g" ∷ []

append-Appends_example :
    (c' : Capture) × (append 5 held (codes "efg") ≡ some c') × Appends 5 held (codes "efg") c'
append-Appends_example = append-Appends 5 (omega arith) held (codes "efg") (omega arith)

append_all-Streams_example :
    (c' : Capture) × (append_all 5 held pieces ≡ some c') × Streams 5 held pieces c'
append_all-Streams_example = append_all-Streams 5 (omega arith) held pieces (omega arith)

append-reset_exact_example :
    (c' : Capture) × (append 5 reset (codes "exact") ≡ some c')
    × (flatten c'.chunks ≡ codes "exact")
    × (c'.truncated ≡ true)
append-reset_exact_example = append-reset_exact 5 (omega arith) (codes "exact") refl

tail_lem_example :
    let t = tail held 3 9 in
    (t.text ≡ take_last (max 1 (min 3 9)) (flatten held.chunks))
    × (take t.dropped (flatten held.chunks) ++ t.text ≡ flatten held.chunks)
    × (t.truncated ≡ (held.truncated || ltb 3 (length (flatten held.chunks))))
tail_lem_example = tail_lem 5 held 3 9 (omega arith)
