-- ===== src/Jsonl/Bytes.antt =====
-- The bytes of a text that src/lib/bounded-jsonl.ts writes in parts.
use chatgpt_mcp_clean.Base.{
  ℕ, ◌+◌, ◌≤◌, Bool, true, false, ◌&&◌, [], ◌∷◌, ◌++◌, Text, ltb, leb, if◌then◌else◌, arith,
}
use chatgpt_mcp_clean.Jsonl.{byte_length}

byte_length_cons :
    (c : ℕ) (s : Text)
    → (byte_length s + 1 ≤ byte_length (c ∷ s)) × (byte_length (c ∷ s) ≤ byte_length s + 3)
unfolding byte_length
byte_length_cons c [] = (ground arith, ground arith)
byte_length_cons c (d ∷ s) =
    let after = byte_length_cons d s in
    let low = after.0 in
    let high = after.1 in (ground (arith, low, high), ground (arith, low, high))

branches_le :
    (ascii short pair : Bool) (r p s q k : ℕ)
    → r ≤ s + k
    → p ≤ q + k
    → (if ascii then r + 1 else if short then r + 2 else if pair then p + 4 else r + 3)
      ≤ (if ascii then s + 1 else if short then s + 2 else if pair then q + 4 else s + 3) + k
branches_le true short pair r p s q k h i = omega arith
branches_le false true pair r p s q k h i = omega arith
branches_le false false true r p s q k h i = omega arith
branches_le false false false r p s q k h i = omega arith

pub byte_length-append : (s t : Text) → byte_length (s ++ t) ≤ byte_length s + byte_length t
unfolding byte_length
byte_length-append [] t = omega arith
byte_length-append (c ∷ []) [] = ground arith
byte_length-append (c ∷ []) (d ∷ t) = let low = (byte_length_cons d t).0 in ground (arith, low)
byte_length-append (c ∷ d ∷ s) t =
    branches_le (ltb c 0x80) (ltb c 0x800)
      ((leb 0xd800 c && ltb c 0xdc00) && (leb 0xdc00 d && ltb d 0xe000)) _ _ _ _ _
      (byte_length-append (d ∷ s) t) (byte_length-append s t)
