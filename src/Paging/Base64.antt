-- ===== src/Paging/Base64.antt =====
-- `looksLikeOpaqueBase64` and `opaqueBase64Marker` of src/lib/process-manager.ts.
use chatgpt_mcp_clean.Base.{
  ℕ, zero, suc, ◌+◌, ◌/◌, ◌%◌, Bool, true, false, not, ◌&&◌, ◌||◌, Option, none, some, List, [],
  ◌∷◌, ◌++◌, length, take, drop, filter, all, any, ltb, leb, ◌==◌, if◌then◌else◌, Text, codes,
  is_space, trim_start, to_lower, starts_with,
}

abbrev pub opaque_base64_min_chars : ℕ
opaque_base64_min_chars = 64000

abbrev pub sample_chars : ℕ
sample_chars = 8192

abbrev pub generic_min_chars : ℕ
generic_min_chars = 1000000

-- `indexOf` for a text.
unfoldable pub find_text : Text → Text → Option ℕ
find_text part [] = if starts_with [] part then some 0 else none
find_text part (c ∷ s) =
    let rest = find_text part s in
    if starts_with (c ∷ s) part then some 0 else elim rest [ none ↦ none | some n ↦ some (suc n) ]

abbrev pub after_marker : Text → Option ℕ → Text
after_marker candidate none = candidate
after_marker candidate (some at) = drop (at + 8) candidate

-- `/[A-Za-z0-9+/_=-]/`.
unfoldable pub is_base64_char : ℕ → Bool
is_base64_char c =
    (leb b'A' c && leb c b'Z')
    || (leb b'a' c && leb c b'z')
    || (leb b'0' c && leb c b'9')
    || c == b'+'
    || c == b'/'
    || c == b'_'
    || c == b'='
    || c == b'-'

abbrev pub file_prefixes : List Text
file_prefixes =
    codes "iVBORw0KGgo"
    ∷ codes "/9j/"
    ∷ codes "R0lGOD"
    ∷ codes "UklGR"
    ∷ codes "JVBERi0"
    ∷ codes "UEsDB"
    ∷ codes "H4sI"
    ∷ []

-- The size of `new Set` of the characters.
unfoldable pub distinct : Text → ℕ
distinct [] = 0
distinct (c ∷ s) = let rest = distinct s in if any (λ d. d == c) s then rest else suc rest

abbrev pub compacted : Text → Text
compacted sample =
    let candidate = trim_start sample in
    let body =
      after_marker candidate (find_text (codes ";base64,") (to_lower (take 256 candidate))) in
    filter (λ c. not (is_space c)) body

unfoldable pub looks_like_opaque_base64 : (sample : Text) (total : ℕ) → Bool
unfolding trim_start find_text to_lower is_space is_base64_char distinct starts_with
looks_like_opaque_base64 sample total =
    let compact = compacted sample in
    if ltb total opaque_base64_min_chars
    then false
    else if ltb (length compact) 1024 || not (all (λ c. is_base64_char c) compact)
    then false
    else if any (λ prefix. starts_with compact prefix) file_prefixes
    then true
    else if ltb total generic_min_chars
    then false
    else leb 16 (distinct (take 4096 compact))

-- The digits of a number, with a round for each: a number has fewer digits than it counts.
unfoldable pub digits : (rounds : ℕ) → ℕ → Text
digits zero n = []
digits (suc rounds) n =
    let last = (48 + n % 10) ∷ [] in
    let front = digits rounds (n / 10) in if ltb n 10 then last else front ++ last

abbrev pub hash_note : Option Text → Text
hash_note none = []
hash_note (some []) = []
hash_note (some (c ∷ hash)) = codes " sha256=" ++ c ∷ hash

-- `opaqueBase64Marker` of stdout.
unfoldable pub marker : (chars : ℕ) → (sha256 : Option Text) → Text
unfolding digits
marker chars sha256 =
    codes "[MCP stdout suppressed: "
    ++ (digits (suc chars) chars
        ++ (codes " chars of likely binary/base64 text retained in the process spool;"
            ++ (hash_note sha256
                ++ (codes
                      " use the native artifact/image/file path instead of transporting binary data as text.]"
                    ++ 10 ∷ []))))
