-- ===== src/Words.antt =====
-- Words of a command: `parseWords` of src/lib/command-execution-plan.ts, and
-- `quoteStructuredArgument` of src/lib/process-manager.ts, which writes them.
pub mod RoundTrip
mod Tests
use chatgpt_mcp_clean.Base.{
  ℕ, Bool, true, false, not, ◌&&◌, ◌||◌, Option, none, some, List, [], ◌∷◌, ◌++◌, leb, ◌==◌,
  if◌then◌else◌, all, any, Text, codes, is_space,
}

-- The variables of `parseWords`. `skip` says that the loop passes over the next unit: the source
-- adds one to the index there.
pub record Parse : Type 0 where
  pub words : List Text
  pub current : Text
  pub started : Bool
  pub quote : Option ℕ
  pub shell : Bool
  pub expansion : Bool
  pub skip : Bool

abbrev pub flush : Parse → Parse
flush s =
    if s.started
    then record s { words = s.words ++ s.current ∷ []; current = []; started = false }
    else s

abbrev pub add : ℕ → Parse → Parse
add c s = record s { current = s.current ++ c ∷ []; started = true }

abbrev pub is_next : ℕ → Text → Bool
is_next c [] = false
is_next c (d ∷ s) = d == c

-- One unit inside quotes `q`; `rest` is what follows.
abbrev pub in_quotes : ℕ → ℕ → Text → Parse → Parse
in_quotes q c rest s =
    if q == b'"' && c == b'\\' && is_next b'"' rest
    then record (add b'"' s) { skip = true }
    else if c == q
    then (if q == b'\'' && is_next b'\'' rest
        then record (add b'\'' s) { skip = true }
        else record s { quote = none; started = true })
    else record (add c s) { expansion = s.expansion || (q == b'"' && c == b'$') }

abbrev pub is_syntax : ℕ → Bool
is_syntax c = c == b';' || c == b'|' || c == b'&' || c == b'<' || c == b'>'

-- One unit outside quotes.
abbrev pub outside : ℕ → Parse → Parse
outside c s =
    if c == b'\'' || c == b'"'
    then record s { quote = some c; started = true }
    else if c == 13 || c == 10
    then flush (record s { shell = true })
    else if is_space c
    then flush s
    else record (add c s) {
      shell = s.shell || is_syntax c;
      expansion = s.expansion || (c == b'$' || c == b'`');
    }

abbrev pub by_quote : Option ℕ → ℕ → Text → Parse → Parse
by_quote (some q) c rest s = in_quotes q c rest s
by_quote none c rest s = outside c s

abbrev pub step : ℕ → Text → Parse → Parse
step c rest s = if s.skip then record s { skip = false } else by_quote s.quote c rest s

unfoldable pub parse_loop : Text → Parse → Parse
parse_loop [] s = s
parse_loop (c ∷ rest) s = parse_loop rest (step c rest s)

pub record ParsedWords : Type 0 where
  pub words : List Text
  pub has_top_level_shell_syntax : Bool
  pub has_powershell_expansion : Bool

abbrev pub finish : Option ℕ → Parse → Option ParsedWords
finish (some q) s = none
finish none s = some (record {
  words = s.words;
  has_top_level_shell_syntax = s.shell;
  has_powershell_expansion = s.expansion;
})

abbrev pub start : Parse
start = record {
  words = [];
  current = [];
  started = false;
  quote = none;
  shell = false;
  expansion = false;
  skip = false;
}

unfoldable pub parse_words : Text → Option ParsedWords
unfolding parse_loop
parse_words command = let s = parse_loop command start in finish s.quote (flush s)

-- The class `[A-Za-z0-9_./:@%+=,\\-]`.
unfoldable pub is_plain : ℕ → Bool
is_plain c =
    (leb b'A' c && leb c b'Z')
    || (leb b'a' c && leb c b'z')
    || (leb b'0' c && leb c b'9')
    || c == b'_'
    || c == b'.'
    || c == b'/'
    || c == b':'
    || c == b'@'
    || c == b'%'
    || c == b'+'
    || c == b'='
    || c == b','
    || c == b'\\'
    || c == b'-'

abbrev pub is_plain_text : Text → Bool
is_plain_text [] = false
is_plain_text (c ∷ s) = is_plain c && all is_plain s

-- `replaceAll("'", "''")`.
unfoldable pub double_quotes : Text → Text
double_quotes [] = []
double_quotes (c ∷ s) = if c == b'\'' then b'\'' ∷ b'\'' ∷ double_quotes s else c ∷ double_quotes s

unfoldable pub quote_structured_argument : Text → Text
unfolding is_plain double_quotes
quote_structured_argument value =
    if is_plain_text value then value else b'\'' ∷ (double_quotes value ++ b'\'' ∷ [])

-- The arguments of `structuredCommandDisplay`, each quoted, with a space between two.
unfoldable pub quoted_words : List Text → Text
quoted_words [] = []
quoted_words (w ∷ []) = quote_structured_argument w
quoted_words (w ∷ v ∷ ws) = quote_structured_argument w ++ b' ' ∷ quoted_words (v ∷ ws)
