-- ===== src/Words/RoundTrip.antt =====
-- `parseWords` on what `quoteStructuredArgument` writes.
use chatgpt_mcp_clean.Base.{
  ℕ, ◌≡◌, refl, sym, ap, subst, ◌∙◌, inl, inr, Bool, true, false, ◌||◌, Option, none, some, List,
  [], ◌∷◌, ◌++◌, arith, ◌==◌, all, Text, is_space, append_assoc, append-nil, Bool-cases, ==_iff,
  if-cases,
}
use chatgpt_mcp_clean.Words.{
  Parse, flush, is_next, is_syntax, step, parse_loop, finish, start, parse_words, is_plain,
  is_plain_text, double_quotes, quote_structured_argument, quoted_words,
}

-- The state of the loop in front of or inside a word: no flag is up.
abbrev state : List Text → Text → Bool → Option ℕ → Parse
state words current started quote = record {
  words = words;
  current = current;
  started = started;
  quote = quote;
  shell = false;
  expansion = false;
  skip = false;
}

-- A unit in single quotes that is no quote is taken as it is.
quoted_unit :
    (ws : List Text) (cur : Text) (started : Bool) (c : ℕ) (rest : Text)
    → (c == b'\'') ≡ false
    → step c rest (state ws cur started (some b'\'')) ≡ state ws (cur ++ c ∷ []) true (some b'\'')
quoted_unit ws cur started c rest h = rw h refl

double_quotes-other :
    (c : ℕ) (v : Text) → (c == b'\'') ≡ false → double_quotes (c ∷ v) ≡ c ∷ double_quotes v
unfolding double_quotes
double_quotes-other c v h = rw h refl

-- The text of a word in single quotes, to the quote that closes it.
quoted_text :
    (v : Text) (ws : List Text) (cur : Text) (started : Bool) (rest : Text)
    → is_next b'\'' rest ≡ false
    → parse_loop (double_quotes v ++ b'\'' ∷ rest) (state ws cur started (some b'\''))
      ≡ parse_loop rest (state ws (cur ++ v) true none)
unfolding parse_loop double_quotes
quoted_text [] ws cur started rest h =
    rw h (ap (λ t. parse_loop rest (state ws t true none)) (sym (append-nil cur)))
quoted_text (c ∷ v) ws cur started rest h = elim (Bool-cases (c == b'\'')) [
  | inl same ↦
      subst
        (λ d.
          parse_loop (double_quotes (d ∷ v) ++ b'\'' ∷ rest) (state ws cur started (some b'\''))
          ≡ parse_loop rest (state ws (cur ++ d ∷ v) true none))
        (sym ((==_iff c b'\'').0 same))
        (quoted_text v ws (cur ++ b'\'' ∷ []) true rest h
          ∙ ap (λ t. parse_loop rest (state ws t true none)) (append_assoc cur (b'\'' ∷ []) v))
  | inr other ↦
      ap (λ t. parse_loop (t ++ b'\'' ∷ rest) (state ws cur started (some b'\'')))
        (double_quotes-other c v other)
      ∙ ap (parse_loop (double_quotes v ++ b'\'' ∷ rest))
          (quoted_unit ws cur started c (double_quotes v ++ b'\'' ∷ rest) other)
      ∙ quoted_text v ws (cur ++ c ∷ []) true rest h
      ∙ ap (λ t. parse_loop rest (state ws t true none)) (append_assoc cur (c ∷ []) v)
]

-- A plain unit outside quotes is taken as it is.
plain_unit :
    (ws : List Text) (cur : Text) (started : Bool) (c : ℕ) (rest : Text)
    → is_plain c ≡ true
    → step c rest (state ws cur started none) ≡ state ws (cur ++ c ∷ []) true none
unfolding is_plain is_space
plain_unit ws cur started c rest h = rw (quotes, breaks, space, syntax, signs) refl
  where
    quotes : (c == b'\'' || c == b'"') ≡ false
    quotes = ground (arith, h)

    breaks : (c == 13 || c == 10) ≡ false
    breaks = ground (arith, h)

    space : is_space c ≡ false
    space = ground (arith, h)

    syntax : is_syntax c ≡ false
    syntax = ground (arith, h)

    signs : (c == b'$' || c == b'`') ≡ false
    signs = ground (arith, h)

plain_text :
    (v : Text) (ws : List Text) (cur rest : Text)
    → all is_plain v ≡ true
    → parse_loop (v ++ rest) (state ws cur true none)
      ≡ parse_loop rest (state ws (cur ++ v) true none)
unfolding parse_loop
plain_text [] ws cur rest h =
    ap (λ t. parse_loop rest (state ws t true none)) (sym (append-nil cur))
plain_text (c ∷ v) ws cur rest h =
    ap (parse_loop (v ++ rest)) (plain_unit ws cur true c (v ++ rest) (ground (arith, h)))
    ∙ plain_text v ws (cur ++ c ∷ []) rest (ground (arith, h))
    ∙ ap (λ t. parse_loop rest (state ws t true none)) (append_assoc cur (c ∷ []) v)

plain_word :
    (w : Text) (ws : List Text) (rest : Text)
    → is_plain_text w ≡ true
    → parse_loop (w ++ rest) (state ws [] false none) ≡ parse_loop rest (state ws w true none)
unfolding parse_loop
plain_word [] ws rest h = ground arith
plain_word (c ∷ v) ws rest h =
    ap (parse_loop (v ++ rest)) (plain_unit ws [] false c (v ++ rest) (ground (arith, h)))
    ∙ plain_text v ws (c ∷ []) rest (ground (arith, h))

quoted_word :
    (w : Text) (ws : List Text) (rest : Text)
    → is_next b'\'' rest ≡ false
    → parse_loop ((b'\'' ∷ (double_quotes w ++ b'\'' ∷ [])) ++ rest) (state ws [] false none)
      ≡ parse_loop rest (state ws w true none)
unfolding parse_loop
quoted_word w ws rest h =
    ap (λ t. parse_loop t (state ws [] true (some b'\'')))
      (append_assoc (double_quotes w) (b'\'' ∷ []) rest)
    ∙ quoted_text w ws [] true rest h

-- One word, to what follows it.
word :
    (w : Text) (ws : List Text) (rest : Text)
    → is_next b'\'' rest ≡ false
    → parse_loop (quote_structured_argument w ++ rest) (state ws [] false none)
      ≡ parse_loop rest (state ws w true none)
unfolding quote_structured_argument
word w ws rest h =
    if-cases
      (λ t.
        parse_loop (t ++ rest) (state ws [] false none) ≡ parse_loop rest (state ws w true none))
      (is_plain_text w) (plain_word w ws rest) (λ _. quoted_word w ws rest h)

-- A row of words, and the flush at the end.
all_words :
    (ws done : List Text)
    → flush (parse_loop (quoted_words ws) (state done [] false none))
      ≡ state (done ++ ws) [] false none
unfolding parse_loop quoted_words is_space
all_words [] done = ap (λ t. state t [] false none) (sym (append-nil done))
all_words (w ∷ []) done =
    ap (λ t. flush (parse_loop t (state done [] false none)))
      (sym (append-nil (quote_structured_argument w)))
    ∙ ap flush (word w done [] refl)
all_words (w ∷ v ∷ ws) done =
    ap flush (word w done (b' ' ∷ quoted_words (v ∷ ws)) refl)
    ∙ all_words (v ∷ ws) (done ++ w ∷ [])
    ∙ ap (λ t. state t [] false none) (append_assoc done (w ∷ []) (v ∷ ws))

flush-quote : (s : Parse) → (flush s).quote ≡ s.quote
flush-quote s = if-cases (λ (t : Parse). t.quote ≡ s.quote) s.started (λ _. refl) (λ _. refl)

-- The words of a display are the arguments it was made of, whatever units they hold, and nothing in
-- it is taken for shell syntax or for an expansion.
pub parse_words-quoted_words :
    (ws : List Text)
    → parse_words (quoted_words ws)
      ≡ some (record {
        words = ws;
        has_top_level_shell_syntax = false;
        has_powershell_expansion = false;
      })
unfolding parse_words
parse_words-quoted_words ws =
    let s = parse_loop (quoted_words ws) start in
    ap (λ q. finish q (flush s)) (sym (flush-quote s))
    ∙ ap (λ t. finish t.quote t) (all_words ws [])
