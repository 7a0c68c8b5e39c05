-- ===== src/Words/Tests.antt =====
-- Words of small commands.
use chatgpt_mcp_clean.Base.{
  ◌≡◌, refl, true, false, some, none, List, [], ◌∷◌, Text, codes, is_space,
}
use chatgpt_mcp_clean.Words.{parse_words, quote_structured_argument, quoted_words}
use chatgpt_mcp_clean.Words.RoundTrip.{parse_words-quoted_words}

escaped_quote :
    parse_words (codes "git -m \"a\\\"b\";")
    ≡ some (record {
      words = codes "git" ∷ codes "-m" ∷ codes "a\"b;" ∷ [];
      has_top_level_shell_syntax = true;
      has_powershell_expansion = false;
    })
unfolding parse_words is_space
escaped_quote = refl

open_quote : parse_words (codes "echo 'a") ≡ none
unfolding parse_words is_space
open_quote = refl

abbrev args : List Text
args = codes "git" ∷ codes "it's $x" ∷ [] ∷ codes "a.txt" ∷ []

args_quoted : quoted_words args ≡ codes "git 'it''s $x' '' a.txt"
unfolding quoted_words quote_structured_argument
args_quoted = refl

parse_words-quoted_words_example :
    parse_words (quoted_words args)
    ≡ some (record {
      words = args;
      has_top_level_shell_syntax = false;
      has_powershell_expansion = false;
    })
parse_words-quoted_words_example = parse_words-quoted_words args
