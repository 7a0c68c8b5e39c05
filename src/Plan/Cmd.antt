-- ===== src/Plan/Cmd.antt =====
-- The programs that src/lib/command-execution-plan.ts knows, and its regular expressions for paths
-- and for commands of cmd.exe, each as a function that runs through the text. The white space between
-- the words of `cmd /c` is taken whole, which the source's `trim` of the rest makes no difference to.
use chatgpt_mcp_clean.Base.{
  ℕ, zero, suc, ◌+◌, ◌-◌, Bool, true, false, not, ◌&&◌, ◌||◌, Option, none, some, List, [], ◌∷◌,
  leb, length, ltb, ◌==◌, reverse, any, if◌then◌else◌, ◌>>=◌, Text, codes, trim, trim_start,
  is_space, to_lower, starts_with, text_eq, drop, take,
}

unfoldable pub native_commands : List Text
native_commands =
    codes "git"
    ∷ codes "git.exe"
    ∷ codes "gh"
    ∷ codes "gh.exe"
    ∷ codes "rg"
    ∷ codes "rg.exe"
    ∷ codes "ripgrep"
    ∷ codes "ripgrep.exe"
    ∷ codes "python"
    ∷ codes "python.exe"
    ∷ codes "python3"
    ∷ codes "python3.exe"
    ∷ codes "py"
    ∷ codes "py.exe"
    ∷ codes "node"
    ∷ codes "node.exe"
    ∷ codes "npm"
    ∷ codes "npm.cmd"
    ∷ codes "npx"
    ∷ codes "npx.cmd"
    ∷ codes "pnpm"
    ∷ codes "pnpm.cmd"
    ∷ codes "yarn"
    ∷ codes "yarn.cmd"
    ∷ codes "uv"
    ∷ codes "uv.exe"
    ∷ codes "curl"
    ∷ codes "curl.exe"
    ∷ codes "adb"
    ∷ codes "adb.exe"
    ∷ codes "dotnet"
    ∷ codes "dotnet.exe"
    ∷ codes "cmake"
    ∷ codes "cmake.exe"
    ∷ codes "ninja"
    ∷ codes "ninja.exe"
    ∷ codes "pytest"
    ∷ codes "pytest.exe"
    ∷ codes "ssh"
    ∷ codes "ssh.exe"
    ∷ codes "scp"
    ∷ codes "scp.exe"
    ∷ codes "sftp"
    ∷ codes "sftp.exe"
    ∷ codes "where"
    ∷ codes "where.exe"
    ∷ codes "findstr"
    ∷ codes "findstr.exe"
    ∷ codes "netstat"
    ∷ codes "netstat.exe"
    ∷ codes "ipconfig"
    ∷ codes "ipconfig.exe"
    ∷ codes "tasklist"
    ∷ codes "tasklist.exe"
    ∷ codes "robocopy"
    ∷ codes "robocopy.exe"
    ∷ codes "java"
    ∷ codes "java.exe"
    ∷ codes "javac"
    ∷ codes "javac.exe"
    ∷ []

unfoldable pub explicit_shells : List Text
explicit_shells =
    codes "pwsh"
    ∷ codes "pwsh.exe"
    ∷ codes "powershell"
    ∷ codes "powershell.exe"
    ∷ codes "cmd"
    ∷ codes "cmd.exe"
    ∷ codes "bash"
    ∷ codes "bash.exe"
    ∷ codes "sh"
    ∷ codes "sh.exe"
    ∷ codes "wsl"
    ∷ codes "wsl.exe"
    ∷ []

abbrev pub is_in : Text → List Text → Bool
is_in name names = any (λ n. text_eq n name) names

abbrev pub is_slash : ℕ → Bool
is_slash c = c == b'\\' || c == b'/'

-- What comes before the first slash.
unfoldable pub before_slash : Text → Text
before_slash [] = []
before_slash (c ∷ s) = let rest = before_slash s in if is_slash c then [] else c ∷ rest

unfoldable pub basename_lower : Text → Text
unfolding before_slash to_lower
basename_lower value = to_lower (reverse (before_slash (reverse value)))

-- From the end: the extension, the dot, and something that is no slash.
unfoldable pub is_path_executable : Text → Bool
unfolding to_lower starts_with before_slash
is_path_executable first =
    let name = reverse (before_slash (reverse first)) in
    let extensions = codes "exe." ∷ codes "moc." ∷ codes "dmc." ∷ codes "tab." ∷ [] in
    ltb 4 (length name) && any (λ e. starts_with (to_lower (reverse name)) e) extensions

-- The text after a prefix in lower case, whatever the case of the text.
unfoldable pub after_prefix : (prefix : Text) → Text → Option Text
unfolding to_lower
after_prefix [] s = some s
after_prefix (p ∷ ps) [] = none
after_prefix (p ∷ ps) (c ∷ s) =
    let rest = after_prefix ps s in
    if c == p || (leb b'A' c && leb c b'Z' && c + 32 == p) then rest else none

abbrev pub after_spaces : Text → Option Text
after_spaces [] = none
after_spaces (c ∷ s) = if is_space c then some (trim_start s) else none

abbrev pub or_else : Option Text → Option Text → Option Text
or_else none b = b
or_else (some a) b = some a

abbrev pub or_same : Option Text → Text → Text
or_same none b = b
or_same (some a) b = a

abbrev pub one_of : Text → Text → Option Text
one_of [] s = none
one_of (l ∷ letters) s = or_else (after_prefix (l ∷ []) s) (one_of letters s)

abbrev pub after_on_off : Text → Text
after_on_off rest =
    or_same (or_else (after_prefix (codes ":on") rest) (after_prefix (codes ":off") rest)) rest

-- One `/d`, `/s:on` and so on, with the white space after it.
abbrev pub after_flag : Text → Text → Option Text
after_flag letters s =
    after_prefix (b'/' ∷ []) s >>= one_of letters >>= λ rest. after_spaces (after_on_off rest)

abbrev pub or_stop : (Text → Text) → Text → Option Text → Text
or_stop go_on s none = s
or_stop go_on s (some rest) = go_on rest

-- The flags, at most `rounds` of them.
unfoldable pub after_flags : (rounds : ℕ) → Text → Text
unfolding after_prefix
after_flags zero s = s
after_flags (suc rounds) s = or_stop (after_flags rounds) s (after_flag (codes "dqsuaefv") s)

-- What follows `cmd /c`, trimmed.
unfoldable pub cmd_match : Text → Option Text
unfolding after_flags
cmd_match command = after_prefix (codes "cmd") (trim_start command) >>= λ rest.
    after_spaces (or_same (after_prefix (codes ".exe") rest) rest) >>= λ rest.
    after_prefix (codes "/c") (after_flags (length rest) rest) >>= λ rest.
    after_spaces rest >>= λ payload. some (trim payload)

abbrev pub is_letter : ℕ → Bool
is_letter c = (leb b'A' c && leb c b'Z') || (leb b'a' c && leb c b'z')

abbrev pub is_word : ℕ → Bool
is_word c = is_letter c || (leb b'0' c && leb c b'9') || c == b'_'

-- One of the units, at the beginning or after a unit that is no backtick.
unfoldable pub has_unescaped : Text → (previous : ℕ) → Text → Bool
has_unescaped units previous [] = false
has_unescaped units previous (c ∷ s) =
    (any (λ u. u == c) units && not (previous == b'`')) || has_unescaped units c s

-- `[A-Za-z0-9_]*%` from here on.
unfoldable pub ends_variable : Text → Bool
ends_variable [] = false
ends_variable (c ∷ s) = if c == b'%' then true else is_word c && ends_variable s

abbrev pub begins_variable : Text → Bool
begins_variable [] = false
begins_variable (c ∷ s) = (is_letter c || c == b'_') && ends_variable s

unfoldable pub has_variable : Text → Bool
unfolding ends_variable
has_variable [] = false
has_variable (c ∷ s) = (c == b'%' && begins_variable s) || has_variable s

abbrev pub is_loop_variable : Option Text → Bool
is_loop_variable (some (p ∷ c ∷ s)) = p == b'%' && is_letter c
is_loop_variable _ = false

-- `\bfor\s+%[A-Za-z]`.
unfoldable pub has_for : (previous : ℕ) → Text → Bool
unfolding after_prefix
has_for previous [] = false
has_for previous (c ∷ s) =
    (not (is_word previous)
      && is_loop_variable (after_prefix (codes "for") (c ∷ s) >>= λ rest. after_spaces rest))
    || has_for c s

unfoldable pub has_pair : Text → Bool
has_pair [] = false
has_pair (c ∷ []) = false
has_pair (c ∷ d ∷ s) = (c == d && (c == b'&' || c == b'|')) || has_pair (d ∷ s)

abbrev pub is_quoted : Text → Bool
is_quoted payload =
    leb 2 (length payload)
    && starts_with payload (b'"' ∷ [])
    && starts_with (reverse payload) (b'"' ∷ [])

abbrev pub unquoted : Text → Text
unquoted payload =
    if is_quoted payload then trim (take (length payload - 2) (drop 1 payload)) else payload

abbrev pub native_payload : Text → Option Text
native_payload [] = none
native_payload (c ∷ payload) =
    let s = c ∷ payload in
    if has_unescaped (codes "<>") 0 s || has_variable s || has_for 0 s then none else some s

unfoldable pub cmd_payload_for_native_planning : Text → Option Text
unfolding cmd_match has_unescaped has_variable has_for
cmd_payload_for_native_planning command =
    cmd_match command >>= λ payload. native_payload (unquoted payload)

abbrev pub or_empty : Option Text → Text
or_empty none = []
or_empty (some payload) = payload

abbrev pub direct_payload : Text → Bool
direct_payload payload =
    (has_unescaped (codes "<") 0 payload || has_for 0 payload || has_variable payload)
    || (is_quoted payload && has_pair payload)

-- `syntax` is what `parseWords` says of the command's top-level shell syntax.
unfoldable pub should_direct_explicit_shell : (command base : Text) (syntax : Bool) → Bool
unfolding cmd_match has_unescaped has_variable has_for has_pair explicit_shells
should_direct_explicit_shell command base syntax =
    if not (is_in base explicit_shells)
    then false
    else if not syntax
    then true
    else if not (is_in base (codes "cmd" ∷ codes "cmd.exe" ∷ []))
    then false
    else direct_payload (or_empty (cmd_match command))
