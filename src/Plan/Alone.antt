-- ===== src/Plan/Alone.antt =====
-- What `planSingleCommand` of src/lib/command-execution-plan.ts runs, described by the words of the
-- command.
use chatgpt_mcp_clean.Base.{
  ℕ, ap, Bool, true, false, not, ◌&&◌, ◌||◌, Option, none, some, List, [], ◌∷◌, ◌++◌, ◌==◌, codes,
  if-cases, Text, trim, trim_start, is_space, ◌≡◌, ◌⊎◌, inl, inr, refl, subst, ◌∙◌, Bool-cases,
  arith,
}
use chatgpt_mcp_clean.Words.{ParsedWords, parse_words}
use chatgpt_mcp_clean.Plan.Cmd.{basename_lower, should_direct_explicit_shell}
use chatgpt_mcp_clean.Plan.Route.{
  Mode, powershell, native, explicit_shell, Plan, plan_of, Heredoc, Env, heredoc_words, heredoc_of,
  python_heredoc_plan, is_native_candidate, is_inline_code, explicit_shell_executable,
  heredoc_program, plan_program, plan_first, plan_words, plan_called, or_plan, plan_single_command,
  after_call,
}

-- The text whose words are read: the command, or what follows the call operator and white space.
pub data Source (command : Text) : Text → Type 0 where
  plain : after_call (trim_start command) ≡ none → Source command command
  after_operator :
      (d : ℕ) (s : Text)
      → trim_start command ≡ b'&' ∷ d ∷ s
      → is_space d ≡ true
      → Source command (trim_start s)

-- Why powershell has to run it.
pub data NeedsPowershell (source : Text) : Type 0 where
  unparsed : parse_words source ≡ none → NeedsPowershell source
  no_words :
      (parsed : ParsedWords)
      → parse_words source ≡ some parsed
      → parsed.words ≡ []
      → NeedsPowershell source
  has_syntax :
      (parsed : ParsedWords)
      → parse_words source ≡ some parsed
      → (parsed.has_top_level_shell_syntax || parsed.has_powershell_expansion) ≡ true
      → NeedsPowershell source
  not_native :
      (parsed : ParsedWords) (first : Text) (args : List Text)
      → parse_words source ≡ some parsed
      → parsed.words ≡ first ∷ args
      → is_native_candidate first ≡ false
      → NeedsPowershell source

-- The program that stands for the command, its arguments and its input, by the mode of the plan.
pub data Stands (env : Env) (command : Text) : Mode → Text → List Text → Option Text → Type 0 where
  of_heredoc :
      (h : Heredoc) (parsed : ParsedWords) (first : Text) (args : List Text)
      → env.heredoc_match command ≡ some h
      → parse_words (trim h.prefix) ≡ some parsed
      → parsed.words ≡ first ∷ args
      → (parsed.has_top_level_shell_syntax || parsed.has_powershell_expansion) ≡ false
      → Stands env command native first args (some (h.body ++ 10 ∷ []))
  of_words :
      (source : Text) (parsed : ParsedWords) (first : Text) (args : List Text)
      → python_heredoc_plan env command ≡ none
      → Source command source
      → parse_words source ≡ some parsed
      → parsed.words ≡ first ∷ args
      → is_native_candidate first ≡ true
      → parsed.has_top_level_shell_syntax ≡ false
      → (parsed.has_powershell_expansion ≡ false)
        ⊎ (is_inline_code (basename_lower first) args ≡ true)
      → Stands env command native first args none
  of_shell :
      (source : Text) (parsed : ParsedWords) (first : Text) (args : List Text)
      → python_heredoc_plan env command ≡ none
      → Source command source
      → parse_words source ≡ some parsed
      → parsed.words ≡ first ∷ args
      → should_direct_explicit_shell source (basename_lower first) parsed.has_top_level_shell_syntax
        ≡ true
      → Stands env command explicit_shell (explicit_shell_executable env first) args none
  of_powershell :
      (source : Text)
      → python_heredoc_plan env command ≡ none
      → Source command source
      → NeedsPowershell source
      → Stands env command powershell env.powershell_exe
          (codes "-NoLogo"
            ∷ codes "-NoProfile"
            ∷ codes "-NonInteractive"
            ∷ codes "-WindowStyle"
            ∷ codes "Hidden"
            ∷ codes "-ExecutionPolicy"
            ∷ codes "Bypass"
            ∷ codes "-Command"
            ∷ command
            ∷ [])
          none

-- The plan runs one program, that stands for the command.
abbrev pub IsAlone : Env → Text → Plan → Type 0
IsAlone env command p = Stands env command p.mode p.executable p.args p.stdin × (p.steps ≡ [])

pub heredoc_plan-IsAlone :
    (env : Env) (command : Text) (p : Plan)
    → python_heredoc_plan env command ≡ some p
    → IsAlone env command p
unfolding python_heredoc_plan
heredoc_plan-IsAlone env command p e = go (env.heredoc_match command) refl e
  where
    program :
        (h : Heredoc) (parsed : ParsedWords) (words : List Text) (shell : Bool)
        → env.heredoc_match command ≡ some h
        → parse_words (trim h.prefix) ≡ some parsed
        → parsed.words ≡ words
        → (parsed.has_top_level_shell_syntax || parsed.has_powershell_expansion) ≡ shell
        → heredoc_program h.body shell words ≡ some p
        → IsAlone env command p
    program h parsed [] shell m w l b e = absurd (cc e)
    program h parsed (first ∷ args) true m w l b e = absurd (cc e)
    program h parsed (first ∷ args) false m w l b e =
        let same : record (plan_of native first args (codes "python_heredoc_to_stdin")) {
          stdin = some (h.body ++ 10 ∷ []);
        }
            ≡ p =
          cc e in
        subst (IsAlone env command) same (of_heredoc h parsed first args m w l b, refl)

    words :
        (h : Heredoc) (parsed : Option ParsedWords)
        → env.heredoc_match command ≡ some h
        → parse_words (trim h.prefix) ≡ parsed
        → heredoc_words h.body parsed ≡ some p
        → IsAlone env command p
    words h none m w e = absurd (cc e)
    words h (some parsed) m w e = program h parsed parsed.words _ m w refl refl e

    go :
        (h : Option Heredoc)
        → env.heredoc_match command ≡ h
        → heredoc_of h ≡ some p
        → IsAlone env command p
    go none m e = absurd (cc e)
    go (some h) m e = words h (parse_words (trim h.prefix)) m refl e

-- A program that is not run natively is no candidate, or there is syntax or an expansion.
needs :
    (candidate inline syntax expansion : Bool)
    → (candidate && inline && not syntax) ≡ false
    → (candidate && not syntax && not expansion) ≡ false
    → ((syntax || expansion) ≡ true) ⊎ (candidate ≡ false)
needs false inline syntax expansion e f = inr refl
needs true inline true expansion e f = inl refl
needs true inline false true e f = inl refl
needs true inline false false e f = absurd (cc f)

plan_first-IsAlone :
    (env : Env) (command source : Text) (called : Bool) (parsed : ParsedWords) (first : Text)
    → (args : List Text) → python_heredoc_plan env command ≡ none
    → Source command source
    → parse_words source ≡ some parsed
    → parsed.words ≡ first ∷ args
    → IsAlone env command (plan_first env command source called parsed first args)
plan_first-IsAlone env command source called parsed first args h s w l =
    let base = basename_lower first in
    let syntax = parsed.has_top_level_shell_syntax in
    let expansion = parsed.has_powershell_expansion in
    let candidate = is_native_candidate first in
    if-cases (IsAlone env command) (should_direct_explicit_shell source base syntax)
      (λ direct. (of_shell source parsed first args h s w l direct, refl))
      λ _.
        if-cases (IsAlone env command) (candidate && is_inline_code base args && not syntax)
          (λ e. (
            of_words source parsed first args h s w l (ground arith) (ground arith)
                (inr (ground arith)),
            refl,
          ))
          λ inline.
            if-cases (IsAlone env command) (candidate && not syntax && not expansion)
              (λ e. (
                of_words source parsed first args h s w l (ground arith) (ground arith)
                    (inl (ground arith)),
                refl,
              ))
              λ plain. (
                of_powershell source h s (
                    why (needs candidate (is_inline_code base args) syntax expansion inline plain)),
                refl,
              )
  where
    why :
        ((parsed.has_top_level_shell_syntax || parsed.has_powershell_expansion) ≡ true)
          ⊎ (is_native_candidate first ≡ false)
        → NeedsPowershell source
    why (inl e) = has_syntax parsed w e
    why (inr e) = not_native parsed first args w l e

plan_words-IsAlone :
    (env : Env) (command source : Text) (called : Bool) (parsed : Option ParsedWords)
    → python_heredoc_plan env command ≡ none
    → Source command source
    → parse_words source ≡ parsed
    → IsAlone env command (plan_words env command source called parsed)
plan_words-IsAlone env command source called none h s w =
    (of_powershell source h s (unparsed w), refl)
plan_words-IsAlone env command source called (some parsed) h s w = go parsed.words refl
  where
    go :
        (words : List Text)
        → parsed.words ≡ words
        → IsAlone env command (plan_program env command source called parsed words)
    go [] l = (of_powershell source h s (no_words parsed w l), refl)
    go (first ∷ args) l = plan_first-IsAlone env command source called parsed first args h s w l

after_call-Source :
    (command source : Text) → after_call (trim_start command) ≡ some source → Source command source
after_call-Source command source e = go (trim_start command) refl e
  where
    go : (t : Text) → trim_start command ≡ t → after_call t ≡ some source → Source command source
    go [] m e = absurd (cc e)
    go (c ∷ []) m e = absurd (cc e)
    go (c ∷ d ∷ s) m e = elim (Bool-cases (c == b'&' && is_space d)) [
      | inl there ↦
          let same : trim_start s ≡ source = ground (arith, e) in
          let amp : c ≡ b'&' = ground arith in
          subst (Source command) same
            (after_operator d s (m ∙ ap (λ i. i ∷ d ∷ s) amp) (ground arith))
      | inr other ↦ ground (arith, e)
    ]

-- The plan of a single command runs the first of its words with the others as arguments, natively
-- or in a shell that it names, or powershell with all of it; or what a heredoc has.
pub plan_single_command-IsAlone :
    (env : Env) (command : Text) → IsAlone env command (plan_single_command env command)
unfolding plan_single_command
plan_single_command-IsAlone env command =
    go (python_heredoc_plan env command) refl (heredoc_plan-IsAlone env command)
  where
    by_call :
        (source : Option Text)
        → after_call (trim_start command) ≡ source
        → python_heredoc_plan env command ≡ none
        → IsAlone env command (plan_called env command source)
    by_call none e h = plan_words-IsAlone env command command false _ h (plain e) refl
    by_call (some source) e h =
        plan_words-IsAlone env command source true _ h (after_call-Source command source e) refl

    go :
        (h : Option Plan)
        → python_heredoc_plan env command ≡ h
        → ((p : Plan) → h ≡ some p → IsAlone env command p)
        → IsAlone env command
            (or_plan h (plan_called env command (after_call (trim_start command))))
    go none e k = by_call (after_call (trim_start command)) refl e
    go (some p) e k = k p refl
