-- ===== src/Plan/Route.antt =====
-- The plans of src/lib/command-execution-plan.ts. `powershell_exe`, the variables of the environment
-- that a plan reads, and what the regular expression of `pythonHeredocPlan` captures are parameters.
use chatgpt_mcp_clean.Base.{
  ℕ, zero, suc, Bool, true, false, not, ◌&&◌, ◌||◌, Option, none, some, List, [], ◌∷◌, ◌++◌, ◌==◌,
  if◌then◌else◌, Text, codes, trim, trim_start, is_space, text_eq,
}
use chatgpt_mcp_clean.Words.{ParsedWords, parse_words}
use chatgpt_mcp_clean.Plan.Split.{RunCondition, SequencePart, split_pipeline, split_sequence}
use chatgpt_mcp_clean.Plan.Cmd.{
  native_commands, is_in, basename_lower, is_path_executable, cmd_payload_for_native_planning,
  should_direct_explicit_shell,
}

pub data Mode : Type 0 where
  powershell : Mode
  native : Mode
  explicit_shell : Mode
  native_sequence : Mode
  native_pipeline : Mode

pub record Step : Type 0 where
  pub executable : Text
  pub args : List Text
  pub run_if : RunCondition
  pub reason : Text
  pub stdin : Option Text

pub record Plan : Type 0 where
  pub mode : Mode
  pub executable : Text
  pub args : List Text
  pub reason : Text
  pub stdin : Option Text
  pub steps : List Step

abbrev pub plan_of : Mode → Text → List Text → Text → Plan
plan_of mode executable args reason = record {
  mode = mode;
  executable = executable;
  args = args;
  reason = reason;
  stdin = none;
  steps = [];
}

-- What the heredoc's expression captures: the program and what stands between it and `<<`, with a
-- space between the two, and the body.
pub record Heredoc : Type 0 where
  pub prefix : Text
  pub body : Text

pub record Env : Type 0 where
  pub powershell_exe : Text
  pub system_root : Option Text
  pub com_spec : Option Text
  pub heredoc_match : Text → Option Heredoc

abbrev pub or_default : Option Text → Text → Text
or_default none default = default
or_default (some []) default = default
or_default (some (c ∷ s)) default = c ∷ s

abbrev pub root_of : Env → Text
root_of env = or_default env.system_root (codes "C:\\Windows")

unfoldable pub explicit_shell_executable : Env → Text → Text
unfolding basename_lower
explicit_shell_executable env first =
    let base = basename_lower first in
    if is_in base (codes "pwsh" ∷ codes "pwsh.exe" ∷ [])
    then env.powershell_exe
    else if is_in base (codes "powershell" ∷ codes "powershell.exe" ∷ [])
    then root_of env ++ codes "\\System32\\WindowsPowerShell\\v1.0\\powershell.exe"
    else if is_in base (codes "cmd" ∷ codes "cmd.exe" ∷ [])
    then or_default env.com_spec (root_of env ++ codes "\\System32\\cmd.exe")
    else first

abbrev pub powershell_plan : Env → Text → Text → Plan
powershell_plan env command reason =
    plan_of powershell env.powershell_exe
      (codes "-NoLogo"
        ∷ codes "-NoProfile"
        ∷ codes "-NonInteractive"
        ∷ codes "-WindowStyle"
        ∷ codes "Hidden"
        ∷ codes "-ExecutionPolicy"
        ∷ codes "Bypass"
        ∷ codes "-Command"
        ∷ command
        ∷ [])
      reason

abbrev pub heredoc_program : Text → (shell : Bool) → List Text → Option Plan
heredoc_program body shell [] = none
heredoc_program body true (executable ∷ args) = none
heredoc_program body false (executable ∷ args) =
    some (record (plan_of native executable args (codes "python_heredoc_to_stdin")) {
      stdin = some (body ++ 10 ∷ []);
    })

abbrev pub heredoc_words : Text → Option ParsedWords → Option Plan
heredoc_words body none = none
heredoc_words body (some parsed) =
    heredoc_program body (parsed.has_top_level_shell_syntax || parsed.has_powershell_expansion)
      parsed.words

abbrev pub heredoc_of : Option Heredoc → Option Plan
heredoc_of none = none
heredoc_of (some h) = heredoc_words h.body (parse_words (trim h.prefix))

unfoldable pub python_heredoc_plan : Env → Text → Option Plan
unfolding parse_words trim
python_heredoc_plan env command = heredoc_of (env.heredoc_match command)

-- What follows the call operator `&` and white space.
abbrev pub after_call : Text → Option Text
after_call [] = none
after_call (c ∷ []) = none
after_call (c ∷ d ∷ s) = if c == b'&' && is_space d then some (trim_start s) else none

abbrev pub is_inline_code : Text → List Text → Bool
is_inline_code base [] = false
is_inline_code base (a ∷ args) =
    (is_in base (
        codes "python"
        ∷ codes "python.exe"
        ∷ codes "python3"
        ∷ codes "python3.exe"
        ∷ codes "py"
        ∷ codes "py.exe"
        ∷ [])
      && text_eq a (codes "-c"))
    || (is_in base (codes "node" ∷ codes "node.exe" ∷ [])
        && (text_eq a (codes "-e") || text_eq a (codes "--eval")))

abbrev pub is_native_candidate : Text → Bool
is_native_candidate first = is_in (basename_lower first) native_commands || is_path_executable first

-- `called` says that the call operator was there, before `source`.
abbrev pub plan_first :
    Env → (command source : Text) → (called : Bool) → ParsedWords → Text → List Text → Plan
plan_first env command source called parsed first args =
    let base = basename_lower first in
    let syntax = parsed.has_top_level_shell_syntax in
    let expansion = parsed.has_powershell_expansion in
    if should_direct_explicit_shell source base syntax
    then plan_of explicit_shell (explicit_shell_executable env first) args
        (codes "explicit_shell_direct")
    else if is_native_candidate first && is_inline_code base args && not syntax
    then plan_of native first args (codes "inline_code_argv_direct")
    else if is_native_candidate first && not syntax && not expansion
    then plan_of native first args (
        if called then codes "powershell_call_operator_native_argv" else codes "native_argv_direct")
    else powershell_plan env command (
        if syntax
        then codes "powershell_shell_syntax"
        else if expansion
        then codes "powershell_expansion"
        else codes "powershell_command")

abbrev pub plan_program :
    Env → (command source : Text) → (called : Bool) → ParsedWords → List Text → Plan
plan_program env command source called parsed [] =
    powershell_plan env command (codes "powershell_unparsed")
plan_program env command source called parsed (first ∷ args) =
    plan_first env command source called parsed first args

abbrev pub plan_words : Env → (command source : Text) → (called : Bool) → Option ParsedWords → Plan
plan_words env command source called none =
    powershell_plan env command (codes "powershell_unparsed")
plan_words env command source called (some parsed) =
    plan_program env command source called parsed parsed.words

abbrev pub plan_called : Env → Text → Option Text → Plan
plan_called env command none = plan_words env command command false (parse_words command)
plan_called env command (some source) = plan_words env command source true (parse_words source)

abbrev pub or_plan : Option Plan → Plan → Plan
or_plan none p = p
or_plan (some h) p = h

unfoldable pub plan_single_command : Env → Text → Plan
unfolding parse_words trim_start basename_lower is_path_executable should_direct_explicit_shell
    explicit_shell_executable native_commands python_heredoc_plan is_space
plan_single_command env command =
    or_plan (python_heredoc_plan env command)
      (plan_called env command (after_call (trim_start command)))

abbrev pub step_of : RunCondition → Plan → Step
step_of run_if p = record {
  executable = p.executable;
  args = p.args;
  run_if = run_if;
  reason = p.reason;
  stdin = p.stdin;
}

abbrev pub is_native : Plan → Bool
is_native p = elim p.mode [ native ↦ elim p.steps [ [] ↦ true | s ∷ ss ↦ false ] | _ ↦ false ]

-- What a sequence may run: anything but powershell and a sequence.
abbrev pub is_step : Plan → Bool
is_step p = elim p.mode [
  | powershell ↦ false
  | native_sequence ↦ false
  | _ ↦ elim p.steps [ [] ↦ true | s ∷ ss ↦ false ]
]

abbrev pub cons_step : Bool → Step → Option (List Step) → Option (List Step)
cons_step false s steps = none
cons_step true s none = none
cons_step true s (some steps) = some (s ∷ steps)

-- The steps of the parts, unless one cannot be a step.
unfoldable pub steps_of : Env → (Plan → Bool) → List SequencePart → Option (List Step)
unfolding plan_single_command
steps_of env fits [] = some []
steps_of env fits (part ∷ parts) =
    let p = plan_single_command env part.command in
    cons_step (fits p) (step_of part.run_if p) (steps_of env fits parts)

abbrev pub plan_steps : Env → Text → Mode → Text → Option (List Step) → Plan
plan_steps env command mode reason none = plan_single_command env command
plan_steps env command mode reason (some []) = plan_single_command env command
plan_steps env command mode reason (some (s ∷ steps)) =
    record (plan_of mode s.executable s.args reason) { steps = s ∷ steps }

abbrev pub plan_sequence : Env → Text → Option (List SequencePart) → Plan
plan_sequence env command none = plan_single_command env command
plan_sequence env command (some parts) =
    plan_steps env command native_sequence (codes "native_sequence") (steps_of env is_step parts)

abbrev pub plan_pipeline : Env → Text → Option (List SequencePart) → Plan
plan_pipeline env command none = plan_sequence env command (split_sequence command)
plan_pipeline env command (some parts) =
    plan_steps env command native_pipeline (codes "native_pipeline") (steps_of env is_native parts)

-- Without a `cmd /c` around it.
unfoldable pub plan_inside : Env → Text → Plan
unfolding split_sequence split_pipeline steps_of plan_single_command python_heredoc_plan
plan_inside env command =
    or_plan (python_heredoc_plan env command) (plan_pipeline env command (split_pipeline command))

-- The plan inside `cmd /c`, when it needs no shell.
abbrev pub elided_as : Mode → Plan → Option Plan
elided_as native inner = some (record inner { reason = codes "cmd_wrapper_elided_native" })
elided_as native_sequence inner =
    some (record inner { reason = codes "cmd_wrapper_elided_native_sequence" })
elided_as native_pipeline inner =
    some (record inner { reason = codes "cmd_wrapper_elided_native_pipeline" })
elided_as powershell inner = none
elided_as explicit_shell inner = none

abbrev pub elided : Plan → Option Plan
elided inner = elided_as inner.mode inner

abbrev pub plan_payload : (Text → Plan) → Plan → Option Text → Plan
plan_payload plan other none = other
plan_payload plan other (some payload) = or_plan (elided (plan payload)) other

-- `planCommandExecution`, through `depth` wrappers at most.
unfoldable pub plan_command_execution : (depth : ℕ) → Env → Text → Plan
unfolding plan_inside cmd_payload_for_native_planning
plan_command_execution zero env command = plan_inside env command
plan_command_execution (suc depth) env command =
    plan_payload (plan_command_execution depth env) (plan_inside env command)
      (cmd_payload_for_native_planning command)
