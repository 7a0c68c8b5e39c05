-- ===== src/Plan/Tests.antt =====
-- Plans of small commands.
use chatgpt_mcp_clean.Base.{
  ◌≤◌, none, some, List, [], ◌∷◌, length, Text, codes, trim, trim_start, trim_end, is_space,
  to_lower, lower_unit, starts_with, text_eq, ◌≡◌, refl, true, arith,
}
use chatgpt_mcp_clean.Words.{parse_words, parse_loop}
use chatgpt_mcp_clean.Plan.Split.{
  always, success, SequencePart, split_pipeline, split_sequence, split_loop, push,
}
use chatgpt_mcp_clean.Plan.Cmd.{
  native_commands, explicit_shells, before_slash, basename_lower, is_path_executable, after_prefix,
  after_flags, cmd_match, has_unescaped, ends_variable, has_variable, has_for, has_pair,
  cmd_payload_for_native_planning, should_direct_explicit_shell,
}
use chatgpt_mcp_clean.Plan.Route.{
  native_sequence, Env, python_heredoc_plan, plan_single_command, steps_of, plan_inside,
  plan_command_execution,
}
use chatgpt_mcp_clean.Plan.Pieces.{pipe}
use chatgpt_mcp_clean.Plan.Parts.{is_sequence, split_pipeline-Covers, Covers, split_sequence-Covers}
use chatgpt_mcp_clean.Plan.Depth.{plan_command_execution-enough}

abbrev windows : Env
windows = record {
  powershell_exe = codes "pwsh.exe";
  system_root = none;
  com_spec = none;
  heredoc_match = λ command. none;
}

abbrev chain : Text
chain = codes "git a && rg 'x;y'\r\n\r\nnode b"

abbrev chain_parts : List SequencePart
chain_parts =
    record { command = codes "git a"; run_if = always }
    ∷ record { command = codes "rg 'x;y'"; run_if = success }
    ∷ record { command = codes "node b"; run_if = always }
    ∷ []

chain_split : split_sequence chain ≡ some chain_parts
unfolding split_sequence split_loop push trim trim_start trim_end is_space
chain_split = refl

split_sequence-Covers_example :
    Covers (λ e. is_sequence e ≡ true) chain chain_parts × (2 ≤ length chain_parts)
split_sequence-Covers_example = split_sequence-Covers chain chain_parts chain_split

abbrev piped : Text
piped = codes "git \"a\\\"|b\" | rg x"

abbrev piped_parts : List SequencePart
piped_parts =
    record { command = codes "git \"a\\\"|b\""; run_if = always }
    ∷ record { command = codes "rg x"; run_if = always }
    ∷ []

piped_split : split_pipeline piped ≡ some piped_parts
unfolding split_pipeline split_loop push trim trim_start trim_end is_space
piped_split = refl

split_pipeline-Covers_example : Covers (λ e. e ≡ pipe) piped piped_parts × (2 ≤ length piped_parts)
split_pipeline-Covers_example = split_pipeline-Covers piped piped_parts piped_split

wrapped_mode :
    (plan_command_execution 2 windows (codes "cmd.exe /d /S:off /c \"git a && rg b\"")).mode
    ≡ native_sequence
unfolding plan_command_execution plan_inside split_sequence split_pipeline split_loop push trim
    trim_start trim_end is_space steps_of plan_single_command python_heredoc_plan parse_words
    parse_loop should_direct_explicit_shell explicit_shells is_path_executable basename_lower
    before_slash native_commands cmd_payload_for_native_planning cmd_match after_flags after_prefix
    has_unescaped has_variable ends_variable has_for has_pair to_lower lower_unit starts_with
    text_eq
wrapped_mode = refl

plan_command_execution-enough_example :
    plan_command_execution 12 windows (codes "cmd /c git a")
    ≡ plan_command_execution 20 windows (codes "cmd /c git a")
plan_command_execution-enough_example =
    plan_command_execution-enough 12 20 windows (codes "cmd /c git a") (ground arith) (ground arith)
