-- ===== src/Plan/Wrapper.antt =====
-- The wrappers `cmd /c` that `planCommandExecution` of src/lib/command-execution-plan.ts takes off.
use chatgpt_mcp_clean.Base.{ℕ, zero, suc, none, some, Text, ◌≡◌, ◌⊎◌}
use chatgpt_mcp_clean.Plan.Cmd.{cmd_payload_for_native_planning}
use chatgpt_mcp_clean.Plan.Route.{
  Mode, powershell, native, explicit_shell, native_sequence, native_pipeline, Plan, Env,
}
use chatgpt_mcp_clean.Plan.Steps.{Routed}

-- The plan needs no shell.
abbrev pub IsDirect : Mode → Type 0
IsDirect m = (m ≡ native) ⊎ ((m ≡ native_sequence) ⊎ (m ≡ native_pipeline))

abbrev pub NeedsShell : Mode → Type 0
NeedsShell m = (m ≡ powershell) ⊎ (m ≡ explicit_shell)

-- The plan for a command, of which as many wrappers `cmd /c` may come off: the plan of what is inside
-- when that needs no shell, but for the reason that it gives, or else one for the command itself.
pub data Planned (env : Env) : ℕ → Text → Plan → Type 0 where
  at_last : (command : Text) (p : Plan) → Routed env command p → Planned env zero command p
  no_wrapper :
      (depth : ℕ) (command : Text) (p : Plan)
      → cmd_payload_for_native_planning command ≡ none
      → Routed env command p
      → Planned env (suc depth) command p
  wrapper_off :
      (depth : ℕ) (command payload : Text) (p q : Plan)
      → cmd_payload_for_native_planning command ≡ some payload
      → Planned env depth payload q
      → IsDirect q.mode
      → record p { reason = q.reason } ≡ q
      → Planned env (suc depth) command p
  wrapper_kept :
      (depth : ℕ) (command payload : Text) (p q : Plan)
      → cmd_payload_for_native_planning command ≡ some payload
      → Planned env depth payload q
      → NeedsShell q.mode
      → Routed env command p
      → Planned env (suc depth) command p
