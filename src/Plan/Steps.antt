-- ===== src/Plan/Steps.antt =====
-- The plans of `planCommandExecution` in src/lib/command-execution-plan.ts for a command without a
-- wrapper: one program, or the steps of a pipeline or a sequence.
use chatgpt_mcp_clean.Base.{
  Bool, true, false, Option, none, some, List, [], ◌∷◌, codes, Text, ◌≡◌, ◌≢◌, ◌⊎◌, ◌↔◌, inl, inr,
  refl, sym, subst, ap₂, ◌∙◌,
}
use mathlib.Core.Bool.{false≢true}
use chatgpt_mcp_clean.Plan.Split.{SequencePart, split_pipeline, split_sequence}
use chatgpt_mcp_clean.Plan.Route.{
  Mode, powershell, native, explicit_shell, native_sequence, native_pipeline, Step, Plan, plan_of,
  Env, python_heredoc_plan, or_plan, plan_single_command, step_of, is_native, is_step, cons_step,
  steps_of, plan_steps, plan_sequence, plan_pipeline, plan_inside,
}
use chatgpt_mcp_clean.Plan.Alone.{
  Stands, of_heredoc, of_words, of_shell, of_powershell, IsAlone, heredoc_plan-IsAlone,
  plan_single_command-IsAlone,
}

-- What the program of a step may be: native or a shell in a sequence, native in a pipeline.
abbrev pub InSequence : Mode → Type 0
InSequence m = (m ≡ native) ⊎ (m ≡ explicit_shell)

abbrev pub InPipeline : Mode → Type 0
InPipeline m = m ≡ native

-- Each step is the program that stands for its part, and fits, with the part's condition.
pub data Mirrors (env : Env) (Fits : Mode → Type 0) : List SequencePart → List Step → Type 0 where
  no_parts : Mirrors env Fits [] []
  one_part :
      (part : SequencePart) (p : Plan) (parts : List SequencePart) (steps : List Step)
      → IsAlone env part.command p
      → Fits p.mode
      → Mirrors env Fits parts steps
      → Mirrors env Fits (part ∷ parts) (
          record {
            executable = p.executable;
            args = p.args;
            run_if = part.run_if;
            reason = p.reason;
            stdin = p.stdin;
          }
          ∷ steps)

-- The parts are no steps: there is none, or the program of one does not fit.
pub data Misfit (env : Env) (Fits : Mode → Type 0) : List SequencePart → Type 0 where
  nothing : Misfit env Fits []
  at_part :
      (part : SequencePart) (p : Plan) (parts : List SequencePart)
      → IsAlone env part.command p
      → (Fits p.mode → ⊥)
      → Misfit env Fits (part ∷ parts)
  after_part :
      (part : SequencePart) (parts : List SequencePart)
      → Misfit env Fits parts
      → Misfit env Fits (part ∷ parts)

-- Why a command is not run in steps.
pub data Whole (env : Env) (command : Text) : Type 0 where
  a_heredoc : python_heredoc_plan env command ≢ none → Whole env command
  no_split : split_pipeline command ≡ none → split_sequence command ≡ none → Whole env command
  no_pipeline :
      (parts : List SequencePart)
      → split_pipeline command ≡ some parts
      → Misfit env InPipeline parts
      → Whole env command
  no_sequence :
      (parts : List SequencePart)
      → split_pipeline command ≡ none
      → split_sequence command ≡ some parts
      → Misfit env InSequence parts
      → Whole env command

-- A plan for the command: the one program that stands for it, if it has to be run whole, or the steps
-- of a pipeline, or of a sequence if it is no pipeline; the plan's own program is then its first
-- step's.
abbrev pub Routed : Env → Text → Plan → Type 0
Routed env command p =
    (IsAlone env command p × Whole env command)
    ⊎ ((parts : List SequencePart) × (s : Step) × (steps : List Step) × (p.steps ≡ s ∷ steps)
        × (p.executable ≡ s.executable)
        × (p.args ≡ s.args)
        × (((p.mode ≡ native_sequence)
              × (split_pipeline command ≡ none)
              × (split_sequence command ≡ some parts)
              × Mirrors env InSequence parts (s ∷ steps))
            ⊎ ((p.mode ≡ native_pipeline)
                × (split_pipeline command ≡ some parts)
                × Mirrors env InPipeline parts (s ∷ steps))))

Stands-mode :
    {env : Env} {command : Text} {m : Mode} {executable : Text} {args : List Text}
    → {stdin : Option Text} → Stands env command m executable args stdin
    → (m ≡ native) ⊎ ((m ≡ explicit_shell) ⊎ (m ≡ powershell))
Stands-mode (of_heredoc h parsed first args a b c d) = inl refl
Stands-mode (of_words source parsed first args a b c d e f g) = inl refl
Stands-mode (of_shell source parsed first args a b c d e) = inr (inl refl)
Stands-mode (of_powershell source a b c) = inr (inr refl)

abbrev with_mode : Plan → Mode → List Step → Plan
with_mode p m steps = record p { mode = m; steps = steps }

is_step-InSequence :
    (env : Env) (command : Text) (p : Plan)
    → IsAlone env command p
    → (is_step p ≡ true) ↔ InSequence p.mode
is_step-InSequence env command p (stands, alone) = (fits (Stands-mode stands), tested)
  where
    at : (m : Mode) → p.mode ≡ m → is_step p ≡ is_step (with_mode p m [])
    at m e = ap₂ (λ m steps. is_step (with_mode p m steps)) e alone

    fits :
        (p.mode ≡ native) ⊎ ((p.mode ≡ explicit_shell) ⊎ (p.mode ≡ powershell))
        → is_step p ≡ true
        → InSequence p.mode
    fits (inl e) t = inl e
    fits (inr (inl e)) t = inr e
    fits (inr (inr e)) t = absurd (false≢true (sym (at powershell e) ∙ t))

    tested : InSequence p.mode → is_step p ≡ true
    tested (inl e) = at native e
    tested (inr e) = at explicit_shell e

is_native-InPipeline :
    (env : Env) (command : Text) (p : Plan)
    → IsAlone env command p
    → (is_native p ≡ true) ↔ InPipeline p.mode
is_native-InPipeline env command p (stands, alone) = (fits (Stands-mode stands), at native)
  where
    at : (m : Mode) → p.mode ≡ m → is_native p ≡ is_native (with_mode p m [])
    at m e = ap₂ (λ m steps. is_native (with_mode p m steps)) e alone

    fits :
        (p.mode ≡ native) ⊎ ((p.mode ≡ explicit_shell) ⊎ (p.mode ≡ powershell))
        → is_native p ≡ true
        → InPipeline p.mode
    fits (inl e) t = e
    fits (inr (inl e)) t = absurd (false≢true (sym (at explicit_shell e) ∙ t))
    fits (inr (inr e)) t = absurd (false≢true (sym (at powershell e) ∙ t))

module _ (env : Env) (fits : Plan → Bool) (Fits : Mode → Type 0)
    (tests : (command : Text) (p : Plan)
      → IsAlone env command p
      → (fits p ≡ true) ↔ Fits p.mode) where
  -- What `steps_of` finds, or why it finds nothing.
  abbrev Tried : List SequencePart → Option (List Step) → Type 0
  Tried parts found =
      ((steps : List Step) → found ≡ some steps → Mirrors env Fits parts steps)
      × (found ≡ none → Misfit env Fits parts)

  steps_of-Tried : (parts : List SequencePart) → Tried parts (steps_of env fits parts)
  unfolding steps_of
  steps_of-Tried [] = (
    λ steps e. (let same : [] ≡ steps = cc e in subst (Mirrors env Fits []) same no_parts),
    λ e. nothing,
  )
  steps_of-Tried (part ∷ parts) = go (fits p) refl (steps_of env fits parts) (steps_of-Tried parts)
    where
      p : Plan
      p = plan_single_command env part.command

      alone : IsAlone env part.command p
      alone = plan_single_command-IsAlone env part.command

      go :
          (b : Bool)
          → fits p ≡ b
          → (rest : Option (List Step)) → Tried parts rest
          → Tried (part ∷ parts) (cons_step b (step_of part.run_if p) rest)
      go false f rest h = (
        (λ steps e. absurd (cc e)),
        λ e.
            at_part part p parts alone
              λ fit. false≢true (sym f ∙ (tests part.command p alone).1 fit),
      )
      go true f none h = ((λ steps e. absurd (cc e)), λ e. after_part part parts (h.1 refl))
      go true f (some more) h = (
        (λ steps e.
            let same : step_of part.run_if p ∷ more ≡ steps = cc e in
            subst (Mirrors env Fits (part ∷ parts)) same (
              one_part part p parts more alone ((tests part.command p alone).0 f) (h.0 more refl))),
        λ e. absurd (cc e),
      )

  -- What `plan_steps` makes of the parts that a split has given.
  plan_steps-Routed :
      (command : Text) (mode : Mode) (reason : Text) (parts : List SequencePart)
      → (Misfit env Fits parts → Whole env command)
      → ((s : Step) (steps : List Step)
          → Mirrors env Fits parts (s ∷ steps)
          → Routed env command
              (record (plan_of mode s.executable s.args reason) { steps = s ∷ steps }))
      → Routed env command (plan_steps env command mode reason (steps_of env fits parts))
  plan_steps-Routed command mode reason parts whole routed =
      go (steps_of env fits parts) (steps_of-Tried parts)
    where
      empty : (parts : List SequencePart) → Mirrors env Fits parts [] → Misfit env Fits parts
      empty [] m = nothing
      empty (part ∷ parts) m = elim m [ ]

      go :
          (steps : Option (List Step))
          → Tried parts steps
          → Routed env command (plan_steps env command mode reason steps)
      go none h = inl (plan_single_command-IsAlone env command, whole (h.1 refl))
      go (some []) h =
          inl (plan_single_command-IsAlone env command, whole (empty parts (h.0 [] refl)))
      go (some (s ∷ steps)) h = routed s steps (h.0 (s ∷ steps) refl)

pub plan_inside-Routed : (env : Env) (command : Text) → Routed env command (plan_inside env command)
unfolding plan_inside
plan_inside-Routed env command =
    or_heredoc (python_heredoc_plan env command) refl (heredoc_plan-IsAlone env command)
  where
    alone : IsAlone env command (plan_single_command env command)
    alone = plan_single_command-IsAlone env command

    sequence :
        (parts : Option (List SequencePart))
        → split_pipeline command ≡ none
        → split_sequence command ≡ parts
        → Routed env command (plan_sequence env command parts)
    sequence none o e = inl (alone, no_split o e)
    sequence (some parts) o e =
        plan_steps-Routed env is_step InSequence (is_step-InSequence env) command native_sequence
          (codes "native_sequence") parts (no_sequence parts o e)
          λ s steps m. inr (parts, s, steps, refl, refl, refl, inl (refl, o, e, m))

    pipeline :
        (parts : Option (List SequencePart))
        → split_pipeline command ≡ parts
        → Routed env command (plan_pipeline env command parts)
    pipeline none e = sequence (split_sequence command) e refl
    pipeline (some parts) e =
        plan_steps-Routed env is_native InPipeline (is_native-InPipeline env) command
          native_pipeline (codes "native_pipeline") parts (no_pipeline parts e)
          λ s steps m. inr (parts, s, steps, refl, refl, refl, inr (refl, e, m))

    or_heredoc :
        (h : Option Plan)
        → python_heredoc_plan env command ≡ h
        → ((q : Plan) → h ≡ some q → IsAlone env command q)
        → Routed env command (or_plan h (plan_pipeline env command (split_pipeline command)))
    or_heredoc none e h = pipeline (split_pipeline command) refl
    or_heredoc (some q) e h = inl (h q refl, a_heredoc λ n. absurd (cc (e, n)))
