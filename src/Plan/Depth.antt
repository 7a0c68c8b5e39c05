-- ===== src/Plan/Depth.antt =====
-- How deep the wrappers of a command in src/lib/command-execution-plan.ts can be.
use chatgpt_mcp_clean.Base.{
  ℕ, zero, suc, ◌+◌, ◌-◌, ◌≤◌, ◌<◌, ◌&&◌, ◌||◌, Option, none, some, [], ◌∷◌, ◌==◌, leb, length,
  length-reverse, length-take, length-drop, take, drop, reverse, if-cases, ◌>>=◌, Text, codes, trim,
  trim_start, trim_end, is_space, ◌≡◌, refl, ap, arith,
}
use chatgpt_mcp_clean.Plan.Whole.{if-split}
use chatgpt_mcp_clean.Plan.Cmd.{
  after_prefix, after_spaces, or_else, or_same, one_of, after_on_off, after_flag, or_stop,
  after_flags, cmd_match, has_unescaped, has_variable, has_for, is_quoted, unquoted, native_payload,
  cmd_payload_for_native_planning,
}
use chatgpt_mcp_clean.Plan.Route.{
  Env, or_plan, elided, plan_inside, plan_payload, plan_command_execution,
}

length-trim_start : (s : Text) → length (trim_start s) ≤ length s
unfolding trim_start
length-trim_start [] = omega arith
length-trim_start (c ∷ s) =
    let rest = length-trim_start s in
    if-cases (λ (t : Text). length t ≤ length (c ∷ s)) (is_space c) (λ _. omega (arith, rest))
      λ _. omega arith

length-trim : (s : Text) → length (trim s) ≤ length s
unfolding trim trim_end
length-trim s =
    let a = length-trim_start s in
    let b = length-trim_start (reverse (trim_start s)) in
    let c = length-reverse (trim_start s) in
    let d = length-reverse (trim_start (reverse (trim_start s))) in omega (arith, a, b, c, d)

length-after_prefix : (p s t : Text) → after_prefix p s ≡ some t → length t + length p ≡ length s
unfolding after_prefix
length-after_prefix [] s t e = let same : s ≡ t = cc e in omega (arith, ap length same)
length-after_prefix (p ∷ ps) [] t e = absurd (cc e)
length-after_prefix (p ∷ ps) (c ∷ s) t e =
    if-split (c == p || (leb b'A' c && leb c b'Z' && c + 32 == p)) e
      (λ _ f. let rest = length-after_prefix ps s t f in omega (arith, rest)) λ _ f. absurd (cc f)

length-after_spaces : (s t : Text) → after_spaces s ≡ some t → length t < length s
length-after_spaces [] t e = absurd (cc e)
length-after_spaces (c ∷ s) t e =
    if-split (is_space c) e
      (λ _ f.
        let same : trim_start s ≡ t = cc f in
        let shorter = length-trim_start s in omega (arith, ap length same, shorter))
      λ _ f. absurd (cc f)

length-or_same :
    (o : Option Text) (s : Text)
    → ((t : Text) → o ≡ some t → length t ≤ length s)
    → length (or_same o s) ≤ length s
length-or_same none s h = omega arith
length-or_same (some t) s h = h t refl

or_else-cases :
    {G : Type 0} (a b : Option Text) (t : Text)
    → or_else a b ≡ some t
    → (a ≡ some t → G)
    → (b ≡ some t → G)
    → G
or_else-cases none b t e f g = g e
or_else-cases (some a) b t e f g = f e

bound :
    {A B : Type 0} (o : Option A) (f : A → Option B) (b : B)
    → (o >>= f) ≡ some b
    → (a : A) × (o ≡ some a) × (f a ≡ some b)
bound none f b e = absurd (cc e)
bound (some a) f b e = (a, refl, e)

length-one_of : (letters s t : Text) → one_of letters s ≡ some t → length t < length s
length-one_of [] s t e = absurd (cc e)
length-one_of (l ∷ letters) s t e =
    or_else-cases (after_prefix (l ∷ []) s) (one_of letters s) t e
      (λ f. let taken = length-after_prefix (l ∷ []) s t f in omega (arith, taken))
      λ f. length-one_of letters s t f

length-after_on_off : (s : Text) → length (after_on_off s) ≤ length s
length-after_on_off s =
    length-or_same (or_else (after_prefix (codes ":on") s) (after_prefix (codes ":off") s)) s λ t e.
      or_else-cases (after_prefix (codes ":on") s) (after_prefix (codes ":off") s) t e
        (λ f. let taken = length-after_prefix (codes ":on") s t f in omega (arith, taken))
        λ f. let taken = length-after_prefix (codes ":off") s t f in omega (arith, taken)

length-after_flag : (letters s t : Text) → after_flag letters s ≡ some t → length t < length s
length-after_flag letters s t e =
    let letter =
      bound (after_prefix (b'/' ∷ []) s >>= one_of letters)
        (λ rest. after_spaces (after_on_off rest)) t e in
    let slash = bound (after_prefix (b'/' ∷ []) s) (one_of letters) letter.0 letter.1 in
    let a = length-after_prefix (b'/' ∷ []) s slash.0 slash.1 in
    let b = length-one_of letters slash.0 letter.0 slash.2 in
    let c = length-after_on_off letter.0 in
    let d = length-after_spaces (after_on_off letter.0) t letter.2 in omega (arith, a, b, c, d)

length-after_flags : (rounds : ℕ) (s : Text) → length (after_flags rounds s) ≤ length s
unfolding after_flags
length-after_flags zero s = omega arith
length-after_flags (suc rounds) s =
    go (after_flag (codes "dqsuaefv") s) refl (λ t. length-after_flags rounds t)
  where
    go :
        (o : Option Text)
        → after_flag (codes "dqsuaefv") s ≡ o
        → ((t : Text) → length (after_flags rounds t) ≤ length t)
        → length (or_stop (after_flags rounds) s o) ≤ length s
    go none e h = omega arith
    go (some t) e h =
        let a = length-after_flag (codes "dqsuaefv") s t e in let b = h t in omega (arith, a, b)

-- As many rounds as there are units find every flag: one round more changes nothing.
after_flags_enough :
    (rounds : ℕ) (s : Text) → length s ≤ rounds → after_flags (suc rounds) s ≡ after_flags rounds s
unfolding after_flags
after_flags_enough zero s h = go (after_flag (codes "dqsuaefv") s) refl
  where
    go : (o : Option Text) → after_flag (codes "dqsuaefv") s ≡ o → or_stop (after_flags 0) s o ≡ s
    go none e = refl
    go (some t) e =
        absurd (let a = length-after_flag (codes "dqsuaefv") s t e in omega (arith, a, h))
after_flags_enough (suc rounds) s h =
    go (after_flag (codes "dqsuaefv") s) refl (λ t. after_flags_enough rounds t)
  where
    go :
        (o : Option Text)
        → after_flag (codes "dqsuaefv") s ≡ o
        → ((t : Text) → length t ≤ rounds → after_flags (suc rounds) t ≡ after_flags rounds t)
        → or_stop (after_flags (suc rounds)) s o ≡ or_stop (after_flags rounds) s o
    go none e k = refl
    go (some t) e k =
        k t (let a = length-after_flag (codes "dqsuaefv") s t e in omega (arith, a, h))

length-unquoted : (s : Text) → length (unquoted s) ≤ length s
length-unquoted s =
    let inside : Text = take (length s - 2) (drop 1 s) in
    let a = length-trim inside in
    let b = length-take (length s - 2) (drop 1 s) in
    let c = length-drop 1 s in
    if-cases (λ (t : Text). length t ≤ length s) (is_quoted s) (λ _. omega (arith, a, b, c))
      λ _. omega arith

native_payload_same : (s t : Text) → native_payload s ≡ some t → s ≡ t
native_payload_same [] t e = absurd (cc e)
native_payload_same (c ∷ s) t e =
    if-split (has_unescaped (codes "<>") 0 (c ∷ s) || has_variable (c ∷ s) || has_for 0 (c ∷ s)) e
      (λ _ f. absurd (cc f)) λ _ f. cc f

length-cmd_match : (s t : Text) → cmd_match s ≡ some t → length t < length s
unfolding cmd_match
length-cmd_match s t e =
    let cmd =
      bound (after_prefix (codes "cmd") (trim_start s))
        (λ rest. after_spaces (or_same (after_prefix (codes ".exe") rest) rest) >>= λ rest.
          after_prefix (codes "/c") (after_flags (length rest) rest) >>= λ rest.
          after_spaces rest >>= λ payload. some (trim payload))
        t e in
    let space =
      bound (after_spaces (or_same (after_prefix (codes ".exe") cmd.0) cmd.0))
        (λ rest. after_prefix (codes "/c") (after_flags (length rest) rest) >>= λ rest.
          after_spaces rest >>= λ payload. some (trim payload))
        t cmd.2 in
    let slash =
      bound (after_prefix (codes "/c") (after_flags (length space.0) space.0))
        (λ rest. after_spaces rest >>= λ payload. some (trim payload)) t space.2 in
    let payload = bound (after_spaces slash.0) (λ payload. some (trim payload)) t slash.2 in
    let a = length-trim_start s in
    let b = length-after_prefix (codes "cmd") (trim_start s) cmd.0 cmd.1 in
    let c =
      length-or_same (after_prefix (codes ".exe") cmd.0) cmd.0
        λ t e. let taken = length-after_prefix (codes ".exe") cmd.0 t e in omega (arith, taken) in
    let d =
      length-after_spaces (or_same (after_prefix (codes ".exe") cmd.0) cmd.0) space.0 space.1 in
    let f = length-after_flags (length space.0) space.0 in
    let g =
      length-after_prefix (codes "/c") (after_flags (length space.0) space.0) slash.0 slash.1 in
    let h = length-after_spaces slash.0 payload.0 payload.1 in
    let i = length-trim payload.0 in
    let same : trim payload.0 ≡ t = cc payload.2 in
    omega (arith, a, b, c, d, f, g, h, i, ap length same)

payload_shorter : (s t : Text) → cmd_payload_for_native_planning s ≡ some t → length t < length s
unfolding cmd_payload_for_native_planning
payload_shorter s t e =
    let match = bound (cmd_match s) (λ payload. native_payload (unquoted payload)) t e in
    let a = length-cmd_match s match.0 match.1 in
    let b = length-unquoted match.0 in
    let same = native_payload_same (unquoted match.0) t match.2 in
    omega (arith, a, b, ap length same)

-- The recursion of `planCommandExecution` ends: for every two depths that are no less than the
-- length of the command, the plan is the same, so that the depth has not stopped it.
pub plan_command_execution-enough :
    (m n : ℕ) (env : Env) (command : Text)
    → length command ≤ m
    → length command ≤ n
    → plan_command_execution m env command ≡ plan_command_execution n env command
unfolding plan_command_execution
plan_command_execution-enough zero zero env command h k = refl
plan_command_execution-enough zero (suc n) env command h k =
    go (cmd_payload_for_native_planning command) refl
  where
    go :
        (o : Option Text)
        → cmd_payload_for_native_planning command ≡ o
        → plan_inside env command
          ≡ plan_payload (plan_command_execution n env) (plan_inside env command) o
    go none e = refl
    go (some t) e = absurd (let a = payload_shorter command t e in omega (arith, a, h))
plan_command_execution-enough (suc m) zero env command h k =
    go (cmd_payload_for_native_planning command) refl
  where
    go :
        (o : Option Text)
        → cmd_payload_for_native_planning command ≡ o
        → plan_payload (plan_command_execution m env) (plan_inside env command) o
          ≡ plan_inside env command
    go none e = refl
    go (some t) e = absurd (let a = payload_shorter command t e in omega (arith, a, k))
plan_command_execution-enough (suc m) (suc n) env command h k =
    go (cmd_payload_for_native_planning command) refl
      (λ t i j. plan_command_execution-enough m n env t i j)
  where
    go :
        (o : Option Text)
        → cmd_payload_for_native_planning command ≡ o
        → ((t : Text)
            → length t ≤ m
            → length t ≤ n
            → plan_command_execution m env t ≡ plan_command_execution n env t)
        → plan_payload (plan_command_execution m env) (plan_inside env command) o
          ≡ plan_payload (plan_command_execution n env) (plan_inside env command) o
    go none e same = refl
    go (some t) e same =
        let a = payload_shorter command t e in
        ap (λ p. or_plan (elided p) (plan_inside env command))
          (same t (omega (arith, a, h)) (omega (arith, a, k)))
