-- ===== src/Jsonl/After.antt =====
-- What a step of the writer in src/lib/bounded-jsonl.ts leaves, for a result and for an error, with
-- the rules for the steps that Jsonl composes.
use chatgpt_mcp_clean.Base.{◌≡◌, refl, Bool, true, false, List, [], ◌∷◌}
use chatgpt_mcp_clean.Jsonl.{
  State, Result, ok, io_error, Io, follow, ◌>>=◌, return, modify, fault_or_not, system_call,
}

abbrev pub After :
    {A : Type 0} → (A → State → Type 0) → (State → Type 0) → Result A × State → Type 0
After R Q (ok a, s) = R a s
After R Q (io_error, s) = Q s

-- From every state of `P`, `m` ends with a result and a state in `R`, or with an error in `Q`.
pub record Runs {A : Type 0} (P : State → Type 0) (m : Io A) (R : A → State → Type 0)
    (Q : State → Type 0) : Type 0 where
  pub run : (s : State) → P s → After R Q (m s)

module _ {A : Type 0} {P Q : State → Type 0} {R : A → State → Type 0} {m : Io A} where
  pub Runs-bind :
      {B : Type 0} {S : B → State → Type 0} (f : A → Io B)
      → Runs P m R Q
      → ((a : A) → Runs (R a) (f a) S Q)
      → Runs P (m >>= f) S Q
  Runs-bind {S = S} f h k = record { run = λ s p. go (m s) (h.run s p) }
    where
      go : (r : Result A × State) → After R Q r → After S Q (follow f r.0 r.1)
      go (ok a, t) p = (k a).run t p
      go (io_error, t) p = p

  pub Runs-weaken :
      {P' Q' : State → Type 0} {R' : A → State → Type 0}
      → ((s : State) → P' s → P s)
      → ((a : A) (s : State) → R a s → R' a s)
      → ((s : State) → Q s → Q' s)
      → Runs P m R Q
      → Runs P' m R' Q'
  Runs-weaken {Q' = Q'} {R' = R'} i j k h = record { run = λ s p. go (m s) (h.run s (i s p)) }
    where
      go : (r : Result A × State) → After R Q r → After R' Q' r
      go (ok a, t) p = j a t p
      go (io_error, t) p = k t p

pub Runs-return :
    {A : Type 0} {P Q : State → Type 0} {R : A → State → Type 0} (a : A)
    → ((s : State) → P s → R a s)
    → Runs P (return a) R Q
Runs-return a h = record { run = h }

pub Runs-modify :
    {P Q : State → Type 0} {R : Unit {0} → State → Type 0} (f : State → State)
    → ((s : State) → P s → R tt (f s))
    → Runs P (modify f) R Q
Runs-modify f h = record { run = h }

-- A call of the file system changes the list of the faults to come only.
pub Runs-system_call :
    {P Q : State → Type 0}
    → ((s : State) (faults : List Bool) → P s → P (record s { faults = faults }))
    → ((s : State) → P s → Q s)
    → Runs P system_call (λ _. P) Q
unfolding system_call
Runs-system_call {P = P} {Q = Q} k l = record { run = λ s p. go s p s.faults }
  where
    go : (s : State) → P s → (faults : List Bool) → After (λ _. P) Q (fault_or_not faults s)
    go s p [] = p
    go s p (true ∷ faults) = l (record s { faults = faults }) (k s faults p)
    go s p (false ∷ faults) = k s faults p

-- A step chosen by the state that it starts from.
pub Runs-chosen :
    {A : Type 0} {P Q : State → Type 0} {R : A → State → Type 0} (f : State → Io A)
    → ((t : State) → Runs (λ s. P s × (s ≡ t)) (f t) R Q)
    → Runs P (λ s. f s s) R Q
Runs-chosen f h = record { run = λ s p. (h s).run s (p, refl) }

pub Runs-from :
    {A : Type 0} {P Q : State → Type 0} {R : A → State → Type 0} {m : Io A}
    → ((s : State) → P s → Runs (λ t. t ≡ s) m R Q)
    → Runs P m R Q
Runs-from h = record { run = λ s p. (h s p).run s refl }
