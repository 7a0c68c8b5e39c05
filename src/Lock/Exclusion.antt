-- ===== src/Lock/Exclusion.antt =====
-- Who can be inside the lock.
use chatgpt_mcp_clean.Base.{
  ℕ, ◌≡◌, refl, sym, ap, ◌∙◌, ◌⊎◌, inl, inr, Bool, true, false, ◌==◌, ==_iff, none, some, arith,
  if◌then◌else◌, Bool-cases,
}
use mathlib.Core.Bool.{false≢true}
use chatgpt_mcp_clean.Lock.{
  Phase, idle, waiting, condemning, inside, dead, System, set_phase, set_lock, Step, begin, give_up,
  create, condemn, reclaim, leave, die, Steps, here, onward,
}

-- Every process inside is the one that created the lock file.
pub record IsHeld (s : System) : Type 0 where
  pub owner : (p : ℕ) → s.phase p ≡ inside → s.lock ≡ some p

-- A reclaiming that still finds the lock that was condemned.
abbrev pub Fresh : {s t : System} → Step s t → Type 0
Fresh {s} (reclaim p q e) = (s.lock ≡ some q) × (s.phase q ≡ dead)
Fresh _ = Unit

-- A process that moves, but not inside, and leaves the lock file alone.
moved-IsHeld :
    (s : System) (p : ℕ) (v : Phase) → ¬ (v ≡ inside) → IsHeld s → IsHeld (set_phase p v s)
moved-IsHeld s p v out h = record { owner = λ i. at i (p == i) }
  where
    at : (i : ℕ) (b : Bool) → (if b then v else s.phase i) ≡ inside → s.lock ≡ some i
    at i true e = absurd (out e)
    at i false e = h.owner i e

create-IsHeld :
    (s : System) (p : ℕ)
    → s.lock ≡ none
    → IsHeld s
    → IsHeld (set_lock (some p) (set_phase p inside s))
create-IsHeld s p free h = record { owner = λ i. at i (Bool-cases (p == i)) }
  where
    at :
        (i : ℕ)
        → ((p == i) ≡ true) ⊎ ((p == i) ≡ false)
        → (if p == i then inside else s.phase i) ≡ inside
        → some p ≡ some i
    at i (inl same) e = ap some ((==_iff p i).0 same)
    at i (inr apart) e = ground (arith, h.owner i (sym (rw apart refl) ∙ e))

-- The lock file goes, and nobody but the process that moves can be inside.
removed-IsHeld :
    (s : System) (p : ℕ) (v : Phase)
    → ¬ (v ≡ inside)
    → ((i : ℕ) → s.phase i ≡ inside → p ≡ i)
    → IsHeld (set_lock none (set_phase p v s))
removed-IsHeld s p v out only = record { owner = λ i. at i (Bool-cases (p == i)) }
  where
    at :
        (i : ℕ)
        → ((p == i) ≡ true) ⊎ ((p == i) ≡ false)
        → (if p == i then v else s.phase i) ≡ inside
        → none ≡ some i
    at i (inl same) e = absurd (out (sym (rw same refl) ∙ e))
    at i (inr apart) e =
        absurd (false≢true (sym apart ∙ (==_iff p i).1 (only i (sym (rw apart refl) ∙ e))))

lock_owner : (s : System) (p i : ℕ) → s.lock ≡ some p → s.lock ≡ some i → p ≡ i
lock_owner s p i e f = ground arith

Step-IsHeld : {s t : System} → (x : Step s t) → Fresh x → IsHeld s → IsHeld t
Step-IsHeld {s} (begin p e) f h = moved-IsHeld s p waiting (λ x. ground arith) h
Step-IsHeld {s} (give_up p e) f h = moved-IsHeld s p idle (λ x. ground arith) h
Step-IsHeld {s} (create p e free) f h = create-IsHeld s p free h
Step-IsHeld {s} (condemn p q e l d) f h = moved-IsHeld s p (condemning q) (λ x. ground arith) h
Step-IsHeld {s} (reclaim p q e) f h =
    removed-IsHeld s p waiting (λ x. ground arith)
      λ i at. absurd (alive (sym f.1 ∙ ap s.phase (lock_owner s q i f.0 (h.owner i at)) ∙ at))
  where
    alive : ¬ (dead ≡ inside)
    alive x = ground arith
Step-IsHeld {s} (leave p e) f h =
    removed-IsHeld s p idle (λ x. ground arith)
      λ i at. lock_owner s p i (h.owner p e) (h.owner i at)
Step-IsHeld {s} (die p) f h = moved-IsHeld s p dead (λ x. ground arith) h

-- All reclaimings of a history are fresh.
abbrev pub AllFresh : {s t : System} → Steps s t → Type 0
AllFresh here = Unit
AllFresh (onward xs x) = AllFresh xs × Fresh x

Steps-IsHeld : {s t : System} → (xs : Steps s t) → AllFresh xs → IsHeld s → IsHeld t
Steps-IsHeld here f h = h
Steps-IsHeld (onward xs x) f h = Step-IsHeld x f.1 (Steps-IsHeld xs f.0 h)

-- From a state where every process inside is the one that created the lock file, no history leads
-- to a state with two processes inside, whoever dies, as long as every unlinking of a stale lock
-- still finds the lock that was found stale.
pub inside_unique :
    {s t : System} (xs : Steps s t)
    → AllFresh xs
    → IsHeld s
    → (p q : ℕ) → t.phase p ≡ inside
    → t.phase q ≡ inside
    → p ≡ q
inside_unique {s} {t} xs f h p q at_p at_q =
    let held = Steps-IsHeld xs f h in lock_owner t p q (held.owner p at_p) (held.owner q at_q)

phase_self : (p : ℕ) (v : Phase) (s : System) → (set_phase p v s).phase p ≡ v
phase_self p v s = rw ((==_iff p p).1 refl) refl

phase_other :
    (p i : ℕ) (v : Phase) (s : System) → (p == i) ≡ false → (set_phase p v s).phase i ≡ s.phase i
phase_other p i v s apart = rw apart refl

apart_sym : (p q : ℕ) → (p == q) ≡ false → (q == p) ≡ false
apart_sym p q h = ground arith

-- A process that waits is not one that died.
apart_of_phases : (s : System) (p r : ℕ) → s.phase p ≡ waiting → s.phase r ≡ dead → (p == r) ≡ false
apart_of_phases s p r at_p gone = elim (Bool-cases (p == r)) [
  | inr apart ↦ apart
  | inl same ↦ absurd (living (sym at_p ∙ ap s.phase ((==_iff p r).0 same) ∙ gone))
]
  where
    living : ¬ (waiting ≡ dead)
    living x = ground arith

-- Without that condition it fails: wherever two processes wait at the lock of a process that died,
-- there is a history to a state in which both are inside. Both find the lock stale; one unlinks it
-- and creates its own, and the other unlinks that.
pub reclaim-two_inside :
    (s : System) (p q r : ℕ)
    → (p == q) ≡ false
    → s.phase p ≡ waiting
    → s.phase q ≡ waiting
    → s.lock ≡ some r
    → s.phase r ≡ dead
    → (t : System) × Steps s t × (t.phase p ≡ inside) × (t.phase q ≡ inside)
reclaim-two_inside s p q r apart at_p at_q held gone =
    let p_apart = apart_sym p q apart in
    let s1 = set_phase p (condemning r) s in
    let s2 = set_phase q (condemning r) s1 in
    let s3 = set_lock none (set_phase p waiting s2) in
    let s4 = set_lock (some p) (set_phase p inside s3) in
    let s5 = set_lock none (set_phase q waiting s4) in
    let s6 = set_lock (some q) (set_phase q inside s5) in
    let at_q1 = phase_other p q (condemning r) s apart ∙ at_q in
    let gone1 = phase_other p r (condemning r) s (apart_of_phases s p r at_p gone) ∙ gone in
    let at_p2 = phase_other q p (condemning r) s1 p_apart ∙ phase_self p (condemning r) s in
    let at_q4 =
      phase_other p q inside s3 apart
      ∙ phase_other p q waiting s2 apart
      ∙ phase_self q (condemning r) s1 in
    let steps : Steps s s6 =
      onward
        (onward
          (onward
            (onward
              (onward (onward here (condemn p r at_p held gone)) (condemn q r at_q1 held gone1))
              (reclaim p r at_p2))
            (create p (phase_self p waiting s2) refl))
          (reclaim q r at_q4))
        (create q (phase_self q waiting s4) refl) in
    (
      s6,
      steps,
      phase_other q p inside s5 p_apart
          ∙ phase_other q p waiting s4 p_apart
          ∙ phase_self p inside s3,
      phase_self q inside s5,
    )
