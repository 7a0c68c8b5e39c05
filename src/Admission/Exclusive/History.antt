-- ===== src/Admission/Exclusive/History.antt =====
-- The histories of the managers that share the slots of src/lib/process-manager.ts.
use chatgpt_mcp_clean.Base.{
  ℕ, ◌<◌, Bool, true, false, Option, none, some, List, [], ◌==◌, ==_iff, if◌then◌else◌, Text,
  text_eq, text_eq_iff, Table, lookup, lookup-insert, ◌≡◌, ◌≢◌, ◌⊎◌, inl, inr, refl, sym, subst, ap,
  ◌∙◌, arith,
}
use chatgpt_mcp_clean.Admission.{
  HostAdmissionRecord, Directory, State, pid_is_alive, new_record, claim, update_child_pid, release,
}
use chatgpt_mcp_clean.Admission.Exclusive.{Owns, Gains, Claimed, claim_from-Claimed}
use chatgpt_mcp_clean.Admission.Exclusive.Effects.{
  Owns-same, update-Owns, update-slots, release-Owns, release-slots,
}

-- The shared directory, and the slots of each manager that runs.
pub record System : Type 0 where
  pub directory : Directory
  pub managers : ℕ → Option (Table ℕ)

abbrev pub nobody : Directory → System
nobody d = record { directory = d; managers = λ m. none }

abbrev pub set : ℕ → Option (Table ℕ) → (ℕ → Option (Table ℕ)) → ℕ → Option (Table ℕ)
set pid slots managers = λ m. if m == pid then slots else managers m

abbrev pub enter : System → Table ℕ → List Bool → State
enter w slots faults = record { directory = w.directory; slots = slots; faults = faults }

abbrev pub leave : ℕ → System → State → System
leave pid w s = record { directory = s.directory; managers = set pid (some s.slots) w.managers }

-- A manager starts or ends, or claims, updates or releases the slot of a process. Its claim finds
-- every manager that runs alive.
pub data Step (max : ℕ) : System → System → Type 0 where
  starts :
      (pid : ℕ) (w : System)
      → w.managers pid ≡ none
      → Step max w (record w { managers = set pid (some []) w.managers })
  ends : (pid : ℕ) (w : System) → Step max w (record w { managers = set pid none w.managers })
  claims :
      (pid : ℕ) (w : System) (slots : Table ℕ) (alive : ℕ → Bool) (live : ℕ)
      → (process_id claimed_at : Text) (faults : List Bool) → w.managers pid ≡ some slots
      → ((m : ℕ) (t : Table ℕ) → w.managers m ≡ some t → pid_is_alive pid alive m ≡ true)
      → Step max w (
          leave pid w
            (claim pid alive (some max) true live process_id claimed_at (enter w slots faults)).1)
  updates :
      (pid : ℕ) (w : System) (slots : Table ℕ) (alive : ℕ → Bool) (process_id : Text)
      → (child_pid : ℕ) (faults : List Bool) → w.managers pid ≡ some slots
      → Step max w
          (leave pid w (update_child_pid pid alive process_id child_pid (enter w slots faults)))
  releases :
      (pid : ℕ) (w : System) (slots : Table ℕ) (alive : ℕ → Bool) (process_id : Text)
      → (faults : List Bool) → w.managers pid ≡ some slots
      → Step max w (leave pid w (release pid alive process_id (enter w slots faults)))

pub data History (max : ℕ) : System → System → Type 0 where
  none_yet : (w : System) → History max w w
  then_step : (u v w : System) → History max u v → Step max v w → History max u w

-- The manager notes this slot for the process.
abbrev pub Has : System → ℕ → Text → ℕ → Type 0
Has w m p i = (t : Table ℕ) × (w.managers m ≡ some t) × (lookup p t ≡ some i)

-- What a manager notes is so in the directory.
abbrev pub Held : ℕ → System → Type 0
Held max w = (m : ℕ) (p : Text) (i : ℕ) → Has w m p i → Owns max w.directory m p i

module _ (max : ℕ) where
  -- What an operation of the manager `pid` has to leave, so that the next system is held again.
  leave-Held :
      (pid : ℕ) (w : System) (s : State)
      → ((m : ℕ) (p : Text) (i : ℕ) → (m ≢ pid) → Has w m p i → Owns max s.directory m p i)
      → ((p : Text) (i : ℕ) → lookup p s.slots ≡ some i → Owns max s.directory pid p i)
      → Held max (leave pid w s)
  leave-Held pid w s others own m p i (t, running, e) = go (m == pid) refl running
    where
      go :
          (b : Bool)
          → ((m == pid) ≡ b)
          → (if b then some s.slots else w.managers m) ≡ some t
          → Owns max s.directory m p i
      go true same f =
          subst (λ n. Owns max s.directory n p i) (sym ((==_iff m pid).0 same))
            (own p i (let same_slots : s.slots ≡ t = cc f in ap (lookup p) same_slots ∙ e))
      go false same f = others m p i (λ equal. absurd (cc (same, (==_iff m pid).1 equal))) (t, f, e)

  claim-Held :
      (pid : ℕ) (w : System) (slots : Table ℕ) (alive : ℕ → Bool) (r : HostAdmissionRecord)
      → (s : State) → r.manager_pid ≡ pid
      → w.managers pid ≡ some slots
      → ((m : ℕ) (t : Table ℕ) → w.managers m ≡ some t → pid_is_alive pid alive m ≡ true)
      → Claimed max pid alive r.process_id (enter w slots []) s
      → Held max w
      → Held max (leave pid w s)
  claim-Held pid w slots alive r s managed running living (keeps, noted) held =
      leave-Held pid w s (λ m p i other h. keeps m p i (living m h.0 h.1) (held m p i h))
        (own noted)
    where
      before : (p : Text) (i : ℕ) → lookup p slots ≡ some i → Owns max s.directory pid p i
      before p i e = keeps pid p i (living pid slots running) (held pid p i (slots, running, e))

      own :
          ((s.slots ≡ slots) ⊎ Gains max pid alive r.process_id (enter w slots []) s)
          → (p : Text) (i : ℕ) → lookup p s.slots ≡ some i
          → Owns max s.directory pid p i
      own (inl same) p i e = before p i (sym (ap (lookup p) same) ∙ e)
      own (inr (j, gained, owned)) p i e =
          go (text_eq r.process_id p) refl
            (sym (lookup-insert r.process_id p j slots) ∙ sym (ap (lookup p) gained) ∙ e)
        where
          go :
              (b : Bool)
              → text_eq r.process_id p ≡ b
              → (if b then some j else lookup p slots) ≡ some i
              → Owns max s.directory pid p i
          go true same f =
              let there : j ≡ i = cc f in
              subst (λ q. Owns max s.directory pid q i) ((text_eq_iff r.process_id p).0 same)
                (subst (Owns max s.directory pid r.process_id) there owned)
          go false same f = before p i f

  started :
      (pid : ℕ) (w : System)
      → Held max w
      → Held max (record w { managers = set pid (some []) w.managers })
  unfolding lookup
  started pid w held m p i (t, running, e) = go (m == pid) running
    where
      go : (b : Bool) → (if b then some [] else w.managers m) ≡ some t → Owns max w.directory m p i
      go true f =
          let empty : [] ≡ t = cc f in
          let missing : none ≡ some i = ap (lookup p) empty ∙ e in absurd (cc missing)
      go false f = held m p i (t, f, e)

  ended :
      (pid : ℕ) (w : System)
      → Held max w
      → Held max (record w { managers = set pid none w.managers })
  ended pid w held m p i (t, running, e) = go (m == pid) running
    where
      go : (b : Bool) → (if b then none else w.managers m) ≡ some t → Owns max w.directory m p i
      go true f = absurd (cc f)
      go false f = held m p i (t, f, e)

  Step-Held : (u v : System) → Step max u v → Held max u → Held max v
  unfolding claim
  Step-Held _ _ (starts pid w free) held = started pid w held
  Step-Held _ _ (ends pid w) held = ended pid w held
  Step-Held _ _ (claims pid w slots alive live process_id claimed_at faults running living) held =
      claim-Held pid w slots alive (new_record pid alive process_id claimed_at)
        (claim pid alive (some max) true live process_id claimed_at (enter w slots faults)).1 refl
        running living
        (claim_from-Claimed max pid alive max 0 (new_record pid alive process_id claimed_at)
          (enter w slots faults) (omega arith) refl)
        held
  Step-Held _ _ (updates pid w slots alive process_id child_pid faults running) held =
      leave-Held pid w (update_child_pid pid alive process_id child_pid (enter w slots faults))
        (λ m p i other h.
          update-Owns max pid alive process_id child_pid (enter w slots faults) m p i
            (held m p i h))
        λ p i e. update-Owns max pid alive process_id child_pid (enter w slots faults) pid p i (
          held pid p i (
            slots,
            running,
            sym (
                  ap (lookup p)
                    (update-slots max pid alive process_id child_pid (enter w slots faults)))
                ∙ e,
          ))
  Step-Held _ _ (releases pid w slots alive process_id faults running) held =
      leave-Held pid w (release pid alive process_id (enter w slots faults))
        (λ m p i other h.
          release-Owns max pid alive process_id (enter w slots faults) m p i
            (λ same. absurd (other same)) (held m p i h))
        λ p i e.
          let kept = release-slots max pid alive process_id p i (enter w slots faults) e in
          release-Owns max pid alive process_id (enter w slots faults) pid p i (λ _. kept.1)
            (held pid p i (slots, running, kept.0))

  History-Held : (u w : System) → History max u w → Held max u → Held max w
  History-Held _ _ (none_yet w) held = held
  History-Held _ _ (then_step u v w before step) held =
      Step-Held v w step (History-Held u v before held)

-- From a directory with any files in it and no manager, with one limit for all managers and none
-- with the process id of another that runs, however managers start and end, and whatever they
-- claim, update and release with whatever calls of the file system failing: the slot that a
-- running manager notes for a process is below the limit, and no other process, of this manager or
-- of another that runs, has the same slot. Each claim, update and release is one step, with no
-- step of another process between its own calls, though the source takes no lock; and the probe of
-- every claim finds alive all the managers that run then.
pub slot_unique :
    (max : ℕ) (d : Directory) (w : System) (m n : ℕ) (p q : Text) (i : ℕ)
    → History max (nobody d) w
    → Has w m p i
    → Has w n q i
    → (i < max) × (m ≡ n) × (p ≡ q)
slot_unique max d w m n p q i history h k =
    let held = History-Held max (nobody d) w history (λ m p i h. absurd (cc h.1)) in
    let owned = held m p i h in
    let same = Owns-same max w.directory m n p q i owned (held n q i k) in (owned.0, same.0, same.1)
