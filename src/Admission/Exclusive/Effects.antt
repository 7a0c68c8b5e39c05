-- ===== src/Admission/Exclusive/Effects.antt =====
-- What an update and a release in src/lib/process-manager.ts do to the slots of other processes.
use chatgpt_mcp_clean.Base.{
  ℕ, ◌<◌, Bool, true, false, Option, none, some, ◌==◌, ==_iff, if◌then◌else◌, if-cases, Text,
  text_eq, text_eq_iff, lookup, erase, lookup-erase, ◌≡◌, ◌≢◌, inl, inr, refl, sym, subst, ap, ◌∙◌,
  Bool-cases, arith,
}
use chatgpt_mcp_clean.Admission.{
  HostAdmissionRecord, SlotFile, unreadable, holds, Directory, put, State, fails, read_record,
  unlink, is_own, update_at, update_slot, update_child_pid, release_at, release_slot, release,
}
use chatgpt_mcp_clean.Admission.Exclusive.{Owns, Owns-put, put-same}

pub Owns-same :
    (max : ℕ) (d : Directory) (m n : ℕ) (p q : Text) (i : ℕ)
    → Owns max d m p i
    → Owns max d n q i
    → (m ≡ n) × (p ≡ q)
Owns-same max d m n p q i (b, r, e, named, managed) (c, s, f, named', managed') = (
  sym managed ∙ ap (λ (r : HostAdmissionRecord). r.manager_pid) same ∙ managed',
  sym named ∙ ap (λ (r : HostAdmissionRecord). r.process_id) same ∙ named',
)
  where
    same : r ≡ s
    same = cc (e, f)

module _ (max own : ℕ) (alive : ℕ → Bool) where
  pub update-Owns :
      (p : Text) (child : ℕ) (s : State) (m : ℕ) (q : Text) (i : ℕ)
      → Owns max s.directory m q i
      → Owns max (update_child_pid own alive p child s).directory m q i
  unfolding update_child_pid
  update-Owns p child s m q i o = at (lookup p s.slots)
    where
      moved :
          (index : ℕ) (r : HostAdmissionRecord)
          → s.directory index ≡ some (holds r)
          → Owns max
              (put index (some (holds (record r { child_pid = some child }))) s.directory)
              m
              q
              i
      moved index r e = elim (Bool-cases (i == index)) [
        | inl same ↦
            let there : i ≡ index = (==_iff i index).0 same in
            let named =
              Owns-same max s.directory r.manager_pid m r.process_id q index
                (subst (λ j. j < max) there o.0, r, e, refl, refl)
                (subst (Owns max s.directory m q) there o) in
            subst
              (Owns max (put index (some (holds (record r { child_pid = some child }))) s.directory)
                m q)
              (sym there)
              (
                subst (λ j. j < max) there o.0,
                record r { child_pid = some child },
                put-same index _ s.directory,
                named.1,
                named.0,
              )
        | inr other ↦ Owns-put max index _ s.directory m q i (λ h. ground (arith, h)) o
      ]

      at_file :
          (index : ℕ) (file : Option SlotFile)
          → s.directory index ≡ file
          → Owns max (update_at own alive p child index (read_record file) s).directory m q i
      at_file index none e = o
      at_file index (some unreadable) e = o
      at_file index (some (holds r)) e =
          if-cases (λ (t : State). Owns max t.directory m q i) (is_own own alive p r)
            (λ _.
              if-cases (λ (t : State). Owns max t.directory m q i) (fails s.faults) (λ _. o)
                λ _. moved index r e)
            λ _. o

      at : (index : Option ℕ) → Owns max (update_slot own alive p child index s).directory m q i
      at none = o
      at (some index) = at_file index (s.directory index) refl

  pub update-slots :
      (p : Text) (child : ℕ) (s : State) → (update_child_pid own alive p child s).slots ≡ s.slots
  unfolding update_child_pid
  update-slots p child s = at (lookup p s.slots)
    where
      at_file :
          (index : ℕ) (r : Option HostAdmissionRecord)
          → (update_at own alive p child index r s).slots ≡ s.slots
      at_file index none = refl
      at_file index (some r) =
          if-cases (λ (t : State). t.slots ≡ s.slots) (is_own own alive p r)
            (λ _.
              if-cases (λ (t : State). t.slots ≡ s.slots) (fails s.faults) (λ _. refl) λ _. refl)
            λ _. refl

      at : (index : Option ℕ) → (update_slot own alive p child index s).slots ≡ s.slots
      at none = refl
      at (some index) = at_file index (read_record (s.directory index))

  unlink-Owns :
      (index : ℕ) (s : State) (m : ℕ) (q : Text) (i : ℕ)
      → index ≢ i
      → Owns max s.directory m q i
      → Owns max (unlink own alive index s).1.directory m q i
  unlink-Owns index s m q i h o =
      if-cases (λ (u : Bool × State). Owns max u.1.directory m q i) (fails s.faults) (λ _. o)
        λ _. Owns-put max index none s.directory m q i h o

  unlink-slots : (index : ℕ) (s : State) → (unlink own alive index s).1.slots ≡ s.slots
  unlink-slots index s =
      if-cases (λ (u : Bool × State). u.1.slots ≡ s.slots) (fails s.faults) (λ _. refl) λ _. refl

  -- A release takes the slot of the process from its manager, and no other.
  pub release-Owns :
      (p : Text) (s : State) (m : ℕ) (q : Text) (i : ℕ)
      → ((m ≡ own) → q ≢ p)
      → Owns max s.directory m q i
      → Owns max (release own alive p s).directory m q i
  unfolding release
  release-Owns p s m q i other o = at (lookup p s.slots)
    where
      apart :
          (index : ℕ) (r : HostAdmissionRecord)
          → (s.directory index ≡ some (holds r))
          → is_own own alive p r ≡ true
          → index ≢ i
      apart index r e mine same =
          let mine_too : (text_eq r.process_id p ≡ true) × ((r.manager_pid == own) ≡ true) =
            ground arith in
          let named =
            Owns-same max s.directory m r.manager_pid q r.process_id i o
              (o.0, r, ap s.directory (sym same) ∙ e, refl, refl) in
          other (named.0 ∙ (==_iff r.manager_pid own).0 mine_too.1)
            (named.1 ∙ (text_eq_iff r.process_id p).0 mine_too.0)

      erased : State
      erased = record s { slots = erase p s.slots }

      at_file :
          (index : ℕ) (file : Option SlotFile)
          → s.directory index ≡ file
          → Owns max (release_at own alive p index (read_record file) erased).directory m q i
      at_file index none e = o
      at_file index (some unreadable) e = o
      at_file index (some (holds r)) e =
          if-cases (λ (t : State). Owns max t.directory m q i) (is_own own alive p r)
            (λ mine. unlink-Owns index erased m q i (apart index r e mine) o) λ _. o

      at : (index : Option ℕ) → Owns max (release_slot own alive p index s).directory m q i
      at none = o
      at (some index) = at_file index (s.directory index) refl

  pub release-slots :
      (p q : Text) (i : ℕ) (s : State)
      → lookup q (release own alive p s).slots ≡ some i
      → (lookup q s.slots ≡ some i) × (q ≢ p)
  unfolding release
  release-slots p q i s h = at (lookup p s.slots) refl h
    where
      erased : lookup q (erase p s.slots) ≡ some i → (lookup q s.slots ≡ some i) × (q ≢ p)
      erased e = go (text_eq p q) refl (sym (lookup-erase p q s.slots) ∙ e)
        where
          go :
              (b : Bool)
              → text_eq p q ≡ b
              → (if b then none else lookup q s.slots) ≡ some i
              → (lookup q s.slots ≡ some i) × (q ≢ p)
          go true f e = absurd (cc e)
          go false f e = (e, λ same. absurd (cc (f, (text_eq_iff p q).1 (sym same))))

      at_file :
          (index : ℕ) (r : Option HostAdmissionRecord)
          → (release_at own alive p index r (record s { slots = erase p s.slots })).slots
            ≡ erase p s.slots
      at_file index none = refl
      at_file index (some r) =
          if-cases (λ (t : State). t.slots ≡ erase p s.slots) (is_own own alive p r)
            (λ _. unlink-slots index (record s { slots = erase p s.slots })) λ _. refl

      at :
          (index : Option ℕ)
          → lookup p s.slots ≡ index
          → lookup q (release_slot own alive p index s).slots ≡ some i
          → (lookup q s.slots ≡ some i) × (q ≢ p)
      at none e f = (f, λ same. absurd (cc (e, f, ap (λ r. lookup r s.slots) same)))
      at (some index) e f =
          erased (sym (ap (lookup q) (at_file index (read_record (s.directory index)))) ∙ f)
