-- ===== src/Admission/Exclusive.antt =====
-- Who holds a slot of the directory that the managers of src/lib/process-manager.ts share.
mod Effects
pub mod History
use chatgpt_mcp_clean.Base.{
  ℕ, zero, suc, ◌+◌, ◌≤◌, ◌<◌, Bool, true, false, not, ◌&&◌, Option, none, some, List, [], ◌∷◌,
  ◌==◌, ==_iff, if◌then◌else◌, if-cases, Text, text_eq, text_eq_iff, Table, lookup, insert, erase,
  lookup-insert, lookup-erase, ◌≡◌, ◌≢◌, ◌⊎◌, inl, inr, refl, sym, subst, ap, ◌∙◌, Bool-cases,
  arith,
}
use chatgpt_mcp_clean.Admission.{
  HostAdmissionRecord, SlotFile, unreadable, holds, Directory, put, State, fails, later,
  read_record, is_stale, unlink, pid_is_alive, try_reclaim, Attempt, wrote, exists, failed,
  write_if_new, write_new, write_again, or_reclaim, try_slot, Outcome, admitted, unavailable,
  limited, next_slot, claim_from, new_record, claim, is_own, write_child, update_at, update_slot,
  update_child_pid, release_at, release_slot, release,
}

-- The file of the slot is there, below the limit, with the record of this process of this manager.
abbrev pub Owns : (max : ℕ) → Directory → (manager : ℕ) → (process_id : Text) → (index : ℕ) → Type 0
Owns max d manager process_id index =
    (index < max)
    × (r : HostAdmissionRecord) × (d index ≡ some (holds r))
    × (r.process_id ≡ process_id)
    × (r.manager_pid ≡ manager)

pub put-other :
    (index i : ℕ) (f : Option SlotFile) (d : Directory) → index ≢ i → put index f d i ≡ d i
unfolding put
put-other index i f d h =
    if-cases (λ (g : Option SlotFile). g ≡ d i) (i == index)
      (λ e. absurd (h (sym ((==_iff i index).0 e)))) λ e. refl

pub put-same : (index : ℕ) (f : Option SlotFile) (d : Directory) → put index f d index ≡ f
unfolding put
put-same index f d = ground arith

pub Owns-put :
    (max index : ℕ) (f : Option SlotFile) (d : Directory) (m : ℕ) (p : Text) (i : ℕ)
    → index ≢ i
    → Owns max d m p i
    → Owns max (put index f d) m p i
Owns-put max index f d m p i h (below, r, e, named, managed) =
    (below, r, put-other index i f d h ∙ e, named, managed)

module _ (max own : ℕ) (alive : ℕ → Bool) where
  -- No slot of a manager that is alive is taken from it.
  abbrev pub Keeps : State → State → Type 0
  Keeps s t =
      (m : ℕ) (p : Text) (i : ℕ)
      → pid_is_alive own alive m ≡ true
      → Owns max s.directory m p i
      → Owns max t.directory m p i

  abbrev pub Gains : Text → State → State → Type 0
  Gains p s t = (index : ℕ) × (t.slots ≡ insert p index s.slots) × Owns max t.directory own p index

  abbrev Tried : Text → State → Attempt × State → Type 0
  Tried p s (wrote, t) = Keeps s t × Gains p s t
  Tried p s (exists, t) = Keeps s t × (t.slots ≡ s.slots)
  Tried p s (failed, t) = Keeps s t × (t.slots ≡ s.slots)

  stale-other :
      (s : State) (index m : ℕ) (p : Text) (i : ℕ)
      → is_stale own alive (read_record (s.directory index)) ≡ true
      → pid_is_alive own alive m ≡ true
      → Owns max s.directory m p i
      → index ≢ i
  stale-other s index m p i stale living (below, r, e, named, managed) same =
      let here : is_stale own alive (some r) ≡ true =
        subst (λ f. is_stale own alive (read_record f) ≡ true) (ap s.directory same ∙ e) stale in
      let manager_lives : pid_is_alive own alive r.manager_pid ≡ true =
        ap (pid_is_alive own alive) managed ∙ living in
      ground arith

  unlink-Keeps :
      (index : ℕ) (s : State)
      → is_stale own alive (read_record (s.directory index)) ≡ true
      → Keeps s (unlink own alive index s).1 × ((unlink own alive index s).1.slots ≡ s.slots)
  unlink-Keeps index s stale =
      if-cases (λ (u : Bool × State). Keeps s u.1 × (u.1.slots ≡ s.slots)) (fails s.faults)
        (λ e. ((λ m p i living o. o), refl))
        λ e. (
          (λ m p i living o.
              Owns-put max index none s.directory m p i (stale-other s index m p i stale living o)
                o),
          refl,
        )

  try_reclaim-Keeps :
      (index : ℕ) (s : State)
      → Keeps s (try_reclaim own alive index s).1
        × ((try_reclaim own alive index s).1.slots ≡ s.slots)
  unfolding try_reclaim
  try_reclaim-Keeps index s =
      if-cases (λ (u : Bool × State). Keeps s u.1 × (u.1.slots ≡ s.slots))
        (is_stale own alive (read_record (s.directory index))) (λ e. unlink-Keeps index s e)
        λ e. ((λ m p i living o. o), refl)

  write_new-Tried :
      (index : ℕ) (r : HostAdmissionRecord) (s : State)
      → index < max
      → r.manager_pid ≡ own
      → Tried r.process_id s (write_new own alive index r s)
  write_new-Tried index r s below managed =
      if-cases (λ (u : Attempt × State). Tried r.process_id s u) (fails s.faults)
        (λ e. ((λ m p i living o. o), refl)) λ e. go (s.directory index) refl
    where
      quiet : State
      quiet = record s { faults = later s.faults }

      go :
          (file : Option SlotFile)
          → s.directory index ≡ file
          → Tried r.process_id s (write_if_new own alive r.process_id index r file quiet)
      go none e = (
        (λ m p i living o.
            Owns-put max index _ s.directory m p i
              (λ same. absurd (cc (e, ap s.directory same, o.2))) o),
        (index, refl, (below, r, put-same index _ s.directory, refl, managed)),
      )
      go (some file) e = ((λ m p i living o. o), refl)

  Tried-after :
      (p : Text) (s t : State) (u : Attempt × State)
      → Keeps s t × (t.slots ≡ s.slots)
      → Tried p t u
      → Tried p s u
  Tried-after p s t (wrote, u) h k = (
    (λ m q i living o. k.0 m q i living (h.0 m q i living o)),
    (k.1.0, k.1.1 ∙ ap (insert p k.1.0) h.1, k.1.2),
  )
  Tried-after p s t (exists, u) h k =
      ((λ m q i living o. k.0 m q i living (h.0 m q i living o)), k.1 ∙ h.1)
  Tried-after p s t (failed, u) h k =
      ((λ m q i living o. k.0 m q i living (h.0 m q i living o)), k.1 ∙ h.1)

  try_slot-Tried :
      (index : ℕ) (r : HostAdmissionRecord) (s : State)
      → index < max
      → r.manager_pid ≡ own
      → Tried r.process_id s (try_slot own alive index r s)
  unfolding try_slot
  try_slot-Tried index r s below managed =
      go (write_new own alive index r s) (write_new-Tried index r s below managed)
    where
      again :
          (t : State) (u : Bool × State)
          → Keeps t u.1 × (u.1.slots ≡ t.slots)
          → Tried r.process_id t (write_again own alive index r u)
      again t (true, u) h =
          Tried-after r.process_id t u (write_new own alive index r u) h
            (write_new-Tried index r u below managed)
      again t (false, u) h = h

      go :
          (u : Attempt × State)
          → Tried r.process_id s u
          → Tried r.process_id s (or_reclaim own alive index r u)
      go (wrote, t) h = h
      go (failed, t) h = h
      go (exists, t) h =
          Tried-after r.process_id s t (or_reclaim own alive index r (exists, t)) h
            (again t (try_reclaim own alive index t) (try_reclaim-Keeps index t))

  abbrev pub Claimed : Text → State → State → Type 0
  Claimed p s t = Keeps s t × ((t.slots ≡ s.slots) ⊎ Gains p s t)

  pub claim_from-Claimed :
      (left index : ℕ) (r : HostAdmissionRecord) (s : State)
      → index + left ≤ max
      → r.manager_pid ≡ own
      → Claimed r.process_id s (claim_from own alive left index r s).1
  unfolding claim_from
  claim_from-Claimed zero index r s below managed = ((λ m p i living o. o), inl refl)
  claim_from-Claimed (suc left) index r s below managed =
      go (try_slot own alive index r s) (try_slot-Tried index r s (omega (arith, below)) managed)
        (λ t. claim_from-Claimed left (suc index) r t (omega (arith, below)) managed)
    where
      joined :
          (t u : State)
          → Keeps s t × (t.slots ≡ s.slots)
          → Claimed r.process_id t u
          → Claimed r.process_id s u
      joined t u h (k, inl e) =
          ((λ m p i living o. k m p i living (h.0 m p i living o)), inl (e ∙ h.1))
      joined t u h (k, inr (j, e, owned)) = (
        (λ m p i living o. k m p i living (h.0 m p i living o)),
        inr (j, e ∙ ap (insert r.process_id j) h.1, owned),
      )

      go :
          (u : Attempt × State)
          → Tried r.process_id s u
          → ((t : State) → Claimed r.process_id t (claim_from own alive left (suc index) r t).1)
          → Claimed r.process_id s
              (next_slot own alive (claim_from own alive left (suc index) r) u).1
      go (wrote, t) h next = (h.0, inr h.1)
      go (failed, t) h next = (h.0, inl h.1)
      go (exists, t) h next = joined t (claim_from own alive left (suc index) r t).1 h (next t)
