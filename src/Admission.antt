-- ===== src/Admission.antt =====
-- The admission of processes on one host in src/lib/process-manager.ts: `maxLiveTotal` slots, each a
-- file `<index>.json` of a directory that the managers of the host share. An operation here runs
-- alone; a file is written or unlinked whole or not at all.
pub mod Choice
pub mod Exclusive
mod Tests
use chatgpt_mcp_clean.Base.{
  ℕ, zero, suc, Bool, true, false, not, ◌&&◌, ◌||◌, Option, none, some, List, [], ◌∷◌, leb, ◌==◌,
  if◌then◌else◌, Text, text_eq, Table, lookup, insert, erase,
}

pub record HostAdmissionRecord : Type 0 where
  pub process_id : Text
  pub manager_pid : ℕ
  pub child_pid : Option ℕ
  pub claimed_at : Text

-- What `readHostAdmissionRecord` finds in a file.
pub data SlotFile : Type 0 where
  unreadable : SlotFile
  holds : HostAdmissionRecord → SlotFile

abbrev pub Directory : Type 0
Directory = ℕ → Option SlotFile

unfoldable pub put : ℕ → Option SlotFile → Directory → Directory
put index file directory = λ i. if i == index then file else directory i

-- The directory, the manager's own `hostAdmissionSlots`, and which of its calls to come fail.
pub record State : Type 0 where
  pub directory : Directory
  pub slots : Table ℕ
  pub faults : List Bool

abbrev pub fails : List Bool → Bool
fails [] = false
fails (fault ∷ faults) = fault

abbrev pub later : List Bool → List Bool
later [] = []
later (fault ∷ faults) = faults

abbrev pub read_record : Option SlotFile → Option HostAdmissionRecord
read_record none = none
read_record (some unreadable) = none
read_record (some (holds r)) = some r

-- `writeFileSync` with `wx`: it wrote, found a file, or failed otherwise.
pub data Attempt : Type 0 where
  wrote : Attempt
  exists : Attempt
  failed : Attempt

pub data Outcome : Type 0 where
  admitted : Outcome
  unavailable : Outcome
  limited : Outcome

-- `own` is the manager's process, `alive` whether `process.kill(pid, 0)` finds a process.
module _ (own : ℕ) (alive : ℕ → Bool) where
  unfoldable pub pid_is_alive : ℕ → Bool
  pid_is_alive pid = if pid == 0 then false else pid == own || alive pid

  abbrev pub child_is_alive : Option ℕ → Bool
  child_is_alive none = false
  child_is_alive (some pid) = pid_is_alive pid

  abbrev pub is_stale : Option HostAdmissionRecord → Bool
  is_stale none = false
  is_stale (some r) = not (pid_is_alive r.manager_pid) && not (child_is_alive r.child_pid)

  -- `unlinkSync`, whose errors are swallowed.
  abbrev pub unlink : ℕ → State → Bool × State
  unlink index s =
      if fails s.faults
      then (false, record s { faults = later s.faults })
      else (true, record s { directory = put index none s.directory; faults = later s.faults })

  unfoldable pub try_reclaim : ℕ → State → Bool × State
  try_reclaim index s =
      if is_stale (read_record (s.directory index)) then unlink index s else (false, s)

  abbrev pub write_if_new :
      (process_id : Text) → ℕ → HostAdmissionRecord → Option SlotFile → State → Attempt × State
  write_if_new process_id index r none s = (
    wrote,
    record s {
      directory = put index (some (holds r)) s.directory;
      slots = insert process_id index s.slots;
    },
  )
  write_if_new process_id index r (some file) s = (exists, s)

  abbrev pub write_new : ℕ → HostAdmissionRecord → State → Attempt × State
  write_new index r s =
      let t : State = record s { faults = later s.faults } in
      if fails s.faults
      then (failed, t)
      else write_if_new r.process_id index r (s.directory index) t

  abbrev pub write_again : ℕ → HostAdmissionRecord → Bool × State → Attempt × State
  write_again index r (true, s) = write_new index r s
  write_again index r (false, s) = (exists, s)

  abbrev pub or_reclaim : ℕ → HostAdmissionRecord → Attempt × State → Attempt × State
  or_reclaim index r (wrote, s) = (wrote, s)
  or_reclaim index r (failed, s) = (failed, s)
  or_reclaim index r (exists, s) = write_again index r (try_reclaim index s)

  -- Both attempts at one slot.
  unfoldable pub try_slot : ℕ → HostAdmissionRecord → State → Attempt × State
  unfolding try_reclaim
  try_slot index r s = or_reclaim index r (write_new index r s)

  abbrev pub next_slot : (State → Outcome × State) → Attempt × State → Outcome × State
  next_slot go_on (wrote, s) = (admitted, s)
  next_slot go_on (failed, s) = (unavailable, s)
  next_slot go_on (exists, s) = go_on s

  -- The loop over the slots: so many are left, from this one.
  unfoldable pub claim_from : (left index : ℕ) → HostAdmissionRecord → State → Outcome × State
  unfolding try_slot
  claim_from zero index r s = (limited, s)
  claim_from (suc left) index r s = next_slot (claim_from left (suc index) r) (try_slot index r s)

  abbrev pub new_record : (process_id claimed_at : Text) → HostAdmissionRecord
  new_record process_id claimed_at = record {
    process_id = process_id;
    manager_pid = own;
    child_pid = none;
    claimed_at = claimed_at;
  }

  -- `claimHostAdmissionSlot`: `max_live_total` and the directory may be missing, and `live` processes
  -- of this manager run.
  abbrev pub claim_in : Bool → (max live : ℕ) → HostAdmissionRecord → State → Outcome × State
  claim_in true max live r s = claim_from max 0 r s
  claim_in false max live r s = (if leb max live then limited else admitted, s)

  unfoldable pub claim :
      (max_live_total : Option ℕ) (shared : Bool) (live : ℕ) (process_id claimed_at : Text)
      → State
      → Outcome × State
  unfolding claim_from
  claim none shared live process_id claimed_at s = (admitted, s)
  claim (some max) shared live process_id claimed_at s =
      claim_in shared max live (new_record process_id claimed_at) s

  abbrev pub is_own : Text → HostAdmissionRecord → Bool
  is_own process_id r = text_eq r.process_id process_id && r.manager_pid == own

  abbrev pub write_child : ℕ → ℕ → HostAdmissionRecord → State → State
  write_child index child_pid r s =
      let t : State = record s { faults = later s.faults } in
      let file : SlotFile = holds (record r { child_pid = some child_pid }) in
      if fails s.faults then t else record t { directory = put index (some file) t.directory }

  abbrev pub update_at : Text → ℕ → ℕ → Option HostAdmissionRecord → State → State
  update_at process_id child_pid index none s = s
  update_at process_id child_pid index (some r) s =
      if is_own process_id r then write_child index child_pid r s else s

  abbrev pub update_slot : Text → ℕ → Option ℕ → State → State
  update_slot process_id child_pid none s = s
  update_slot process_id child_pid (some index) s =
      update_at process_id child_pid index (read_record (s.directory index)) s

  -- `updateHostAdmissionChildPid`.
  unfoldable pub update_child_pid : (process_id : Text) (child_pid : ℕ) → State → State
  update_child_pid process_id child_pid s =
      update_slot process_id child_pid (lookup process_id s.slots) s

  abbrev pub release_at : Text → ℕ → Option HostAdmissionRecord → State → State
  release_at process_id index none s = s
  release_at process_id index (some r) s = if is_own process_id r then (unlink index s).1 else s

  abbrev pub release_slot : Text → Option ℕ → State → State
  release_slot process_id none s = s
  release_slot process_id (some index) s =
      release_at process_id index (read_record (s.directory index))
        (record s { slots = erase process_id s.slots })

  -- `releaseHostAdmissionSlot`.
  unfoldable pub release : (process_id : Text) → State → State
  release process_id s = release_slot process_id (lookup process_id s.slots) s
