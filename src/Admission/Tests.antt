-- ===== src/Admission/Tests.antt =====
-- Claims of slots in src/lib/process-manager.ts.
use chatgpt_mcp_clean.Base.{
  ℕ, ◌<◌, Bool, true, none, some, [], ◌∷◌, ◌==◌, if◌then◌else◌, codes, text_eq, Table, lookup,
  insert, ◌≡◌, refl, arith,
}
use chatgpt_mcp_clean.Admission.{
  SlotFile, holds, Directory, put, pid_is_alive, try_reclaim, try_slot, limited, claim_from, claim,
  new_record,
}
use chatgpt_mcp_clean.Admission.Choice.{first_free, take_slot, claim-first_free}
use chatgpt_mcp_clean.Admission.Exclusive.History.{
  System, nobody, starts, claims, History, none_yet, then_step, Has, slot_unique, enter, leave,
}

abbrev file_of : ℕ → SlotFile
file_of manager = holds (record {
  process_id = codes "old";
  manager_pid = manager;
  child_pid = none;
  claimed_at = codes "then";
})

-- Manager 5 runs and manager 6 does not.
abbrev two_files : Directory
two_files i = if i == 0 then some (file_of 5) else if i == 1 then some (file_of 6) else none

abbrev five_lives : ℕ → Bool
five_lives pid = pid == 5

stale_slot_taken :
    (claim 7 five_lives
      (some 2)
      true
      0
      (codes "new")
      (codes "now")
      (record { directory = two_files; slots = []; faults = [] })).1.slots
    ≡ (codes "new", 1) ∷ []
unfolding claim claim_from try_slot try_reclaim pid_is_alive insert put
stale_slot_taken = refl

full_host :
    (claim 7 five_lives
      (some 1)
      true
      0
      (codes "new")
      (codes "now")
      (record { directory = two_files; slots = []; faults = [] })).0
    ≡ limited
unfolding claim claim_from try_slot try_reclaim pid_is_alive insert
full_host = refl

claim-first_free_example :
    claim 7 five_lives
      (some 2)
      true
      0
      (codes "new")
      (codes "now")
      (record { directory = two_files; slots = []; faults = [] })
    ≡ take_slot 7 five_lives
        (new_record 7 five_lives (codes "new") (codes "now"))
        (first_free 7 five_lives 2 0 two_files)
        (record { directory = two_files; slots = []; faults = [] })
claim-first_free_example =
    claim-first_free 7 five_lives 2 0 (codes "new") (codes "now") two_files []

abbrev one_manager : System
one_manager = record (nobody two_files) { managers = λ m. if m == 7 then some [] else none }

abbrev seven_lives : ℕ → Bool
seven_lives pid = pid == 7

abbrev one_claim : System
one_claim =
    leave 7 one_manager
      (claim 7 seven_lives (some 2) true 0 (codes "new") (codes "now") (enter one_manager [] [])).1

runs_seven :
    (m : ℕ) (t : Table ℕ) → one_manager.managers m ≡ some t → pid_is_alive 7 seven_lives m ≡ true
unfolding pid_is_alive
runs_seven m t e = ground arith

one_claim-History : History 2 (nobody two_files) one_claim
one_claim-History =
    then_step _ one_manager _
      (then_step _ (nobody two_files) _ (none_yet (nobody two_files))
        (starts 7 (nobody two_files) refl))
      (claims 7 one_manager [] seven_lives 0 (codes "new") (codes "now") [] refl runs_seven)

one_claim-Has : Has one_claim 7 (codes "new") 0
unfolding claim claim_from try_slot try_reclaim pid_is_alive insert lookup put text_eq
one_claim-Has = (_, refl, refl)

abbrev manager : ℕ
manager = 7

slot_unique_example : (0 < 2) × (manager ≡ manager) × (codes "new" ≡ codes "new")
slot_unique_example =
    slot_unique 2 two_files one_claim 7 7 (codes "new") (codes "new") 0 one_claim-History
      one_claim-Has one_claim-Has
