-- ===== src/Admission/Choice.antt =====
-- Which slot a claim in src/lib/process-manager.ts takes.
use chatgpt_mcp_clean.Base.{
  ℕ, zero, suc, Bool, true, false, Option, none, some, [], ◌==◌, if◌then◌else◌, Text, Table, insert,
  ◌≡◌, refl, ap, ◌∙◌, arith,
}
use chatgpt_mcp_clean.Admission.{
  HostAdmissionRecord, SlotFile, holds, Directory, put, State, read_record, is_stale, unlink,
  try_reclaim, wrote, exists, write_if_new, write_again, or_reclaim, try_slot, Outcome, admitted,
  limited, next_slot, claim_from, new_record, claim,
}

module _ (own : ℕ) (alive : ℕ → Bool) where
  abbrev pub is_free : Option SlotFile → Bool
  is_free none = true
  is_free (some file) = is_stale own alive (read_record (some file))

  -- The first slot of `left` slots from `index` on that has no file or a stale one.
  abbrev pub first_free : (left index : ℕ) → Directory → Option ℕ
  first_free zero index directory = none
  first_free (suc left) index directory =
      if is_free (directory index) then some index else first_free left (suc index) directory

  abbrev pub take_slot : HostAdmissionRecord → Option ℕ → State → Outcome × State
  take_slot r none s = (limited, s)
  take_slot r (some index) s = (
    admitted,
    record s {
      directory = put index (some (holds r)) s.directory;
      slots = insert r.process_id index s.slots;
    },
  )

  put-put :
      (index : ℕ) (f g : Option SlotFile) (d : Directory)
      → put index f (put index g d) ≡ put index f d
  unfolding put
  put-put index f g d k i = go (i == index) k
    where
      go : (b : Bool) → (if b then f else if b then g else d i) ≡ (if b then f else d i)
      go true = refl
      go false = refl

  put-at : (index : ℕ) (f : Option SlotFile) (d : Directory) → put index f d index ≡ f
  unfolding put
  put-at index f d = ground arith

  abbrev quiet : Directory → Table ℕ → State
  quiet directory slots = record { directory = directory; slots = slots; faults = [] }

  try_slot-free :
      (index : ℕ) (r : HostAdmissionRecord) (d : Directory) (slots : Table ℕ)
      → try_slot own alive index r (quiet d slots) ≡ (
          if is_free (d index)
          then (wrote, quiet (put index (some (holds r)) d) (insert r.process_id index slots))
          else (exists, quiet d slots))
  unfolding try_slot try_reclaim
  try_slot-free index r d slots = go (d index) refl
    where
      reclaim :
          (file : SlotFile) (stale : Bool)
          → write_again own alive index r
              (if stale then unlink own alive index (quiet d slots) else (false, quiet d slots))
            ≡ (if stale
                then (wrote, quiet (put index (some (holds r)) d) (insert r.process_id index slots))
                else (exists, quiet d slots))
      reclaim file true =
          ap (λ f. write_if_new own alive r.process_id index r f (quiet (put index none d) slots))
            (put-at index none d)
          ∙ ap (λ (e : Directory). (wrote, quiet e (insert r.process_id index slots)))
              (put-put index (some (holds r)) none d)
      reclaim file false = refl

      go :
          (file : Option SlotFile)
          → (d index ≡ file)
          → or_reclaim own alive index r
              (write_if_new own alive r.process_id index r file (quiet d slots))
            ≡ (if is_free file
                then (wrote, quiet (put index (some (holds r)) d) (insert r.process_id index slots))
                else (exists, quiet d slots))
      go none e = refl
      go (some file) e =
          ap
            (λ f. write_again own alive index r (
              if is_stale own alive (read_record f)
              then unlink own alive index (quiet d slots)
              else (false, quiet d slots)))
            e
          ∙ reclaim file (is_stale own alive (read_record (some file)))

  claim_from-first_free :
      (left index : ℕ) (r : HostAdmissionRecord) (d : Directory) (slots : Table ℕ)
      → claim_from own alive left index r (quiet d slots)
        ≡ take_slot r (first_free left index d) (quiet d slots)
  unfolding claim_from
  claim_from-first_free zero index r d slots = refl
  claim_from-first_free (suc left) index r d slots =
      ap (next_slot own alive (claim_from own alive left (suc index) r))
        (try_slot-free index r d slots)
      ∙ go (is_free (d index)) (claim_from-first_free left (suc index) r d slots)
    where
      go :
          (free : Bool)
          → (claim_from own alive left (suc index) r (quiet d slots)
              ≡ take_slot r (first_free left (suc index) d) (quiet d slots))
          → next_slot own alive (claim_from own alive left (suc index) r) (
              if free
              then (wrote, quiet (put index (some (holds r)) d) (insert r.process_id index slots))
              else (exists, quiet d slots))
            ≡ take_slot r
                (if free then some index else first_free left (suc index) d)
                (quiet d slots)
      go true h = refl
      go false h = h

-- While no call of the file system fails, a claim with a shared directory takes the first slot below
-- the limit that has no file, or the file of a manager that has ended and whose child has none or
-- has ended too. It writes its record there, notes the slot, and changes no other file. When there
-- is no such slot it is refused and changes nothing.
pub claim-first_free :
    (own : ℕ) (alive : ℕ → Bool) (max live : ℕ) (process_id claimed_at : Text)
    → (d : Directory) (slots : Table ℕ)
    → claim own alive
        (some max)
        true
        live
        process_id
        claimed_at
        (record { directory = d; slots = slots; faults = [] })
      ≡ take_slot own alive
          (new_record own alive process_id claimed_at)
          (first_free own alive max 0 d)
          (record { directory = d; slots = slots; faults = [] })
unfolding claim
claim-first_free own alive max live process_id claimed_at d slots =
    claim_from-first_free own alive max 0 (new_record own alive process_id claimed_at) d slots
