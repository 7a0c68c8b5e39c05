-- ===== src/Jsonl/Bound.antt =====
-- How large the files of src/lib/bounded-jsonl.ts become.
use chatgpt_mcp_clean.Base.{
  ℕ, ◌≤◌, Bool, true, false, Option, none, some, List, [], ◌∷◌, All, ◌≡◌, refl, sym, subst, ap, ◌∙◌,
  arith,
}
use chatgpt_mcp_clean.Jsonl.{
  State, File, ensure_open, open_path, drop_handle, reopen_unless, check_handle, is_same_file,
  close_handle, move_to_archive, archived, open_or_create, measure, system_call, modify, rotate,
}
use chatgpt_mcp_clean.Jsonl.After.{
  Runs, Runs-bind, Runs-chosen, Runs-from, Runs-weaken, Runs-return, Runs-modify, Runs-system_call,
}

abbrev pub bytes_of : Option File → ℕ
bytes_of none = 0
bytes_of (some f) = f.bytes

-- No file is larger than `limit`, archived or not.
abbrev pub Within : ℕ → State → Type 0
Within limit s = All (λ f. f.bytes ≤ limit) s.archive × (bytes_of s.file ≤ limit)

abbrev Knows : Option ℕ → State → Type 0
Knows none s = Unit
Knows (some inode) s = is_same_file inode s.file ≡ true → bytes_of s.file ≤ s.size

-- When its handle is of the file at the path, the writer does not take it for smaller than it is.
abbrev pub KnowsSize : State → Type 0
KnowsSize s = Knows s.handle s

abbrev pub Ready : ℕ → State → Type 0
Ready limit s = Within limit s × (bytes_of s.file ≤ s.size)

pub Knows-ready : (handle : Option ℕ) (s : State) → bytes_of s.file ≤ s.size → Knows handle s
Knows-ready none s h = tt
Knows-ready (some inode) s h = λ _. h

-- Before the file is opened: neither it nor the size that is kept from before is above `most`.
abbrev pub Closed : (limit most : ℕ) → State → Type 0
Closed limit most s = Within limit s × (bytes_of s.file ≤ most) × (s.size ≤ most)

abbrev pub Opened : (limit most : ℕ) → State → Type 0
Opened limit most s = Ready limit s × (s.size ≤ most)

module _ (limit : ℕ) (now : ℕ) where
  Runs-open_path :
      (most : ℕ) → Runs (Closed limit most) (open_path now) (λ _. Opened limit most) (Within limit)
  unfolding open_path
  Runs-open_path most =
      Runs-bind (λ _. modify λ s. measure now s.file s)
        (Runs-bind (λ _. system_call)
          (Runs-bind (λ _. modify λ s. open_or_create now s.file s)
            (Runs-bind (λ _. system_call) call λ _. call)
            λ _. Runs-modify _ λ s. opened s s.file refl)
          λ _. call)
        λ _. Runs-modify _ λ s. measured s s.file refl
    where
      call : Runs (Closed limit most) system_call (λ _. Closed limit most) (Within limit)
      call = Runs-system_call (λ s faults p. p) (λ s p. p.0)

      opened :
          (s : State) (file : Option File)
          → (s.file ≡ file)
          → Closed limit most s
          → Closed limit most (open_or_create now file s)
      opened s none e p = ((p.0.0, omega arith), omega arith, p.2)
      opened s (some f) e p = p

      measured :
          (s : State) (file : Option File)
          → (s.file ≡ file)
          → Closed limit most s
          → Opened limit most (measure now file s)
      measured s none e p = ((p.0, subst (λ g. bytes_of g ≤ s.size) (sym e) (omega arith)), p.2)
      measured s (some f) e p =
          let below = ap bytes_of e in ((p.0, omega (arith, below)), omega (arith, below, p.1))

  Runs-drop_handle :
      (most : ℕ) → Runs (Closed limit most) drop_handle (λ _. Closed limit most) (Within limit)
  Runs-drop_handle most =
      Runs-bind _ (Runs-system_call (λ s faults p. p) (λ s p. p.0))
        λ _. Runs-modify (λ s. record s { handle = none }) λ s p. p

  Runs-reopen_unless :
      (most : ℕ) (same : Bool) (t : State)
      → (same ≡ true → bytes_of t.file ≤ t.size)
      → Runs
          (λ s. Closed limit most s × (s ≡ t))
          (reopen_unless now same)
          (λ _. Opened limit most)
          (Within limit)
  Runs-reopen_unless most true t h =
      Runs-return tt
        λ s p. ((p.0.0, subst (λ s. bytes_of s.file ≤ s.size) (sym p.1) (h refl)), p.0.2)
  Runs-reopen_unless most false t h =
      Runs-weaken (λ s p. p.0) (λ _ s p. p) (λ s p. p)
        (Runs-bind (λ _. open_path now) (Runs-drop_handle most) λ _. Runs-open_path most)

  Runs-check_handle :
      (most : ℕ) (handle : Option ℕ)
      → Runs
          (λ s. Closed limit most s × Knows handle s)
          (check_handle now handle)
          (λ _. Opened limit most)
          (Within limit)
  Runs-check_handle most none =
      Runs-weaken (λ s p. p.0) (λ _ s p. p) (λ s p. p) (Runs-open_path most)
  Runs-check_handle most (some inode) =
      Runs-bind _ (Runs-system_call (λ s faults p. p) (λ s p. p.0.0)) λ _.
        Runs-chosen (λ s. reopen_unless now (is_same_file inode s.file))
          λ t. Runs-from λ s p.
            Runs-weaken (λ t e. (subst (Closed limit most) (sym e) p.0.0, e ∙ p.1)) (λ _ s p. p)
              (λ s p. p)
              (Runs-reopen_unless most (is_same_file inode t.file) t
                (subst (Knows (some inode)) p.1 p.0.1))

  pub Runs-ensure_open :
      (most : ℕ)
      → Runs
          (λ s. Closed limit most s × KnowsSize s)
          (ensure_open now)
          (λ _. Opened limit most)
          (Within limit)
  unfolding ensure_open
  Runs-ensure_open most = record { run = λ s p. (Runs-check_handle most s.handle).run s p }

  Knows-missing : (handle : Option ℕ) (s : State) → bytes_of s.file ≡ 0 → Knows handle s
  Knows-missing none s e = tt
  Knows-missing (some inode) s e = λ h. omega (arith, e)

  Within-archived :
      (files : List File) (file : Option File)
      → All (λ f. f.bytes ≤ limit) files
      → bytes_of file ≤ limit
      → All (λ f. f.bytes ≤ limit) (archived files file)
  Within-archived files none h i = h
  Within-archived [] (some f) h i = (i, tt)
  Within-archived (g ∷ files) (some f) h i = (h.0, Within-archived files (some f) h.1 i)

  -- A new file is there afterwards, and nothing is in it.
  pub Runs-rotate : Runs (Within limit) (rotate now) (λ _. Opened limit 0) (Within limit)
  unfolding rotate
  Runs-rotate =
      Runs-bind _
        (Runs-bind _
          (Runs-bind _ (Runs-bind _ (record { run = λ s p. (close s.handle).run s p }) λ _. call)
            λ _. call)
          λ _. Runs-modify (move_to_archive now) λ s p. (
            ((Within-archived s.archive s.file p.0 p.1, omega arith), omega arith, omega arith),
            Knows-missing s.handle (move_to_archive now s) refl,
          ))
        λ _. Runs-ensure_open 0
    where
      call : Runs (Within limit) system_call (λ _. Within limit) (Within limit)
      call = Runs-system_call (λ s faults p. p) (λ s p. p)

      close :
          (handle : Option ℕ)
          → Runs (Within limit) (close_handle handle) (λ _. Within limit) (Within limit)
      close none = Runs-return tt λ s p. p
      close (some inode) =
          Runs-bind _ call λ _. Runs-modify (λ s. record s { handle = none }) λ s p. p
