-- ===== src/Jsonl/Limit.antt =====
-- How large the files are that a batch of src/lib/bounded-jsonl.ts leaves.
use chatgpt_mcp_clean.Base.{
  ℕ, ◌+◌, ◌≤◌, Bool, true, false, ◌&&◌, ◌||◌, Option, none, some, List, [], ◌∷◌, ◌++◌, All, Text,
  ◌≡◌, ◌⊎◌, inl, inr, refl, sym, subst, ap, ltb, arith,
}
use chatgpt_mcp_clean.Jsonl.{
  State, Options, File, Chunk, flush_chunk, grow, append_to, age_expired, rotation_required,
  rotate_if, make_room, flush_if, is_full, add_line, byte_length, write_line, write_lines,
  write_batch,
}
use chatgpt_mcp_clean.Jsonl.Bytes.{byte_length-append}
use chatgpt_mcp_clean.Jsonl.Bound.{
  bytes_of, Knows-ready, Within, KnowsSize, Ready, Closed, Runs-ensure_open, Runs-rotate,
}
use chatgpt_mcp_clean.Jsonl.After.{
  After, Runs, Runs-bind, Runs-chosen, Runs-from, Runs-weaken, Runs-return, Runs-modify,
  Runs-system_call,
}

-- The buffered bytes are not taken for fewer than they are, and there is room for them.
abbrev Fits : ℕ → Chunk → State → Type 0
Fits limit (text, bytes) s =
    Ready limit s
    × (byte_length text ≤ bytes)
    × (text ≡ [] → bytes ≡ 0)
    × ((bytes ≡ 0) ⊎ (s.size + bytes ≤ limit))

abbrev Flushed : ℕ → ℕ → Chunk → State → Type 0
Flushed limit most left s = (left.0 ≡ []) × (left.1 ≡ 0) × Ready limit s × (s.size ≤ most)

module _ (limit : ℕ) (now : ℕ) where
  bytes_of-append :
      (text : Text) (file : Option File)
      → bytes_of (append_to now text file) ≤ bytes_of file + byte_length text
  bytes_of-append text none = omega arith
  bytes_of-append text (some f) = omega arith

  Fits-grow :
      (most : ℕ) (text : Text) (bytes : ℕ) (s : State)
      → Fits limit (text, bytes) s × (s.size + bytes ≤ most)
      → Flushed limit most ([], 0) (grow now (text, bytes) s)
  Fits-grow most text bytes s p =
      (refl, refl, ((p.0.0.0.0, below p.0.3), omega (arith, grown, p.0.0.1, p.0.1)), p.1)
    where
      grown : bytes_of (append_to now text s.file) ≤ bytes_of s.file + byte_length text
      grown = bytes_of-append text s.file

      below : (bytes ≡ 0) ⊎ (s.size + bytes ≤ limit) → bytes_of (append_to now text s.file) ≤ limit
      below (inl e) = omega (arith, e, grown, p.0.0.0.1, p.0.1)
      below (inr h) = omega (arith, h, grown, p.0.0.1, p.0.1)

  Runs-flush_chunk :
      (most : ℕ) (chunk : Chunk)
      → Runs
          (λ s. Fits limit chunk s × (s.size + chunk.1 ≤ most))
          (flush_chunk now chunk)
          (Flushed limit most)
          (Within limit)
  unfolding flush_chunk
  Runs-flush_chunk most ([], bytes) =
      Runs-return ([], bytes) λ s p. (refl, p.0.2 refl, p.0.0, omega (arith, p.1))
  Runs-flush_chunk most (c ∷ text, bytes) =
      Runs-bind _
        (Runs-bind _ (Runs-system_call (λ s faults p. p) (λ s p. p.0.0.0))
          λ _. Runs-modify (grow now (c ∷ text, bytes)) λ s p. Fits-grow most (c ∷ text) bytes s p)
        λ _. Runs-return ([], 0) λ s p. p

  Runs-flush_all :
      (chunk : Chunk)
      → Runs
          (Fits limit chunk)
          (flush_chunk now chunk)
          (λ left s. (left.0 ≡ []) × (left.1 ≡ 0) × Ready limit s)
          (Within limit)
  Runs-flush_all chunk = Runs-from λ s p.
      Runs-weaken (λ t e. (subst (Fits limit chunk) (sym e) p, omega (arith, ap (λ t. t.size) e)))
        (λ left t q. (q.0, q.1, q.2)) (λ t q. q) (Runs-flush_chunk (s.size + chunk.1) chunk)

module _ (o : Options) (now : ℕ) where
  abbrev limit : ℕ
  limit = o.max_bytes

  -- The next line, of so many bytes, has room in the file after what is buffered.
  abbrev Room : ℕ → Chunk → State → Type 0
  Room bytes chunk s = Fits limit chunk s × (s.size + chunk.1 + bytes ≤ limit)

  room_of_not_required :
      (bytes buffered : ℕ) (s : State)
      → rotation_required o now bytes buffered s ≡ false
      → bytes ≤ limit
      → s.size + buffered + bytes ≤ limit
  room_of_not_required bytes buffered s e h = go (s.size + buffered) (age_expired o now s) e
    where
      go :
          (n : ℕ) (old : Bool)
          → ltb 0 n && (ltb o.max_bytes (n + bytes) || old) ≡ false
          → n + bytes ≤ o.max_bytes
      go n old e = ground arith

  Fits-empty :
      (left : Chunk) (s : State) → left.0 ≡ [] → left.1 ≡ 0 → Ready limit s → Fits limit left s
  unfolding byte_length
  Fits-empty left s e f p =
      (p, subst (λ text. byte_length text ≤ left.1) (sym e) (omega arith), (λ _. f), inl f)

  Runs-rotate_if :
      (bytes : ℕ) (left : Chunk) (required : Bool)
      → bytes ≤ limit
      → Runs
          (λ s.
            (left.0 ≡ [])
            × (left.1 ≡ 0)
            × Ready limit s
            × ((required ≡ false) → s.size + 0 + bytes ≤ limit))
          (rotate_if o now required)
          (λ _. Room bytes left)
          (Within limit)
  Runs-rotate_if bytes left false h =
      Runs-return tt λ s p. (Fits-empty left s p.0 p.1 p.2, omega (arith, p.1, p.3 refl))
  Runs-rotate_if bytes left true h = Runs-from λ s p.
      Runs-weaken (λ t e. subst (Within limit) (sym e) p.2.0)
        (λ _ t q. (Fits-empty left t p.0 p.1 q.0, omega (arith, p.1, q.1, h))) (λ t q. q)
        (Runs-rotate limit now)

  Runs-make_room :
      (bytes : ℕ) (chunk : Chunk) (required : Bool)
      → bytes ≤ limit
      → Runs
          (λ s. Fits limit chunk s × ((required ≡ false) → s.size + chunk.1 + bytes ≤ limit))
          (make_room o now required bytes chunk)
          (Room bytes)
          (Within limit)
  Runs-make_room bytes chunk false h = Runs-return chunk λ s p. (p.0, p.1 refl)
  Runs-make_room bytes chunk true h =
      Runs-bind _
        (Runs-weaken (λ s p. p.0) (λ left s p. p) (λ s p. p) (Runs-flush_all limit now chunk))
        λ left.
          Runs-bind _
            (Runs-chosen (λ s. rotate_if o now (rotation_required o now bytes 0 s))
              λ t.
                Runs-weaken
                  (λ s p. (
                    p.0.0,
                    p.0.1,
                    p.0.2,
                    λ e.
                        subst (λ u. u.size + 0 + bytes ≤ limit) (sym p.1)
                          (room_of_not_required bytes 0 t e h),
                  ))
                  (λ _ s p. p) (λ s p. p)
                  (Runs-rotate_if bytes left (rotation_required o now bytes 0 t) h))
            λ _. Runs-return left λ s p. p

  Runs-flush_if :
      (bytes : ℕ) (full : Bool) (chunk : Chunk)
      → Runs (Room bytes chunk) (flush_if o now full chunk) (Room bytes) (Within limit)
  Runs-flush_if bytes false chunk = Runs-return chunk λ s p. p
  Runs-flush_if bytes true chunk = Runs-from λ s p.
      Runs-weaken (λ t e. (subst (Fits limit chunk) (sym e) p.0, omega (arith, ap (λ t. t.size) e)))
        (λ left t q. (Fits-empty left t q.0 q.1 q.2, omega (arith, q.1, q.3, p.1))) (λ t q. q)
        (Runs-flush_chunk limit now (s.size + chunk.1) chunk)

  Fits-add_line :
      (line : Text) (left : Chunk) (s : State)
      → Room (byte_length line) left s
      → Fits limit (add_line o now line left) s
  unfolding byte_length
  Fits-add_line line (text, bytes) s p = (
    p.0.0,
    (let both = byte_length-append text line in omega (arith, both, p.0.1)),
    empty text line p.0.2,
    inr (omega (arith, p.1)),
  )
    where
      empty :
          (text line : Text) {bytes : ℕ}
          → ((text ≡ []) → bytes ≡ 0)
          → text ++ line ≡ []
          → bytes + byte_length line ≡ 0
      empty [] [] h e = let none_left = h refl in omega (arith, none_left)
      empty [] (c ∷ line) h e = absurd (cc e)
      empty (c ∷ text) line h e = absurd (cc e)

  Runs-write_line :
      (line : Text) (chunk : Chunk)
      → byte_length line ≤ limit
      → Runs (Fits limit chunk) (write_line o now line chunk) (Fits limit) (Within limit)
  unfolding write_line
  Runs-write_line line chunk h =
      Runs-bind _
        (Runs-chosen
          (λ s.
            make_room o now (rotation_required o now (byte_length line) chunk.1 s)
              (byte_length line) chunk)
          λ t.
            Runs-weaken
              (λ s p. (
                p.0,
                λ e.
                    subst (λ u. u.size + chunk.1 + byte_length line ≤ limit) (sym p.1)
                      (room_of_not_required (byte_length line) chunk.1 t e h),
              ))
              (λ left s p. p) (λ s p. p)
              (Runs-make_room (byte_length line) chunk
                (rotation_required o now (byte_length line) chunk.1 t) h))
        λ roomy.
          Runs-bind _
            (Runs-flush_if (byte_length line) (is_full o now (byte_length line) roomy) roomy)
            λ left. Runs-return (add_line o now line left) λ s p. Fits-add_line line left s p

  Runs-write_lines :
      (lines : List Text) (chunk : Chunk)
      → All (λ line. byte_length line ≤ limit) lines
      → Runs (Fits limit chunk) (write_lines o now lines chunk) (λ _. Ready limit) (Within limit)
  unfolding write_lines
  Runs-write_lines [] chunk h =
      Runs-bind _ (Runs-flush_all limit now chunk) λ left. Runs-return tt λ s p. p.2
  Runs-write_lines (line ∷ lines) chunk h =
      Runs-bind _ (Runs-write_line line chunk h.0) λ left. Runs-write_lines lines left h.1

-- When no line of a batch is larger than the limit, a batch that starts with no file above the limit
-- ends that way, with an error too, whatever its rotations are and however the lines are put
-- together. A batch without an error also leaves the writer no smaller a size than the file has, so
-- that the next one can follow.
pub write_batch-Within :
    (o : Options) (now : ℕ) (lines : List Text) (s : State)
    → All (λ line. byte_length line ≤ o.max_bytes) lines
    → Within o.max_bytes s
    → KnowsSize s
    → After
        (λ _ t. Within o.max_bytes t × KnowsSize t)
        (Within o.max_bytes)
        (write_batch o now lines s)
unfolding write_batch byte_length
write_batch-Within o now lines s h within knows =
    runs.run s (((within, omega arith, omega arith)), knows)
  where
    most : ℕ
    most = o.max_bytes + s.size + bytes_of s.file

    runs :
        Runs
          (λ t. Closed o.max_bytes most t × KnowsSize t)
          (write_batch o now lines)
          (λ _ t. Within o.max_bytes t × KnowsSize t)
          (Within o.max_bytes)
    runs = Runs-bind _ (Runs-ensure_open o.max_bytes now most) λ _.
        Runs-weaken (λ t p. Fits-empty o now ([], 0) t refl refl p.0)
          (λ _ t p. (p.0, Knows-ready t.handle t p.1)) (λ t p. p)
          (Runs-write_lines o now lines ([], 0) h)
