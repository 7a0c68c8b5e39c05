-- ===== src/Jsonl/Lines.antt =====
-- `writeBatch` of src/lib/bounded-jsonl.ts: where the lines of a batch are afterwards.
use chatgpt_mcp_clean.Base.{
  ℕ, Bool, true, false, List, [], ◌∷◌, ◌++◌, flatten, Text, ◌≡◌, refl, sym, subst, ap, ◌∙◌,
  append_assoc, append-nil,
}
use chatgpt_mcp_clean.Jsonl.{
  State, Options, Chunk, flush_chunk, rotation_required, rotate_if, make_room, flush_if, is_full,
  add_line, byte_length, write_line, write_lines, write_batch,
}
use chatgpt_mcp_clean.Jsonl.After.{
  After, Runs, Runs-bind, Runs-chosen, Runs-from, Runs-weaken, Runs-return,
}
use chatgpt_mcp_clean.Jsonl.Content.{
  content, HasFile, Kept, Written, Runs-ensure_open, Runs-rotate, Runs-flush_chunk,
}

-- Up to `rest`, all of `total` is written, and nothing of `before` is lost.
abbrev pub WrotePart : Text → Text → State → Type 0
WrotePart before total s =
    (part : Text) × (rest : Text) × (content s ≡ before ++ part) × (content s ++ rest ≡ total)

-- What is written and what is buffered make up `total`.
abbrev Writing : Text → Text → Chunk → State → Type 0
Writing before total chunk s =
    HasFile s × (part : Text) × (content s ≡ before ++ part) × (content s ++ chunk.0 ≡ total)

WrotePart-more :
    (before total more : Text) (s : State)
    → WrotePart before total s
    → WrotePart before (total ++ more) s
WrotePart-more before total more s (part, rest, e, h) =
    (part, rest ++ more, e, sym (append_assoc (content s) rest more) ∙ ap (λ b. b ++ more) h)

module _ (o : Options) (now : ℕ) (before : Text) where
  Runs-flush :
      (total : Text) (chunk : Chunk)
      → Runs
          (Writing before total chunk)
          (flush_chunk now chunk)
          (λ left s. (left.0 ≡ []) × Writing before total left s)
          (WrotePart before total)
  Runs-flush total chunk = Runs-from λ s p.
      (Runs-weaken (λ t e. (subst HasFile (sym e) p.0, ap content e))
        (λ left t h. (h.0, after s p left t h.0 h.1))
        (λ t h. (p.1, chunk.0, h ∙ p.2, ap (λ b. b ++ chunk.0) h ∙ p.3))
        (Runs-flush_chunk (content s) now chunk))
    where
      after :
          (s : State)
          → Writing before total chunk s
          → (left : Chunk) (t : State) → (left.0 ≡ [])
          → Written (content s) now chunk t
          → Writing before total left t
      after s p left t empty h = (
        h.0,
        p.1 ++ chunk.0,
        h.1 ∙ ap (λ b. b ++ chunk.0) p.2 ∙ append_assoc before p.1 chunk.0,
        ap (◌++◌ (content t)) empty ∙ append-nil (content t) ∙ h.1 ∙ p.3,
      )

  Runs-rotate_if :
      (total : Text) (left : Chunk) (required : Bool)
      → Runs
          (Writing before total left)
          (rotate_if o now required)
          (λ _. Writing before total left)
          (WrotePart before total)
  Runs-rotate_if total left false = Runs-return tt λ s p. p
  Runs-rotate_if total left true = Runs-from λ s p.
      (Runs-weaken (λ t e. ap content e)
        (λ _ t h. (h.0, p.1, h.1 ∙ p.2, ap (λ b. b ++ left.0) h.1 ∙ p.3))
        (λ t h. (p.1, left.0, h ∙ p.2, ap (λ b. b ++ left.0) h ∙ p.3))
        (Runs-rotate (content s) now))

  Runs-make_room :
      (total : Text) (bytes : ℕ) (chunk : Chunk) (required : Bool)
      → Runs
          (Writing before total chunk)
          (make_room o now required bytes chunk)
          (λ left. Writing before total left)
          (WrotePart before total)
  Runs-make_room total bytes chunk false = Runs-return chunk λ s p. p
  Runs-make_room total bytes chunk true = Runs-bind _ (Runs-flush total chunk) λ left.
      Runs-bind _
        (Runs-chosen (λ s. rotate_if o now (rotation_required o now bytes 0 s))
          λ t.
            Runs-weaken (λ s p. p.0.1) (λ _ s p. p) (λ s p. p)
              (Runs-rotate_if total left (rotation_required o now bytes 0 t)))
        λ _. Runs-return left λ s p. p

  Runs-flush_if :
      (total : Text) (full : Bool) (chunk : Chunk)
      → Runs
          (Writing before total chunk)
          (flush_if o now full chunk)
          (λ left. Writing before total left)
          (WrotePart before total)
  Runs-flush_if total false chunk = Runs-return chunk λ s p. p
  Runs-flush_if total true chunk =
      Runs-weaken (λ s p. p) (λ left s p. p.1) (λ s p. p) (Runs-flush total chunk)

  Runs-write_line :
      (total line : Text) (chunk : Chunk)
      → Runs
          (Writing before total chunk)
          (write_line o now line chunk)
          (λ left. Writing before (total ++ line) left)
          (WrotePart before total)
  unfolding write_line
  Runs-write_line total line chunk =
      Runs-bind _
        (Runs-chosen
          (λ s.
            make_room o now (rotation_required o now (byte_length line) chunk.1 s)
              (byte_length line) chunk)
          λ t.
            Runs-weaken (λ s p. p.0) (λ left s p. p) (λ s p. p)
              (Runs-make_room total (byte_length line) chunk
                (rotation_required o now (byte_length line) chunk.1 t)))
        λ roomy.
          Runs-bind _ (Runs-flush_if total (is_full o now (byte_length line) roomy) roomy) λ left.
            Runs-return (add_line o now line left) λ s p.
              (p.0, p.1, p.2, sym (append_assoc (content s) left.0 line) ∙ ap (λ b. b ++ line) p.3)

  Runs-write_lines :
      (total : Text) (lines : List Text) (chunk : Chunk)
      → Runs
          (Writing before total chunk)
          (write_lines o now lines chunk)
          (λ _ s. content s ≡ total ++ flatten lines)
          (WrotePart before (total ++ flatten lines))
  unfolding write_lines
  Runs-write_lines total [] chunk =
      Runs-bind _
        (Runs-weaken (λ s p. p) (λ left s p. p) (WrotePart-more before total [])
          (Runs-flush total chunk))
        λ left. Runs-return tt λ s p.
          sym (append-nil (content s))
          ∙ sym (ap (◌++◌ (content s)) p.0)
          ∙ p.1.3
          ∙ sym (append-nil total)
  Runs-write_lines total (line ∷ lines) chunk =
      Runs-bind _
        (Runs-weaken (λ s p. p) (λ left s p. p)
          (WrotePart-more before total (line ++ flatten lines)) (Runs-write_line total line chunk))
        λ left.
          subst
            (λ all.
              Runs (Writing before (total ++ line) left) (write_lines o now lines left)
                (λ _ s. content s ≡ all) (WrotePart before all))
            (append_assoc total line (flatten lines)) (Runs-write_lines (total ++ line) lines left)

-- A batch that ends without an error leaves everything that was written before, in the files and
-- the archives together, with its lines after it, each once and in their order, whatever rotations
-- happen. When a call of the file system fails, everything from before is there still, and after it
-- a part of the lines from their beginning.
pub write_batch-content :
    (o : Options) (now : ℕ) (lines : List Text) (s : State)
    → After
        (λ _ t. content t ≡ content s ++ flatten lines)
        (WrotePart (content s) (content s ++ flatten lines))
        (write_batch o now lines s)
unfolding write_batch
write_batch-content o now lines s = runs.run s refl
  where
    runs :
        Runs
          (Kept (content s))
          (write_batch o now lines)
          (λ _ t. content t ≡ content s ++ flatten lines)
          (WrotePart (content s) (content s ++ flatten lines))
    runs =
        Runs-bind _
          (Runs-weaken (λ t p. p) (λ _ t p. p)
            (λ t e. ([], flatten lines, e ∙ sym (append-nil _), ap (λ b. b ++ flatten lines) e))
            (Runs-ensure_open (content s) now))
          λ _.
            Runs-weaken (λ t p. (p.0, [], p.1 ∙ sym (append-nil _), append-nil _ ∙ p.1))
              (λ _ t p. p) (λ t p. p) (Runs-write_lines o now (content s) (content s) lines ([], 0))
