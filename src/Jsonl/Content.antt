-- ===== src/Jsonl/Content.antt =====
-- What src/lib/bounded-jsonl.ts has written: the archived files, the oldest first, and the file.
use chatgpt_mcp_clean.Base.{
  ℕ, Bool, true, false, Option, none, some, List, [], ◌∷◌, ◌++◌, map, flatten, Text, ◌≡◌, refl, sym,
  subst, ap, ◌∙◌, append_assoc, append-nil, flatten-append,
}
use chatgpt_mcp_clean.Jsonl.{
  State, File, Chunk, modify, system_call, open_path, drop_handle, is_same_file, check_handle,
  reopen_unless, move_to_archive, ensure_open, open_or_create, measure, append_to, grow,
  flush_chunk, close_handle, archived, rotate,
}
use chatgpt_mcp_clean.Jsonl.After.{
  Runs, Runs-bind, Runs-chosen, Runs-weaken, Runs-return, Runs-modify, Runs-system_call,
}

abbrev pub text_of : File → Text
text_of f = f.text

abbrev pub contents : List File → Option File → Text
contents files none = flatten (map text_of files)
contents files (some f) = flatten (map text_of files) ++ f.text

-- Every byte that the writer keeps, in order.
unfoldable pub content : State → Text
content s = contents s.archive s.file

abbrev pub HasFile : State → Type 0
HasFile s = (f : File) × (s.file ≡ some f)

abbrev pub Kept : Text → State → Type 0
Kept before s = content s ≡ before

abbrev pub Open : Text → State → Type 0
Open before s = HasFile s × (content s ≡ before)

map-append_text :
    (files more : List File) → map text_of (files ++ more) ≡ map text_of files ++ map text_of more
map-append_text [] more = refl
map-append_text (f ∷ files) more = ap (◌∷◌ f.text) (map-append_text files more)

contents-archived :
    (files : List File) (file : Option File)
    → contents (archived files file) none ≡ contents files file
contents-archived files none = refl
contents-archived files (some f) =
    ap flatten (map-append_text files (f ∷ []))
    ∙ flatten-append (map text_of files) (f.text ∷ [])
    ∙ ap (◌++◌ (flatten (map text_of files))) (append-nil f.text)

content-open_or_create :
    (now : ℕ) (file : Option File) (s : State)
    → s.file ≡ file
    → HasFile (open_or_create now file s) × (content (open_or_create now file s) ≡ content s)
unfolding content
content-open_or_create now none s e = ((_, refl), append-nil _ ∙ ap (contents s.archive) (sym e))
content-open_or_create now (some f) s e = ((f, e), refl)

content-measure :
    (before : Text) (now : ℕ) (file : Option File) (s : State)
    → Open before s
    → Open before (measure now file s)
unfolding content
content-measure before now none s h = h
content-measure before now (some f) s h = h

Runs-system_call-Kept :
    (before : Text) → Runs (Kept before) system_call (λ _. Kept before) (Kept before)
unfolding content
Runs-system_call-Kept before = Runs-system_call (λ s faults h. h) (λ s h. h)

Runs-system_call-Open :
    (before : Text) → Runs (Open before) system_call (λ _. Open before) (Kept before)
unfolding content
Runs-system_call-Open before = Runs-system_call (λ s faults h. h) (λ s h. h.1)

Open-open_or_create :
    (before : Text) (now : ℕ) (s : State)
    → Kept before s
    → Open before (open_or_create now s.file s)
Open-open_or_create before now s h =
    let opened = content-open_or_create now s.file s refl in (opened.0, opened.1 ∙ h)

module _ (before : Text) (now : ℕ) where
  Runs-open_path : Runs (Kept before) (open_path now) (λ _. Open before) (Kept before)
  unfolding open_path
  Runs-open_path =
      Runs-bind (λ _. modify λ s. measure now s.file s)
        (Runs-bind (λ _. system_call)
          (Runs-bind (λ _. modify λ s. open_or_create now s.file s)
            (Runs-bind (λ _. system_call) (Runs-system_call-Kept before)
              λ _. Runs-system_call-Kept before)
            λ _. Runs-modify _ λ s h. Open-open_or_create before now s h)
          λ _. Runs-system_call-Open before)
        λ _. Runs-modify _ λ s h. content-measure before now s.file s h

  Runs-drop_handle : Runs (Kept before) drop_handle (λ _. Kept before) (Kept before)
  unfolding content
  Runs-drop_handle =
      Runs-bind _ (Runs-system_call-Kept before)
        λ _. Runs-modify (λ s. record s { handle = none }) λ s h. h

  Runs-reopen_unless :
      (same : Bool) (t : State)
      → (same ≡ true → HasFile t)
      → Runs
          (λ s. Kept before s × (s ≡ t))
          (reopen_unless now same)
          (λ _. Open before)
          (Kept before)
  Runs-reopen_unless true t h = Runs-return tt λ s p. (subst HasFile (sym p.1) (h refl), p.0)
  Runs-reopen_unless false t h =
      Runs-weaken (λ s p. p.0) (λ _ s p. p) (λ s p. p)
        (Runs-bind (λ _. open_path now) Runs-drop_handle λ _. Runs-open_path)

  HasFile-same :
      (inode : ℕ) (file : Option File)
      → is_same_file inode file ≡ true
      → (f : File) × (file ≡ some f)
  HasFile-same inode none e = absurd (cc e)
  HasFile-same inode (some f) e = (f, refl)

  Runs-check_handle :
      (handle : Option ℕ)
      → Runs (Kept before) (check_handle now handle) (λ _. Open before) (Kept before)
  Runs-check_handle none = Runs-open_path
  Runs-check_handle (some inode) = Runs-bind _ (Runs-system_call-Kept before) λ _.
      Runs-chosen (λ s. reopen_unless now (is_same_file inode s.file))
        λ t. Runs-reopen_unless (is_same_file inode t.file) t (HasFile-same inode t.file)

  pub Runs-ensure_open : Runs (Kept before) (ensure_open now) (λ _. Open before) (Kept before)
  unfolding ensure_open
  Runs-ensure_open = record { run = λ s p. (Runs-check_handle s.handle).run s p }

  Runs-close_handle :
      (handle : Option ℕ)
      → Runs (Kept before) (close_handle handle) (λ _. Kept before) (Kept before)
  Runs-close_handle none = Runs-return tt λ s p. p
  Runs-close_handle (some inode) = Runs-drop_handle

  pub Runs-rotate : Runs (Kept before) (rotate now) (λ _. Open before) (Kept before)
  unfolding rotate content
  Runs-rotate =
      Runs-bind _
        (Runs-bind _
          (Runs-bind _
            (Runs-bind _ (record { run = λ s p. (Runs-close_handle s.handle).run s p })
              λ _. Runs-system_call-Kept before)
            λ _. Runs-system_call-Kept before)
          λ _. Runs-modify (move_to_archive now) λ s p. contents-archived s.archive s.file ∙ p)
        λ _. Runs-ensure_open

  -- The chunk afterwards is empty, and what it held is written.
  abbrev pub Written : Chunk → State → Type 0
  Written chunk s = HasFile s × (content s ≡ before ++ chunk.0)

  content-grow :
      (text : Text) (bytes : ℕ) (s : State)
      → Open before s
      → Written (text, bytes) (grow now (text, bytes) s)
  unfolding content
  content-grow text bytes s p = go s.file p.0.1 p.1
    where
      go :
          (file : Option File) {f : File}
          → (file ≡ some f)
          → contents s.archive file ≡ before
          → ((f : File) × (append_to now text file ≡ some f))
            × (contents s.archive (append_to now text file) ≡ before ++ text)
      go none e h = absurd (cc e)
      go (some f) e h = (
        (_, refl),
        sym (append_assoc (flatten (map text_of s.archive)) f.text text) ∙ ap (λ b. b ++ text) h,
      )

  pub Runs-flush_chunk :
      (chunk : Chunk)
      → Runs
          (Open before)
          (flush_chunk now chunk)
          (λ left s. (left.0 ≡ []) × Written chunk s)
          (Kept before)
  unfolding flush_chunk
  Runs-flush_chunk ([], bytes) =
      Runs-return ([], bytes) λ s p. (refl, (p.0, p.1 ∙ sym (append-nil before)))
  Runs-flush_chunk (c ∷ text, bytes) =
      Runs-bind _
        (Runs-bind _ (Runs-system_call-Open before)
          λ _. Runs-modify (grow now (c ∷ text, bytes)) (content-grow (c ∷ text) bytes))
        λ _. Runs-return ([], 0) λ s p. (refl, p)
