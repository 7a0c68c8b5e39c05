-- ===== src/Jsonl.antt =====
-- The files of `BoundedJsonlWriter` in src/lib/bounded-jsonl.ts: opening, writing a batch of lines,
-- and rotation. Jsonl.Queue has the lines that wait.
-- A batch meets one reading of the clock, and other processes move the file between batches only.
-- `handle.write` writes all of its chunk or throws: the source does not look at how much was written.
pub mod Content
pub mod Lines
pub mod After
mod Bytes
pub mod Bound
pub mod Limit
pub mod Queue
mod Tests
use chatgpt_mcp_clean.Base.{
  ℕ, suc, ◌+◌, Bool, true, false, ◌&&◌, ◌||◌, Option, none, some, List, [], ◌∷◌, ◌++◌, ltb, leb,
  ◌==◌, if◌then◌else◌, Text,
}

-- `Buffer.byteLength(line, "utf8")`; a surrogate that stands alone is written in three bytes.
unfoldable pub byte_length : Text → ℕ
byte_length [] = 0
byte_length (c ∷ []) = if ltb c 0x80 then 1 else if ltb c 0x800 then 2 else 3
byte_length (c ∷ d ∷ s) =
    let pair = byte_length s + 4 in
    let rest = byte_length (d ∷ s) in
    if ltb c 0x80
    then rest + 1
    else if ltb c 0x800
    then rest + 2
    else if (leb 0xd800 c && ltb c 0xdc00) && (leb 0xdc00 d && ltb d 0xe000)
    then pair
    else rest + 3

pub record Options : Type 0 where
  pub max_bytes : ℕ
  pub max_age_ms : ℕ
  pub batch_delay_ms : ℕ
  pub max_batch_bytes : ℕ

-- A file on disk; `inode` tells it from others that had its path.
pub record File : Type 0 where
  pub inode : ℕ
  pub text : Text
  pub bytes : ℕ
  pub modified : ℕ

-- The writer's handle, size and opening time, the file at its path, and the archive, the oldest
-- first. `faults` says which of the calls to come fail: one entry for each, none from its end on.
pub record State : Type 0 where
  pub handle : Option ℕ
  pub size : ℕ
  pub opened_at : ℕ
  pub file : Option File
  pub archive : List File
  pub next_inode : ℕ
  pub faults : List Bool

pub data Result {ℓ} (A : Type ℓ) : Type ℓ where
  ok : A → Result A
  io_error : Result A

abbrev pub Io : Type 0 → Type 0
Io A = State → Result A × State

abbrev pub follow : {A B : Type 0} → (A → Io B) → Result A → Io B
follow f (ok a) s = f a s
follow f io_error s = (io_error, s)

infixl 5 ◌>>=◌ ◌>>◌
abbrev pub ◌>>=◌ : {A B : Type 0} → Io A → (A → Io B) → Io B
◌>>=◌ m f s = follow f (m s).0 (m s).1

abbrev pub ◌>>◌ : {A B : Type 0} → Io A → Io B → Io B
m >> k = m >>= λ _. k

abbrev pub return : {A : Type 0} → A → Io A
return a s = (ok a, s)

abbrev pub modify : (State → State) → Io (Unit {0})
modify f s = (ok tt, f s)

abbrev pub fault_or_not : List Bool → Io (Unit {0})
fault_or_not [] s = (ok tt, s)
fault_or_not (true ∷ faults) s = (io_error, record s { faults = faults })
fault_or_not (false ∷ faults) s = (ok tt, record s { faults = faults })

-- One call of the file system that may fail.
unfoldable pub system_call : Io (Unit {0})
system_call s = fault_or_not s.faults s

abbrev pub new_file : ℕ → ℕ → File
new_file inode now = record { inode = inode; text = []; bytes = 0; modified = now }

abbrev pub open_or_create : ℕ → Option File → State → State
open_or_create now none s = record s {
  file = some (new_file s.next_inode now);
  next_inode = suc s.next_inode;
  handle = some s.next_inode;
}
open_or_create now (some f) s = record s { handle = some f.inode }

abbrev pub measure : ℕ → Option File → State → State
measure now none s = s
measure now (some f) s = record s {
  size = f.bytes;
  opened_at = if ltb 0 f.bytes then f.modified else now;
}

-- The last part of `ensureOpen`: make the directory, open the path for appending, look at its size.
unfoldable pub open_path : ℕ → Io (Unit {0})
unfolding system_call
open_path now =
    system_call
    >> system_call
    >> modify (λ s. open_or_create now s.file s)
    >> system_call
    >> modify (λ s. measure now s.file s)

abbrev pub is_same_file : ℕ → Option File → Bool
is_same_file inode none = false
is_same_file inode (some f) = inode == f.inode

abbrev pub drop_handle : Io (Unit {0})
drop_handle = system_call >> modify λ s. record s { handle = none }

abbrev pub reopen_unless : ℕ → Bool → Io (Unit {0})
reopen_unless now true = return tt
reopen_unless now false = drop_handle >> open_path now

abbrev pub check_handle : ℕ → Option ℕ → Io (Unit {0})
check_handle now none = open_path now
check_handle now (some inode) =
    system_call >> λ s. (reopen_unless now (is_same_file inode s.file)) s

unfoldable pub ensure_open : ℕ → Io (Unit {0})
ensure_open now s = check_handle now s.handle s

-- What is buffered: its text and its bytes.
abbrev pub Chunk : Type 0
Chunk = Text × ℕ

abbrev pub append_to : ℕ → Text → Option File → Option File
append_to now text none = none
append_to now text (some f) =
    some (record f { text = f.text ++ text; bytes = f.bytes + byte_length text; modified = now })

-- `handle.write` that has written the whole chunk.
abbrev pub grow : ℕ → Chunk → State → State
grow now (text, bytes) s = record s { file = append_to now text s.file; size = s.size + bytes }

-- `flushChunk`: the chunk afterwards.
unfoldable pub flush_chunk : ℕ → Chunk → Io Chunk
flush_chunk now ([], bytes) = return ([], bytes)
flush_chunk now (c ∷ text, bytes) =
    system_call >> modify (grow now (c ∷ text, bytes)) >> return ([], 0)

abbrev pub close_handle : Option ℕ → Io (Unit {0})
close_handle none = return tt
close_handle (some inode) = drop_handle

abbrev pub archived : List File → Option File → List File
archived files none = files
archived files (some f) = files ++ f ∷ []

abbrev pub move_to_archive : ℕ → State → State
move_to_archive now s = record s {
  archive = archived s.archive s.file;
  file = none;
  size = 0;
  opened_at = now;
}

-- `rotate`; a missing file is no error.
unfoldable pub rotate : ℕ → Io (Unit {0})
unfolding ensure_open
rotate now =
    (λ (s : State). close_handle s.handle s)
    >> system_call
    >> system_call
    >> modify (move_to_archive now)
    >> ensure_open now

module _ (o : Options) (now : ℕ) where
  abbrev pub age_expired : State → Bool
  age_expired s = ltb 0 s.size && leb (s.opened_at + o.max_age_ms) now

  abbrev pub rotation_required : (next_bytes buffered_bytes : ℕ) → State → Bool
  rotation_required next_bytes buffered_bytes s =
      ltb 0 (s.size + buffered_bytes)
      && (ltb o.max_bytes (s.size + buffered_bytes + next_bytes) || age_expired s)

  abbrev pub rotate_if : Bool → Io (Unit {0})
  rotate_if true = rotate now
  rotate_if false = return tt

  -- The first `if` of the loop: the chunk afterwards.
  abbrev pub make_room : Bool → ℕ → Chunk → Io Chunk
  make_room false bytes chunk = return chunk
  make_room true bytes chunk = flush_chunk now chunk >>= λ left.
      (λ (s : State). rotate_if (rotation_required bytes 0 s) s) >> return left

  -- The second: a chunk that would grow too large is written first.
  abbrev pub flush_if : Bool → Chunk → Io Chunk
  flush_if false chunk = return chunk
  flush_if true chunk = flush_chunk now chunk

  abbrev pub is_full : ℕ → Chunk → Bool
  is_full bytes (text, buffered) = ltb 0 buffered && ltb o.max_batch_bytes (buffered + bytes)

  abbrev pub add_line : Text → Chunk → Chunk
  add_line line (text, buffered) = (text ++ line, buffered + byte_length line)

  -- The body of the loop over the lines.
  unfoldable pub write_line : Text → Chunk → Io Chunk
  write_line line chunk =
      (λ s. make_room (rotation_required (byte_length line) chunk.1 s) (byte_length line) chunk s)
      >>= λ roomy.
          flush_if (is_full (byte_length line) roomy) roomy >>= λ left. return (add_line line left)

  unfoldable pub write_lines : List Text → Chunk → Io (Unit {0})
  write_lines [] chunk = flush_chunk now chunk >> return tt
  write_lines (line ∷ lines) chunk = write_line line chunk >>= write_lines lines

  unfoldable pub write_batch : List Text → Io (Unit {0})
  write_batch lines = ensure_open now >> write_lines lines ([], 0)
