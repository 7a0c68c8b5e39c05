-- ===== src/Paging.antt =====
-- How src/lib/process-manager.ts hands out the output of a process in pages: `pageSpoolOutputAsync`,
-- `pageSpoolOutput` and `pageOutput`, with the cursors that they keep. A spool is the text of its
-- file, and a missing file has none. Of the reply, the fields that a page sets or may take out are
-- here, but for `stdout_dropped_from_start` and `stderr_dropped_from_start`, which no page has; the
-- others pass through.
pub mod Base64
pub mod Lossless
pub mod Agreement
mod Tests
use Base64.{looks_like_opaque_base64, opaque_base64_min_chars, sample_chars, marker}
use chatgpt_mcp_clean.Base.{
  ℕ, zero, suc, ◌+◌, ◌-◌, ◌*◌, min, max, Bool, true, false, ◌&&◌, ◌||◌, Option, none, some, List,
  [], ◌∷◌, ◌++◌, length, take, drop, ltb, leb, if◌then◌else◌, Text, codes, Table, lookup, insert,
  erase,
}

abbrev pub max_read_chars : ℕ
max_read_chars = 256000

pub record OutputCursor : Type 0 where
  pub stdout : ℕ
  pub stderr : ℕ

abbrev pub start : OutputCursor
start = record { stdout = 0; stderr = 0 }

-- `outputCursors` and `suppressedBase64Streams`.
pub record Readers : Type 0 where
  pub cursors : Table OutputCursor
  pub suppressed : Table (Unit {0})

-- What the reply says before: whether the process runs, whether `stdout_truncated` and
-- `stderr_truncated` are there, and `stdout_sha256` if it is.
pub record Legacy : Type 0 where
  pub running : Bool
  pub stdout_truncated : Bool
  pub stderr_truncated : Bool
  pub stdout_sha256 : Option Text

pub data NextAction : Type 0 where
  read_same_process_id : NextAction
  stop_reading : NextAction

pub record Page : Type 0 where
  pub next_action : NextAction
  pub stdout : Text
  pub stderr : Text
  pub stdout_start : ℕ
  pub stdout_end : ℕ
  pub stdout_total : ℕ
  pub stderr_start : ℕ
  pub stderr_end : ℕ
  pub stderr_total : ℕ
  pub page_chars : ℕ
  pub page_limit : ℕ
  pub more : Bool
  pub stdout_truncated : Bool
  pub stderr_truncated : Bool

abbrev pub cursor_key : (process_id caller_id : Text) → Text
cursor_key process_id caller_id = process_id ++ (58 ∷ caller_id)

abbrev pub suppression_key : Text → Text
suppression_key key = key ++ codes ":stdout"

-- `readSpoolSlice`.
unfoldable pub read_slice : Text → (start count : ℕ) → Text
read_slice spool start count = take count (drop start spool)

abbrev pub page_limit_of : ℕ → ℕ
page_limit_of requested = max 1 (min requested max_read_chars)

abbrev pub or_start : Option OutputCursor → OutputCursor
or_start none = start
or_start (some cursor) = cursor

abbrev pub is_member : Option (Unit {0}) → Bool
is_member none = false
is_member (some u) = true

abbrev pub within_totals : OutputCursor → (stdout_total stderr_total : ℕ) → OutputCursor
within_totals prior stdout_total stderr_total = record {
  stdout = min prior.stdout stdout_total;
  stderr = min prior.stderr stderr_total;
}

-- `suppressStdout`, for what remains from the cursor on.
unfoldable pub suppresses : (known : Bool) → Text → (start remaining : ℕ) → Bool
unfolding read_slice
suppresses known spool start remaining =
    let sample =
      if leb opaque_base64_min_chars remaining
      then read_slice spool start (min remaining sample_chars)
      else [] in
    ltb 0 remaining && (known || looks_like_opaque_base64 sample remaining)

-- The page from a cursor, with what is shown of stdout and how much of it that takes.
abbrev pub page_of :
    Legacy
    → (stdout_total : ℕ) → (stderr : Text) → OutputCursor
    → (limit : ℕ) → (text : Text) → (consumed : ℕ) → Page
page_of legacy stdout_total stderr cursor limit text consumed =
    let budget = limit - length text in
    let stderr_count = min budget (length stderr - cursor.stderr) in
    let next_stdout = cursor.stdout + consumed in
    let next_stderr = cursor.stderr + stderr_count in
    let more = ltb next_stdout stdout_total || ltb next_stderr (length stderr) in
    let stderr_text =
      if ltb 0 stderr_count then read_slice stderr cursor.stderr stderr_count else [] in
    record {
      next_action = if more || legacy.running then read_same_process_id else stop_reading;
      stdout = text;
      stderr = stderr_text;
      stdout_start = cursor.stdout;
      stdout_end = next_stdout;
      stdout_total = stdout_total;
      stderr_start = cursor.stderr;
      stderr_end = next_stderr;
      stderr_total = length stderr;
      page_chars = length text + length stderr_text;
      page_limit = limit;
      more = more;
      stdout_truncated = false;
      stderr_truncated = false;
    }

-- The page of a spool, whether or not its stdout is suppressed.
unfoldable pub spool_page :
    Legacy → (stdout stderr : Text) → OutputCursor → (limit : ℕ) → (suppress : Bool) → Page
unfolding read_slice
spool_page legacy stdout stderr cursor limit suppress =
    let remaining = length stdout - cursor.stdout in
    let shown =
      if ltb 0 remaining then read_slice stdout cursor.stdout (min limit remaining) else [] in
    let text = if suppress then marker remaining legacy.stdout_sha256 else shown in
    let consumed = if suppress then remaining else min limit remaining in
    page_of legacy (length stdout) stderr cursor limit text consumed

abbrev pub note_suppressed : Text → Bool → Readers → Readers
note_suppressed key suppress r =
    if suppress then record r { suppressed = insert (suppression_key key) tt r.suppressed } else r

-- What the readers keep after a page.
abbrev pub move_cursor : Text → Legacy → Page → Readers → Readers
move_cursor key legacy page r =
    if page.more || legacy.running
    then record r {
      cursors =
          insert key (record { stdout = page.stdout_end; stderr = page.stderr_end }) r.cursors;
    }
    else record r {
      cursors = erase key r.cursors;
      suppressed = erase (suppression_key key) r.suppressed;
    }

abbrev pub prior_cursor : Bool → Text → Readers → OutputCursor
prior_cursor consume key r = if consume then or_start (lookup key r.cursors) else start

unfoldable pub page_spool_output_async :
    (process_id caller_id : Text)
    → Legacy
    → (stdout stderr : Text) → (requested : ℕ) → (consume_cursor : Bool) → Readers
    → Page × Readers
unfolding spool_page suppresses
page_spool_output_async process_id caller_id legacy stdout stderr requested consume_cursor r =
    let key = cursor_key process_id caller_id in
    let prior = prior_cursor consume_cursor key r in
    let cursor = within_totals prior (length stdout) (length stderr) in
    let known = is_member (lookup (suppression_key key) r.suppressed) in
    let suppress = suppresses known stdout cursor.stdout (length stdout - cursor.stdout) in
    let page = spool_page legacy stdout stderr cursor (page_limit_of requested) suppress in
    (
      page,
      if consume_cursor then move_cursor key legacy page (note_suppressed key suppress r) else r,
    )

unfoldable pub page_spool_output :
    (process_id caller_id : Text)
    → Legacy
    → (stdout stderr : Text) → (requested : ℕ) → Readers
    → Page × Readers
unfolding spool_page suppresses
page_spool_output process_id caller_id legacy stdout stderr requested r =
    let key = cursor_key process_id caller_id in
    let prior = or_start (lookup key r.cursors) in
    let cursor = within_totals prior (length stdout) (length stderr) in
    let known = is_member (lookup (suppression_key key) r.suppressed) in
    let suppress = suppresses known stdout cursor.stdout (length stdout - cursor.stdout) in
    let page = spool_page legacy stdout stderr cursor (page_limit_of requested) suppress in
    (page, move_cursor key legacy page (note_suppressed key suppress r))

-- A page of output in memory.
abbrev pub memory_page : Legacy → (stdout stderr : Text) → OutputCursor → (limit : ℕ) → Page
memory_page legacy stdout stderr cursor limit =
    let remaining_stdout = drop cursor.stdout stdout in
    let remaining_stderr = drop cursor.stderr stderr in
    let stdout_count = min limit (length remaining_stdout) in
    let stderr_count = min (limit - stdout_count) (length remaining_stderr) in
    let next_stdout = cursor.stdout + stdout_count in
    let next_stderr = cursor.stderr + stderr_count in
    let more = ltb next_stdout (length stdout) || ltb next_stderr (length stderr) in
    record {
      next_action = if more || legacy.running then read_same_process_id else stop_reading;
      stdout = take stdout_count remaining_stdout;
      stderr = take stderr_count remaining_stderr;
      stdout_start = cursor.stdout;
      stdout_end = next_stdout;
      stdout_total = length stdout;
      stderr_start = cursor.stderr;
      stderr_end = next_stderr;
      stderr_total = length stderr;
      page_chars = stdout_count + stderr_count;
      page_limit = limit;
      more = more;
      stdout_truncated = false;
      stderr_truncated = false;
    }

-- The marks of a capture that was cut are left in the reply, if they are there.
abbrev pub keep_marks : Legacy → (stdout_truncated stderr_truncated : Bool) → Page → Page
keep_marks legacy stdout_truncated stderr_truncated page = record page {
  stdout_truncated = stdout_truncated && legacy.stdout_truncated;
  stderr_truncated = stderr_truncated && legacy.stderr_truncated;
}

-- It leaves `suppressedBase64Streams` alone.
unfoldable pub page_output :
    (process_id caller_id : Text)
    → Legacy
    → (stdout stderr : Text) → (stdout_truncated stderr_truncated : Bool) → (requested : ℕ)
    → Readers
    → Page × Readers
page_output process_id caller_id legacy stdout stderr stdout_truncated stderr_truncated requested
      r =
    let key = cursor_key process_id caller_id in
    let cursor = or_start (lookup key r.cursors) in
    let page =
      keep_marks legacy stdout_truncated stderr_truncated
        (memory_page legacy stdout stderr cursor (page_limit_of requested)) in
    let cursors =
      if page.more || legacy.running
      then insert key (record { stdout = page.stdout_end; stderr = page.stderr_end }) r.cursors
      else erase key r.cursors in
    (page, record r { cursors = cursors })
