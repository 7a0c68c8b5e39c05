-- ===== src/Paging/Agreement.antt =====
-- The pages of a spool and of output in memory, in src/lib/process-manager.ts.
use chatgpt_mcp_clean.Base.{
  ℕ, ◌+◌, ◌-◌, ◌≤◌, ◌<◌, min, Bool, true, false, ◌&&◌, ◌||◌, none, [], length, take, drop,
  length-take, length-drop, ltb, leb, lt→ltb, if◌then◌else◌, if-cases, Text, Table, lookup, insert,
  erase, erase_absent, ◌≡◌, refl, sym, ap, ap₂, ◌∙◌, arith,
}
use chatgpt_mcp_clean.Paging.{
  OutputCursor, Readers, Legacy, read_same_process_id, stop_reading, Page, cursor_key,
  suppression_key, read_slice, page_limit_of, or_start, is_member, within_totals, suppresses,
  spool_page, note_suppressed, move_cursor, page_spool_output, page_spool_output_async, memory_page,
  page_output,
}
use chatgpt_mcp_clean.Paging.Base64.{
  looks_like_opaque_base64, opaque_base64_min_chars, sample_chars,
}

looks_like_small :
    (sample : Text) (total : ℕ) → total < 64000 → looks_like_opaque_base64 sample total ≡ false
unfolding looks_like_opaque_base64
looks_like_small sample total h =
    let small = lt→ltb total opaque_base64_min_chars h in
    if-cases (λ (b : Bool). b ≡ false) (ltb total opaque_base64_min_chars) (λ e. refl)
      λ e. absurd (cc (small, e))

-- A stream below 64,000 characters that was not suppressed before is not.
pub suppresses_small :
    (spool : Text) (start remaining : ℕ)
    → remaining < 64000
    → suppresses false spool start remaining ≡ false
unfolding suppresses
suppresses_small spool start remaining h =
    let sample : Text =
      if leb opaque_base64_min_chars remaining
      then read_slice spool start (min remaining sample_chars)
      else [] in
    let unlike = looks_like_small sample remaining h in and_false (ltb 0 remaining) unlike
  where
    and_false : (b : Bool) {c : Bool} → c ≡ false → (b && c) ≡ false
    and_false true e = e
    and_false false e = refl

abbrev slice_or_nil : Text → (start count : ℕ) → Text
slice_or_nil s start count = if ltb 0 count then take count (drop start s) else []

slice_or_nil-take :
    (s : Text) (start count : ℕ) → slice_or_nil s start count ≡ take count (drop start s)
slice_or_nil-take s start count =
    if-cases (λ (t : Text). t ≡ take count (drop start s)) (ltb 0 count) (λ e. refl)
      λ e.
        let none_left : 0 ≡ count = ground (arith, e) in ap (λ n. take n (drop start s)) none_left

module _ (legacy : Legacy) (stdout stderr : Text) (cursor : OutputCursor) (limit : ℕ) where
  abbrev stdout_count : ℕ
  stdout_count = min limit (length (drop cursor.stdout stdout))

  abbrev stderr_count : ℕ
  stderr_count = min (limit - stdout_count) (length (drop cursor.stderr stderr))

  abbrev remaining : ℕ
  remaining = length stdout - cursor.stdout

  abbrev shown : Text
  shown = if ltb 0 remaining then take (min limit remaining) (drop cursor.stdout stdout) else []

  abbrev spool_count : ℕ
  spool_count = min (limit - length shown) (length stderr - cursor.stderr)

  abbrev build : (text : Text) (n m : ℕ) (stderr_text : Text) (chars : ℕ) → Page
  build text n m stderr_text chars =
      let more =
        ltb (cursor.stdout + n) (length stdout) || ltb (cursor.stderr + m) (length stderr) in
      record {
        next_action = if more || legacy.running then read_same_process_id else stop_reading;
        stdout = text;
        stderr = stderr_text;
        stdout_start = cursor.stdout;
        stdout_end = cursor.stdout + n;
        stdout_total = length stdout;
        stderr_start = cursor.stderr;
        stderr_end = cursor.stderr + m;
        stderr_total = length stderr;
        page_chars = chars;
        page_limit = limit;
        more = more;
        stdout_truncated = false;
        stderr_truncated = false;
      }

  count_same : min limit remaining ≡ stdout_count
  count_same = ap (min limit) (sym (length-drop cursor.stdout stdout))

  shown_same : shown ≡ take stdout_count (drop cursor.stdout stdout)
  shown_same =
      if-cases (λ (t : Text). t ≡ take stdout_count (drop cursor.stdout stdout)) (ltb 0 remaining)
        (λ e. ap (λ n. take n (drop cursor.stdout stdout)) count_same)
        λ e.
          let same = length-drop cursor.stdout stdout in
          let none_left : 0 ≡ stdout_count = ground (arith, e, same) in
          ap (λ n. take n (drop cursor.stdout stdout)) none_left

  length-shown : length shown ≡ stdout_count
  length-shown =
      ap length shown_same
      ∙ length-take stdout_count (drop cursor.stdout stdout)
      ∙ (let e : min stdout_count (length (drop cursor.stdout stdout)) ≡ stdout_count =
            omega arith in
          e)

  spool_count_same : spool_count ≡ stderr_count
  spool_count_same =
      ap₂ (λ (a b : ℕ). min (limit - a) b) length-shown (sym (length-drop cursor.stderr stderr))

  stderr_same :
      slice_or_nil stderr cursor.stderr spool_count ≡ take stderr_count (drop cursor.stderr stderr)
  stderr_same =
      slice_or_nil-take stderr cursor.stderr spool_count
      ∙ ap (λ n. take n (drop cursor.stderr stderr)) spool_count_same

  length-stderr : length (slice_or_nil stderr cursor.stderr spool_count) ≡ stderr_count
  length-stderr =
      ap length stderr_same
      ∙ length-take stderr_count (drop cursor.stderr stderr)
      ∙ (let e : min stderr_count (length (drop cursor.stderr stderr)) ≡ stderr_count =
            omega arith in
          e)

  pub spool_page-memory_page :
      spool_page legacy stdout stderr cursor limit false
      ≡ memory_page legacy stdout stderr cursor limit
  unfolding spool_page read_slice
  spool_page-memory_page k =
      build (shown_same k) (count_same k) (spool_count_same k) (stderr_same k)
        (ap₂ ◌+◌ length-shown length-stderr k)

-- A page without the marks of a capture that was cut, which only a page of output in memory can have.
abbrev pub unmarked : Page × Readers → Page × Readers
unmarked read = (record read.0 { stdout_truncated = false; stderr_truncated = false }, read.1)

-- Where stdout has fewer than 64,000 characters and was not suppressed before, and the reader's
-- cursor is inside the output, the pages of a spool, read at once or in steps, and of the same output
-- in memory are the same, but for the marks of a capture that was cut, and so is what is kept of
-- the readers.
pub page_spool_output-page_output :
    (process_id caller_id : Text) (legacy : Legacy) (stdout stderr : Text)
    → (stdout_truncated stderr_truncated : Bool) (requested : ℕ) (r : Readers)
    → length stdout < 64000
    → lookup (suppression_key (cursor_key process_id caller_id)) r.suppressed ≡ none
    → (or_start (lookup (cursor_key process_id caller_id) r.cursors)).stdout ≤ length stdout
    → (or_start (lookup (cursor_key process_id caller_id) r.cursors)).stderr ≤ length stderr
    → (page_spool_output process_id caller_id legacy stdout stderr requested r
        ≡ unmarked (
            page_output process_id caller_id legacy stdout stderr stdout_truncated stderr_truncated
              requested r))
      × (page_spool_output_async process_id caller_id legacy stdout stderr requested true r
          ≡ unmarked (
              page_output process_id caller_id legacy stdout stderr stdout_truncated
                stderr_truncated requested r))
unfolding page_spool_output page_spool_output_async page_output
page_spool_output-page_output process_id caller_id legacy stdout stderr stdout_truncated
      stderr_truncated requested r small absent a b =
    (agree, agree)
  where
    key : Text
    key = cursor_key process_id caller_id

    limit : ℕ
    limit = page_limit_of requested

    prior : OutputCursor
    prior = or_start (lookup key r.cursors)

    in_memory : Page
    in_memory = memory_page legacy stdout stderr prior limit

    spool_result : OutputCursor → Bool → Page × Readers
    spool_result cursor suppress =
        let page = spool_page legacy stdout stderr cursor limit suppress in
        (page, move_cursor key legacy page (note_suppressed key suppress r))

    within : within_totals prior (length stdout) (length stderr) ≡ prior
    within =
        ap₂ (λ (m n : ℕ). record { stdout = m; stderr = n })
          (let e : min prior.stdout (length stdout) ≡ prior.stdout = omega (arith, a) in e)
          (let e : min prior.stderr (length stderr) ≡ prior.stderr = omega (arith, b) in e)

    start_at : ℕ
    start_at = min prior.stdout (length stdout)

    unsuppressed :
        suppresses
          (is_member (lookup (suppression_key key) r.suppressed))
          stdout
          start_at
          (length stdout - start_at)
        ≡ false
    unsuppressed =
        ap (λ known. suppresses (is_member known) stdout start_at (length stdout - start_at)) absent
        ∙ suppresses_small stdout start_at (length stdout - start_at) (omega (arith, small))

    moved :
        (page : Page)
        → move_cursor key legacy page r ≡ record r {
          cursors =
              if page.more || legacy.running
              then insert key
                  (record { stdout = page.stdout_end; stderr = page.stderr_end })
                  r.cursors
              else erase key r.cursors;
        }
    moved page = go (page.more || legacy.running)
      where
        ahead : OutputCursor
        ahead = record { stdout = page.stdout_end; stderr = page.stderr_end }

        go :
            (b : Bool)
            → (if b then record r { cursors = insert key ahead r.cursors } else record r {
              cursors = erase key r.cursors;
              suppressed = erase (suppression_key key) r.suppressed;
            })
              ≡ record r { cursors = if b then insert key ahead r.cursors else erase key r.cursors }
        go true = refl
        go false =
            ap
              (λ (s : Table (Unit {0})). record r { cursors = erase key r.cursors; suppressed = s })
              (erase_absent (suppression_key key) r.suppressed absent)

    agree :
        spool_result (within_totals prior (length stdout) (length stderr)) (
          suppresses
            (is_member (lookup (suppression_key key) r.suppressed))
            stdout
            start_at
            (length stdout - start_at))
        ≡ unmarked (
            page_output process_id caller_id legacy stdout stderr stdout_truncated stderr_truncated
              requested r)
    agree =
        ap₂ spool_result within unsuppressed
        ∙ ap (λ (page : Page). (page, move_cursor key legacy page r))
            (spool_page-memory_page legacy stdout stderr prior limit)
        ∙ ap (λ (kept : Readers). (in_memory, kept)) (moved in_memory)
