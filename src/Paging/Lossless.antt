-- ===== src/Paging/Lossless.antt =====
-- Reading the output of a process of src/lib/process-manager.ts page by page to its end.
use chatgpt_mcp_clean.Base.{
  ℕ, zero, suc, ◌+◌, ◌-◌, ◌≤◌, ◌<◌, min, Bool, true, false, ◌||◌, Option, none, some, List, [], ◌∷◌,
  ◌++◌, length, take, drop, map, flatten, All, length-drop, drop_all, drop-drop, take-append-drop,
  append-nil, ltb, if◌then◌else◌, Text, lookup, insert, erase, lookup-insert_self, ◌≡◌, refl, sym,
  ap, ◌∙◌, subst, arith,
}
use chatgpt_mcp_clean.Paging.{
  OutputCursor, Readers, Legacy, Page, cursor_key, suppression_key, page_limit_of, or_start,
  page_spool_output, memory_page, page_output,
}
use chatgpt_mcp_clean.Paging.Agreement.{unmarked, page_spool_output-page_output}

module _ (process_id caller_id : Text) (legacy : Legacy) (stdout stderr : Text)
    (requested : ℕ) where
  abbrev or_stop : Page → Option (List Page) → Option (List Page)
  or_stop page none = none
  or_stop page (some pages) = some (page ∷ pages)

  abbrev go_on : (Readers → Option (List Page)) → Page × Readers → Option (List Page)
  go_on rest read =
      let later = rest read.1 in if read.0.more then or_stop read.0 later else some (read.0 ∷ [])

  -- Read until a page says that there is no more.
  unfoldable pub read_pages : (rounds : ℕ) → Readers → Option (List Page)
  read_pages zero r = none
  read_pages (suc rounds) r =
      go_on (read_pages rounds)
        (page_spool_output process_id caller_id legacy stdout stderr requested r)

  abbrev pub cursor_of : Readers → OutputCursor
  cursor_of r = or_start (lookup (cursor_key process_id caller_id) r.cursors)

  -- The cursor is inside the output, and stdout is not suppressed.
  abbrev pub Inside : Readers → Type 0
  Inside r =
      ((cursor_of r).stdout ≤ length stdout)
      × ((cursor_of r).stderr ≤ length stderr)
      × (lookup (suppression_key (cursor_key process_id caller_id)) r.suppressed ≡ none)

  -- The pages hold the rest of both streams, and none is larger than the limit.
  abbrev pub Rest : OutputCursor → List Page → Type 0
  Rest cursor pages =
      (flatten (map (λ (page : Page). page.stdout) pages) ≡ drop cursor.stdout stdout)
      × (flatten (map (λ (page : Page). page.stderr) pages) ≡ drop cursor.stderr stderr)
      × All (λ (page : Page). page.page_chars ≤ page_limit_of requested) pages

  abbrev page_at : OutputCursor → Page
  page_at cursor = memory_page legacy stdout stderr cursor (page_limit_of requested)

  abbrev next_cursor : OutputCursor → OutputCursor
  next_cursor cursor = record {
    stdout = (page_at cursor).stdout_end;
    stderr = (page_at cursor).stderr_end;
  }

  take_then : (s : Text) (start n : ℕ) → take n (drop start s) ++ drop (start + n) s ≡ drop start s
  take_then s start n =
      ap (◌++◌ (take n (drop start s))) (sym (drop-drop n start s))
      ∙ take-append-drop n (drop start s)

  page_chars_le : (cursor : OutputCursor) → (page_at cursor).page_chars ≤ page_limit_of requested
  page_chars_le cursor = omega arith

  ended : {x a y b : ℕ} → ltb x a || ltb y b ≡ false → (a ≤ x) × (b ≤ y)
  ended e = (ground arith, ground arith)

  Rest-last :
      (cursor : OutputCursor) → (page_at cursor).more ≡ false → Rest cursor (page_at cursor ∷ [])
  Rest-last cursor e = (
    append-nil _ ∙ all stdout cursor.stdout _ (ended e).0,
    append-nil _ ∙ all stderr cursor.stderr _ (ended e).1,
    (page_chars_le cursor, tt),
  )
    where
      all : (s : Text) (start n : ℕ) → length s ≤ start + n → take n (drop start s) ≡ drop start s
      all s start n h =
          sym (append-nil _)
          ∙ sym (ap (◌++◌ (take n (drop start s))) (drop_all (start + n) s h))
          ∙ take_then s start n

  Rest-cons :
      (cursor : OutputCursor) (pages : List Page)
      → Rest (next_cursor cursor) pages
      → Rest cursor (page_at cursor ∷ pages)
  Rest-cons cursor pages (out, err, small) = (
    ap (◌++◌ (page_at cursor).stdout) out ∙ take_then stdout cursor.stdout _,
    ap (◌++◌ (page_at cursor).stderr) err ∙ take_then stderr cursor.stderr _,
    (page_chars_le cursor, small),
  )

  -- A page that is not the last moves the cursor forward, inside the output.
  advances :
      (cursor : OutputCursor)
      → cursor.stdout ≤ length stdout
      → cursor.stderr ≤ length stderr
      → (page_at cursor).more ≡ true
      → ((next_cursor cursor).stdout ≤ length stdout)
        × ((next_cursor cursor).stderr ≤ length stderr)
        × (cursor.stdout + cursor.stderr
            < (next_cursor cursor).stdout + (next_cursor cursor).stderr)
  advances cursor a b e =
      let out = length-drop cursor.stdout stdout in
      let err = length-drop cursor.stderr stderr in
      (
        omega (arith, out, a),
        omega (arith, err, b),
        ahead _ _ _ _ _ _ _ out err a b (omega arith) e,
      )
    where
      ahead :
          (limit x l m y k n : ℕ)
          → l ≡ m - x
          → k ≡ n - y
          → x ≤ m
          → y ≤ n
          → 1 ≤ limit
          → ltb (x + min limit l) m || ltb (y + min (limit - min limit l) k) n ≡ true
          → x + y < x + min limit l + (y + min (limit - min limit l) k)
      ahead limit x l m y k n f g a b h e = ground arith

  abbrev kept : Readers → Readers
  kept r = record r {
    cursors = insert (cursor_key process_id caller_id) (next_cursor (cursor_of r)) r.cursors;
  }

  cursor_of-kept : (r : Readers) → cursor_of (kept r) ≡ next_cursor (cursor_of r)
  cursor_of-kept r =
      ap or_start
        (lookup-insert_self (cursor_key process_id caller_id) (next_cursor (cursor_of r)) r.cursors)

  page_output-kept :
      (r : Readers)
      → (page_at (cursor_of r)).more ≡ true
      → (page_output process_id caller_id legacy stdout stderr false false requested r).1 ≡ kept r
  unfolding page_output
  page_output-kept r e = go (page_at (cursor_of r)).more e
    where
      go :
          (more : Bool)
          → more ≡ true
          → record r {
            cursors =
                if more || legacy.running
                then insert (cursor_key process_id caller_id) (next_cursor (cursor_of r)) r.cursors
                else erase (cursor_key process_id caller_id) r.cursors;
          }
            ≡ kept r
      go true e = refl
      go false e = absurd (cc e)

  page_output-page :
      (r : Readers)
      → unmarked (page_output process_id caller_id legacy stdout stderr false false requested r) ≡ (
        page_at (cursor_of r),
        (page_output process_id caller_id legacy stdout stderr false false requested r).1,
      )
  unfolding page_output
  page_output-page r = refl

  abbrev Reads : ℕ → Readers → Type 0
  Reads rounds r =
      (pages : List Page) × (read_pages rounds r ≡ some pages) × Rest (cursor_of r) pages

  read_step :
      (rounds : ℕ) (r : Readers)
      → Inside r
      → length stdout < 64000
      → ((page_at (cursor_of r)).more ≡ true → Reads rounds (kept r))
      → Reads (suc rounds) r
  unfolding read_pages
  read_step rounds r inside small next = go (page_at (cursor_of r)).more refl
    where
      agree :
          read_pages (suc rounds) r
          ≡ go_on (read_pages rounds) (
            page_at (cursor_of r),
            (page_output process_id caller_id legacy stdout stderr false false requested r).1,
          )
      agree = ap (go_on (read_pages rounds)) (
          (page_spool_output-page_output process_id caller_id legacy stdout stderr false false
            requested r small inside.2 inside.0 inside.1).0
          ∙ page_output-page r)

      ends :
          (more : Bool) (later : Option (List Page))
          → more ≡ false
          → (if more
              then or_stop (page_at (cursor_of r)) later
              else some (page_at (cursor_of r) ∷ []))
            ≡ some (page_at (cursor_of r) ∷ [])
      ends true later e = absurd (cc e)
      ends false later e = refl

      more_pages :
          (more : Bool) {later : Option (List Page)} {pages : List Page}
          → more ≡ true
          → later ≡ some pages
          → (if more
              then or_stop (page_at (cursor_of r)) later
              else some (page_at (cursor_of r) ∷ []))
            ≡ some (page_at (cursor_of r) ∷ pages)
      more_pages true e f = ap (or_stop (page_at (cursor_of r))) f
      more_pages false e f = absurd (cc e)

      go : (more : Bool) → (page_at (cursor_of r)).more ≡ more → Reads (suc rounds) r
      go false e = (
        page_at (cursor_of r) ∷ [],
        agree ∙ ends (page_at (cursor_of r)).more _ e,
        Rest-last (cursor_of r) e,
      )
      go true e =
          let read = next e in
          (
            page_at (cursor_of r) ∷ read.0,
            agree
                ∙ more_pages (page_at (cursor_of r)).more e
                    (ap (read_pages rounds) (page_output-kept r e) ∙ read.1),
            Rest-cons (cursor_of r) read.0
                (subst (λ cursor. Rest cursor read.0) (cursor_of-kept r) read.2),
          )

  read_all :
      (rounds : ℕ) (r : Readers)
      → Inside r
      → length stdout < 64000
      → length stdout + length stderr < rounds + ((cursor_of r).stdout + (cursor_of r).stderr)
      → Reads rounds r
  read_all zero r inside small enough = absurd (omega (arith, inside.0, inside.1, enough))
  read_all (suc rounds) r inside small enough = read_step rounds r inside small λ e.
      let ahead = advances (cursor_of r) inside.0 inside.1 e in
      let same = sym (cursor_of-kept r) in
      let fuel =
        subst (λ cursor. length stdout + length stderr < rounds + (cursor.stdout + cursor.stderr))
          same (omega (arith, enough, ahead.2)) in
      read_all rounds (kept r)
        (
          subst (λ cursor. cursor.stdout ≤ length stdout) same ahead.0,
          subst (λ cursor. cursor.stderr ≤ length stderr) same ahead.1,
          inside.2,
        )
        small fuel

-- A reader whose cursor is inside the output of a process, with less than 64,000 characters of
-- stdout that was not suppressed, gets to the end by reading again while a page says that there is
-- more, within one read more than there are characters left. The pages then hold the rest of both
-- streams, each character once and in order, and no page is larger than the limit.
pub read_pages-Rest :
    (process_id caller_id : Text) (legacy : Legacy) (stdout stderr : Text) (requested rounds : ℕ)
    → (r : Readers) → Inside process_id caller_id legacy stdout stderr requested r
    → length stdout < 64000
    → length stdout + length stderr
      < rounds
        + ((or_start (lookup (cursor_key process_id caller_id) r.cursors)).stdout
            + (or_start (lookup (cursor_key process_id caller_id) r.cursors)).stderr)
    → (pages : List Page) × (read_pages process_id caller_id legacy stdout stderr requested rounds r
        ≡ some pages)
      × Rest process_id caller_id legacy stdout stderr requested
          (or_start (lookup (cursor_key process_id caller_id) r.cursors))
          pages
read_pages-Rest process_id caller_id legacy stdout stderr requested rounds r inside small enough =
    read_all process_id caller_id legacy stdout stderr requested rounds r inside small enough
