-- ===== src/Jsonl/Queue/Drained.antt =====
-- Where the lines are that the queue of src/lib/bounded-jsonl.ts accepted, and how they leave it.
use chatgpt_mcp_clean.Base.{
  ◌+◌, Bool, true, false, ◌||◌, List, [], ◌∷◌, ◌++◌, flatten, leb, ◌==◌, if◌then◌else◌, if-cases,
  Text, ◌≡◌, refl, sym, ap, ap₂, ◌∙◌, append_assoc, append-nil,
}
use chatgpt_mcp_clean.Jsonl.{Options, byte_length}
use chatgpt_mcp_clean.Jsonl.Queue.{
  Queue, is_empty, arm_flush_timer, clear_flush_timer, schedule_drain, write_line, flush_timer,
  flush, close, end_drain, drain_queued, finish, Event, World, start, start_if, end_batch, end_if,
  happen, run, Stage, not_begun, writing, finished,
}

abbrev pub lines_of : Stage → List Text
lines_of not_begun = []
lines_of (writing lines) = lines
lines_of finished = []

-- The lines that no batch has had yet, or the present one has.
abbrev pub waiting : Queue → List Text
waiting q = lines_of q.stage ++ q.queued

abbrev pub batches : List (List Text × Bool) → List (List Text)
batches [] = []
batches ((lines, ok) ∷ rest) = lines ∷ batches rest

-- Each line that was accepted is in a batch that has ended, or it waits.
abbrev pub Accounts : World → Type 0
Accounts w = w.accepted ≡ flatten (batches w.settled) ++ waiting w.queue

batches-append :
    (xs : List (List Text × Bool)) (lines : List Text) (ok : Bool)
    → flatten (batches (xs ++ (lines, ok) ∷ [])) ≡ flatten (batches xs) ++ lines
batches-append [] lines ok = append-nil lines
batches-append ((l, b) ∷ xs) lines ok =
    ap (◌++◌ l) (batches-append xs lines ok) ∙ sym (append_assoc l _ _)

waiting-schedule_drain : (q : Queue) → waiting (schedule_drain q) ≡ waiting q
unfolding schedule_drain
waiting-schedule_drain q =
    if-cases (λ (r : Queue). waiting r ≡ waiting q) (q.drain_scheduled || is_empty q.queued)
      (λ e. refl) λ e. refl

waiting-arm_flush_timer : (q : Queue) → waiting (arm_flush_timer q) ≡ waiting q
unfolding arm_flush_timer
waiting-arm_flush_timer q =
    if-cases (λ (r : Queue). waiting r ≡ waiting q) (q.closed || q.timer || q.drain_scheduled)
      (λ e. refl) λ e. refl

waiting-flush_timer : (q : Queue) → waiting (flush_timer q) ≡ waiting q
unfolding flush_timer
waiting-flush_timer q =
    if-cases (λ (r : Queue). waiting r ≡ waiting q) q.timer
      (λ e. waiting-schedule_drain (clear_flush_timer q)) λ e. refl

waiting-close : (q : Queue) → waiting (close q) ≡ waiting q
unfolding close
waiting-close q =
    if-cases (λ (r : Queue). waiting r ≡ waiting q) q.closed (λ e. refl)
      λ e. waiting-schedule_drain (clear_flush_timer (record q { closed = true }))

waiting-write_line :
    (o : Options) (line : Text) (q : Queue)
    → waiting (write_line o line q) ≡ (if q.closed then waiting q else waiting q ++ line ∷ [])
unfolding write_line
waiting-write_line o line q = go q.closed
  where
    longer : Queue
    longer = record q {
      queued = q.queued ++ line ∷ [];
      queued_bytes = q.queued_bytes + byte_length line;
    }

    grown : waiting longer ≡ waiting q ++ line ∷ []
    grown = sym (append_assoc (lines_of q.stage) q.queued (line ∷ []))

    now_or_later : Bool → Queue
    now_or_later b = if b then schedule_drain (clear_flush_timer longer) else arm_flush_timer longer

    added : (b : Bool) → waiting (now_or_later b) ≡ waiting longer
    added true = waiting-schedule_drain (clear_flush_timer longer)
    added false = waiting-arm_flush_timer longer

    soon : Bool
    soon = leb o.max_batch_bytes longer.queued_bytes || o.batch_delay_ms == 0

    go :
        (closed : Bool)
        → waiting (if closed then q else now_or_later soon)
          ≡ (if closed then waiting q else waiting q ++ line ∷ [])
    go true = refl
    go false = added soon ∙ grown

waiting-end_drain : (q : Queue) → waiting (end_drain q) ≡ q.queued
unfolding end_drain
waiting-end_drain q =
    let idle : Queue = record q { drain_scheduled = false; stage = not_begun } in
    if-cases (λ (r : Queue). waiting r ≡ q.queued) (is_empty q.queued) (λ e. refl)
      λ e.
        if-cases (λ (r : Queue). waiting r ≡ q.queued) q.closed (λ f. waiting-schedule_drain idle)
          λ f. waiting-arm_flush_timer idle

waiting-drain_queued : (q : Queue) → waiting (drain_queued q) ≡ q.queued
unfolding drain_queued
waiting-drain_queued q =
    if-cases (λ (r : Queue). waiting r ≡ q.queued) (is_empty q.queued) (λ e. refl)
      λ e. append-nil q.queued

pub happen-Accounts :
    (o : Options) (event : Event) (w : World) → Accounts w → Accounts (happen o event w)
unfolding flush
happen-Accounts o (Event.line_written line) w a =
    go w.queue.closed
    ∙ ap (◌++◌ (flatten (batches w.settled))) (sym (waiting-write_line o line w.queue))
  where
    go :
        (closed : Bool)
        → (if closed then w.accepted else w.accepted ++ line ∷ [])
          ≡ flatten (batches w.settled)
            ++ (if closed then waiting w.queue else waiting w.queue ++ line ∷ [])
    go true = a
    go false = ap (λ all. all ++ line ∷ []) a ∙ append_assoc (flatten (batches w.settled)) _ _
happen-Accounts o Event.timer_fired w a =
    a ∙ ap (◌++◌ (flatten (batches w.settled))) (sym (waiting-flush_timer w.queue))
happen-Accounts o Event.flush_called w a =
    a
    ∙ ap (◌++◌ (flatten (batches w.settled)))
        (sym (waiting-schedule_drain (clear_flush_timer w.queue)))
happen-Accounts o Event.flush_resumed w a =
    a ∙ ap (◌++◌ (flatten (batches w.settled))) (sym (waiting-schedule_drain w.queue))
happen-Accounts o Event.close_called w a =
    a ∙ ap (◌++◌ (flatten (batches w.settled))) (sym (waiting-close w.queue))
happen-Accounts o Event.drain_started w a = go w.queue.stage w.queue.drain_scheduled a
  where
    go :
        (stage : Stage) (scheduled : Bool)
        → w.accepted ≡ flatten (batches w.settled) ++ (lines_of stage ++ w.queue.queued)
        → Accounts (start_if stage scheduled w)
    go not_begun true h =
        h ∙ ap (◌++◌ (flatten (batches w.settled))) (sym (waiting-drain_queued w.queue))
    go not_begun false h = a
    go (writing lines) scheduled h = a
    go finished scheduled h = a
happen-Accounts o (Event.batch_ended ok) w a = go w.queue.stage ok a
  where
    moved :
        (lines : List Text) (ok : Bool) (q : Queue)
        → w.accepted ≡ flatten (batches w.settled) ++ (lines ++ w.queue.queued)
        → waiting q ≡ w.queue.queued
        → w.accepted ≡ flatten (batches (w.settled ++ (lines, ok) ∷ [])) ++ waiting q
    moved lines ok q h e =
        h
        ∙ sym (append_assoc (flatten (batches w.settled)) lines w.queue.queued)
        ∙ ap₂ ◌++◌ (sym (batches-append w.settled lines ok)) (sym e)

    go :
        (stage : Stage) (ok : Bool)
        → w.accepted ≡ flatten (batches w.settled) ++ (lines_of stage ++ w.queue.queued)
        → Accounts (end_batch stage ok w)
    go not_begun ok h = a
    go finished ok h = a
    go (writing lines) true h =
        moved lines true (drain_queued w.queue) h (waiting-drain_queued w.queue)
    go (writing lines) false h = moved lines false (finish w.queue) h refl
happen-Accounts o Event.drain_ended w a = go w.queue.stage a
  where
    go :
        (stage : Stage)
        → w.accepted ≡ flatten (batches w.settled) ++ (lines_of stage ++ w.queue.queued)
        → Accounts (end_if stage w)
    go not_begun h = a
    go (writing lines) h = a
    go finished h = h ∙ ap (◌++◌ (flatten (batches w.settled))) (sym (waiting-end_drain w.queue))

-- At every moment the accepted lines are, in the order in which they came and each once, those of
-- the batches that have ended, then those of the present batch, then those that are queued.
pub run-Accounts : (o : Options) (events : List Event) → Accounts (run o events start)
unfolding run
run-Accounts o events = go events start refl
  where
    go : (events : List Event) (w : World) → Accounts w → Accounts (run o events w)
    go [] w a = a
    go (event ∷ events) w a = go events (happen o event w) (happen-Accounts o event w a)
