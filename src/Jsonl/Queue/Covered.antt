-- ===== src/Jsonl/Queue/Covered.antt =====
-- The queue of src/lib/bounded-jsonl.ts at every moment: what sets off the next drain.
use chatgpt_mcp_clean.Base.{
  ℕ, ◌+◌, Bool, true, false, ◌||◌, List, [], ◌∷◌, ◌++◌, leb, ◌==◌, if-cases, Text, ◌≡◌, refl, arith,
}
use chatgpt_mcp_clean.Jsonl.{Options, byte_length}
use chatgpt_mcp_clean.Jsonl.Queue.{
  Queue, is_empty, arm_flush_timer, clear_flush_timer, schedule_drain, write_line, flush_timer,
  flush, close, end_drain, drain_queued, finish, Event, World, start, start_if, end_batch, end_if,
  happen, run, Stage, not_begun, writing, finished,
}

abbrev pub is_under_way : Stage → Bool
is_under_way not_begun = false
is_under_way (writing lines) = true
is_under_way finished = true

abbrev pub total_bytes : List Text → ℕ
total_bytes [] = 0
total_bytes (line ∷ lines) = byte_length line + total_bytes lines

-- Lines that wait have a timer or a drain; what is under way is a drain that is scheduled; no timer is set after
-- `close`; and the bytes that wait are counted.
pub record IsCovered (q : Queue) : Type 0 where
  pub covered : is_empty q.queued ≡ false → q.timer || q.drain_scheduled ≡ true
  pub batch_drains : is_under_way q.stage ≡ true → q.drain_scheduled ≡ true
  pub closed_untimed : q.closed ≡ true → q.timer ≡ false
  pub counted : q.queued_bytes ≡ total_bytes q.queued

-- What it takes before a timer or a drain is set for the lines.
record IsSound (q : Queue) : Type 0 where
  batch_drains : is_under_way q.stage ≡ true → q.drain_scheduled ≡ true
  closed_untimed : q.closed ≡ true → q.timer ≡ false
  counted : q.queued_bytes ≡ total_bytes q.queued

arm_flush_timer-IsCovered :
    (q : Queue) → q.closed ≡ false → IsSound q → IsCovered (arm_flush_timer q)
unfolding arm_flush_timer
arm_flush_timer-IsCovered q h s =
    let b = s.batch_drains in
    let c = s.closed_untimed in
    let n = s.counted in
    record {
      covered = ground arith;
      batch_drains = ground arith;
      closed_untimed = ground arith;
      counted =
          if-cases (λ (r : Queue). r.queued_bytes ≡ total_bytes r.queued)
            (q.closed || q.timer || q.drain_scheduled) (λ e. n) λ e. n;
    }

schedule_drain-IsCovered : (q : Queue) → IsSound q → IsCovered (schedule_drain q)
unfolding schedule_drain
schedule_drain-IsCovered q s =
    let b = s.batch_drains in
    let c = s.closed_untimed in
    let n = s.counted in
    record {
      covered = ground arith;
      batch_drains = ground arith;
      closed_untimed = ground arith;
      counted =
          if-cases (λ (r : Queue). r.queued_bytes ≡ total_bytes r.queued)
            (q.drain_scheduled || is_empty q.queued) (λ e. n) λ e. n;
    }

total_bytes-append :
    (lines : List Text) (line : Text)
    → total_bytes (lines ++ line ∷ []) ≡ total_bytes lines + byte_length line
total_bytes-append [] line = omega arith
total_bytes-append (l ∷ lines) line =
    let rest = total_bytes-append lines line in omega (arith, rest)

untimed : (q : Queue) → IsCovered q → IsSound (clear_flush_timer q)
untimed q c = record {
  batch_drains = c.batch_drains;
  closed_untimed = λ e. refl;
  counted = c.counted;
}

write_line-IsCovered :
    (o : Options) (line : Text) (q : Queue) → IsCovered q → IsCovered (write_line o line q)
unfolding write_line
write_line-IsCovered o line q c =
    let longer : Queue = record q {
      queued = q.queued ++ line ∷ [];
      queued_bytes = q.queued_bytes + byte_length line;
    } in
    let count = c.counted in
    let grown = total_bytes-append q.queued line in
    let count : longer.queued_bytes ≡ total_bytes longer.queued = omega (arith, count, grown) in
    if-cases IsCovered q.closed (λ e. c)
      λ open_yet.
        if-cases IsCovered (leb o.max_batch_bytes longer.queued_bytes || o.batch_delay_ms == 0)
          (λ e.
            schedule_drain-IsCovered (clear_flush_timer longer) (record {
              batch_drains = c.batch_drains;
              closed_untimed = λ e. refl;
              counted = count;
            }))
          λ e. arm_flush_timer-IsCovered longer open_yet (record {
            batch_drains = c.batch_drains;
            closed_untimed = c.closed_untimed;
            counted = count;
          })

flush_timer-IsCovered : (q : Queue) → IsCovered q → IsCovered (flush_timer q)
unfolding flush_timer
flush_timer-IsCovered q c =
    if-cases IsCovered q.timer (λ e. schedule_drain-IsCovered (clear_flush_timer q) (untimed q c))
      λ e. c

close-IsCovered : (q : Queue) → IsCovered q → IsCovered (close q)
unfolding close
close-IsCovered q c =
    if-cases IsCovered q.closed (λ e. c)
      λ e.
        schedule_drain-IsCovered (clear_flush_timer (record q { closed = true })) (record {
          batch_drains = c.batch_drains;
          closed_untimed = λ e. refl;
          counted = c.counted;
        })

end_drain-IsCovered : (q : Queue) → IsCovered q → IsCovered (end_drain q)
unfolding end_drain
end_drain-IsCovered q c =
    let idle : Queue = record q { drain_scheduled = false; stage = not_begun } in
    let sound : IsSound idle = record {
      batch_drains = λ e. absurd (cc e);
      closed_untimed = c.closed_untimed;
      counted = c.counted;
    } in
    if-cases IsCovered (is_empty q.queued)
      (λ e. record {
        covered = λ f. absurd (cc (e, f));
        batch_drains = λ f. absurd (cc f);
        closed_untimed = c.closed_untimed;
        counted = c.counted;
      })
      λ e.
        if-cases IsCovered q.closed (λ f. schedule_drain-IsCovered idle sound)
          λ f. arm_flush_timer-IsCovered idle f sound

finish-IsCovered : (q : Queue) → IsCovered q → q.drain_scheduled ≡ true → IsCovered (finish q)
finish-IsCovered q c drains = record {
  covered = c.covered;
  batch_drains = λ f. drains;
  closed_untimed = c.closed_untimed;
  counted = c.counted;
}

drain_queued-IsCovered :
    (q : Queue) → IsCovered q → q.drain_scheduled ≡ true → IsCovered (drain_queued q)
unfolding drain_queued
drain_queued-IsCovered q c drains =
    if-cases IsCovered (is_empty q.queued) (λ e. finish-IsCovered q c drains)
      λ e. record {
        covered = λ f. absurd (cc f);
        batch_drains = λ f. drains;
        closed_untimed = c.closed_untimed;
        counted = refl;
      }

pub happen-IsCovered :
    (o : Options) (event : Event) (w : World)
    → IsCovered w.queue
    → IsCovered (happen o event w).queue
unfolding flush
happen-IsCovered o (Event.line_written line) w c = write_line-IsCovered o line w.queue c
happen-IsCovered o Event.timer_fired w c = flush_timer-IsCovered w.queue c
happen-IsCovered o Event.flush_called w c =
    schedule_drain-IsCovered (clear_flush_timer w.queue) (untimed w.queue c)
happen-IsCovered o Event.flush_resumed w c = schedule_drain-IsCovered w.queue (record {
  batch_drains = c.batch_drains;
  closed_untimed = c.closed_untimed;
  counted = c.counted;
})
happen-IsCovered o Event.close_called w c = close-IsCovered w.queue c
happen-IsCovered o Event.drain_started w c = go w.queue.stage w.queue.drain_scheduled refl
  where
    go :
        (stage : Stage) (scheduled : Bool)
        → w.queue.drain_scheduled ≡ scheduled
        → IsCovered (start_if stage scheduled w).queue
    go not_begun true e = drain_queued-IsCovered w.queue c e
    go not_begun false e = c
    go (writing lines) scheduled e = c
    go finished scheduled e = c
happen-IsCovered o (Event.batch_ended ok) w c = go w.queue.stage ok refl
  where
    go :
        (stage : Stage) (ok : Bool)
        → is_under_way w.queue.stage ≡ is_under_way stage
        → IsCovered (end_batch stage ok w).queue
    go not_begun ok e = c
    go finished ok e = c
    go (writing lines) true e = drain_queued-IsCovered w.queue c (c.batch_drains e)
    go (writing lines) false e = finish-IsCovered w.queue c (c.batch_drains e)
happen-IsCovered o Event.drain_ended w c = go w.queue.stage
  where
    go : (stage : Stage) → IsCovered (end_if stage w).queue
    go not_begun = c
    go (writing lines) = c
    go finished = end_drain-IsCovered w.queue c

-- Whatever the events are and in whatever order they happen, lines that wait have a timer set or a
-- drain scheduled, a batch that is being written belongs to a drain, and so does a drain that is
-- over and whose `finally` has yet to run, no timer is set after `close`, and the count of the bytes
-- that wait is right.
pub run-IsCovered : (o : Options) (events : List Event) → IsCovered (run o events start).queue
unfolding run
run-IsCovered o events = go events start (record {
  covered = λ f. absurd (cc f);
  batch_drains = λ f. absurd (cc f);
  closed_untimed = λ f. absurd (cc f);
  counted = refl;
})
  where
    go : (events : List Event) (w : World) → IsCovered w.queue → IsCovered (run o events w).queue
    go [] w c = c
    go (event ∷ events) w c = go events (happen o event w) (happen-IsCovered o event w c)
