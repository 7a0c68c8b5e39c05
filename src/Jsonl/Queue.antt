-- ===== src/Jsonl/Queue.antt =====
-- The lines that wait in `BoundedJsonlWriter` of src/lib/bounded-jsonl.ts: the timer, the drain, and
-- the batch that is being written, as events between which the event loop of the process chooses.
-- The promise `pending` is the chain of drains: it has one that is scheduled or runs, at most, which
-- `drain_scheduled` says.
pub mod Covered
pub mod Drained
pub mod Progress
use chatgpt_mcp_clean.Base.{
  ℕ, ◌+◌, Bool, true, false, not, ◌&&◌, ◌||◌, Option, none, some, List, [], ◌∷◌, ◌++◌, leb, ◌==◌,
  if◌then◌else◌, Text,
}
use chatgpt_mcp_clean.Jsonl.{Options, byte_length}

-- How far the drain is that is scheduled, if one is: it has not begun, `writeBatch` has these lines of
-- `drainQueued` at present, or `drainQueued` is over and the `finally` after it has not run yet.
pub data Stage : Type 0 where
  not_begun : Stage
  writing : List Text → Stage
  finished : Stage

pub record Queue : Type 0 where
  pub closed : Bool
  pub queued : List Text
  pub queued_bytes : ℕ
  pub timer : Bool
  pub drain_scheduled : Bool
  pub stage : Stage

abbrev pub empty_queue : Queue
empty_queue = record {
  closed = false;
  queued = [];
  queued_bytes = 0;
  timer = false;
  drain_scheduled = false;
  stage = not_begun;
}

abbrev pub is_empty {ℓ} : {A : Type ℓ} → List A → Bool
is_empty [] = true
is_empty (x ∷ xs) = false

unfoldable pub arm_flush_timer : Queue → Queue
arm_flush_timer q =
    if q.closed || q.timer || q.drain_scheduled then q else record q { timer = true }

abbrev pub clear_flush_timer : Queue → Queue
clear_flush_timer q = record q { timer = false }

unfoldable pub schedule_drain : Queue → Queue
schedule_drain q =
    if q.drain_scheduled || is_empty q.queued then q else record q { drain_scheduled = true }

unfoldable pub write_line : Options → Text → Queue → Queue
unfolding schedule_drain arm_flush_timer
write_line o line q =
    let longer = record q {
      queued = q.queued ++ line ∷ [];
      queued_bytes = q.queued_bytes + byte_length line;
    } in
    if q.closed
    then q
    else if leb o.max_batch_bytes longer.queued_bytes || o.batch_delay_ms == 0
    then schedule_drain (clear_flush_timer longer)
    else arm_flush_timer longer

-- What the timer was set to do.
unfoldable pub flush_timer : Queue → Queue
unfolding schedule_drain
flush_timer q = if q.timer then schedule_drain (record q { timer = false }) else q

-- `flush` up to its first `await`; its second call of `scheduleDrain` is the event after.
unfoldable pub flush : Queue → Queue
unfolding schedule_drain
flush q = schedule_drain (clear_flush_timer q)

-- `close` up to its first `await`.
unfoldable pub close : Queue → Queue
unfolding schedule_drain
close q = if q.closed then q else schedule_drain (clear_flush_timer (record q { closed = true }))

-- The `finally` after a drain, whether it failed or not.
unfoldable pub end_drain : Queue → Queue
unfolding schedule_drain arm_flush_timer
end_drain q =
    let idle = record q { drain_scheduled = false; stage = not_begun } in
    if is_empty q.queued
    then idle
    else if q.closed
    then schedule_drain idle
    else arm_flush_timer idle

-- The promise of `drainQueued` is settled.
abbrev pub finish : Queue → Queue
finish q = record q { stage = finished }

-- The head of the loop of `drainQueued`.
unfoldable pub drain_queued : Queue → Queue
drain_queued q =
    if is_empty q.queued
    then finish q
    else record q { queued = []; queued_bytes = 0; stage = writing q.queued }

pub data Event : Type 0 where
  line_written : Text → Event
  timer_fired : Event
  flush_called : Event
  flush_resumed : Event
  close_called : Event
  drain_started : Event
  -- `writeBatch` returned, or it threw.
  batch_ended : Bool → Event
  -- The `finally` of the drain runs.
  drain_ended : Event

-- With the queue, the lines that it accepted and the batches that have ended, the oldest first,
-- each with whether it was written.
pub record World : Type 0 where
  pub queue : Queue
  pub accepted : List Text
  pub settled : List (List Text × Bool)

abbrev pub start : World
start = record { queue = empty_queue; accepted = []; settled = [] }

abbrev pub on_queue : (Queue → Queue) → World → World
on_queue f w = record w { queue = f w.queue }

abbrev pub start_if : Stage → Bool → World → World
start_if not_begun true w = on_queue drain_queued w
start_if not_begun false w = w
start_if (writing lines) scheduled w = w
start_if finished scheduled w = w

abbrev pub end_batch : Stage → Bool → World → World
end_batch (writing lines) ok w = record w {
  queue = if ok then drain_queued w.queue else finish w.queue;
  settled = w.settled ++ (lines, ok) ∷ [];
}
end_batch not_begun ok w = w
end_batch finished ok w = w

abbrev pub end_if : Stage → World → World
end_if finished w = on_queue end_drain w
end_if not_begun w = w
end_if (writing lines) w = w

-- An event that cannot happen changes nothing.
abbrev pub happen : Options → Event → World → World
happen o (line_written line) w = record w {
  queue = write_line o line w.queue;
  accepted = if w.queue.closed then w.accepted else w.accepted ++ line ∷ [];
}
happen o timer_fired w = on_queue flush_timer w
happen o flush_called w = on_queue flush w
happen o flush_resumed w = on_queue schedule_drain w
happen o close_called w = on_queue close w
happen o drain_started w = start_if w.queue.stage w.queue.drain_scheduled w
happen o (batch_ended ok) w = end_batch w.queue.stage ok w
happen o drain_ended w = end_if w.queue.stage w

unfoldable pub run : Options → List Event → World → World
run o [] w = w
run o (event ∷ events) w = run o events (happen o event w)
