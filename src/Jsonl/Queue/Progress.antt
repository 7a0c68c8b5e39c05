-- ===== src/Jsonl/Queue/Progress.antt =====
-- How the queue of src/lib/bounded-jsonl.ts empties while no more lines come and writing succeeds.
use chatgpt_mcp_clean.Base.{
  ℕ, zero, suc, Bool, true, false, ◌||◌, List, [], ◌∷◌, ◌++◌, flatten, Text, ◌≡◌, refl, sym, ap,
  ap₂, ◌∙◌, append-nil,
}
use chatgpt_mcp_clean.Jsonl.{Options}
use chatgpt_mcp_clean.Jsonl.Queue.{
  is_empty, Stage, not_begun, writing, finished, arm_flush_timer, schedule_drain, flush_timer,
  end_drain, drain_queued, Event, World, start, happen, run,
}
use chatgpt_mcp_clean.Jsonl.Queue.Covered.{run-IsCovered}
use chatgpt_mcp_clean.Jsonl.Queue.Drained.{
  lines_of, batches, Accounts, happen-Accounts, run-Accounts,
}

-- The batches that were not written.
abbrev pub failed : List (List Text × Bool) → List (List Text)
failed [] = []
failed ((lines, true) ∷ rest) = failed rest
failed ((lines, false) ∷ rest) = lines ∷ failed rest

-- What comes next: the present batch is written, or the drain ends or starts, or the timer fires.
abbrev pub next_event : Stage → Bool → Event
next_event (writing lines) scheduled = Event.batch_ended true
next_event finished scheduled = Event.drain_ended
next_event not_begun true = Event.drain_started
next_event not_begun false = Event.timer_fired

unfoldable pub pass : Options → ℕ → World → World
pass o zero w = w
pass o (suc n) w = pass o n (happen o (next_event w.queue.stage w.queue.drain_scheduled) w)

failed-written :
    (xs : List (List Text × Bool)) (lines : List Text)
    → failed (xs ++ (lines, true) ∷ []) ≡ failed xs
failed-written [] lines = refl
failed-written ((l, true) ∷ xs) lines = failed-written xs lines
failed-written ((l, false) ∷ xs) lines = ap (◌∷◌ l) (failed-written xs lines)

abbrev Passed : List (List Text × Bool) → List Text → World → Type 0
Passed settled accepted w =
    (lines_of w.queue.stage ≡ [])
    × (w.queue.queued ≡ [])
    × (w.accepted ≡ accepted)
    × (failed w.settled ≡ failed settled)

Passed-four :
    (o : Options) (closed : Bool) (bytes : ℕ) (accepted : List Text)
    → (settled : List (List Text × Bool))
    → (stage : Stage) (scheduled timer : Bool) (queued : List Text)
    → (is_empty queued ≡ false → timer || scheduled ≡ true)
    → Passed settled accepted (
        pass o 4 (record {
          queue = record {
            closed = closed;
            queued = queued;
            queued_bytes = bytes;
            timer = timer;
            drain_scheduled = scheduled;
            stage = stage;
          };
          accepted = accepted;
          settled = settled;
        }))
unfolding pass end_drain drain_queued flush_timer schedule_drain arm_flush_timer
Passed-four o closed bytes accepted settled (writing l) s true [] h =
    (refl, refl, refl, failed-written settled l)
Passed-four o closed bytes accepted settled (writing l) s true (x ∷ xs) h = (
  refl,
  refl,
  refl,
  failed-written (settled ++ (l, true) ∷ []) (x ∷ xs) ∙ failed-written settled l,
)
Passed-four o closed bytes accepted settled (writing l) s false [] h =
    (refl, refl, refl, failed-written settled l)
Passed-four o closed bytes accepted settled (writing l) s false (x ∷ xs) h = (
  refl,
  refl,
  refl,
  failed-written (settled ++ (l, true) ∷ []) (x ∷ xs) ∙ failed-written settled l,
)
Passed-four o closed bytes accepted settled finished s true [] h = (refl, refl, refl, refl)
Passed-four o true bytes accepted settled finished s true (x ∷ xs) h =
    (refl, refl, refl, failed-written settled (x ∷ xs))
Passed-four o false bytes accepted settled finished s true (x ∷ xs) h =
    (refl, refl, refl, failed-written settled (x ∷ xs))
Passed-four o closed bytes accepted settled finished s false [] h = (refl, refl, refl, refl)
Passed-four o true bytes accepted settled finished s false (x ∷ xs) h =
    (refl, refl, refl, failed-written settled (x ∷ xs))
Passed-four o false bytes accepted settled finished s false (x ∷ xs) h =
    (refl, refl, refl, failed-written settled (x ∷ xs))
Passed-four o closed bytes accepted settled not_begun true true [] h = (refl, refl, refl, refl)
Passed-four o closed bytes accepted settled not_begun true true (x ∷ xs) h =
    (refl, refl, refl, failed-written settled (x ∷ xs))
Passed-four o closed bytes accepted settled not_begun false true [] h = (refl, refl, refl, refl)
Passed-four o closed bytes accepted settled not_begun true false [] h = (refl, refl, refl, refl)
Passed-four o closed bytes accepted settled not_begun true false (x ∷ xs) h =
    (refl, refl, refl, failed-written settled (x ∷ xs))
Passed-four o closed bytes accepted settled not_begun false false [] h = (refl, refl, refl, refl)
Passed-four o closed bytes accepted settled not_begun false true (x ∷ xs) h =
    (refl, refl, refl, failed-written settled (x ∷ xs))
Passed-four o closed bytes accepted settled not_begun false false (x ∷ xs) h = absurd (cc (h refl))

pass-Accounts : (o : Options) (n : ℕ) (w : World) → Accounts w → Accounts (pass o n w)
unfolding pass
pass-Accounts o zero w a = a
pass-Accounts o (suc n) w a =
    pass-Accounts o n _ (happen-Accounts o (next_event w.queue.stage w.queue.drain_scheduled) w a)

-- Whatever has happened, nothing more than four events is needed, while batches are written and no
-- more lines come, and then no line waits: every line that was accepted is in a batch that has
-- ended, in the order in which the lines came and each once, and no batch has failed but those that
-- had failed before.
pub pass-run :
    (o : Options) (events : List Event)
    → (flatten (batches (pass o 4 (run o events start)).settled) ≡ (run o events start).accepted)
      × (failed (pass o 4 (run o events start)).settled ≡ failed (run o events start).settled)
pass-run o events = (sym all, passed.3)
  where
    w : World
    w = run o events start

    t : World
    t = pass o 4 w

    passed : Passed w.settled w.accepted t
    passed =
        Passed-four o w.queue.closed w.queue.queued_bytes w.accepted w.settled w.queue.stage
          w.queue.drain_scheduled w.queue.timer w.queue.queued (run-IsCovered o events).covered

    all : w.accepted ≡ flatten (batches t.settled)
    all =
        sym passed.2
        ∙ pass-Accounts o 4 w (run-Accounts o events)
        ∙ ap₂ (λ lines queued. flatten (batches t.settled) ++ (lines ++ queued)) passed.0 passed.1
        ∙ append-nil _
