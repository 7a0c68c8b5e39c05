-- ===== src/Jsonl/Tests.antt =====
-- Runs of the writer of src/lib/bounded-jsonl.ts.
use chatgpt_mcp_clean.Base.{false, none, some, List, [], ◌∷◌, ◌++◌, flatten, Text, ◌≡◌, refl, arith}
use chatgpt_mcp_clean.Jsonl.{
  Options, State, byte_length, write_batch, write_lines, write_line, ensure_open, open_path,
  system_call, flush_chunk, rotate,
}
use chatgpt_mcp_clean.Jsonl.After.{After}
use chatgpt_mcp_clean.Jsonl.Content.{content}
use chatgpt_mcp_clean.Jsonl.Lines.{WrotePart, write_batch-content}
use chatgpt_mcp_clean.Jsonl.Bound.{Within, KnowsSize}
use chatgpt_mcp_clean.Jsonl.Limit.{write_batch-Within}
use chatgpt_mcp_clean.Jsonl.Queue.{Event, start, run}
use chatgpt_mcp_clean.Jsonl.Queue.Covered.{IsCovered, run-IsCovered}
use chatgpt_mcp_clean.Jsonl.Queue.Drained.{Accounts, batches, run-Accounts}
use chatgpt_mcp_clean.Jsonl.Queue.Progress.{pass, failed, pass-run}

abbrev ten_bytes : Options
ten_bytes = record { max_bytes = 10; max_age_ms = 1000; batch_delay_ms = 15; max_batch_bytes = 6 }

abbrev line_of : Text → Text
line_of text = text ++ 10 ∷ []

abbrev three_lines : List Text
three_lines = line_of (97 ∷ 98 ∷ []) ∷ line_of (0x20ac ∷ []) ∷ line_of (97 ∷ 97 ∷ 97 ∷ 97 ∷ []) ∷ []

-- A file of five bytes from another process, and a writer that has not opened it.
abbrev before_batch : State
before_batch = record {
  handle = none;
  size = 0;
  opened_at = 0;
  file = some (record { inode = 7; text = line_of (1 ∷ 2 ∷ 3 ∷ 4 ∷ []); bytes = 5; modified = 90 });
  archive = [];
  next_inode = 8;
  faults = [];
}

-- The first line fits, the second does not.
archived_after_batch :
    (write_batch ten_bytes 100 three_lines before_batch).1.archive
    ≡ record {
      inode = 7;
      text = line_of (1 ∷ 2 ∷ 3 ∷ 4 ∷ []) ++ line_of (97 ∷ 98 ∷ []);
      bytes = 8;
      modified = 100;
    }
      ∷ []
unfolding write_batch write_lines write_line ensure_open open_path system_call flush_chunk rotate
    byte_length
archived_after_batch = refl

write_batch-content_example :
    After
      (λ _ t. content t ≡ content before_batch ++ flatten three_lines)
      (WrotePart (content before_batch) (content before_batch ++ flatten three_lines))
      (write_batch ten_bytes 100 three_lines before_batch)
write_batch-content_example = write_batch-content ten_bytes 100 three_lines before_batch

write_batch-Within_example :
    After
      (λ _ t. Within 10 t × KnowsSize t)
      (Within 10)
      (write_batch ten_bytes 100 three_lines before_batch)
unfolding byte_length
write_batch-Within_example =
    write_batch-Within ten_bytes 100 three_lines before_batch
      (ground arith, (ground arith, (ground arith, tt))) (tt, ground arith) tt

abbrev events : List Event
events =
    Event.line_written (line_of [])
    ∷ Event.timer_fired
    ∷ Event.drain_started
    ∷ Event.line_written (line_of (97 ∷ []))
    ∷ Event.batch_ended false
    ∷ Event.line_written (line_of (98 ∷ 98 ∷ 98 ∷ 98 ∷ 98 ∷ 98 ∷ []))
    ∷ []

run-IsCovered_example : IsCovered (run ten_bytes events start).queue
run-IsCovered_example = run-IsCovered ten_bytes events

run-Accounts_example : Accounts (run ten_bytes events start)
run-Accounts_example = run-Accounts ten_bytes events

pass-run_example :
    (flatten (batches (pass ten_bytes 4 (run ten_bytes events start)).settled)
      ≡ (run ten_bytes events start).accepted)
    × (failed (pass ten_bytes 4 (run ten_bytes events start)).settled
        ≡ failed (run ten_bytes events start).settled)
pass-run_example = pass-run ten_bytes events
