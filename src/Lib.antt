-- ===== src/Lib.antt =====
-- ChatGPT MCP Clean: an MCP server that runs shell commands for its callers, and that several
-- processes may serve at once.
--
-- Parts and files
-- - Base: what the parts share. A text is the list of its UTF-16 code units (Base.Texts); a JSON value
--   is data with its objects' fields in order (Base.Json); a `Map`, and an object used as one, is a
--   list of entries in order of insertion (Base.Tables).
-- - Capture: `BoundedCapture` of src/lib/process-manager.ts, which keeps the end of a process's output
--   in memory. `append`, `tail`, `full` and `reset` are the methods; `evict` and `tail_parts` are
--   their loops. The bound is a parameter, 256,000 characters in the source.
-- - Scope: `canonicalScope` of src/lib/busy-store.ts.
-- - Busy: `BusyStore` of src/lib/busy-store.ts, the collision claims that server processes share in
--   one JSON file. Busy.Claims has the claims and `load`, Busy.Jobs the jobs under
--   `coordinator.jobs`, Busy.Store the operations. An operation is the function that runs under the
--   lock: it takes the store (its memory and the file) and returns its reply or the error it throws,
--   and the store as it then is. Busy.Register is the abstract register of claims that the store
--   implements.
-- - Lock: the lock file of `withLock` in src/lib/busy-store.ts. `round` is one round of its loop; `Step`
--   is the protocol between processes, each system call a step.
-- - Oauth: `LocalOAuthProvider` of src/lib/local-oauth-provider.ts. Oauth.Records has its records and
--   constants, Oauth.Store the file and `withStoreMutation` (`mutate`: load, run, prune and persist),
--   Oauth.Grants the codes and access tokens, Oauth.Rotation the refresh tokens, Oauth.Clients the
--   registrations, Oauth.Redirects and Oauth.Scopes the tests of what is asked for. A function whose
--   name ends in `_in` is the mutation without the file around it.
-- - Words: `parseWords` of src/lib/command-execution-plan.ts, which finds the words of a command that is
--   to run without a shell, and `quoteStructuredArgument` of src/lib/process-manager.ts, which writes
--   arguments for display. `Parse` has the variables of the loop, `step` is its body.
-- - Jsonl: `BoundedJsonlWriter` of src/lib/bounded-jsonl.ts. Jsonl has the files: an action takes the
--   state to a result or an error and the next state, and each call of the file system may fail.
--   Jsonl.Queue has the lines that wait and the timer, as events. Jsonl.After has the rules for what
--   an action leaves.
-- - Admission: the slots by which the processes of one host are limited, in src/lib/process-manager.ts.
--   `claim`, `update_child_pid` and `release` are the three operations of a manager on the shared
--   directory; Admission.Exclusive.History has the managers that share it.
-- - Paging: the pages in which src/lib/process-manager.ts hands out the output of a process.
--   `page_spool_output_async`, `page_spool_output` and `page_output` are the three functions that make
--   one; `spool_page` is what the first two share. Paging.Base64 has the test for base64.
-- - Plan: `planCommandExecution` of src/lib/command-execution-plan.ts. Plan.Split has the two functions
--   that split a command, with one loop for both; Plan.Cmd the names of programs, and the regular
--   expressions as functions; Plan.Route the plans.
-- - Child: `processChildEnvironment` of src/lib/process-child-environment.ts, a function for each of its
--   sections.
--
-- Bounds and fuel
-- - `evict` runs on fuel; `append` gives it three rounds more than there are chunks, and a round
--   takes a chunk away or is the last but one.
-- - `revoke_loop` and `room_loop` run on fuel from the length of the table that they shrink: a
--   round that goes on takes an entry away.
-- - `Paging.Lossless.read_pages` reads for a number of rounds that it is given; `digits` has a round
--   for each unit of a number, which has fewer digits than units.
-- - `after_flags` has a round for each unit of the text, and a flag takes two. `plan_command_execution`
--   takes off as many `cmd /c` as it is told to; the length of the command is enough.
-- - Times are milliseconds since the earliest time that a `Date` holds, so that none is negative.
--
-- Parameters
-- - `Plan.Route.Env` is the PowerShell to run, the environment variables that a plan reads, and what
--   the regular expression for a Python heredoc captures.
-- - `Child.Host` is `node:path`, `toLowerCase` for paths, and which files are there.
-- - `Host` is the platform: whether it is Windows, and `normalize` of `node:path`.
-- - `Dates` is `Date.parse` and `toISOString`; parsing what was printed gives the time back.
-- - `after` is `localeCompare` with a positive result; Busy.Listing takes it for the test of an order.
-- - `Env` is what one operation meets: the clock, whether the file can be read, and how its writes go.
-- - `Config` is the provider's constructor arguments, `sha256` and `new URL`; `Oauth.Records.Env` is
--   the clock, the random tokens that an operation draws, and whether its reads and writes go through.
--
-- Not modelled
-- - What becomes of the store's file when two processes are inside the lock, and the like lock of
--   `withStoreMutation`. A lock file without a process number, which counts as a dead process's.
-- - The interleaving of one process's own requests while they wait for the file. An operation of the
--   provider reads the clock once.
-- - What other managers do between the calls of the file system of one operation on the slots, and a
--   slot's file that is written in part.
-- - A short write: `handle.write` writes all of its chunk or throws. The source does not look at how
--   much was written.
-- - The text of the JSON: the file holds a parsed value. Integer-like keys, which JavaScript lists
--   before the other keys of an object, keep their place here.
-- - The server's HTTP side and the spawning, reading and stopping of processes, which are input and
--   output; the scripts under scripts/, which test and analyse.
pub mod Base
pub mod Capture
pub mod Scope
pub mod Busy
pub mod Lock
pub mod Oauth
pub mod Words
pub mod Jsonl
pub mod Admission
pub mod Paging
pub mod Plan
pub mod Child
