-- ===== src/Lock.antt =====
-- The lock file of `withLock` in src/lib/busy-store.ts, between processes that take it in turn.
-- Each system call is a step of its own: creating the file, finding it stale, unlinking it.
pub mod Exclusion
pub mod Patience
mod Tests
use chatgpt_mcp_clean.Base.{
  ℕ, Bool, true, false, not, ◌&&◌, ◌≡◌, ◌==◌, Option, none, some, ltb, leb, if◌then◌else◌,
}

abbrev pub lock_timeout_ms : ℕ
lock_timeout_ms = 2000

abbrev pub lock_stale_ms : ℕ
lock_stale_ms = 15000

abbrev pub lock_retry_ms : ℕ
lock_retry_ms = 10

-- What `openSync(lockPath, "wx")` does.
pub data Opened : Type 0 where
  created contended open_failed : Opened

-- What `statSync`, and `unlinkSync` where it is called, do.
pub data Call : Type 0 where
  done gone denied failed : Call

-- What one round of the loop comes to.
pub data Round : Type 0 where
  entered : Round
  again : Round
  wait : Round
  timed_out : Round
  thrown : Round

-- What a round meets: the age of the lock file, whether its holder is alive, the clock.
pub record Meets : Type 0 where
  pub opened : Opened
  pub stat : Call
  pub age : ℕ
  pub holder_alive : Bool
  pub unlink : Call
  pub now : ℕ

-- The end of a round that reclaimed nothing.
abbrev pub wait_or_give_up : (deadline : ℕ) → Meets → Round
wait_or_give_up deadline m = if leb deadline m.now then timed_out else wait

-- What a call that may throw comes to: a missing file means that the holder is gone, and an error of
-- contention is passed over.
abbrev pub after_call : Call → (deadline : ℕ) → Meets → Round → Round
after_call done deadline m next = next
after_call gone deadline m next = again
after_call denied deadline m next = wait_or_give_up deadline m
after_call failed deadline m next = thrown

abbrev pub is_stale : Meets → Bool
is_stale m = ltb lock_stale_ms m.age && not m.holder_alive

abbrev pub after_open : Opened → (deadline : ℕ) → Meets → Round
after_open created deadline m = entered
after_open open_failed deadline m = thrown
after_open contended deadline m =
    after_call m.stat deadline m
      (if is_stale m then after_call m.unlink deadline m again else wait_or_give_up deadline m)

-- One round of the loop.
unfoldable pub round : (deadline : ℕ) → Meets → Round
round deadline m = after_open m.opened deadline m

-- A process is not at the lock, tries to take it, has found it stale and is about to unlink it, is
-- inside, or has died. `condemning` says whose lock the process has found stale.
pub data Phase : Type 0 where
  idle : Phase
  waiting : Phase
  condemning : ℕ → Phase
  inside : Phase
  dead : Phase

-- The lock file, with the process that created it, and every process's phase.
pub record System : Type 0 where
  pub lock : Option ℕ
  pub phase : ℕ → Phase

abbrev pub set_phase : ℕ → Phase → System → System
set_phase p v s = record s { phase = λ i. if p == i then v else s.phase i }

abbrev pub set_lock : Option ℕ → System → System
set_lock o s = record s { lock = o }

-- The steps. A lock is found stale when the process whose number it has is dead; its age is left
-- out. `unlinkSync` removes the file that is there, whoever created it.
pub data Step (s : System) : System → Type 0 where
  begin : (p : ℕ) → s.phase p ≡ idle → Step s (set_phase p waiting s)
  give_up : (p : ℕ) → s.phase p ≡ waiting → Step s (set_phase p idle s)
  create :
      (p : ℕ)
      → s.phase p ≡ waiting
      → s.lock ≡ none
      → Step s (set_lock (some p) (set_phase p inside s))
  condemn :
      (p q : ℕ)
      → s.phase p ≡ waiting
      → s.lock ≡ some q
      → s.phase q ≡ dead
      → Step s (set_phase p (condemning q) s)
  reclaim : (p q : ℕ) → s.phase p ≡ condemning q → Step s (set_lock none (set_phase p waiting s))
  leave : (p : ℕ) → s.phase p ≡ inside → Step s (set_lock none (set_phase p idle s))
  die : (p : ℕ) → Step s (set_phase p dead s)

pub data Steps (s : System) : System → Type 0 where
  here : Steps s s
  onward : {t u : System} → Steps s t → Step t u → Steps s u
