-- ===== src/Lock/Patience.antt =====
-- How long `withLock` waits.
use chatgpt_mcp_clean.Base.{
  ℕ, ◌+◌, ◌-◌, ◌*◌, ◌≤◌, ◌<◌, ◌≡◌, List, [], ◌∷◌, arith, leb, length, if-cases, All,
}
use chatgpt_mcp_clean.Lock.{
  lock_timeout_ms, lock_retry_ms, Opened, created, contended, open_failed, Call, done, gone, denied,
  failed, Round, again, wait, Meets, wait_or_give_up, after_call, is_stale, after_open, round,
}

-- Each round comes after the one before and its pause.
abbrev pub IsPaced : (earliest : ℕ) → List Meets → Type 0
IsPaced earliest [] = Unit
IsPaced earliest (m ∷ ms) = (earliest ≤ m.now) × IsPaced (m.now + lock_retry_ms) ms

module _ (deadline : ℕ) (m : Meets) where
  wait_or_give_up-early : wait_or_give_up deadline m ≡ wait → m.now < deadline
  wait_or_give_up-early =
      if-cases (λ r. r ≡ wait → m.now < deadline) (leb deadline m.now) (λ _ h. ground arith)
        λ early _. ground (arith, early)

  after_call-early :
      (c : Call) (next : Round)
      → (next ≡ wait → m.now < deadline)
      → after_call c deadline m next ≡ wait
      → m.now < deadline
  after_call-early done next f h = f h
  after_call-early gone next f h = ground arith
  after_call-early denied next f h = wait_or_give_up-early h
  after_call-early failed next f h = ground arith

  after_open-early : (o : Opened) → after_open o deadline m ≡ wait → m.now < deadline
  after_open-early created h = ground arith
  after_open-early open_failed h = ground arith
  after_open-early contended h =
      after_call-early m.stat _
        (if-cases (λ r. r ≡ wait → m.now < deadline) (is_stale m)
          (λ _. after_call-early m.unlink again λ e. ground arith) (λ _. wait_or_give_up-early))
        h

  round-early : round deadline m ≡ wait → m.now < deadline
  unfolding round
  round-early h = after_open-early m.opened h

waits-within :
    (deadline earliest : ℕ) (ms : List Meets)
    → IsPaced earliest ms
    → All (λ m. round deadline m ≡ wait) ms
    → length ms * 10 ≤ deadline - earliest + 9
waits-within deadline earliest [] paced waits = omega arith
waits-within deadline earliest (m ∷ ms) paced waits = omega (
  arith,
  round-early deadline m waits.0,
  paced.0,
  waits-within deadline (m.now + lock_retry_ms) ms paced.1 waits.1,
)

-- However the lock is held, a call waits at most 200 times before it enters or gives up: when every
-- round of a row ends in waiting, and each comes at least the pause after the one before, there are
-- at most 200 of them.
pub waits-bounded :
    (start : ℕ) (ms : List Meets)
    → IsPaced start ms
    → All (λ m. round (start + lock_timeout_ms) m ≡ wait) ms
    → length ms ≤ 200
waits-bounded start ms paced waits =
    omega (arith, waits-within (start + lock_timeout_ms) start ms paced waits)
