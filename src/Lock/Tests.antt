-- ===== src/Lock/Tests.antt =====
-- Rounds and histories at the lock.
use chatgpt_mcp_clean.Base.{
  ℕ, ◌≤◌, ◌≡◌, refl, false, none, some, [], ◌∷◌, length, arith, ◌==◌, if◌then◌else◌,
}
use chatgpt_mcp_clean.Lock.{
  contended, done, again, wait, timed_out, Meets, round, Phase, waiting, inside, dead, System,
  set_phase, set_lock, Steps, here, onward, create,
}
use chatgpt_mcp_clean.Lock.Exclusion.{IsHeld, inside_unique, reclaim-two_inside}
use chatgpt_mcp_clean.Lock.Patience.{waits-bounded}

abbrev held_at : ℕ → ℕ → Meets
held_at now age = record {
  opened = contended;
  stat = done;
  age = age;
  holder_alive = false;
  unlink = done;
  now = now;
}

held_waits : round 2000 (held_at 10 500) ≡ wait
unfolding round
held_waits = refl

stale_goes : round 2000 (held_at 10 15001) ≡ again
unfolding round
stale_goes = refl

late_gives_up : round 2000 (held_at 2000 500) ≡ timed_out
unfolding round
late_gives_up = refl

waits-bounded_example : length (held_at 5 500 ∷ held_at 20 515 ∷ []) ≤ 200
waits-bounded_example =
    waits-bounded 0 (held_at 5 500 ∷ held_at 20 515 ∷ []) (omega arith, (omega arith, tt))
      (unfold round in (refl, (refl, tt)))

abbrev quiet : System
quiet = record { lock = none; phase = λ i. waiting }

quiet-IsHeld : IsHeld quiet
quiet-IsHeld = record { owner = λ p e. ground arith }

abbrev entering : Steps quiet (set_lock (some 3) (set_phase 3 inside quiet))
entering = onward here (create 3 refl refl)

inside_unique_example : ◌≡◌ {A = ℕ} 3 3
inside_unique_example = inside_unique entering (tt, tt) quiet-IsHeld 3 3 refl refl

abbrev phases : ℕ → Phase
phases i = if i == 0 then dead else waiting

abbrev abandoned : System
abandoned = record { lock = some 0; phase = phases }

reclaim-two_inside_example :
    (t : System) × Steps abandoned t × (t.phase 1 ≡ inside) × (t.phase 2 ≡ inside)
reclaim-two_inside_example = reclaim-two_inside abandoned 1 2 0 refl refl refl refl refl
