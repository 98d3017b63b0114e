-- ===== src/Breaker/Basic.antt =====
-- packages/golib/circuitbreaker/breaker.go. Times are in nanoseconds; `time.Since` reads a clock that
-- does not go back. A threshold or a cooldown below zero acts as zero. A count of calls stays below
-- 2^63.
use gpass.Prelude.{ℤ, pos_part, ℕ, suc, ◌+◌, Bool, true, false, leb, if◌then◌else◌}

-- `StateClosed`, `StateOpen` and `StateHalfOpen`
pub data State : Type 0 where
  closed opened half_open : State

pub record Breaker : Type 0 where
  pub threshold : ℕ
  pub cooldown : ℕ
  pub failures : ℕ
  pub state : State
  pub opened_at : ℕ

abbrev pub new_breaker : ℤ → ℤ → Breaker
new_breaker threshold cooldown = record {
  threshold = pos_part threshold;
  cooldown = pos_part cooldown;
  failures = 0;
  state = closed;
  opened_at = 0;
}

unfoldable pub allow : ℕ → Breaker → Bool × Breaker
allow now b = elim b.state [
  | closed ↦ (true, b)
  | opened ↦
      if leb (b.opened_at + b.cooldown) now
      then (true, record b { state = half_open })
      else (false, b)
  | half_open ↦ (true, b)
]

unfoldable pub record_success : Breaker → Breaker
record_success b = record b { failures = 0; state = closed }

unfoldable pub record_failure : ℕ → Breaker → Breaker
record_failure now b =
    if leb b.threshold (suc b.failures)
    then record b { failures = suc b.failures; state = opened; opened_at = now }
    else record b { failures = suc b.failures }
