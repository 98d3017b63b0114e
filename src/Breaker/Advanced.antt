-- ===== src/Breaker/Advanced.antt =====
-- packages/golib/circuitbreaker/execute.go. The function that a call runs is its outcome and the time
-- when it ends; what it does to anything but the breaker is not part of the model.

use gpass.Prelude.{
  ℤ, pos, negsuc, ℕ, zero, suc, String, Bool, true, false, not, ◌&&◌, Option, none, some, leb,
  if◌then◌else◌, Result, ok, err,
}
use gpass.Breaker.Basic.{
  State, closed, opened, half_open, Breaker, new_breaker, allow, record_success, record_failure,
}

pub record Config : Type 0 where
  pub name : String
  pub threshold : ℤ
  pub cooldown : ℤ
  pub half_open_max_probes : ℤ
  pub success_threshold : ℤ
  pub on_state_change : Bool

-- `notifies` tells whether `onStateChange` is set.
pub record AdvancedBreaker : Type 0 where
  pub breaker : Breaker
  pub name : String
  pub half_open_success : ℕ
  pub half_open_max : ℕ
  pub success_threshold : ℕ
  pub notifies : Bool

-- the arguments of a call of `onStateChange`
pub record Change : Type 0 where
  pub name : String
  pub from : State
  pub to : State

-- `if v <= 0 { v = default }`
abbrev pub or_default : ℕ → ℤ → ℕ
or_default default (pos zero) = default
or_default default (pos (suc n)) = suc n
or_default default (negsuc n) = default

unfoldable pub new_advanced : Config → AdvancedBreaker
new_advanced cfg = record {
  breaker =
      new_breaker (pos (or_default 5 cfg.threshold)) (pos (or_default 30000000000 cfg.cooldown));
  name = cfg.name;
  half_open_success = 0;
  half_open_max = or_default 1 cfg.half_open_max_probes;
  success_threshold = or_default 2 cfg.success_threshold;
  notifies = cfg.on_state_change;
}

abbrev pub same_state : State → State → Bool
same_state closed closed = true
same_state opened opened = true
same_state half_open half_open = true
same_state _ _ = false

-- `if b.onStateChange != nil && prevState != b.state`
unfoldable pub notified : State → AdvancedBreaker → Option Change
notified before b =
    if b.notifies && not (same_state before b.breaker.state)
    then some (record { name = b.name; from = before; to = b.breaker.state })
    else none

-- the two branches of `RecordAdvancedSuccess`
unfoldable pub after_success : AdvancedBreaker → AdvancedBreaker
unfolding record_success
after_success b = elim b.breaker.state [
  | half_open ↦
      if leb b.success_threshold (suc b.half_open_success)
      then record b { breaker = record_success b.breaker; half_open_success = 0 }
      else record b { half_open_success = suc b.half_open_success }
  | closed ↦ record b { breaker = record_success b.breaker }
  | opened ↦ record b { breaker = record_success b.breaker }
]

unfoldable pub record_advanced_success : AdvancedBreaker → AdvancedBreaker × Option Change
unfolding after_success notified
record_advanced_success b = (after_success b, notified b.breaker.state (after_success b))

-- the two branches of `RecordAdvancedFailure`
unfoldable pub after_failure : ℕ → AdvancedBreaker → AdvancedBreaker
unfolding record_failure
after_failure now b = elim b.breaker.state [
  | half_open ↦ record b {
    breaker = record b.breaker { state = opened; opened_at = now };
    half_open_success = 0;
  }
  | closed ↦ record b { breaker = record_failure now b.breaker }
  | opened ↦ record b { breaker = record_failure now b.breaker }
]

unfoldable pub record_advanced_failure : ℕ → AdvancedBreaker → AdvancedBreaker × Option Change
unfolding after_failure notified
record_advanced_failure now b =
    (after_failure now b, notified b.breaker.state (after_failure now b))

-- `b.Allow()` of the embedded breaker
unfoldable pub admit : ℕ → AdvancedBreaker → Bool × AdvancedBreaker
unfolding allow
admit now b =
    let (allowed, breaker) = allow now b.breaker in (allowed, record b { breaker = breaker })

pub data CallError (E : Type 0) : Type 0 where
  circuit_open : CallError E
  failed : E → CallError E

-- `ExecuteWithResult`, without the zero value that goes with an error
unfoldable pub execute_with_result :
    {E T : Type 0}
    → ℕ
    → ℕ
    → Result E T
    → AdvancedBreaker
    → AdvancedBreaker × Option Change × Result (CallError E) T
unfolding admit record_advanced_success record_advanced_failure
execute_with_result started ended outcome b =
    let (allowed, c) = admit started b in
    elim allowed [
      | false ↦ (c, none, err circuit_open)
      | true ↦ elim outcome [
        | err e ↦ let (d, change) = record_advanced_failure ended c in (d, change, err (failed e))
        | ok v ↦ let (d, change) = record_advanced_success c in (d, change, ok v)
      ]
    ]

-- `Execute`; a nil error is `none`.
unfoldable pub execute :
    {E : Type 0}
    → ℕ
    → ℕ
    → Option E
    → AdvancedBreaker
    → AdvancedBreaker × Option Change × Option (CallError E)
unfolding admit record_advanced_success record_advanced_failure
execute started ended error b =
    let (allowed, c) = admit started b in
    elim allowed [
      | false ↦ (c, none, some circuit_open)
      | true ↦ elim error [
        | some e ↦ let (d, change) = record_advanced_failure ended c in (d, change, some (failed e))
        | none ↦ let (d, change) = record_advanced_success c in (d, change, none)
      ]
    ]
