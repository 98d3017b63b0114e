-- ===== src/Breaker/Tests.antt =====
-- Runs of packages/golib/circuitbreaker, and its theorems at concrete inputs.

use gpass.Prelude.{pos, negsuc, ℕ, suc, String, ◌≡◌, refl, true, none, some, [], ◌∷◌, arith}
use gpass.Breaker.Cycle.{Call, run_calls, run_calls-opens}
use gpass.Breaker.Advanced.{
  Config, AdvancedBreaker, new_advanced, notified, after_success, record_advanced_success,
  after_failure, record_advanced_failure, admit, circuit_open, failed, execute_with_result, execute,
}
use gpass.Breaker.Sound.{IsSound, Reach, made, admitted, failed_at, Reach-IsSound}
use gpass.Breaker.Basic.{closed, opened, half_open, allow, record_success, record_failure}
use gpass.Breaker.Recovery.{run_calls-recovers}
use gpass.Breaker.Load.{run_count, run_calls-bounded}

program : Unit {0}
unfolding new_advanced allow admit record_success record_failure notified after_success
    after_failure record_advanced_success record_advanced_failure execute_with_result execute
    run_calls
program = tt

-- Two failures open the breaker, for ten time units.
abbrev config : Config
config = record {
  name = "ahu";
  threshold = pos 2;
  cooldown = pos 10;
  half_open_max_probes = pos 1;
  success_threshold = negsuc 3;
  on_state_change = true;
}

abbrev fresh : AdvancedBreaker
fresh = record {
  breaker = record { threshold = 2; cooldown = 10; failures = 0; state = closed; opened_at = 0 };
  name = "ahu";
  half_open_success = 0;
  half_open_max = 1;
  success_threshold = 2;
  notifies = true;
}

abbrev tripped : AdvancedBreaker
tripped = record fresh {
  breaker = record { threshold = 2; cooldown = 10; failures = 2; state = opened; opened_at = 7 };
}

abbrev failing : ℕ → Call String
failing t = record { started = t; ended = suc t; error = some "timeout" }

abbrev passing : ℕ → Call String
passing t = record { started = t; ended = suc t; error = none }

runs :
    (new_advanced config ≡ fresh)
    × (run_calls (failing 3 ∷ failing 6 ∷ passing 8 ∷ []) fresh
        ≡ (tripped, some (failed "timeout") ∷ some (failed "timeout") ∷ some circuit_open ∷ []))
    × ((record_advanced_failure 7 (run_calls (failing 3 ∷ []) fresh).0).1
        ≡ some (record { name = "ahu"; from = closed; to = opened }))
unfolding program
runs = (refl, refl, refl)

-- A call that was let through before the breaker opened and succeeds after that closes it at once.
late_success : (record_advanced_success tripped).0.breaker.state ≡ closed
unfolding program
late_success = refl

-- The half-open state lets every call through, whatever `halfOpenMax` says, and `Allow` tells nobody
-- that the state has changed.
unlimited_probes :
    let (first, b) = admit 17 tripped in
    let (second, c) = admit 17 b in (first ≡ true) × (second ≡ true) × (c.breaker.state ≡ half_open)
unfolding program
unlimited_probes = (refl, refl, refl)

after_failures : Reach config (run_calls (failing 3 ∷ failing 6 ∷ []) fresh).0
unfolding program
after_failures = failed_at 7 (admitted 6 (failed_at 4 (admitted 3 made)))

Reach-IsSound_example : IsSound tripped
unfolding program
Reach-IsSound_example = Reach-IsSound after_failures

run_calls-opens_example :
    ((run_calls (failing 3 ∷ []) fresh).0.breaker.state ≡ closed)
    × ((run_calls (failing 3 ∷ failing 6 ∷ []) fresh).0.breaker.state ≡ opened)
    × ((run_calls (failing 3 ∷ failing 6 ∷ []) fresh).0.breaker.opened_at ≡ 7)
    × ((run_calls (failing 3 ∷ failing 6 ∷ []) fresh).0.breaker.cooldown ≡ 10)
run_calls-opens_example =
    run_calls-opens fresh (failing 3 ∷ []) (failing 6) refl (("timeout", refl), tt)
      ("timeout", refl) refl

run_calls-recovers_example :
    (run_calls (passing 17 ∷ passing 20 ∷ []) tripped).0
    ≡ record fresh { breaker = record fresh.breaker { opened_at = 7 } }
unfolding program
run_calls-recovers_example =
    run_calls-recovers tripped (passing 17) (passing 20 ∷ []) (Reach-IsSound after_failures) refl
      (omega arith) (refl, (refl, tt)) refl

run_calls-bounded_example :
    run_count (run_calls (failing 3 ∷ failing 6 ∷ failing 8 ∷ failing 12 ∷ []) fresh).1 ≡ 2
run_calls-bounded_example =
    run_calls-bounded fresh 14 (failing 3 ∷ failing 6 ∷ failing 8 ∷ failing 12 ∷ []) refl
      (omega arith)
      (
        (("timeout", refl), omega arith, omega arith),
        (
          (("timeout", refl), omega arith, omega arith),
          (
            (("timeout", refl), omega arith, omega arith),
            ((("timeout", refl), omega arith, omega arith), tt),
          ),
        ),
      )
