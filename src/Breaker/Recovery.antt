-- ===== src/Breaker/Recovery.antt =====
-- How an open breaker of packages/golib/circuitbreaker closes again.

use gpass.Prelude.{length, All, suc, ◌+◌, ◌≤◌, ◌<◌, ◌≡◌, refl, ap, ◌∙◌, List, [], ◌∷◌, arith}
use gpass.Breaker.Cycle.{Call, run_calls, Passes}
use gpass.Breaker.Advanced.{AdvancedBreaker, after_success, record_advanced_success, admit, execute}
use gpass.Breaker.Sound.{IsSound}
use gpass.Breaker.Basic.{closed, opened, half_open, allow, record_success}

abbrev half : AdvancedBreaker → AdvancedBreaker
half b = record b { breaker = record b.breaker { state = half_open } }

abbrev pub recovered : AdvancedBreaker → AdvancedBreaker
recovered b = record b {
  breaker = record b.breaker { state = closed; failures = 0 };
  half_open_success = 0;
}

module _ {E : Type 0} where
  execute-late :
      (b : AdvancedBreaker) (c : Call E)
      → b.breaker.state ≡ opened
      → b.breaker.opened_at + b.breaker.cooldown ≤ c.started
      → execute c.started c.ended c.error b ≡ execute c.started c.ended c.error (half b)
  unfolding execute admit allow
  execute-late b c o late = ground (arith, o, late)

  execute-probe :
      (b : AdvancedBreaker) (c : Call E)
      → b.breaker.state ≡ half_open
      → Passes c
      → suc b.half_open_success < b.success_threshold
      → (execute c.started c.ended c.error b).0
        ≡ record b { half_open_success = suc b.half_open_success }
  unfolding execute admit allow record_advanced_success after_success
  execute-probe b c o p low = rw p (ground (arith, o, low))

  execute-closes :
      (b : AdvancedBreaker) (c : Call E)
      → b.breaker.state ≡ half_open
      → Passes c
      → suc b.half_open_success ≡ b.success_threshold
      → (execute c.started c.ended c.error b).0 ≡ recovered b
  unfolding execute admit allow record_advanced_success after_success record_success
  execute-closes b c o p low = rw p (ground (arith, o, low))

  run_calls-probes :
      (b : AdvancedBreaker) (c : Call E) (cs : List (Call E))
      → b.breaker.state ≡ half_open
      → All Passes (c ∷ cs)
      → b.half_open_success + length (c ∷ cs) ≡ b.success_threshold
      → (run_calls (c ∷ cs) b).0 ≡ recovered b
  unfolding run_calls
  run_calls-probes b c [] o p h = execute-closes b c o p.0 (omega (arith, h))
  run_calls-probes b c (d ∷ cs) o p h =
      ap (λ k. (run_calls (d ∷ cs) k).0) (execute-probe b c o p.0 (omega (arith, h)))
      ∙ run_calls-probes (record b { half_open_success = suc b.half_open_success }) d cs o p.1
          (omega (arith, h))

  -- As many successful calls in a row as the success threshold close an open breaker and clear its
  -- counts, if its counts are sound and the first of the calls starts after the cooldown.
  pub run_calls-recovers :
      (b : AdvancedBreaker) (c : Call E) (cs : List (Call E))
      → IsSound b
      → b.breaker.state ≡ opened
      → b.breaker.opened_at + b.breaker.cooldown ≤ c.started
      → All Passes (c ∷ cs)
      → length (c ∷ cs) ≡ b.success_threshold
      → (run_calls (c ∷ cs) b).0 ≡ recovered b
  unfolding run_calls
  run_calls-recovers b c cs sound o late p h =
      let idle : b.half_open_success ≡ 0 = sound.no_probes (λ e. ground (arith, o, e)) in
      ap (λ r. (run_calls cs r.0).0) (execute-late b c o late)
      ∙ run_calls-probes (half b) c cs refl p (omega (arith, idle, h))
