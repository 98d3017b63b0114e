-- ===== src/Breaker/Load.antt =====
-- How many calls of a failing function a breaker of packages/golib/circuitbreaker lets through.
use Prim.Native.Nat.{min}
use native.Mathlib.Decide.{dec_lt}
use gpass.Prelude.{
  length, All, ℕ, suc, ◌+◌, ◌-◌, ◌≤◌, ◌<◌, ◌≡◌, refl, ap, ◌∙◌, Bool, true, false, Option, none,
  some, List, [], ◌∷◌, map, arith, if◌then◌else◌,
}
use gpass.Breaker.Cycle.{
  Call, with_failures, record_failure-low, record_failure-last, run_calls, Fails, run_calls-refused,
  execute-Fails,
}
use gpass.Breaker.Advanced.{
  AdvancedBreaker, record_advanced_failure, admit, CallError, circuit_open, failed, execute,
}
use gpass.Breaker.Basic.{closed, opened, allow}

-- The call returned what its function returned, so that the function has run.
abbrev pub has_run : {E : Type 0} → Option (CallError E) → Bool
has_run (some circuit_open) = false
has_run (some (failed e)) = true
has_run none = true

-- how many of the results come from a function that has run
unfoldable pub run_count : {E : Type 0} → List (Option (CallError E)) → ℕ
run_count [] = 0
run_count (r ∷ rs) = if has_run r then suc (run_count rs) else run_count rs

module _ {E : Type 0} where
  run_count-refused : (cs : List (Call E)) → run_count {E = E} (map (λ _. some circuit_open) cs) ≡ 0
  unfolding run_count
  run_count-refused [] = refl
  run_count-refused (c ∷ cs) = run_count-refused cs

  execute-failed :
      (b : AdvancedBreaker) (c : Call E)
      → b.breaker.state ≡ closed
      → Fails c
      → has_run (execute c.started c.ended c.error b).2 ≡ true
  unfolding execute admit allow record_advanced_failure
  execute-failed b c o (e, h) = rw h (ground (arith, o))

  -- A call that fails starts before `until`, and ends so that a cooldown from there goes on to `until`.
  abbrev pub FailsWithin : ℕ → ℕ → Call E → Type 0
  FailsWithin cooldown until c = Fails c × (c.started < until) × (until ≤ c.ended + cooldown)

  abbrev tripped : AdvancedBreaker → Call E → AdvancedBreaker
  tripped b c = record b {
    breaker = record b.breaker {
      failures = suc b.breaker.failures;
      state = opened;
      opened_at = c.ended;
    };
  }

  All-early :
      (cooldown until ended : ℕ)
      → until ≤ ended + cooldown
      → (cs : List (Call E)) → All (FailsWithin cooldown until) cs
      → All (λ c. c.started < ended + cooldown) cs
  All-early cooldown until ended l [] h = tt
  All-early cooldown until ended l (c ∷ cs) ((_, early, _), h) =
      (omega (arith, early, l), All-early cooldown until ended l cs h)

  -- If a closed breaker has counted fewer failures than its threshold, and of the calls that follow
  -- each other every one fails if it runs and starts less than a cooldown after any of them ends, then
  -- as many functions run as failures are missing to the threshold, or all if there are fewer calls:
  -- the others are refused.
  pub run_calls-bounded :
      (b : AdvancedBreaker) (until : ℕ) (cs : List (Call E))
      → b.breaker.state ≡ closed
      → b.breaker.failures < b.breaker.threshold
      → All (FailsWithin b.breaker.cooldown until) cs
      → run_count (run_calls cs b).1 ≡ min (length cs) (b.breaker.threshold - b.breaker.failures)
  unfolding run_calls run_count
  run_calls-bounded b until [] o low h = omega arith
  run_calls-bounded b until (c ∷ cs) o low ((fails, early, long), h) =
      elim (dec_lt (suc b.breaker.failures) b.breaker.threshold) [
        | yes p ↦
            let next = with_failures (suc b.breaker.failures) b in
            let counted =
              execute-Fails b c o fails
              ∙ ap (λ k. record b { breaker = k }) (record_failure-low c.ended b.breaker p) in
            let rest =
              ap (λ d. run_count (run_calls cs d).1) counted
              ∙ run_calls-bounded next until cs o p h in
            rw (ran, run_count) (ap suc rest ∙ omega arith)
        | no p ↦
            let opening =
              execute-Fails b c o fails
              ∙ ap (λ k. record b { breaker = k })
                  (record_failure-last c.ended b.breaker (omega (arith, p, low))) in
            let rest =
              ap (λ d. run_count (run_calls cs d).1) opening
              ∙ ap (λ r. run_count r.1)
                  (run_calls-refused (tripped b c) cs refl
                    (All-early b.breaker.cooldown until c.ended long cs h))
              ∙ run_count-refused cs in
            rw (ran, run_count) (ap suc rest ∙ omega (arith, p, low))
      ]
    where
      ran : has_run (execute c.started c.ended c.error b).2 ≡ true
      ran = execute-failed b c o fails
