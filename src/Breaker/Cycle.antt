-- ===== src/Breaker/Cycle.antt =====
-- What a breaker does to calls of `Execute` that follow each other: it opens, refuses and recovers.

use gpass.Prelude.{
  length, All, ℕ, suc, ◌+◌, ◌<◌, ◌≡◌, refl, ap, ◌∙◌, Option, none, some, List, [], ◌∷◌, ◌++◌, map,
  arith,
}
use gpass.Breaker.Advanced.{
  AdvancedBreaker, after_failure, record_advanced_failure, admit, CallError, circuit_open, execute,
}
use gpass.Breaker.Basic.{closed, opened, Breaker, allow, record_failure}

pub record Call (E : Type 0) : Type 0 where
  pub started : ℕ
  pub ended : ℕ
  pub error : Option E

abbrev pub with_failures : ℕ → AdvancedBreaker → AdvancedBreaker
with_failures n b = record b { breaker = record b.breaker { failures = n } }

pub record_failure-low :
    (now : ℕ) (b : Breaker)
    → suc b.failures < b.threshold
    → record_failure now b ≡ record b { failures = suc b.failures }
unfolding record_failure
record_failure-low now b h = ground (arith, h)

pub record_failure-last :
    (now : ℕ) (b : Breaker)
    → suc b.failures ≡ b.threshold
    → record_failure now b ≡ record b { failures = suc b.failures; state = opened; opened_at = now }
unfolding record_failure
record_failure-last now b h = ground (arith, h)

module _ {E : Type 0} where
  -- the state after the calls, and what each of them returned
  unfoldable pub run_calls :
      List (Call E) → AdvancedBreaker → AdvancedBreaker × List (Option (CallError E))
  run_calls [] b = (b, [])
  run_calls (c ∷ cs) b =
      let (d, change, result) = execute c.started c.ended c.error b in
      let (last, results) = run_calls cs d in (last, result ∷ results)

  abbrev pub Fails : Call E → Type 0
  Fails c = (e : E) × (c.error ≡ some e)

  abbrev pub Passes : Call E → Type 0
  Passes c = c.error ≡ none

  -- The call starts before an open breaker lets one through.
  abbrev pub IsEarly : AdvancedBreaker → Call E → Type 0
  IsEarly b c = c.started < b.breaker.opened_at + b.breaker.cooldown

  execute-early :
      (b : AdvancedBreaker) (c : Call E)
      → b.breaker.state ≡ opened
      → IsEarly b c
      → execute c.started c.ended c.error b ≡ (b, none, some circuit_open)
  unfolding execute admit allow
  execute-early b c o early = ground (arith, o, early)

  -- While the cooldown lasts, an open breaker refuses each call and stays as it is.
  pub run_calls-refused :
      (b : AdvancedBreaker) (cs : List (Call E))
      → b.breaker.state ≡ opened
      → All (IsEarly b) cs
      → run_calls cs b ≡ (b, map (λ _. some circuit_open) cs)
  unfolding run_calls
  run_calls-refused b [] o early = refl
  run_calls-refused b (c ∷ cs) o early =
      rw (execute-early b c o early.0) (rw (run_calls-refused b cs o early.1) refl)

  pub execute-Fails :
      (b : AdvancedBreaker) (c : Call E)
      → b.breaker.state ≡ closed
      → Fails c
      → (execute c.started c.ended c.error b).0
        ≡ record b { breaker = record_failure c.ended b.breaker }
  unfolding execute admit allow record_advanced_failure after_failure
  execute-Fails b c o (e, h) = rw h (ground (arith, o))

  -- Calls that fail one after the other, fewer than are missing to the threshold, are counted.
  run_calls-counted :
      (b : AdvancedBreaker) (cs : List (Call E))
      → b.breaker.state ≡ closed
      → All Fails cs
      → b.breaker.failures + length cs < b.breaker.threshold
      → (run_calls cs b).0 ≡ with_failures (b.breaker.failures + length cs) b
  unfolding run_calls
  run_calls-counted b [] o fails h = ap (λ n. with_failures n b) (omega arith)
  run_calls-counted b (c ∷ cs) o fails h =
      let low = record_failure-low c.ended b.breaker (omega (arith, h)) in
      let counted = execute-Fails b c o fails.0 ∙ ap (λ k. record b { breaker = k }) low in
      ap (λ d. (run_calls cs d).0) counted
      ∙ run_calls-counted (with_failures (suc b.breaker.failures) b) cs o fails.1 (omega (arith, h))
      ∙ ap (λ n. with_failures n b) (omega arith)

  run_calls-append :
      (cs ds : List (Call E)) (b : AdvancedBreaker)
      → (run_calls (cs ++ ds) b).0 ≡ (run_calls ds (run_calls cs b).0).0
  unfolding run_calls
  run_calls-append [] ds b = refl
  run_calls-append (c ∷ cs) ds b = run_calls-append cs ds (execute c.started c.ended c.error b).0

  -- When calls of a closed breaker fail one after the other, it opens with the failure that makes up the
  -- threshold and is closed before that one; it then holds the time at which that call ended.
  pub run_calls-opens :
      (b : AdvancedBreaker) (cs : List (Call E)) (last : Call E)
      → b.breaker.state ≡ closed
      → All Fails cs
      → Fails last
      → suc (b.breaker.failures + length cs) ≡ b.breaker.threshold
      → ((run_calls cs b).0.breaker.state ≡ closed)
        × ((run_calls (cs ++ last ∷ []) b).0.breaker.state ≡ opened)
        × ((run_calls (cs ++ last ∷ []) b).0.breaker.opened_at ≡ last.ended)
        × ((run_calls (cs ++ last ∷ []) b).0.breaker.cooldown ≡ b.breaker.cooldown)
  unfolding run_calls
  run_calls-opens b cs last o fails l h =
      let n = b.breaker.failures + length cs in
      let counted = run_calls-counted b cs o fails (omega (arith, h)) in
      let opening =
        run_calls-append cs (last ∷ []) b
        ∙ ap (λ d. (run_calls (last ∷ []) d).0) counted
        ∙ execute-Fails (with_failures n b) last o l
        ∙ ap (λ k. record b { breaker = k })
            (record_failure-last last.ended (record b.breaker { failures = n }) h) in
      (ap (λ d. d.breaker.state) counted ∙ o, rw opening refl, rw opening refl, rw opening refl)
