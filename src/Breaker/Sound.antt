-- ===== src/Breaker/Sound.antt =====
-- What holds of a breaker at every moment, whatever calls overlap.
use gpass.Prelude.{ℤ, pos, negsuc, ℕ, zero, suc, ◌<◌, ◌≡◌, refl, ◌≢◌, arith}
use gpass.Breaker.Advanced.{
  Config, AdvancedBreaker, or_default, new_advanced, after_success, record_advanced_success,
  after_failure, record_advanced_failure, admit,
}
use gpass.Breaker.Basic.{closed, half_open, allow, record_success, record_failure}

-- A closed breaker has seen fewer failures in a row than its threshold; probes are counted in the
-- half-open state alone, and fewer of them than close the breaker.
pub record IsSound (b : AdvancedBreaker) : Type 0 where
  pub threshold_pos : 0 < b.breaker.threshold
  pub success_pos : 0 < b.success_threshold
  pub closed_low : b.breaker.state ≡ closed → b.breaker.failures < b.breaker.threshold
  pub probes_low : b.half_open_success < b.success_threshold
  pub no_probes : b.breaker.state ≢ half_open → b.half_open_success ≡ 0

-- The steps that calls of a breaker take, in any order: calls overlap, so that a call may end in
-- another state than it began.
pub data Reach (cfg : Config) : AdvancedBreaker → Type 0 where
  made : Reach cfg (new_advanced cfg)
  admitted : {b : AdvancedBreaker} (now : ℕ) → Reach cfg b → Reach cfg (admit now b).1
  succeeded : {b : AdvancedBreaker} → Reach cfg b → Reach cfg (record_advanced_success b).0
  failed_at :
      {b : AdvancedBreaker} (now : ℕ) → Reach cfg b → Reach cfg (record_advanced_failure now b).0

or_default_pos : (n : ℕ) (v : ℤ) → 0 < n → 0 < or_default n v
or_default_pos n (pos zero) h = h
or_default_pos n (pos (suc k)) h = omega arith
or_default_pos n (negsuc k) h = h

new_advanced-IsSound : (cfg : Config) → IsSound (new_advanced cfg)
unfolding new_advanced
new_advanced-IsSound cfg = record {
  threshold_pos = or_default_pos 5 cfg.threshold (omega arith);
  success_pos = or_default_pos 2 cfg.success_threshold (omega arith);
  closed_low = λ _. or_default_pos 5 cfg.threshold (omega arith);
  probes_low = or_default_pos 2 cfg.success_threshold (omega arith);
  no_probes = λ _. refl;
}

admit-IsSound : (now : ℕ) (b : AdvancedBreaker) → IsSound b → IsSound (admit now b).1
unfolding admit allow
admit-IsSound now b h = ground (arith, h)

after_success-IsSound : (b : AdvancedBreaker) → IsSound b → IsSound (after_success b)
unfolding after_success record_success
after_success-IsSound b h = ground (arith, h)

after_failure-IsSound : (now : ℕ) (b : AdvancedBreaker) → IsSound b → IsSound (after_failure now b)
unfolding after_failure record_failure
after_failure-IsSound now b h = ground (arith, h)

-- Whatever calls overlap, a closed breaker has counted fewer failures than its threshold, and the
-- successful probes are counted only while it is half-open and are fewer than close it.
pub Reach-IsSound : {cfg : Config} {b : AdvancedBreaker} → Reach cfg b → IsSound b
unfolding record_advanced_success record_advanced_failure
Reach-IsSound {cfg} made = new_advanced-IsSound cfg
Reach-IsSound (admitted {b} now r) = admit-IsSound now b (Reach-IsSound r)
Reach-IsSound (succeeded {b} r) = after_success-IsSound b (Reach-IsSound r)
Reach-IsSound (failed_at {b} now r) = after_failure-IsSound now b (Reach-IsSound r)
