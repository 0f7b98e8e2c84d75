-- ===== src/Retry/Examples.antt =====
-- Retries of internal/util/retry at concrete inputs.
use minicloud_platform.Prelude.{ℕ, ◌≤◌, ◌≡◌, refl, false, none, some, arith, ltb, if◌then◌else◌}
use minicloud_platform.Retry.Backoff.{Job, success, default, do_retry}
use minicloud_platform.Retry.Attempts.{IsPatient, Fails, do_retry-success}

-- fails with its number until the attempt `n`
abbrev flaky : ℕ → Job
flaky n = record {
  E = ℕ;
  operation = λ k. if ltb k n then some k else none;
  cancelled = λ k. none;
  waited = λ k. none;
  is_permanent = λ e. false;
  delay = λ base attempt. base;
}

patient :
    (n : ℕ)
    → IsPatient (flaky n) (default (flaky n) 1000 100000000) (default (flaky n) 5000 30000000000)
patient n = record {
  running = λ k. refl;
  waiting = λ k. refl;
  transient = λ e. refl;
  long_enough = λ k. omega arith;
  small = λ k. omega arith;
}

until : (n k : ℕ) → k ≤ n → Fails (flaky n) 1 k
until n k h = record { each = λ i l u. (i, ground (arith, h, u)) }

do_retry-success_example : do_retry (flaky 3) 5 1000 5000 ≡ success 3
do_retry-success_example =
    do_retry-success (flaky 3) 5 1000 5000 3 (patient 3) (omega arith) (omega arith)
      (until 3 3 (omega arith)) refl
