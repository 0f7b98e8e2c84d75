-- ===== src/Retry/Backoff.antt =====
-- `Do` of internal/util/retry/retry.go. The operation, the context and the test for permanent errors are
-- arguments, each by the number of the attempt; so is the delay `base * 2^(attempt-1)`, which the code
-- computes in float64. Ints and durations are bit patterns (Prelude/Int64).
use minicloud_platform.Prelude.{
  ℕ, zero, suc, ◌+◌, ◌-◌, Bool, true, false, Option, none, some, if◌then◌else◌,
}
use minicloud_platform.Prelude.Int64.{lt_i64, le_i64, div_i64}

-- What `Do` is given: `cancelled` is the context's error before an attempt, `waited` in the wait after it.
pub record Job : Type 1 where
  pub E : Type 0
  pub operation : ℕ → Option E
  pub cancelled : ℕ → Option E
  pub waited : ℕ → Option E
  pub is_permanent : E → Bool
  pub delay : ℕ → ℕ → ℕ

module _ (j : Job) where
  -- the result, and how often the operation was called; `rand.Int64N` panics below 1
  pub data Ending : Type 0 where
    success panicked : ℕ → Ending
    failed : j.E → ℕ → Ending

  -- the time to wait before the jitter
  abbrev pub capped : ℕ → ℕ → ℕ → ℕ
  capped base cap attempt = let d = j.delay base attempt in if lt_i64 cap d then cap else d

  -- the wait of an attempt that failed, and the attempts after it
  abbrev pub after_wait : ℕ → ℕ → ℕ → Ending → Ending
  after_wait base cap attempt rest =
      if le_i64 (div_i64 (capped base cap attempt) 4) 0
      then panicked attempt
      else elim (j.waited attempt) [ some e ↦ failed e attempt | none ↦ rest ]

  -- what follows from the operation's answer; `last` says that this is the last attempt
  abbrev pub after_call : ℕ → ℕ → ℕ → Bool → Ending → Option j.E → Ending
  after_call base cap attempt last rest none = success attempt
  after_call base cap attempt last rest (some e) =
      if j.is_permanent e
      then failed e attempt
      else if last
      then failed e attempt
      else after_wait base cap attempt rest

  -- The loop from an attempt on, with the number of attempts after it.
  unfoldable pub attempts : ℕ → ℕ → ℕ → ℕ → Ending
  attempts base cap zero attempt = elim (j.cancelled attempt) [
    | some e ↦ failed e (attempt - 1)
    | none ↦ after_call base cap attempt true (success attempt) (j.operation attempt)
  ]
  attempts base cap (suc left) attempt =
      let rest = attempts base cap left (attempt + 1) in
      elim (j.cancelled attempt) [
        | some e ↦ failed e (attempt - 1)
        | none ↦ after_call base cap attempt false rest (j.operation attempt)
      ]

  abbrev pub default : ℕ → ℕ → ℕ
  default n d = if le_i64 n 0 then d else n

  -- 100 ms and 30 s
  unfoldable pub do_retry : ℕ → ℕ → ℕ → Ending
  unfolding attempts
  do_retry max_attempts base cap =
      attempts (default base 100000000) (default cap 30000000000) (default max_attempts 6 - 1) 1
