-- ===== src/Retry/Attempts.antt =====
-- How often internal/util/retry/retry.go calls the operation, and what it returns.
use minicloud_platform.Prelude.{
  ℕ, zero, suc, ◌+◌, ◌-◌, ◌≤◌, ◌<◌, ◌≡◌, refl, sym, ap, subst, ◌∙◌, inl, inr, true, false, none,
  some, arith, ltb, ltb→lt, Bool-cases,
}
use minicloud_platform.Prelude.Int64.{le_i64, div_i64, IsSmall}
use minicloud_platform.Retry.Backoff.{
  Job, Ending, success, panicked, failed, capped, after_wait, attempts, default, do_retry,
}

-- A job that is not cancelled, has no permanent errors, and whose waits are between 4 ns and 2^62 ns.
pub record IsPatient (j : Job) (base cap : ℕ) : Type 0 where
  pub running : (k : ℕ) → j.cancelled k ≡ none
  pub waiting : (k : ℕ) → j.waited k ≡ none
  pub transient : (e : j.E) → j.is_permanent e ≡ false
  pub long_enough : (k : ℕ) → 4 ≤ capped j base cap k
  pub small : (k : ℕ) → IsSmall (capped j base cap k)

-- no attempt from `a` on and before `k` succeeds
pub record Fails (j : Job) (a k : ℕ) : Type 0 where
  pub each : (i : ℕ) → a ≤ i → i < k → (e : j.E) × (j.operation i ≡ some e)

module _ (j : Job) (base cap : ℕ) (p : IsPatient j base cap) where
  wait_lem : (k : ℕ) (rest : Ending j) → after_wait j base cap k rest ≡ rest
  wait_lem k rest =
      let q : le_i64 (div_i64 (capped j base cap k) 4) 0 ≡ false =
        quarter (capped j base cap k) (p.long_enough k) (p.small k) in
      rw (q, p.waiting k) refl
    where
      quarter : (d : ℕ) → 4 ≤ d → IsSmall d → le_i64 (div_i64 d 4) 0 ≡ false
      quarter d h s = ground arith

  -- an attempt that fails, with attempts after it
  failing :
      (left a : ℕ) (e : j.E)
      → j.operation a ≡ some e
      → attempts j base cap (suc left) a ≡ attempts j base cap left (a + 1)
  unfolding attempts
  failing left a e h =
      rw (attempts, p.running a, h, p.transient e) (wait_lem a (attempts j base cap left (a + 1)))

  winning : (left a : ℕ) → j.operation a ≡ none → attempts j base cap left a ≡ success a
  unfolding attempts
  winning zero a h = rw (attempts, p.running a, h) refl
  winning (suc left) a h = rw (attempts, p.running a, h) refl

  losing : (a : ℕ) (e : j.E) → j.operation a ≡ some e → attempts j base cap zero a ≡ failed e a
  unfolding attempts
  losing a e h = rw (attempts, p.running a, h, p.transient e) refl

  first_success :
      (left a k : ℕ)
      → a ≤ k
      → k ≤ a + left
      → Fails j a k
      → j.operation k ≡ none
      → attempts j base cap left a ≡ success k
  first_success zero a k lo hi f h =
      let e : a ≡ k = omega (arith, lo, hi) in
      winning zero a (subst (λ i. j.operation i ≡ none) (sym e) h) ∙ ap success e
  first_success (suc left) a k lo hi f h = elim (Bool-cases (ltb a k)) [
    | inl q ↦
        let (e, x) = f.each a (omega arith) (ltb→lt a k q) in
        let rest : Fails j (a + 1) k = record { each = λ i l u. f.each i (omega (arith, l)) u } in
        failing left a e x
        ∙ first_success left (a + 1) k (ground (arith, q)) (omega (arith, hi)) rest h
    | inr q ↦
        let e : a ≡ k = ground (arith, q, lo) in
        winning (suc left) a (subst (λ i. j.operation i ≡ none) (sym e) h) ∙ ap success e
  ]

  all_fail :
      (left a : ℕ)
      → Fails j a (a + left + 1)
      → (e : j.E) × (j.operation (a + left) ≡ some e)
        × (attempts j base cap left a ≡ failed e (a + left))
  all_fail zero a f =
      let (e, x) = f.each a (omega arith) (omega arith) in
      let z : a + 0 ≡ a = omega arith in (e, rw (z) x, rw (z) (losing a e x))
  all_fail (suc left) a f =
      let (e, x) = f.each a (omega arith) (omega arith) in
      let z : a + 1 + left ≡ a + suc left = omega arith in
      let rest : Fails j (a + 1) (a + 1 + left + 1) = record {
        each = λ i l u. f.each i (omega (arith, l)) (omega (arith, u));
      } in
      let (e2, y, r) = all_fail left (a + 1) rest in
      (e2, rw (← z) y, rw (← z) (failing left a e x ∙ r))

-- For a job that is not cancelled, has no permanent errors and waits for at least 4 ns, the operation is called
-- until it succeeds: if its first success is one of the attempts, that is the result, after as many
-- calls.
pub do_retry-success :
    (j : Job) (max base cap k : ℕ)
    → IsPatient j (default j base 100000000) (default j cap 30000000000)
    → 1 ≤ k
    → k ≤ default j max 6
    → Fails j 1 k
    → j.operation k ≡ none
    → do_retry j max base cap ≡ success k
unfolding do_retry
do_retry-success j max base cap k p lo hi f h =
    first_success j (default j base 100000000) (default j cap 30000000000) p (default j max 6 - 1) 1
      k lo (omega (arith, hi, lo)) f h

-- For such a job whose operation fails at each attempt, the result is the error of the last attempt,
-- after as many calls as attempts are allowed.
pub do_retry-failed :
    (j : Job) (max base cap : ℕ)
    → IsPatient j (default j base 100000000) (default j cap 30000000000)
    → Fails j 1 (default j max 6 + 1)
    → let n = default j max 6 in
      (e : j.E) × (j.operation n ≡ some e) × (do_retry j max base cap ≡ failed e n)
unfolding do_retry
do_retry-failed j max base cap p f =
    let n = default j max 6 in
    let pos : 1 ≤ n = at_least_one j max in
    let z : 1 + (n - 1) ≡ n = omega (arith, pos) in
    let f2 : Fails j 1 (1 + (n - 1) + 1) = record {
      each = λ i l u. f.each i l (omega (arith, u, pos));
    } in
    let (e, x, r) =
      all_fail j (default j base 100000000) (default j cap 30000000000) p (n - 1) 1 f2 in
    (e, subst (λ k. j.operation k ≡ some e) z x, r ∙ ap (λ k. failed e k) z)
  where
    at_least_one : (j : Job) (max : ℕ) → 1 ≤ default j max 6
    at_least_one j max = ground arith

no_quarter : (d : ℕ) → d < 4 → le_i64 (div_i64 d 4) 0 ≡ true
no_quarter d h = ground arith

short_wait :
    (j : Job) (base cap left : ℕ) (e : j.E)
    → j.cancelled 1 ≡ none
    → j.operation 1 ≡ some e
    → j.is_permanent e ≡ false
    → j.delay base 1 ≡ base
    → base < 4
    → IsSmall cap
    → attempts j base cap (suc left) 1 ≡ panicked 1
unfolding attempts
short_wait j base cap left e c o p d hi sc =
    let small : capped j base cap 1 < 4 = rw (d) (ground (arith, hi, sc)) in
    rw (attempts, c, o, p, no_quarter (capped j base cap 1) small) refl

-- A base delay of 1 to 3 ns makes the first wait panic, as soon as the first call fails and a second one is
-- allowed.
pub do_retry-panicked :
    (j : Job) (max base cap : ℕ) (e : j.E)
    → j.cancelled 1 ≡ none
    → j.operation 1 ≡ some e
    → j.is_permanent e ≡ false
    → j.delay base 1 ≡ base
    → 1 ≤ base
    → base < 4
    → 2 ≤ max
    → IsSmall max
    → IsSmall cap
    → do_retry j max base cap ≡ panicked 1
unfolding do_retry attempts
do_retry-panicked j max base cap e c o p d lo hi m sm sc =
    let b : default j base 100000000 ≡ base = ground (arith, lo, hi) in
    let n : default j max 6 - 1 ≡ suc (max - 2) = ground (arith, m, sm) in
    rw (b, n)
      (short_wait j base (default j cap 30000000000) (max - 2) e c o p d hi (ground (arith, sc)))
