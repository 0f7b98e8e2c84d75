-- ===== src/Autoscale/Limits.antt =====
-- What the autoscaler of internal/autoscale/autoscale.go keeps to.
use minicloud_platform.Prelude.{
  ℕ, ◌-◌, ◌≤◌, ◌<◌, ◌≡◌, refl, ap, ◌∙◌, ◌≢◌, inl, inr, Bool, true, false, none, some, arith, ltb,
  ◌==◌, Bool-cases, insert, lookup-insert_self,
}
use minicloud_platform.Prelude.Int64.{to_i32}
use minicloud_platform.Autoscale.Policies.{
  Usage, Policy, Spec, Controller, key_of, grown, shrunk, Scaling, unchanged, scaled, failed,
  last_of, evaluate_one,
}

-- A policy whose numbers are below 2^31, with a minimum up to the maximum.
pub record IsSane (f : Usage) (p : Policy f) : Type 0 where
  pub ordered : p.min ≤ p.max
  pub max_small : p.max < 2147483648
  pub up_small : p.scale_up_by < 2147483648
  pub down_small : p.scale_down_by < 2147483648

module _ (f : Usage) where
  grown_within :
      (p : Policy f) (avg : f.F) (n : ℕ)
      → IsSane f p
      → p.min ≤ n
      → n ≤ p.max
      → (p.min ≤ grown f p avg n) × (grown f p avg n ≤ p.max)
  grown_within p avg n h lo hi =
      let a = h.max_small in
      let b = h.up_small in
      let c = h.ordered in
      elim (Bool-cases (f.above avg p.target_cpu)) [
        | inl q ↦ rw (q) (ground (arith, a, b, c), ground (arith, a, b, c))
        | inr q ↦ rw (q) (lo, hi)
      ]

  shrunk_within :
      (p : Policy f) (avg : f.F) (n want : ℕ)
      → IsSane f p
      → p.min ≤ n
      → n ≤ p.max
      → p.min ≤ want
      → want ≤ p.max
      → (p.min ≤ shrunk f p avg n want) × (shrunk f p avg n want ≤ p.max)
  shrunk_within p avg n want h lo hi l u =
      let a = h.max_small in
      let b = h.down_small in
      let c = h.ordered in
      elim (Bool-cases (f.above (f.half p.target_cpu) avg)) [
        | inl q ↦ rw (q) (ground (arith, a, b, c), ground (arith, a, b, c))
        | inr q ↦ rw (q) (l, u)
      ]

  -- what an evaluation writes, if it tries to
  abbrev pub Keeps : Policy f → ℕ → Scaling → Type 0
  Keeps p replicas unchanged = Unit
  Keeps p replicas (scaled n) = (p.min ≤ n) × (n ≤ p.max) × (n ≢ replicas)
  Keeps p replicas (failed n) = (p.min ≤ n) × (n ≤ p.max) × (n ≢ replicas)

  writes :
      (p : Policy f) (replicas want : ℕ)
      → IsSane f p
      → (want == replicas) ≡ false
      → (p.min ≤ want) × (want ≤ p.max)
      → (p.min ≤ to_i32 want) × (to_i32 want ≤ p.max) × (to_i32 want ≢ replicas)
  writes p replicas want h ne b =
      let small : to_i32 want ≡ want = ground (arith, b.1, h.max_small) in
      rw (small) (b.0, b.1, λ e. ground (arith, e, ne))

  -- For a policy whose numbers are below 2^31, a workload whose replicas are between the minimum
  -- and the maximum keeps them so: an evaluation that writes a number writes another one between them.
  pub evaluate_one-Keeps :
      (now : ℕ) (avg : f.F) (stored : Bool) (s : Spec f) (replicas : ℕ) (c : Controller f)
      → IsSane f s.policy
      → s.policy.min ≤ replicas
      → replicas ≤ s.policy.max
      → Keeps s.policy replicas (evaluate_one f now avg stored s (some replicas) c).0
  unfolding evaluate_one
  evaluate_one-Keeps now avg stored s replicas c h lo hi =
      let p = s.policy in
      let g = grown f p avg replicas in
      let key = key_of s.project_id s.workload_id in
      let gb = grown_within p avg replicas h lo hi in
      let b = shrunk_within p avg replicas g h lo hi gb.0 gb.1 in
      let want = shrunk f p avg replicas g in
      elim (Bool-cases (ltb (now - last_of f key c) p.cooldown)) [
        | inl q ↦ rw (evaluate_one, q) tt
        | inr q ↦ elim (Bool-cases (want == replicas)) [
          | inl e ↦ rw (evaluate_one, q, e) tt
          | inr e ↦ elim (Bool-cases stored) [
            | inl k ↦ rw (evaluate_one, q, e, k) (writes p replicas want h e b)
            | inr k ↦ rw (evaluate_one, q, e, k) (writes p replicas want h e b)
          ]
        ]
      ]

  marked :
      (now : ℕ) (avg : f.F) (stored : Bool) (s : Spec f) (replicas n : ℕ) (c : Controller f)
      → (evaluate_one f now avg stored s (some replicas) c).0 ≡ scaled n
      → (evaluate_one f now avg stored s (some replicas) c).1
        ≡ record c { last_at_on = insert (key_of s.project_id s.workload_id) now c.last_at_on }
  unfolding evaluate_one
  marked now avg stored s replicas n c h =
      let p = s.policy in
      let key = key_of s.project_id s.workload_id in
      let want = shrunk f p avg replicas (grown f p avg replicas) in
      elim (Bool-cases (ltb (now - last_of f key c) p.cooldown)) [
        | inl q ↦ ground (arith, h, q)
        | inr q ↦ elim (Bool-cases (want == replicas)) [
          | inl e ↦ ground (arith, h, q, e)
          | inr e ↦ elim (Bool-cases stored) [
            | inl k ↦ rw (evaluate_one, q, e, k) refl
            | inr k ↦ ground (arith, h, q, e, k)
          ]
        ]
      ]

  cooling :
      (later now : ℕ) (avg : f.F) (stored : Bool) (s : Spec f) (replicas : ℕ) (c : Controller f)
      → last_of f (key_of s.project_id s.workload_id) c ≡ now
      → later - now < s.policy.cooldown
      → evaluate_one f later avg stored s (some replicas) c ≡ (unchanged, c)
  unfolding evaluate_one
  cooling later now avg stored s replicas c e lt =
      let q : ltb (later - now) s.policy.cooldown ≡ true = ground (arith, lt) in
      rw (evaluate_one, e, q) refl

  -- After an evaluation has scaled a workload, the evaluations of the same policy within its cooldown change
  -- nothing, whatever the usage and the replicas.
  pub evaluate_one-cooldown :
      (now later : ℕ) (avg avg2 : f.F) (stored stored2 : Bool) (s : Spec f)
      (replicas replicas2 n : ℕ) (c : Controller f)
      → (evaluate_one f now avg stored s (some replicas) c).0 ≡ scaled n
      → later - now < s.policy.cooldown
      → let c2 = (evaluate_one f now avg stored s (some replicas) c).1 in
        evaluate_one f later avg2 stored2 s (some replicas2) c2 ≡ (unchanged, c2)
  unfolding evaluate_one
  evaluate_one-cooldown now later avg avg2 stored stored2 s replicas replicas2 n c h lt =
      let key = key_of s.project_id s.workload_id in
      let c2 = (evaluate_one f now avg stored s (some replicas) c).1 in
      let e = marked now avg stored s replicas n c h in
      let t : last_of f key c2 ≡ now =
        ap (λ m. last_of f key m) e
        ∙ ap (λ o. elim o [ none ↦ 0 | some t ↦ t ]) (lookup-insert_self key now c.last_at_on) in
      cooling later now avg2 stored2 s replicas2 c2 t lt
