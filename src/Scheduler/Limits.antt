-- ===== src/Scheduler/Limits.antt =====
-- The replica limit of internal/scheduler/scheduler.go against the CPU of a node.
use minicloud_platform.Prelude.{
  ℕ, ◌+◌, ◌-◌, ◌*◌, ◌/◌, ◌≤◌, ◌≡◌, refl, inl, inr, arith, ◌==◌, if◌then◌else◌, leb-false,
  Bool-cases,
}
use native.Mathlib.Nat.{div-mul-le_self, div-le_self, mul-le-mul_right}
use minicloud_platform.Prelude.Int64.{min_i64, sub_i64, div_i64, lt_i64, le_i64, IsSmall}
use minicloud_platform.Scheduler.Types.{Node, Workload}
use minicloud_platform.Scheduler.Place.{max_per_node, any_contains}
use minicloud_platform.Scheduler.Eligible.{IsTame, IsEligible}

-- the quotient of small numbers is the one of ℕ
div_small : (a u c : ℕ) → IsSmall a → IsSmall c → u ≤ a → div_i64 (sub_i64 a u) c ≡ (a - u) / c
div_small a u c ha hc h =
    let s : sub_i64 a u ≡ a - u = omega (arith, ha, h) in
    rw (s, leb-false min_i64 (a - u) (omega (arith, ha)), leb-false min_i64 c (omega (arith, hc)))
      refl

abbrev limit : ℕ → ℕ → ℕ
limit c q = if c == 0 then 4 else if lt_i64 4 q then 4 else if le_i64 q 0 then 0 else q

limit_fits : (f c q : ℕ) → IsSmall q → q * c ≤ f → limit c q * c ≤ f
limit_fits f c q hq h = elim (Bool-cases (c == 0)) [
  | inl e ↦ rw (e) (ground (arith, e))
  | inr e ↦ elim (Bool-cases (lt_i64 4 q)) [
    | inl e4 ↦
        let m = mul-le-mul_right {m = 4} {n = q} c (ground (arith, hq, e4)) in
        rw (e, e4) (omega (arith, m, h))
    | inr e4 ↦ elim (Bool-cases (le_i64 q 0)) [
      | inl z ↦ rw (e, e4, z) (omega arith)
      | inr z ↦ rw (e, e4, z) h
    ]
  ]
]

within : (a u x : ℕ) → u ≤ a → x ≤ a - u → u + x ≤ a
within a u x h hx = omega (arith, h, hx)

-- The replicas up to the limit of a node ask for no more CPU than the node has free.
pub max_per_node-fits :
    (w : Workload) (n : Node)
    → IsTame w n
    → IsEligible w n
    → n.cpu_allocated + max_per_node w n * w.cpu_millicores ≤ n.cpu_allocatable
unfolding max_per_node
max_per_node-fits w n t e =
    let a = n.cpu_allocatable in
    let u = n.cpu_allocated in
    let c = w.cpu_millicores in
    let le : u + c ≤ a = e.cpu_fits in
    elim (Bool-cases (any_contains w.anti_affinity w.name)) [
      | inl q ↦ rw (q) (omega (arith, le))
      | inr q ↦
          let d = div_small a u c t.node_cpu t.cpu (omega (arith, le)) in
          let m = div-mul-le_self (a - u) c in
          let s = div-le_self (a - u) c in
          let l = limit_fits (a - u) c ((a - u) / c) (omega (arith, s, t.node_cpu)) m in
          rw (q, d) (within a u (limit c ((a - u) / c) * c) (omega (arith, le)) l)
    ]
