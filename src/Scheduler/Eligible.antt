-- ===== src/Scheduler/Eligible.antt =====
-- Which nodes the filters of internal/scheduler/scheduler.go let through.
use minicloud_platform.Prelude.{
  ℕ, ◌+◌, ◌≤◌, ◌≡◌, ap, ◌∙◌, ◌⊎◌, inl, inr, true, false, List, [], ◌∷◌, ◌++◌, arith, Bool-cases,
  Option-cases, All, Any, Bytes, codes, same, same_iff, Dict, lookup,
}
use minicloud_platform.Prelude.Split.{split_at, split_at_sound}
use minicloud_platform.Prelude.Int64.{IsSmall, sub_i64, lt_i64}
use minicloud_platform.Scheduler.Types.{Taint, Node, Workload}
use minicloud_platform.Scheduler.Match.{
  match_selector, accepts, has_toleration, tolerates, admits, or_empty,
}

-- Amounts below 2^62, whose differences do not wrap.
pub record IsTame (w : Workload) (n : Node) : Type 0 where
  pub cpu : IsSmall w.cpu_millicores
  pub memory : IsSmall w.memory_bytes
  pub gpus : IsSmall w.gpus
  pub node_cpu : IsSmall n.cpu_allocatable
  pub node_cpu_used : IsSmall n.cpu_allocated
  pub node_mem : IsSmall n.mem_allocatable
  pub node_mem_used : IsSmall n.mem_allocated
  pub node_gpus : IsSmall n.gpus

-- A toleration "key=value" that fits the taint; the value may be a star.
abbrev pub Accepts : Taint → Bytes → Type 0
Accepts t s =
    (value : Bytes) × (s ≡ t.key ++ b'=' ∷ value) × ((value ≡ codes "*") ⊎ (value ≡ t.value))

accepts_sound : (t : Taint) (s : Bytes) → accepts t (split_at b'=' s) ≡ true → Accepts t s
unfolding accepts
accepts_sound t s h = elim (Option-cases (split_at b'=' s)) [
  | inl e ↦ let f : ⊥ = ground (arith, e, h) in absurd f
  | inr ((key, value), e) ↦
      let whole = split_at_sound b'=' s key value e in
      let key_eq : key ≡ t.key = ground (arith, e, h, same_iff key t.key) in
      (
        value,
        whole ∙ ap (λ k. k ++ b'=' ∷ value) key_eq,
        ground (arith, e, h, same_iff value (codes "*"), same_iff value t.value),
      )
]

has_toleration_sound :
    (tol : List Bytes) (t : Taint) → has_toleration tol t ≡ true → Any (Accepts t) tol
unfolding has_toleration
has_toleration_sound [] t h = let f : ⊥ = cc in absurd f
has_toleration_sound (s ∷ tol) t h = elim (Bool-cases (accepts t (split_at b'=' s))) [
  | inl q ↦ Any.here (accepts_sound t s q)
  | inr q ↦ Any.there (has_toleration_sound tol t (ground (arith, h, q)))
]

abbrev pub Tolerates : List Bytes → Taint → Type 0
Tolerates tol t = t.effect ≡ codes "NoSchedule" → Any (Accepts t) tol

tolerates_sound :
    (tol : List Bytes) (taints : List Taint)
    → tolerates tol taints ≡ true
    → All (Tolerates tol) taints
unfolding tolerates
tolerates_sound tol [] h = tt
tolerates_sound tol (t ∷ taints) h = (
  (λ e. has_toleration_sound tol t (ground (arith, h, e, same_iff t.effect (codes "NoSchedule")))),
  tolerates_sound tol taints (ground (arith, h)),
)

abbrev pub Selects : Dict Bytes → Bytes × Bytes → Type 0
Selects labels p = or_empty (lookup p.0 labels) ≡ p.1

match_selector_sound :
    (sel labels : Dict Bytes) → match_selector sel labels ≡ true → All (Selects labels) sel
unfolding match_selector
match_selector_sound [] labels h = tt
match_selector_sound ((k, v) ∷ sel) labels h = (
  ground (arith, h, same_iff (or_empty (lookup k labels)) v),
  match_selector_sound sel labels (ground (arith, h)),
)

-- A node that can take one replica of the workload.
pub record IsEligible (w : Workload) (n : Node) : Type 0 where
  pub schedulable : n.unschedulable ≡ false
  pub not_drained : n.drain ≡ false
  pub not_cordoned : n.cordoned ≡ false
  pub ready : n.status ≡ codes "Ready"
  pub cpu_fits : n.cpu_allocated + w.cpu_millicores ≤ n.cpu_allocatable
  pub mem_fits : n.mem_allocated + w.memory_bytes ≤ n.mem_allocatable
  pub gpus_fit : w.gpus ≤ n.gpus
  pub selected : All (Selects n.labels) w.node_selector
  pub tolerated : All (Tolerates w.tolerations) n.taints

-- the difference of two small numbers, compared as the code does
fits : (a b c : ℕ) → IsSmall a → IsSmall b → IsSmall c → lt_i64 (sub_i64 a b) c ≡ false → b + c ≤ a
fits a b c ha hb hc h = ground arith

at_most : (a b : ℕ) → IsSmall a → IsSmall b → lt_i64 a b ≡ false → b ≤ a
at_most a b ha hb h = ground arith

-- the tests of `filter`, one by one
pub record Passed (w : Workload) (n : Node) : Type 0 where
  pub schedulable : n.unschedulable ≡ false
  pub not_drained : n.drain ≡ false
  pub not_cordoned : n.cordoned ≡ false
  pub ready : same n.status (codes "Ready") ≡ true
  pub cpu : lt_i64 (sub_i64 n.cpu_allocatable n.cpu_allocated) w.cpu_millicores ≡ false
  pub memory : lt_i64 (sub_i64 n.mem_allocatable n.mem_allocated) w.memory_bytes ≡ false
  pub gpus : lt_i64 n.gpus w.gpus ≡ false
  pub selector : match_selector w.node_selector n.labels ≡ true
  pub taints : tolerates w.tolerations n.taints ≡ true

pub admits-Passed : (w : Workload) (n : Node) → admits w n ≡ true → Passed w n
unfolding admits
admits-Passed w n h = ground arith

-- A node that passes the filters, with amounts below 2^62, is in service and ready, has the CPU, the
-- memory and the GPUs for one replica, has the labels that the workload selects, and each of its
-- NoSchedule taints is met by a toleration of the workload.
pub admits-IsEligible : (w : Workload) (n : Node) → IsTame w n → admits w n ≡ true → IsEligible w n
admits-IsEligible w n t h =
    let p = admits-Passed w n h in
    record {
      schedulable = p.schedulable;
      not_drained = p.not_drained;
      not_cordoned = p.not_cordoned;
      ready = (same_iff n.status (codes "Ready")).0 p.ready;
      cpu_fits =
          fits n.cpu_allocatable n.cpu_allocated w.cpu_millicores t.node_cpu t.node_cpu_used t.cpu
            p.cpu;
      mem_fits =
          fits n.mem_allocatable n.mem_allocated w.memory_bytes t.node_mem t.node_mem_used t.memory
            p.memory;
      gpus_fit = at_most n.gpus w.gpus t.node_gpus t.gpus p.gpus;
      selected = match_selector_sound w.node_selector n.labels p.selector;
      tolerated = tolerates_sound w.tolerations n.taints p.taints;
    }
