-- ===== src/Scheduler/Plans.antt =====
-- What a plan of internal/scheduler/scheduler.go promises.
use minicloud_platform.Prelude.{
  some, ◌+◌, ◌*◌, ◌≤◌, ◌≡◌, refl, sym, subst, ◌⊎◌, inl, inr, Bool, true, false, List, [], ◌∷◌, map,
  arith, Bool-cases, length, keep, All, All-imp, Any, Bytes, lookup,
}
use native.Mathlib.Nat.{mul-le-mul_right}
use minicloud_platform.Scheduler.Limits.{max_per_node-fits}
use minicloud_platform.Prelude.Int64.{lt_i64}
use minicloud_platform.Scheduler.Types.{Node, Workload, Placement, Decision, Float64}
use minicloud_platform.Scheduler.Match.{admits, filter_nodes}
use minicloud_platform.Scheduler.Place.{
  score, max_per_node, place, plan, plan_on, decide_on, rounds_of, placements_of, decision, no_node,
  no_capacity,
}
use minicloud_platform.Scheduler.Eligible.{IsTame, IsEligible, admits-IsEligible}
use minicloud_platform.Scheduler.Bounds.{on_node, score-All, un_score}
use minicloud_platform.Scheduler.Rounds.{
  IsOn, IsNamed, place-IsOn, place-bound, place_full, place-length, place-length_le, place-count_up,
  count_up,
}

abbrev pub Listed : List Node → Node → Type 0
Listed nodes n = Any (λ m. m ≡ n) nodes

keep-All :
    (P : Node → Type 0) (p : Node → Bool) (ns : List Node)
    → All P ns
    → All (λ n. P n × (p n ≡ true)) (keep p ns)
unfolding keep
keep-All P p [] hs = tt
keep-All P p (n ∷ ns) hs = elim (Bool-cases (p n)) [
  | inl q ↦ rw (q) ((hs.0, q), keep-All P p ns hs.1)
  | inr q ↦ rw (q) (keep-All P p ns hs.1)
]

All-and : (P Q : Node → Type 0) (ns : List Node) → All P ns → All Q ns → All (λ n. P n × Q n) ns
All-and P Q [] hp hq = tt
All-and P Q (n ∷ ns) hp hq = ((hp.0, hq.0), All-and P Q ns hp.1 hq.1)

all-Listed : (ns : List Node) → All (Listed ns) ns
all-Listed [] = tt
all-Listed (n ∷ ns) = (Any.here refl, All-imp (λ m h. Any.there h) ns (all-Listed ns))

decided : (w : Workload) (x : List Placement × Bool) → (decide_on w x).placements ≡ x.0
decided w (ps, true) = refl
decided w (ps, false) = refl

-- What holds of each node that is ranked holds of each placement's node.
decision-IsOn :
    (P : Node → Type 0) (f : Float64) (w : Workload) (ns : List Node)
    → All P ns
    → All (IsOn P) (decision f w ns).placements
unfolding decision
decision-IsOn P f w [] hs = tt
decision-IsOn P f w (n ∷ ns) hs =
    subst (All (IsOn P)) (sym (decided w (place w (score f (n ∷ ns)) (rounds_of w) 0 [])))
      (place-IsOn P w (score f (n ∷ ns)) (rounds_of w) 0 [] (score-All f P (n ∷ ns) hs))

-- What holds of no placements and of those of the decision holds of those of the plan.
plan-decision :
    (P : List Placement → Type 0) (f : Float64) (nodes : List Node) (w : Workload)
    → P []
    → P (decision f w (filter_nodes nodes w)).placements
    → P (placements_of (plan f nodes w))
unfolding plan
plan-decision P f nodes w h0 h = of_nodes (filter_nodes nodes w) h
  where
    of_nodes :
        (ns : List Node) → P (decision f w ns).placements → P (placements_of (plan_on f w ns))
    of_nodes [] k = unfold plan_on in k
    of_nodes (n ∷ ns) k =
        unfold plan_on in
        elim (Bool-cases (lt_i64 w.replicas 0)) [ inl q ↦ rw (q) h0 | inr q ↦ rw (q) k ]

-- Unless the number of replicas is negative, the plan is the decision.
plan_eq :
    (f : Float64) (nodes : List Node) (w : Workload)
    → lt_i64 w.replicas 0 ≡ false
    → plan f nodes w ≡ some (decision f w (filter_nodes nodes w))
unfolding plan
plan_eq f nodes w h = of_nodes (filter_nodes nodes w)
  where
    of_nodes : (ns : List Node) → plan_on f w ns ≡ some (decision f w ns)
    of_nodes [] = unfold plan_on in refl
    of_nodes (n ∷ ns) = unfold plan_on in rw (h) refl

abbrev pub CanHold : List Node → Workload → Node → Type 0
CanHold nodes w n = Listed nodes n × IsEligible w n

-- Each placement of a plan is on a listed node that is in service and ready, has the labels and the tolerated taints, and has the CPU,
-- memory and GPUs for one replica, where the amounts of the nodes are below 2^62.
pub plan-CanHold :
    (f : Float64) (nodes : List Node) (w : Workload)
    → All (IsTame w) nodes
    → All (IsOn (CanHold nodes w)) (placements_of (plan f nodes w))
unfolding plan filter_nodes
plan-CanHold f nodes w hs = plan-decision (All (IsOn (CanHold nodes w))) f nodes w tt (
    decision-IsOn (CanHold nodes w) f w (filter_nodes nodes w) (
      All-imp (λ n h. (h.0.0, admits-IsEligible w n h.0.1 h.1)) (filter_nodes nodes w)
        (keep-All (λ n. Listed nodes n × IsTame w n) (admits w) nodes
          (All-and (Listed nodes) (IsTame w) nodes (all-Listed nodes) hs))))

-- Where ids tell the nodes apart, no node of a plan gets more replicas than its limit.
decision-bound :
    (node_of : Bytes → Node) (f : Float64) (w : Workload) (ns : List Node) (n : Node)
    → All (IsNamed node_of) ns
    → IsNamed node_of n
    → on_node n.id (decision f w ns).placements ≤ max_per_node w n
unfolding decision on_node lookup
decision-bound node_of f w [] n hs h = omega arith
decision-bound node_of f w (m ∷ ns) n hs h =
    let ranked = score f (m ∷ ns) in
    let x = place w ranked (rounds_of w) 0 [] in
    let b =
      place-bound node_of w ranked (rounds_of w) 0 [] n.id
        (score-All f (IsNamed node_of) (m ∷ ns) hs) (omega arith) in
    rw (decided w x) (subst (λ k. on_node n.id x.0 ≤ max_per_node w k) h (omega (arith, b)))

abbrev pub HasRoom : Workload → List Placement → Node → Type 0
HasRoom w ps n = n.cpu_allocated + on_node n.id ps * w.cpu_millicores ≤ n.cpu_allocatable

-- The replicas that a plan puts on one node ask for no more CPU than the node has free, where ids
-- tell the nodes apart and the amounts are below 2^62.
pub plan-HasRoom :
    (node_of : Bytes → Node) (f : Float64) (nodes : List Node) (w : Workload)
    → All (IsNamed node_of) nodes
    → All (IsTame w) nodes
    → All (HasRoom w (placements_of (plan f nodes w))) (filter_nodes nodes w)
unfolding filter_nodes on_node
plan-HasRoom node_of f nodes w hn ht =
    let P : Node → Type 0 = λ n. IsNamed node_of n × IsTame w n in
    let kept = keep-All P (admits w) nodes (All-and (IsNamed node_of) (IsTame w) nodes hn ht) in
    let ns = filter_nodes nodes w in
    let names = All-imp (λ n h. h.0.0) ns kept in
    let room : All (HasRoom w (decision f w ns).placements) ns =
      All-imp
        (λ n h.
          let b = decision-bound node_of f w ns n names h.0.0 in
          let m = mul-le-mul_right w.cpu_millicores b in
          omega (arith, m, max_per_node-fits w n h.0.1 (admits-IsEligible w n h.0.1 h.1)))
        ns kept in
    plan-decision (λ ps. All (HasRoom w ps) ns) f nodes w
      (All-imp (λ n h. omega (arith, h)) ns room) room

-- What the answer says about a plan: all replicas are placed, or no node passes the filters and none
-- is placed, or each node that passes has reached its limit.
abbrev pub Explained : Workload → List Node → Decision → Type 0
Explained w ns d =
    ((d.unscheduled ≡ []) × (length d.placements ≡ rounds_of w))
    ⊎ (((d.unscheduled ≡ no_node) × (ns ≡ []) × (d.placements ≡ []))
        ⊎ ((d.unscheduled ≡ no_capacity)
            × All (λ n. max_per_node w n ≤ on_node n.id d.placements) ns))

decision-Explained :
    (f : Float64) (w : Workload) (ns : List Node) → Explained w ns (decision f w ns)
unfolding decision lookup
decision-Explained f w [] = inr (inl (refl, refl, refl))
decision-Explained f w (n ∷ ns) =
    let ranked = score f (n ∷ ns) in
    explained (place w ranked (rounds_of w) 0 []) (place-length w ranked (rounds_of w) 0 []) (λ e.
      un_score f (λ m. max_per_node w m ≤ on_node m.id (place w ranked (rounds_of w) 0 []).0)
        (n ∷ ns)
        (All-imp (λ m h. omega (arith, h)) ranked (place_full w ranked (rounds_of w) 0 [] e)))
  where
    explained :
        (x : List Placement × Bool)
        → (x.1 ≡ true → length x.0 ≡ rounds_of w)
        → (x.1 ≡ false → All (λ m. max_per_node w m ≤ on_node m.id x.0) (n ∷ ns))
        → Explained w (n ∷ ns) (decide_on w x)
    explained (ps, true) hl hf = inl (refl, hl refl)
    explained (ps, false) hl hf = inr (inr (refl, hf refl))

decision-count_up :
    (f : Float64) (w : Workload) (ns : List Node)
    → let ps = (decision f w ns).placements in map (λ p. p.replica_idx) ps ≡ count_up 0 (length ps)
unfolding decision
decision-count_up f w [] = refl
decision-count_up f w (n ∷ ns) =
    let ranked = score f (n ∷ ns) in
    let x = place w ranked (rounds_of w) 0 [] in
    subst (λ ps. map (λ p. p.replica_idx) ps ≡ count_up 0 (length ps)) (sym (decided w x))
      (place-count_up w ranked (rounds_of w) 0 [])

-- Unless the number of replicas is negative, there is a plan. Its replicas are numbered from 0 on, and its answer is
-- explained: it is empty and all replicas are placed, or it says that no node passes the filters and that is so, or
-- it says that the capacity is short and each node that passes the filters has reached its limit.
pub plan-Explained :
    (f : Float64) (nodes : List Node) (w : Workload)
    → lt_i64 w.replicas 0 ≡ false
    → (d : Decision) × (plan f nodes w ≡ some d)
      × (map (λ p. p.replica_idx) d.placements ≡ count_up 0 (length d.placements))
      × Explained w (filter_nodes nodes w) d
plan-Explained f nodes w h =
    let ns = filter_nodes nodes w in
    (decision f w ns, plan_eq f nodes w h, decision-count_up f w ns, decision-Explained f w ns)

-- No more replicas are placed than are wanted.
decision-length_le :
    (f : Float64) (w : Workload) (ns : List Node)
    → length (decision f w ns).placements ≤ rounds_of w
unfolding decision
decision-length_le f w [] = omega arith
decision-length_le f w (n ∷ ns) =
    let x = place w (score f (n ∷ ns)) (rounds_of w) 0 [] in
    let b = place-length_le w (score f (n ∷ ns)) (rounds_of w) 0 [] in rw (decided w x) b

pub plan-length_le :
    (f : Float64) (nodes : List Node) (w : Workload)
    → length (placements_of (plan f nodes w)) ≤ rounds_of w
plan-length_le f nodes w =
    plan-decision (λ ps. length ps ≤ rounds_of w) f nodes w (omega arith)
      (decision-length_le f w (filter_nodes nodes w))

-- What holds of each listed node holds of each placement's node, which also passes the filters.
pub plan-IsOn :
    (P : Node → Type 0) (f : Float64) (nodes : List Node) (w : Workload)
    → All P nodes
    → All (IsOn (λ n. P n × (admits w n ≡ true))) (placements_of (plan f nodes w))
unfolding filter_nodes
plan-IsOn P f nodes w hs =
    plan-decision (All (IsOn (λ n. P n × (admits w n ≡ true)))) f nodes w tt (
      decision-IsOn (λ n. P n × (admits w n ≡ true)) f w (filter_nodes nodes w)
        (keep-All P (admits w) nodes hs))
