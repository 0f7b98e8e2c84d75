-- ===== src/Scheduler/Examples.antt =====
-- Plans of internal/scheduler at concrete inputs. Scores are rounded to whole numbers here.
use minicloud_platform.Prelude.{
  some, none, ℕ, ◌+◌, ◌*◌, ◌/◌, ◌≡◌, refl, true, false, List, [], ◌∷◌, map, arith, ltb, ◌==◌,
  if◌then◌else◌, length, keep, All, Bytes, codes, same, lookup, insert,
}
use minicloud_platform.Prelude.Int64.{IsSmall}
use minicloud_platform.Scheduler.Types.{Decision, Node, Workload, Float64}
use minicloud_platform.Scheduler.Match.{admits, filter_nodes}
use minicloud_platform.Scheduler.Place.{plan, placements_of}
use minicloud_platform.Scheduler.Eligible.{IsTame, IsEligible, admits-IsEligible}
use minicloud_platform.Scheduler.Rounds.{IsOn, count_up}
use minicloud_platform.Scheduler.Plans.{
  CanHold, HasRoom, Explained, plan-CanHold, plan-HasRoom, plan-Explained,
}

abbrev whole : Float64
whole = record {
  F = ℕ;
  of_i64 = λ n. n;
  add = λ a b. a + b;
  div = λ a b. a * 100 / b;
  zero = 0;
  is_zero = λ a. a == 0;
  above = λ a b. ltb b a;
}

abbrev node : Bytes → ℕ → Node
node id used = record {
  id = id;
  unschedulable = false;
  drain = false;
  cordoned = false;
  status = codes "Ready";
  cpu_allocatable = 1000;
  cpu_allocated = used;
  mem_allocatable = 4096;
  mem_allocated = 0;
  gpus = 1;
  labels = (codes "zone", codes "a") ∷ [];
  taints = record { key = codes "gpu"; value = codes "yes"; effect = codes "NoSchedule" } ∷ [];
}

abbrev web : Workload
web = record {
  id = codes "w";
  name = codes "web";
  cpu_millicores = 300;
  memory_bytes = 512;
  gpus = 1;
  replicas = 3;
  node_selector = (codes "zone", codes "a") ∷ [];
  tolerations = codes "gpu=*" ∷ [];
  anti_affinity = [];
}

abbrev one : Node
one = node (codes "n1") 600

abbrev two : Node
two = node (codes "n2") 200

abbrev cluster : List Node
cluster = one ∷ two ∷ []

-- two replicas on the freer node, then one on the other
plan_run :
    map (λ p. p.node_id) (placements_of (plan whole cluster web))
    ≡ codes "n2" ∷ codes "n2" ∷ codes "n1" ∷ []
unfolding plan keep same lookup insert
plan_run = refl

abbrev named : Bytes → Node
named id = if same id (codes "n1") then one else two

tame : (used : ℕ) → IsSmall used → (id : Bytes) → IsTame web (node id used)
tame used h id = record {
  cpu = omega arith;
  memory = omega arith;
  gpus = omega arith;
  node_cpu = omega arith;
  node_cpu_used = h;
  node_mem = omega arith;
  node_mem_used = omega arith;
  node_gpus = omega arith;
}

IsTame-cluster : All (IsTame web) cluster
IsTame-cluster = (tame 600 (omega arith) (codes "n1"), (tame 200 (omega arith) (codes "n2"), tt))

one_passes : admits web one ≡ true
unfolding admits same lookup
one_passes = refl

two_named : named (codes "n2") ≡ two
unfolding same
two_named = refl

one_named : named (codes "n1") ≡ one
unfolding same
one_named = refl

admits-IsEligible_example : IsEligible web one
admits-IsEligible_example =
    admits-IsEligible web one (tame 600 (omega arith) (codes "n1")) one_passes

plan-CanHold_example : All (IsOn (CanHold cluster web)) (placements_of (plan whole cluster web))
plan-CanHold_example = plan-CanHold whole cluster web IsTame-cluster

plan-HasRoom_example :
    All (HasRoom web (placements_of (plan whole cluster web))) (filter_nodes cluster web)
plan-HasRoom_example =
    plan-HasRoom named whole cluster web (one_named, (two_named, tt)) IsTame-cluster

plan-Explained_example :
    (d : Decision) × (plan whole cluster web ≡ some d)
    × (map (λ p. p.replica_idx) d.placements ≡ count_up 0 (length d.placements))
    × Explained web (filter_nodes cluster web) d
plan-Explained_example = plan-Explained whole cluster web refl

-- A plan for a negative number of replicas panics.
negative_run : plan whole cluster (record web { replicas = 18446744073709551615 }) ≡ none
unfolding plan keep same lookup
negative_run = refl
