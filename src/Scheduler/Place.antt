-- ===== src/Scheduler/Place.antt =====
-- The scores and the placement loop of internal/scheduler/scheduler.go. `Plan` is given the answer of
-- `ListNodes`. The placements of a node are counted in a map, as the code does.
use minicloud_platform.Prelude.{
  ℕ, zero, suc, ◌+◌, Bool, true, false, ◌||◌, Option, none, some, List, [], ◌∷◌, leb, ◌==◌,
  if◌then◌else◌, Bytes, codes, same, Dict, lookup, insert,
}
use minicloud_platform.Prelude.Int64.{sub_i64, add_i64, le_i64, lt_i64, div_i64}
use minicloud_platform.Scheduler.Types.{Node, Workload, Placement, Decision, Float64}
use minicloud_platform.Scheduler.Match.{contains, filter_nodes}

module _ (f : Float64) where
  open f use {F, of_i64, add, div, above}

  unfoldable pub score_of : Node → F
  score_of n =
      let free_cpu = of_i64 (sub_i64 n.cpu_allocatable n.cpu_allocated) in
      let free_mem = of_i64 (sub_i64 n.mem_allocatable n.mem_allocated) in
      let total = of_i64 (add_i64 n.cpu_allocatable n.mem_allocatable) in
      if f.is_zero total then f.zero else div (add free_cpu free_mem) total

  -- `sort.SliceStable`, the higher score first
  unfoldable pub rank : Node → List Node → List Node
  unfolding score_of
  rank n [] = n ∷ []
  rank n (x ∷ xs) =
      let rest = rank n xs in if above (score_of x) (score_of n) then x ∷ rest else n ∷ x ∷ xs

  unfoldable pub score : List Node → List Node
  unfolding rank
  score [] = []
  score (n ∷ ns) = rank n (score ns)

unfoldable pub any_contains : List Bytes → Bytes → Bool
unfolding contains
any_contains [] name = false
any_contains (a ∷ rest) name = contains a name || any_contains rest name

-- `int32(c)` is exact, since `c` is at most 4 there.
unfoldable pub max_per_node : Workload → Node → ℕ
unfolding any_contains
max_per_node w n =
    if any_contains w.anti_affinity w.name
    then 1
    else if w.cpu_millicores == 0
    then 4
    else let c = div_i64 (sub_i64 n.cpu_allocatable n.cpu_allocated) w.cpu_millicores in
      if lt_i64 4 c then 4 else if le_i64 c 0 then 0 else c

abbrev pub or_zero : Option ℕ → ℕ
or_zero none = 0
or_zero (some n) = n

-- `perNode[id]`
abbrev pub count_of : Bytes → Dict ℕ → ℕ
count_of id per_node = or_zero (lookup id per_node)

-- the inner loop of `Plan`: the first node that has room
unfoldable pub choose : Workload → Dict ℕ → List Node → Option Node
choose w per_node [] = none
choose w per_node (n ∷ ns) =
    let rest = choose w per_node ns in
    if leb (max_per_node w n) (count_of n.id per_node) then rest else some n

abbrev pub placed : Node → ℕ → Placement
placed n i = record { node_id = n.id; replica_idx = i; reason = [] }

-- The outer loop, with the rounds that are left: the placements, and whether all rounds were made.
unfoldable pub place : Workload → List Node → ℕ → ℕ → Dict ℕ → List Placement × Bool
unfolding choose max_per_node
place w scored zero i per_node = ([], true)
place w scored (suc rounds) i per_node = elim (choose w per_node scored) [
  | none ↦ ([], false)
  | some n ↦
      let (rest, all) =
        place w scored rounds (i + 1) (insert n.id (count_of n.id per_node + 1) per_node) in
      (placed n i ∷ rest, all)
]

-- `for i := int32(0); i < w.Replicas; i++`
abbrev pub rounds_of : Workload → ℕ
rounds_of w = if lt_i64 0 w.replicas then w.replicas else 0

abbrev pub no_node : Bytes
no_node = codes "no node satisfies filters"

abbrev pub no_capacity : Bytes
no_capacity = codes "not enough capacity for all replicas"

abbrev pub decide_on : Workload → List Placement × Bool → Decision
decide_on w (ps, true) = record { workload_id = w.id; placements = ps; unscheduled = [] }
decide_on w (ps, false) = record { workload_id = w.id; placements = ps; unscheduled = no_capacity }

-- what `Plan` answers over the nodes that pass, once the list for its placements is made
unfoldable pub decision : Float64 → Workload → List Node → Decision
unfolding score place
decision f w [] = record { workload_id = w.id; placements = []; unscheduled = no_node }
decision f w (n ∷ ns) = decide_on w (place w (score f (n ∷ ns)) (rounds_of w) 0 [])

-- With a node that passes, `make([]Placement, 0, w.Replicas)` panics for a negative number: nothing.
unfoldable pub plan_on : Float64 → Workload → List Node → Option Decision
unfolding decision
plan_on f w [] = some (decision f w [])
plan_on f w (n ∷ ns) = if lt_i64 w.replicas 0 then none else some (decision f w (n ∷ ns))

unfoldable pub plan : Float64 → List Node → Workload → Option Decision
unfolding plan_on filter_nodes
plan f nodes w = plan_on f w (filter_nodes nodes w)

-- the placements of a plan, none if it panics
abbrev pub placements_of : Option Decision → List Placement
placements_of none = []
placements_of (some d) = d.placements

-- `ValidateWorkload`
pub data Invalid : Type 0 where
  id_required negative_resources negative_replicas : Invalid

unfoldable pub validate_workload : Workload → Option Invalid
validate_workload w =
    if same w.id []
    then some id_required
    else if lt_i64 w.cpu_millicores 0 || lt_i64 w.memory_bytes 0
    then some negative_resources
    else if lt_i64 w.replicas 0
    then some negative_replicas
    else none
