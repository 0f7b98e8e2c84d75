-- ===== src/Controller/Reconcile.antt =====
-- internal/controller/controller.go over the plan of the scheduler, and Reconcile of
-- internal/scheduler/scheduler.go. The store, whose package is not in the repository, is a record of
-- the calls that the code makes; a call that writes answers with the error, if there is one.
use minicloud_platform.Prelude.{
  ℕ, ◌+◌, Bool, true, false, not, ◌&&◌, Option, none, some, List, [], ◌∷◌, ◌++◌, map, if◌then◌else◌,
  Bytes, codes, same,
}
use minicloud_platform.Prelude.Fallible.{Fallible, value, failed}
use minicloud_platform.Prelude.Int64.{le_i64, to_i32}
use minicloud_platform.Scheduler.Types.{Node, Workload, Placement, Decision, Float64}
use mathlib.Core.Option
use minicloud_platform.Scheduler.Place.{plan}
use minicloud_platform.Mq.Number.{itoa}

pub record Status : Type 0 where
  pub available : Bool
  pub message : Bytes
  pub ready_replicas : ℕ
  pub desired_replicas : ℕ

-- A workload of internal/state: what the scheduler reads, and what the controller reads and writes besides.
pub record Tracked : Type 0 where
  pub spec : Workload
  pub project_id : Bytes
  pub status : Status

-- a placement of internal/state
pub record StoredPlacement : Type 0 where
  pub id : Bytes
  pub project_id : Bytes
  pub name : Bytes
  pub workload_id : Bytes
  pub node_id : Bytes
  pub replica_idx : ℕ
  pub status : Bytes

pub record Cluster (S : Type 0) : Type 0 where
  pub list_nodes : S → Fallible (List Node)
  pub list_projects : S → Fallible (List Bytes)
  pub list_workloads : S → Bytes → Fallible (List Tracked)
  pub get_workload : S → Bytes → Bytes → Fallible Tracked
  pub get_placements : S → Bytes → Fallible (List StoredPlacement)
  pub set_placements : S → Bytes → List StoredPlacement → S × Option Bytes
  pub update_workload : S → Tracked → S × Option Bytes

-- Whether `ApplyWorkload` returns no error.
abbrev pub Notifier : Type 0
Notifier = Tracked → StoredPlacement → Bool

abbrev pub pending : Tracked → Bytes → Placement → StoredPlacement
pending w suffix p = record {
  id = w.spec.id ++ (codes "-" ++ suffix);
  project_id = w.project_id;
  name = w.spec.name ++ (codes "-" ++ suffix);
  workload_id = w.spec.id;
  node_id = p.node_id;
  replica_idx = p.replica_idx;
  status = codes "Pending";
}

-- the record of the controller, which is named after the node
abbrev pub stored_placement : Tracked → Placement → StoredPlacement
stored_placement w p = pending w p.node_id p

-- `%d` prints an index of a replica as `itoa` does.
abbrev pub decimal : ℕ → Bytes
decimal n = elim (itoa n) [ none ↦ [] | some s ↦ s ]

-- the record of the scheduler, which is named after the replica
abbrev pub numbered_placement : Tracked → Placement → StoredPlacement
numbered_placement w p = pending w (decimal p.replica_idx) p

abbrev pub is_empty {ℓ} : {A : Type ℓ} → List A → Bool
is_empty [] = true
is_empty (x ∷ xs) = false

unfoldable pub count_ready : Notifier → Tracked → List StoredPlacement → ℕ
count_ready notify w [] = 0
count_ready notify w (p ∷ ps) = (if notify w p then 1 else 0) + count_ready notify w ps

abbrev pub ready_of : Option Notifier → Tracked → List StoredPlacement → ℕ
ready_of none w ps = 0
ready_of (some notify) w ps = count_ready notify w ps

abbrev pub unavailable : Tracked → Bytes → Tracked
unavailable w reason = record w {
  status = record (w.status) { available = false; message = reason };
}

abbrev pub settled : Tracked → ℕ → Tracked
settled w ready = record w {
  status = record (w.status) {
    available = le_i64 w.spec.replicas (to_i32 ready);
    ready_replicas = to_i32 ready;
    desired_replicas = w.spec.replicas;
  };
}

module _ {S : Type 0} (c : Cluster S) (f : Float64) (notifier : Option Notifier) where
  -- once the placements are written, or are not
  abbrev pub notify_all : Tracked → List StoredPlacement → S × Option Bytes → S × Option Bytes
  notify_all w ps (s, some e) = (s, some e)
  notify_all w ps (s, none) = c.update_workload s (settled w (ready_of notifier w ps))

  abbrev pub carry_out : S → Tracked → Decision → S × Option Bytes
  carry_out s w d =
      if not (same d.unscheduled []) && is_empty d.placements
      then ((c.update_workload s (unavailable w d.unscheduled)).0, none)
      else let ps = map (stored_placement w) d.placements in
        notify_all w ps (c.set_placements s w.spec.id ps)

  -- A plan that panics ends the process: nothing.
  abbrev pub with_plan : S → Tracked → Option Decision → Option (S × Option Bytes)
  with_plan s w none = none
  with_plan s w (some d) = some (carry_out s w d)

  abbrev pub with_nodes : S → Tracked → Fallible (List Node) → Option (S × Option Bytes)
  with_nodes s w (failed e) = some (s, some e)
  with_nodes s w (value nodes) = with_plan s w (plan f nodes w.spec)

  unfoldable pub reconcile_workload : S → Tracked → Option (S × Option Bytes)
  unfolding plan count_ready
  reconcile_workload s w = with_nodes s w (c.list_nodes s)

  -- the loop over the workloads of a project, which passes over errors
  unfoldable pub reconcile_list : S → List Tracked → Option S
  unfolding reconcile_workload
  reconcile_list s [] = some s
  reconcile_list s (w ∷ ws) = elim (reconcile_workload s w) [
    | none ↦ none
    | some (t, _) ↦ reconcile_list t ws
  ]

  abbrev pub reconcile_listed : S → Fallible (List Tracked) → Option S
  reconcile_listed s (failed e) = some s
  reconcile_listed s (value ws) = reconcile_list s ws

  unfoldable pub reconcile_projects : S → List Bytes → Option S
  unfolding reconcile_list
  reconcile_projects s [] = some s
  reconcile_projects s (p ∷ projects) = elim (reconcile_listed s (c.list_workloads s p)) [
    | none ↦ none
    | some t ↦ reconcile_projects t projects
  ]

  unfoldable pub reconcile_all : S → Option (S × Option Bytes)
  unfolding reconcile_projects
  reconcile_all s = elim (c.list_projects s) [
    | failed e ↦ some (s, some e)
    | value projects ↦ Option.map (λ t. (t, none)) (reconcile_projects s projects)
  ]

  -- the loop of `ReconcileOne`
  unfoldable pub find_and_reconcile : S → Bytes → List Bytes → Option (S × Option Bytes)
  unfolding reconcile_workload
  find_and_reconcile s id [] = some (s, some (codes "controller: workload not found"))
  find_and_reconcile s id (p ∷ projects) =
      let rest = find_and_reconcile s id projects in
      elim (c.get_workload s p id) [ failed e ↦ rest | value w ↦ reconcile_workload s w ]

  unfoldable pub reconcile_one : S → Bytes → Option (S × Option Bytes)
  unfolding find_and_reconcile
  reconcile_one s id = elim (c.list_projects s) [
    | failed e ↦ some (s, some e)
    | value projects ↦ find_and_reconcile s id projects
  ]

  -- A tick of `Run`: with no election the controller acts as the leader.
  unfoldable pub run_tick : Option Bool → S → Option S
  unfolding reconcile_all
  run_tick none s = Option.map (λ r. r.0) (reconcile_all s)
  run_tick (some is_leader) s =
      if is_leader then Option.map (λ r. r.0) (reconcile_all s) else some s

  -- `Reconcile` of the scheduler, which writes placements and nothing else
  abbrev pub place_numbered : S → Tracked → Option Decision → Option (S × Option Bytes)
  place_numbered s w none = none
  place_numbered s w (some d) =
      some (c.set_placements s w.spec.id (map (numbered_placement w) d.placements))

  unfoldable pub reconcile : S → Tracked → Option (S × Option Bytes)
  unfolding plan itoa
  reconcile s w = elim (c.list_nodes s) [
    | failed e ↦ some (s, some e)
    | value nodes ↦ place_numbered s w (plan f nodes w.spec)
  ]
