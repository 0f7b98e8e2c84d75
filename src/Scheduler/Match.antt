-- ===== src/Scheduler/Match.antt =====
-- The filters of internal/scheduler/scheduler.go.
use minicloud_platform.Prelude.{
  Bool, true, false, not, ◌&&◌, ◌||◌, Option, none, some, List, [], ◌∷◌, if◌then◌else◌, keep, Bytes,
  codes, same, starts_with, Dict, lookup,
}
use minicloud_platform.Prelude.Split.{split_at}
use minicloud_platform.Prelude.Int64.{sub_i64, lt_i64}
use minicloud_platform.Scheduler.Types.{Taint, Node, Workload}

-- `strings.Contains(s, sub)`
unfoldable pub contains : Bytes → Bytes → Bool
contains [] sub = starts_with [] sub
contains (c ∷ s) sub = starts_with (c ∷ s) sub || contains s sub

abbrev pub or_empty : Option Bytes → Bytes
or_empty none = []
or_empty (some v) = v

unfoldable pub match_selector : Dict Bytes → Dict Bytes → Bool
match_selector [] labels = true
match_selector ((k, v) ∷ sel) labels =
    same (or_empty (lookup k labels)) v && match_selector sel labels

-- one round of the loop of `hasToleration`
unfoldable pub accepts : Taint → Option (Bytes × Bytes) → Bool
accepts t none = false
accepts t (some (key, value)) = same key t.key && (same value (codes "*") || same value t.value)

unfoldable pub has_toleration : List Bytes → Taint → Bool
unfolding split_at accepts
has_toleration [] t = false
has_toleration (t2 ∷ tol) t = accepts t (split_at b'=' t2) || has_toleration tol t

unfoldable pub tolerates : List Bytes → List Taint → Bool
unfolding has_toleration
tolerates tol [] = true
tolerates tol (t ∷ taints) =
    not (same t.effect (codes "NoSchedule") && not (has_toleration tol t)) && tolerates tol taints

-- the tests of the loop of `filter`, each of which goes on to the next node
unfoldable pub admits : Workload → Node → Bool
unfolding match_selector tolerates
admits w n =
    if n.unschedulable || n.drain || n.cordoned
    then false
    else if not (same n.status (codes "Ready"))
    then false
    else if lt_i64 (sub_i64 n.cpu_allocatable n.cpu_allocated) w.cpu_millicores
    then false
    else if lt_i64 (sub_i64 n.mem_allocatable n.mem_allocated) w.memory_bytes
    then false
    else if lt_i64 n.gpus w.gpus
    then false
    else if not (match_selector w.node_selector n.labels)
    then false
    else tolerates w.tolerations n.taints

unfoldable pub filter_nodes : List Node → Workload → List Node
unfolding admits
filter_nodes nodes w = keep (admits w) nodes
