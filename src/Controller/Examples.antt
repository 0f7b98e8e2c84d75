-- ===== src/Controller/Examples.antt =====
-- A reconciliation of internal/controller at a concrete cluster. Scores are whole numbers here.
use minicloud_platform.Prelude.{
  ℕ, ◌+◌, ◌*◌, ◌/◌, ◌≡◌, refl, sym, ap, true, false, none, some, List, [], ◌∷◌, map, arith, ltb,
  ◌==◌, keep, codes, same, lookup, insert,
}
use minicloud_platform.Prelude.Fallible.{value}
use minicloud_platform.Scheduler.Types.{Node, Float64}
use minicloud_platform.Scheduler.Place.{plan, placements_of}
use minicloud_platform.Controller.Reconcile.{
  Tracked, StoredPlacement, Cluster, stored_placement, reconcile_workload, settled,
}
use minicloud_platform.Controller.Available.{Keeps, Serving, reconcile_workload-Serving}

abbrev whole : Float64
whole = record {
  F = ℕ;
  of_i64 = λ n. n;
  add = λ a b. a + b;
  div = λ a b. a * 100 / b;
  zero = 0;
  is_zero = λ a. a == 0;
  above = λ a b. ltb b a;
}

abbrev machine : Node
machine = record {
  id = codes "n1";
  unschedulable = false;
  drain = false;
  cordoned = false;
  status = codes "Ready";
  cpu_allocatable = 1000;
  cpu_allocated = 0;
  mem_allocatable = 4096;
  mem_allocated = 0;
  gpus = 0;
  labels = [];
  taints = [];
}

abbrev web : Tracked
web = record {
  spec = record {
    id = codes "w";
    name = codes "web";
    cpu_millicores = 300;
    memory_bytes = 512;
    gpus = 0;
    replicas = 2;
    node_selector = [];
    tolerations = [];
    anti_affinity = [];
  };
  project_id = codes "p";
  status = record { available = false; message = []; ready_replicas = 0; desired_replicas = 0 };
}

-- one workload and its placements
pub record Shelf : Type 0 where
  pub workload : Tracked
  pub placements : List StoredPlacement

abbrev shelf : Shelf
shelf = record { workload = web; placements = [] }

abbrev one_workload : Cluster Shelf
one_workload = record {
  list_nodes = λ s. value (machine ∷ []);
  list_projects = λ s. value (codes "p" ∷ []);
  list_workloads = λ s p. value (s.workload ∷ []);
  get_workload = λ s p id. value s.workload;
  get_placements = λ s id. value s.placements;
  set_placements = λ s id ps. (record s { placements = ps }, none);
  update_workload = λ s w. (record s { workload = w }, none);
}

kept : Keeps one_workload
kept = record {
  get_updated = λ s t w h. ap (λ z. value (z.0).workload) (sym h);
  placements_kept = λ s t w id h. ap (λ z. value (z.0).placements) (sym h);
  get_set = λ s t id ps h. ap (λ z. value (z.0).placements) (sym h);
}

abbrev after : Shelf
after = record {
  workload = settled web 2;
  placements = map (stored_placement web) (placements_of (plan whole (machine ∷ []) web.spec));
}

reconciled :
    reconcile_workload one_workload whole (some (λ w p. true)) shelf web ≡ some (after, none)
unfolding reconcile_workload plan keep same lookup insert
reconciled = refl

reconcile_workload-Serving_example :
    Serving one_workload whole (some (λ w p. true)) after (machine ∷ []) web
reconcile_workload-Serving_example =
    reconcile_workload-Serving one_workload whole (some (λ w p. true)) shelf after (machine ∷ [])
      web (settled web 2) kept (λ u v. refl) refl (omega arith) (omega arith) reconciled refl refl
