-- ===== src/Nodeagent/Examples.antt =====
-- An agent of internal/nodeagent at concrete inputs. Scores are whole numbers here.
use minicloud_platform.Prelude.{
  ℕ, ◌+◌, ◌*◌, ◌/◌, ◌≡◌, refl, sym, ap, subst, ◌∙◌, ◌≢◌, inl, inr, true, false, none, List, [], ◌∷◌,
  arith, ltb, ◌==◌, if◌then◌else◌, Bool-cases, All, Bytes, codes, same, same_iff, same_refl, lookup,
}
use minicloud_platform.Prelude.Fallible.{Fallible, value, failed}
use minicloud_platform.Scheduler.Types.{Node, Workload, Float64}
use minicloud_platform.Scheduler.Place.{plan, placements_of}
use minicloud_platform.Runtime.Fake.{Fake, Spec, new, create}
use minicloud_platform.Runtime.Steps.{new-IsSound}
use minicloud_platform.Runtime.Keys.{create-IsSound}
use minicloud_platform.Controller.Reconcile.{Tracked, StoredPlacement, Cluster}
use minicloud_platform.Nodeagent.Agent.{
  HostNode, Heartbeat, Agent, Nodes, first_registration, drained, reported, heartbeat_once,
  want_projects, reconcile_once,
}
use minicloud_platform.Nodeagent.Drain.{
  KeepsNodes, Event, toggled, beat, IsStored, after_events, after_events-Avoided,
}
use minicloud_platform.Nodeagent.Converge.{is_wanted, all_placements, reconcile_once-Wanted}

abbrev whole : Float64
whole = record {
  F = ℕ;
  of_i64 = λ n. n;
  add = λ a b. a + b;
  div = λ a b. a * 100 / b;
  zero = 0;
  is_zero = λ a. a == 0;
  above = λ a b. ltb b a;
}

abbrev web : Workload
web = record {
  id = codes "w";
  name = codes "web";
  cpu_millicores = 300;
  memory_bytes = 512;
  gpus = 0;
  replicas = 2;
  node_selector = [];
  tolerations = [];
  anti_affinity = [];
}

abbrev agent : Agent
agent = record { node_id = codes "n1"; address = codes "10.0.0.1"; draining = true }

abbrev report : Heartbeat
report = record {
  node_id = codes "n1";
  address = codes "10.0.0.1";
  cpu_usage = 100;
  mem_usage = 200;
  disk_usage = 0;
  gpu_count = 0;
  containers = 0;
  timestamp = 7;
}

abbrev find_node : List HostNode → Bytes → Fallible HostNode
find_node [] id = failed (codes "not found")
find_node (n ∷ ns) id = let rest = find_node ns id in if same n.node.id id then value n else rest

-- the newest record of each node first
abbrev node_list : Nodes (List HostNode)
node_list = record { get_node = find_node; upsert_node = λ s n. (n ∷ s, none) }

find_named :
    (s : List HostNode) (id : Bytes) (n : HostNode) → find_node s id ≡ value n → n.node.id ≡ id
find_named [] id n h = ground (arith, h)
find_named (m ∷ s) id n h = elim (Bool-cases (same m.node.id id)) [
  | inl q ↦
      let e : value m ≡ value n = ground (arith, h, q) in
      let i : m.node.id ≡ n.node.id = ground (arith, e) in sym i ∙ (same_iff m.node.id id).0 q
  | inr q ↦ find_named s id n (ground (arith, h, q))
]

keeps : KeepsNodes node_list
keeps = record {
  get_named = find_named;
  get_upserted = λ s t n h.
      subst (λ z. find_node z n.node.id ≡ value n) (ap (λ z. z.0) h)
        (rw (find_node, same_refl n.node.id) refl);
  get_kept = λ s t n e id h. ground (arith, h);
}

-- the drain is taken back, and the agent reports again
abbrev story : List Event
story = toggled false ∷ beat (value report) ∷ []

abbrev listed_node : Node
listed_node = (drained agent (reported report (first_registration agent))).node

is_stored :
    IsStored node_list
      (after_events node_list story (agent, heartbeat_once node_list (value report) agent [])).1
      listed_node
unfolding after_events heartbeat_once same
is_stored = (_, refl, refl)

after_events-Avoided_example :
    All (λ p. p.node_id ≢ codes "n1") (placements_of (plan whole (listed_node ∷ []) web))
after_events-Avoided_example =
    after_events-Avoided node_list whole web (listed_node ∷ []) report agent [] story keeps refl
      refl (is_stored, tt)

abbrev tracked : Tracked
tracked = record {
  spec = web;
  project_id = codes "p";
  status = record { available = false; message = []; ready_replicas = 0; desired_replicas = 0 };
}

abbrev here_placed : StoredPlacement
here_placed = record {
  id = codes "w-n1";
  project_id = codes "p";
  name = codes "web-n1";
  workload_id = codes "w";
  node_id = codes "n1";
  replica_idx = 0;
  status = codes "Pending";
}

abbrev cluster : Cluster (Unit {0})
cluster = record {
  list_nodes = λ s. value [];
  list_projects = λ s. value (codes "p" ∷ []);
  list_workloads = λ s p. value (tracked ∷ []);
  get_workload = λ s p id. value tracked;
  get_placements = λ s id. value (here_placed ∷ []);
  set_placements = λ s id ps. (s, none);
  update_workload = λ s w. (s, none);
}

abbrev other : Spec
other = record { id = codes "old"; name = codes "old"; image = codes "img" }

abbrev with_old : Fake
with_old = (create 3 other new).0

reconcile_once-Wanted_example :
    lookup (codes "old") (reconcile_once cluster none agent tt with_old).conts ≡ (
      if is_wanted (codes "n1") (codes "old") (all_placements cluster tt (codes "p" ∷ []))
      then lookup
          (codes "old")
          (want_projects cluster none agent tt (codes "p" ∷ []) ([], with_old)).1.conts
      else none)
reconcile_once-Wanted_example =
    reconcile_once-Wanted cluster none agent tt (codes "p" ∷ []) with_old (codes "old")
      (λ w p f v. v) refl (create-IsSound 3 other new new-IsSound)
