-- ===== src/Nodeagent/Agent.antt =====
-- internal/nodeagent/agent.go over the in-memory runtime. The collector answers with a heartbeat, or fails;
-- the store is a record of calls, as in the model of the controller; the function Apply, which may
-- be nil, changes the runtime.
use minicloud_platform.Prelude.{
  ℕ, zero, suc, Bool, true, false, Option, none, some, List, [], ◌∷◌, if◌then◌else◌, Bytes, codes,
  same, Dict, lookup, insert,
}
use minicloud_platform.Prelude.Fallible.{Fallible, value, failed}
use minicloud_platform.Scheduler.Types.{Node}
use minicloud_platform.Runtime.Fake
use minicloud_platform.Runtime.Fake.{Fake, Container, get, remove, exec, logs_of}
use minicloud_platform.Controller.Reconcile.{Tracked, StoredPlacement, Cluster}

pub record Heartbeat : Type 0 where
  pub node_id : Bytes
  pub address : Bytes
  pub cpu_usage : ℕ
  pub mem_usage : ℕ
  pub disk_usage : ℕ
  pub gpu_count : ℕ
  pub containers : ℕ
  pub timestamp : ℕ

pub record StaticCollector : Type 0 where
  pub node_id : Bytes
  pub address : Bytes
  pub cpu : ℕ
  pub mem : ℕ
  pub disk : ℕ
  pub gpu : ℕ

unfoldable pub collect : StaticCollector → ℕ → Fallible Heartbeat
collect c now = value (record {
  node_id = c.node_id;
  address = c.address;
  cpu_usage = c.cpu;
  mem_usage = c.mem;
  disk_usage = c.disk;
  gpu_count = c.gpu;
  containers = 0;
  timestamp = now;
})

-- A node of internal/state: what the scheduler reads, and what the agent writes besides.
pub record HostNode : Type 0 where
  pub node : Node
  pub name : Bytes
  pub address : Bytes
  pub last_heartbeat : ℕ

pub record Agent : Type 0 where
  pub node_id : Bytes
  pub address : Bytes
  pub draining : Bool

-- The calls of the store on nodes.
pub record Nodes (S : Type 0) : Type 0 where
  pub get_node : S → Bytes → Fallible HostNode
  pub upsert_node : S → HostNode → S × Option Bytes

abbrev pub first_registration : Agent → HostNode
first_registration a = record {
  node = record {
    id = a.node_id;
    unschedulable = false;
    drain = false;
    cordoned = false;
    status = codes "Ready";
    cpu_allocatable = 8000;
    cpu_allocated = 0;
    mem_allocatable = 17179869184;
    mem_allocated = 0;
    gpus = 0;
    labels = [];
    taints = [];
  };
  name = a.node_id;
  address = a.address;
  last_heartbeat = 0;
}

-- the record that the heartbeat starts from
abbrev pub known : Agent → Fallible HostNode → HostNode
known a (failed e) = first_registration a
known a (value n) = record n {
  address = a.address;
  node = record (n.node) { status = codes "Ready" };
}

-- what it reports
abbrev pub reported : Heartbeat → HostNode → HostNode
reported hb n = record n {
  last_heartbeat = hb.timestamp;
  node = record (n.node) { cpu_allocated = hb.cpu_usage; mem_allocated = hb.mem_usage };
}

abbrev pub drained : Agent → HostNode → HostNode
drained a n =
    if a.draining
    then record n { node = record (n.node) { drain = true; unschedulable = true } }
    else n

unfoldable pub heartbeat_once : {S : Type 0} → Nodes S → Fallible Heartbeat → Agent → S → S
heartbeat_once st (failed e) a s = s
heartbeat_once st (value hb) a s =
    (st.upsert_node s (drained a (reported hb (known a (st.get_node s a.node_id))))).0

unfoldable pub set_drain : Bool → Agent → Agent
set_drain drain a = record a { draining = drain }

unfoldable pub is_draining : Agent → Bool
is_draining a = a.draining

-- `Apply`, where it is not nil, for a placement that is here
abbrev pub Apply : Type 0
Apply = Tracked → StoredPlacement → Fake → Fake

abbrev pub apply_to : Option Apply → Tracked → StoredPlacement → Fake → Fake
apply_to none w p f = f
apply_to (some apply) w p f = apply w p f

-- the loop over the placements of a workload: what is wanted here, and the runtime
unfoldable pub want_placements :
    Option Apply
    → Bytes
    → Tracked
    → List StoredPlacement
    → Dict StoredPlacement × Fake
    → Dict StoredPlacement × Fake
unfolding insert
want_placements apply node_id w [] acc = acc
want_placements apply node_id w (p ∷ ps) (want, f) =
    want_placements apply node_id w ps
      (if same p.node_id node_id then (insert p.id p want, apply_to apply w p f) else (want, f))

abbrev pub want_read :
    Option Apply
    → Bytes
    → Tracked
    → Fallible (List StoredPlacement)
    → Dict StoredPlacement × Fake
    → Dict StoredPlacement × Fake
want_read apply node_id w (failed e) acc = acc
want_read apply node_id w (value ps) acc = want_placements apply node_id w ps acc

-- the loop that removes what is not wanted, over a list of containers that was taken before
unfoldable pub remove_unwanted : Dict StoredPlacement → List Container → Fake → Fake
unfolding lookup remove
remove_unwanted want [] f = f
remove_unwanted want (c ∷ cs) f = elim (lookup c.id want) [
  | some p ↦ remove_unwanted want cs f
  | none ↦ remove_unwanted want cs (remove c.id true f).0
]

abbrev pub remove_rest : Dict StoredPlacement × Fake → Fake
remove_rest (want, f) = remove_unwanted want (Fake.list true f) f

-- the workloads of a project, none if the store fails
abbrev pub workloads_of : Fallible (List Tracked) → List Tracked
workloads_of (failed e) = []
workloads_of (value ws) = ws

module _ {S : Type 0} (c : Cluster S) (apply : Option Apply) (a : Agent) (s : S) where
  unfoldable pub want_workloads :
      List Tracked → Dict StoredPlacement × Fake → Dict StoredPlacement × Fake
  unfolding want_placements
  want_workloads [] acc = acc
  want_workloads (w ∷ ws) acc =
      want_workloads ws (want_read apply a.node_id w (c.get_placements s w.spec.id) acc)

  unfoldable pub want_projects :
      List Bytes → Dict StoredPlacement × Fake → Dict StoredPlacement × Fake
  unfolding want_workloads
  want_projects [] acc = acc
  want_projects (p ∷ projects) acc =
      want_projects projects (want_workloads (workloads_of (c.list_workloads s p)) acc)

  unfoldable pub reconcile_once : Fake → Fake
  unfolding want_projects remove_unwanted
  reconcile_once f = elim (c.list_projects s) [
    | failed e ↦ f
    | value projects ↦ remove_rest (want_projects projects ([], f))
  ]

-- `Exec`: the output, or an error
pub data ExecError : Type 0 where
  command_required container_not_found : ExecError

abbrev pub output_of : Fake × Option Bytes → Fake × (Option ExecError × Bytes)
output_of (f, none) = (f, (some container_not_found, []))
output_of (f, some out) = (f, (none, out))

unfoldable pub exec_in : Bytes → List Bytes → Fake → Fake × (Option ExecError × Bytes)
unfolding get exec
exec_in id [] f = (f, (some command_required, []))
exec_in id (x ∷ cmd) f = elim (get id f) [
  | none ↦ (f, (some container_not_found, []))
  | some c ↦ output_of (exec id (x ∷ cmd) f)
]

abbrev pub first_bytes : ℕ → Bytes → Bytes
first_bytes zero s = []
first_bytes (suc n) [] = []
first_bytes (suc n) (c ∷ s) = c ∷ first_bytes n s

abbrev pub logs_limit : ℕ
logs_limit = 65536

-- `Logs`: one read into a buffer of 64 KiB
unfoldable pub logs_in : Bytes → ℕ → Fake → Option Bytes
unfolding logs_of
logs_in id tail f = elim (logs_of id false tail f) [
  | none ↦ none
  | some text ↦ some (first_bytes logs_limit text)
]
