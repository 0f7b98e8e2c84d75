-- ===== src/Scheduler/Types.antt =====
-- What internal/scheduler/scheduler.go reads of a node and of a workload. The package internal/state
-- is not in the repository: these records have the fields that the scheduler reads, and no others.
use minicloud_platform.Prelude.{ℕ, Bool, List, Bytes, Dict}

pub record Taint : Type 0 where
  pub key : Bytes
  pub value : Bytes
  pub effect : Bytes

-- int64 and int32 fields are bit patterns (Prelude/Int64).
pub record Node : Type 0 where
  pub id : Bytes
  pub unschedulable : Bool
  pub drain : Bool
  pub cordoned : Bool
  pub status : Bytes
  pub cpu_allocatable : ℕ
  pub cpu_allocated : ℕ
  pub mem_allocatable : ℕ
  pub mem_allocated : ℕ
  pub gpus : ℕ
  pub labels : Dict Bytes
  pub taints : List Taint

pub record Workload : Type 0 where
  pub id : Bytes
  pub name : Bytes
  pub cpu_millicores : ℕ
  pub memory_bytes : ℕ
  pub gpus : ℕ
  pub replicas : ℕ
  pub node_selector : Dict Bytes
  pub tolerations : List Bytes
  pub anti_affinity : List Bytes

pub record Placement : Type 0 where
  pub node_id : Bytes
  pub replica_idx : ℕ
  pub reason : Bytes

pub record Decision : Type 0 where
  pub workload_id : Bytes
  pub placements : List Placement
  pub unscheduled : Bytes

-- The operations of float64 that `score` uses.
pub record Float64 : Type 1 where
  pub F : Type 0
  pub of_i64 : ℕ → F
  pub add : F → F → F
  pub div : F → F → F
  pub zero : F
  pub is_zero : F → Bool
  pub above : F → F → Bool
