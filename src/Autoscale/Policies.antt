-- ===== src/Autoscale/Policies.antt =====
-- The autoscaler of internal/autoscale/autoscale.go. Ints are bit patterns (Prelude/Int64). float64 is a
-- parameter; what the metrics and the store answer are arguments, and the workload that the store
-- has for a spec is taken to have the ids of the spec. Durations are not negative.
use minicloud_platform.Prelude.{
  ℕ, ◌-◌, Bool, ◌&&◌, Option, none, some, ◌∷◌, ◌++◌, ltb, ◌==◌, if◌then◌else◌, Bytes, Dict, lookup,
  insert, delete,
}
use minicloud_platform.Prelude.Int64.{add_i64, sub_i64, lt_i64, to_i32}

-- The operations of float64 that the controller uses.
pub record Usage : Type 1 where
  pub F : Type 0
  pub half : F → F
  pub above : F → F → Bool

-- `projectID+"/"+workloadID`
abbrev pub key_of : Bytes → Bytes → Bytes
key_of project_id workload_id = project_id ++ b'/' ∷ workload_id

-- what an evaluation does to the workload: nothing, or a write of its replicas that the store takes or not
pub data Scaling : Type 0 where
  unchanged : Scaling
  scaled failed : ℕ → Scaling

module _ (f : Usage) where
  pub record Policy : Type 0 where
    pub min : ℕ
    pub max : ℕ
    pub target_cpu : f.F
    pub scale_up_by : ℕ
    pub scale_down_by : ℕ
    pub cooldown : ℕ

  pub record Spec : Type 0 where
    pub project_id : Bytes
    pub workload_id : Bytes
    pub policy : Policy
    pub updated_at : ℕ

  -- the two maps of the controller
  pub record Controller : Type 0 where
    pub specs : Dict Spec
    pub last_at_on : Dict ℕ

  unfoldable pub set_policy : ℕ → Bytes → Bytes → Policy → Controller → Controller
  set_policy now project_id workload_id p c =
      let s : Spec = record {
        project_id = project_id;
        workload_id = workload_id;
        policy = p;
        updated_at = now;
      } in
      record c { specs = insert (key_of project_id workload_id) s c.specs }

  unfoldable pub remove_policy : Bytes → Bytes → Controller → Controller
  remove_policy project_id workload_id c = record c {
    specs = delete (key_of project_id workload_id) c.specs;
  }

  -- `want` after the two tests
  abbrev pub grown : Policy → f.F → ℕ → ℕ
  grown p avg replicas =
      if f.above avg p.target_cpu && lt_i64 replicas p.max
      then (let want = add_i64 replicas p.scale_up_by in if lt_i64 p.max want then p.max else want)
      else replicas

  abbrev pub shrunk : Policy → f.F → ℕ → ℕ → ℕ
  shrunk p avg replicas want =
      if f.above (f.half p.target_cpu) avg && lt_i64 p.min replicas
      then (let less = sub_i64 want p.scale_down_by in if lt_i64 less p.min then p.min else less)
      else want

  -- `lastAton[key]`, zero for a key that is not there
  abbrev pub last_of : Bytes → Controller → ℕ
  last_of key c = elim (lookup key c.last_at_on) [ none ↦ 0 | some t ↦ t ]

  unfoldable pub evaluate_one : ℕ → f.F → Bool → Spec → Option ℕ → Controller → Scaling × Controller
  evaluate_one now avg stored s none c = (unchanged, c)
  evaluate_one now avg stored s (some replicas) c =
      let key = key_of s.project_id s.workload_id in
      let want = shrunk s.policy avg replicas (grown s.policy avg replicas) in
      if ltb (now - last_of key c) s.policy.cooldown
      then (unchanged, c)
      else if want == replicas
      then (unchanged, c)
      else if stored
      then (scaled (to_i32 want), record c { last_at_on = insert key now c.last_at_on })
      else (failed (to_i32 want), c)
