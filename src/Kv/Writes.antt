-- ===== src/Kv/Writes.antt =====
-- What a write of internal/primitives/db/raft.go does on a node that is alone: the map, the log and
-- the journal afterwards. The refinement and the recovery are built on these lemmas.
use minicloud_platform.Prelude.{
  ℕ, ◌+◌, ◌≤◌, ◌≡◌, true, [], ◌∷◌, ◌++◌, arith, ◌==◌, if◌then◌else◌, length, length-append,
}
use minicloud_platform.Kv.State.{LogEntry, Raft, ok}
use minicloud_platform.Kv.Apply.{apply_op}
use minicloud_platform.Kv.Journal.{synced}
use minicloud_platform.Kv.Ops.{Env, commit}

-- A node on its own whose journal can be written, and which has applied no entry past its log.
pub record IsAlone (r : Raft) : Type 0 where
  pub alone : length r.peers ≡ 1
  pub open_journal : r.journal_open ≡ true
  pub applied_le : r.last_applied ≤ length r.log

-- the entry as `append` completes it
abbrev pub completed : LogEntry → Raft → LogEntry
completed e r = record e {
  index = length r.log + 1;
  term = if r.current_term == 0 then 1 else r.current_term;
}

-- the state after a write that reached the disk: what later proofs read of it
pub record Committed (now : ℕ) (e : LogEntry) (r r' : Raft) : Type 0 where
  pub st_eq : r'.st ≡ apply_op now e r.st
  pub log_eq : r'.log ≡ r.log ++ e ∷ []
  pub journal_eq : r'.disk.journal ≡ r.disk.journal ++ e ∷ []
  pub snap_eq : r'.disk.snap ≡ r.disk.snap
  pub peers_eq : r'.peers ≡ r.peers
  pub cfg_eq : r'.cfg ≡ r.cfg
  pub open_eq : r'.journal_open ≡ true
  pub applied_eq : r'.last_applied ≡ e.index

module _ (env : Env) (e : LogEntry) (r : Raft) (h : IsAlone r) (s : env.io ≡ synced) where
  pub commit_ok : (commit env e r).0 ≡ ok tt
  unfolding commit
  commit_ok = ground arith

  pub commit-Committed : Committed env.now (completed e r) r (commit env e r).1
  unfolding commit apply_op
  commit-Committed = ground arith

  pub commit-IsAlone : IsAlone (commit env e r).1
  unfolding commit
  commit-IsAlone = ground (arith, length-append r.log (completed e r ∷ []))
