-- ===== src/Kv/Quorum.antt =====
-- Writes of internal/primitives/db/raft.go on a node that has peers: the majority of `replicate`.
use minicloud_platform.Prelude.{ℕ, ◌*◌, ◌≤◌, ◌≡◌, ◌≢◌, true, arith, length}
use minicloud_platform.Kv.State.{LogEntry, Raft, err, replication_timeout}
use minicloud_platform.Kv.Journal.{synced}
use minicloud_platform.Kv.Ops.{Env, count_acks, commit}

-- A node that has peers and whose journal can be written.
pub record IsMember (r : Raft) : Type 0 where
  pub member : length r.peers ≢ 1
  pub open_journal : r.journal_open ≡ true
  pub applied_le : r.last_applied ≤ length r.log

abbrev pub acked : Env → Raft → ℕ
acked env r = count_acks r.cfg.node_id env.acks r.peers

module _ (env : Env) (e : LogEntry) (r : Raft) (h : IsMember r) (s : env.io ≡ synced) where
  pub commit_unacked :
      2 * acked env r ≤ length r.peers
      → ((commit env e r).0 ≡ err replication_timeout) × ((commit env e r).1.st ≡ r.st)
  unfolding commit
  commit_unacked q = ground arith
