-- ===== src/Kv/Journal.antt =====
-- The persistence of raft.go: `append`, `recover`, `snapshot` and `openRaft`. What the file system
-- answers is an argument. encoding/json reads back the records that it wrote, but for their keys: in a string it
-- replaces what is not UTF-8, as the parameter `text` says. A value is written in base64. A failed write is
-- taken to leave no partial record.
use minicloud_platform.Prelude.{
  ℕ, ◌+◌, Bool, true, false, ◌&&◌, ◌||◌, Option, none, some, List, [], ◌∷◌, ◌++◌, map, ltb, ◌==◌,
  if◌then◌else◌, length, Bytes, same, Dict, insert,
}
use minicloud_platform.Kv.State.{
  Entry, journal_closed, journal_write, journal_sync, node_id_required, data_dir_required, Peer,
  Config, Role, LogEntry, RaftSnapshot, Raft, Outcome, ok, err, Action,
}
use minicloud_platform.Kv.Apply.{apply_locked}

-- how `Write` and `Sync` of the journal end
pub data WriteResult : Type 0 where
  write_failed sync_failed synced : WriteResult

unfoldable pub write_journal : WriteResult → LogEntry → Action LogEntry
write_journal io e r =
    let written = record r { disk = record r.disk { journal = r.disk.journal ++ e ∷ [] } } in
    if r.journal_open
    then elim io [
      | write_failed ↦ (err journal_write, r)
      | sync_failed ↦ (err journal_sync, written)
      | synced ↦ (ok e, written)
    ]
    else (err journal_closed, r)

-- `uint64(len(r.log)) + 1` does not wrap: a length is an `int`.
unfoldable pub append : WriteResult → LogEntry → Action LogEntry
unfolding write_journal
append io e r =
    let term : ℕ = if r.current_term == 0 then 1 else r.current_term in
    let e' = record e { index = length r.log + 1; term = term } in
    write_journal io e' (record r { current_term = term; log = r.log ++ e' ∷ [] })

-- One round of the loop of `recover`. `clock` gives the time at which an entry is applied.
unfoldable pub replay_one : (LogEntry → ℕ) → LogEntry → Raft → Raft
replay_one clock e r = apply_locked (clock e) e (record r {
  log = r.log ++ e ∷ [];
  current_term = if ltb r.current_term e.term then e.term else r.current_term;
  commit_index =
      if ltb r.commit_index e.index && length r.peers == 1 then e.index else r.commit_index;
})

unfoldable pub replay : (LogEntry → ℕ) → List LogEntry → Raft → Raft
unfolding replay_one
replay clock [] r = r
replay clock (e ∷ es) r = replay clock es (replay_one clock e r)

-- what is read of an entry that was written as JSON
abbrev pub read_back : (Bytes → Bytes) → LogEntry → LogEntry
read_back text e = record e { key = text e.key }

-- The same for a map, onto what is read so far: of keys that are read as one, the later entry stays. The order of the
-- list stands for that of the file.
unfoldable pub read_state : (Bytes → Bytes) → Dict Entry → Dict Entry → Dict Entry
unfolding insert
read_state text m [] = m
read_state text m ((k, e) ∷ es) =
    read_state text (insert (text k) (record e { key = text e.key }) m) es

-- the second half of `recover`: the snapshot file, if there is one, replaces the map
unfoldable pub load_snapshot : (Bytes → Bytes) → Option RaftSnapshot → Raft → Raft
unfolding read_state
load_snapshot text none r = r
load_snapshot text (some snap) r = record r {
  st = record { entries = read_state text [] snap.state; version = snap.index };
  commit_index = snap.index;
  last_applied = snap.index;
}

unfoldable pub recover : (Bytes → Bytes) → (LogEntry → ℕ) → Raft → Raft
unfolding replay load_snapshot
recover text clock r =
    load_snapshot text r.disk.snap
      (replay clock (map (read_back text) r.disk.journal) (record r { journal_open = true }))

-- how `snapshot` ends: the calls that can fail, in their order
pub data SnapshotResult : Type 0 where
  tmp_failed close_failed rename_failed reopen_failed done : SnapshotResult

abbrev pub taken : Raft → RaftSnapshot
taken r = record { term = r.current_term; index = r.st.version; state = r.st.entries }

-- A handle that is closed already fails to close again.
unfoldable pub snapshot : SnapshotResult → Raft → Raft
snapshot io r =
    let closed = record r { journal_open = false } in
    let renamed = record closed { disk = record r.disk { snap = some (taken r) } } in
    let reopened = record r { disk = record { journal = []; snap = some (taken r) } } in
    elim io [
      | tmp_failed ↦ r
      | close_failed ↦ closed
      | rename_failed ↦ closed
      | reopen_failed ↦ if r.journal_open then renamed else closed
      | done ↦ if r.journal_open then reopened else closed
    ]

unfoldable pub contains_peer : Bytes → List Peer → Bool
contains_peer id [] = false
contains_peer id (p ∷ ps) = same p.id id || contains_peer id ps

abbrev pub set_each : ℕ → List Peer → Dict ℕ → Dict ℕ
set_each n [] m = m
set_each n (p ∷ ps) m = set_each n ps (insert p.id n m)

-- the struct that `openRaft` builds before it recovers
unfoldable pub fresh : Config → Raft → Raft
unfolding contains_peer
fresh cfg r =
    let self : Peer = record { id = cfg.node_id; address = cfg.listen } in
    let all = if contains_peer cfg.node_id cfg.peers then cfg.peers else cfg.peers ++ self ∷ [] in
    record {
      cfg = cfg;
      role = Role.follower;
      current_term = 0;
      voted_for = [];
      log = [];
      commit_index = 0;
      last_applied = 0;
      peers = all;
      next_index = set_each 1 all [];
      match_index = set_each 0 all [];
      st = record { entries = []; version = 0 };
      disk = r.disk;
      journal_open = false;
      apply_signal = false;
      apply_queue = [];
      watchers = [];
      mets = record { puts = 0; dels = 0; applied = 0 };
    }

unfoldable pub bootstrapped : Config → Raft → Raft
bootstrapped cfg r =
    if cfg.bootstrap && r.current_term == 0
    then record r { current_term = 1; voted_for = cfg.node_id }
    else r

-- `openRaft` on the data directory that the stopped node `r` left
unfoldable pub open_raft : (Bytes → Bytes) → (LogEntry → ℕ) → Config → Raft → Outcome Raft
unfolding fresh recover bootstrapped same
open_raft text clock cfg r =
    if same cfg.node_id []
    then err node_id_required
    else if same cfg.data_dir []
    then err data_dir_required
    else ok (bootstrapped cfg (recover text clock (fresh cfg r)))
