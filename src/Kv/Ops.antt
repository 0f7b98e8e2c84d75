-- ===== src/Kv/Ops.antt =====
-- The operations of raft.go: the KV interface, `replicate`, the peers, and the run loop.
use minicloud_platform.Prelude.{
  ℕ, ◌+◌, ◌/◌, ◌%◌, Bool, false, not, ◌&&◌, ◌||◌, Option, none, some, List, [], ◌∷◌, ◌++◌, ltb,
  ◌==◌, if◌then◌else◌, u64, length, keep, Bytes, same, starts_with, before, Dict, lookup, insert,
  delete,
}
use minicloud_platform.Kv.State.{
  not_found, cas_mismatch, replication_timeout, Entry, Peer, View, Role, Op, LogEntry, Watcher,
  Raft, Outcome, ok, err, Action, ◌>>=◌, ◌>>◌, gets, modify,
}
use minicloud_platform.Kv.Apply.{store_get, bumped, apply_locked, apply_from_queue}
use minicloud_platform.Kv.Journal.{WriteResult, SnapshotResult, append, snapshot, contains_peer}

-- What the surroundings answer to one call: the clock, the disk, and which peers acknowledge
-- before the timer of `replicate` fires.
pub record Env : Type 0 where
  pub now : ℕ
  pub io : WriteResult
  pub acks : Peer → Bool

-- `ackCh`: the node itself, and the peers whom `replicateTo` reaches in time
unfoldable pub count_acks : Bytes → (Peer → Bool) → List Peer → ℕ
count_acks self acks [] = 0
count_acks self acks (p ∷ ps) =
    (if same p.id self || acks p then 1 else 0) + count_acks self acks ps

-- `applyLocked(e); applyFromQueue()`
unfoldable pub deliver : ℕ → LogEntry → Raft → Raft
unfolding apply_locked apply_from_queue
deliver now e r = apply_from_queue (apply_locked now e r)

unfoldable pub replicate : Env → LogEntry → Action (Unit {0})
unfolding count_acks deliver
replicate env e r =
    if length r.peers == 1
    then (ok tt, deliver env.now e (record r { commit_index = e.index }))
    else if ltb (count_acks r.cfg.node_id env.acks r.peers) (length r.peers / 2 + 1)
    then (err replication_timeout, r)
    else (
      ok tt,
      deliver env.now e (record r {
        commit_index = if ltb r.commit_index e.index then e.index else r.commit_index;
      }),
    )

abbrev pub entry_of : Op → Bytes → Bytes → ℕ → LogEntry
entry_of op key value v = record {
  index = 0;
  term = 0;
  op = op;
  key = key;
  value = value;
  version = v;
}

-- append, then replicate, as each write does
unfoldable pub commit : Env → LogEntry → Action (Unit {0})
unfolding append replicate
commit env e = do e' ← append env.io e; replicate env e'

abbrev pub found_or : {A : Type 0} → Option A → Outcome A
found_or none = err not_found
found_or (some a) = ok a

unfoldable pub get : Bytes → Raft → Outcome Entry
get key r = found_or (store_get key r.st)

-- The result is the pointer that `r.st.get(key)` returns, which may be nil.
unfoldable pub put : Env → Bytes → Bytes → Action (Option Entry)
unfolding bumped store_get
put env key value = do
  v ← gets (λ r. bumped (lookup key r.st.entries))
  commit env (entry_of Op.put key value v)
  modify (λ r. record r { mets = record r.mets { puts = u64 (r.mets.puts + 1) } })
  gets (λ r. store_get key r.st)

-- The version of the log entry is left at zero.
unfoldable pub remove : Env → Bytes → Action (Unit {0})
remove env key = do
  commit env (entry_of Op.del key [] 0)
  modify (λ r. record r { mets = record r.mets { dels = u64 (r.mets.dels + 1) } })

-- the two tests of `CompareAndSwap`, and the version that it writes
unfoldable pub cas_version : Option Entry → ℕ → Outcome ℕ
cas_version none expect = if expect == 0 then ok 1 else err cas_mismatch
cas_version (some cur) expect =
    if cur.version == expect then ok (u64 (expect + 1)) else err cas_mismatch

-- what `CompareAndSwap` does after its tests, when the lock has been given up
unfoldable pub cas_write : Env → Bytes → Bytes → ℕ → Action (Option Entry)
unfolding store_get
cas_write env key value v = do
  commit env (entry_of Op.put key value v)
  gets (λ r. store_get key r.st)

unfoldable pub compare_and_swap : Env → Bytes → Bytes → ℕ → Action (Option Entry)
unfolding cas_version cas_write
compare_and_swap env key value expect = do
  v ← λ r. (cas_version (lookup key r.st.entries) expect, r)
  cas_write env key value v

-- `sort.Slice` by key
unfoldable pub place : Entry → List Entry → List Entry
place e [] = e ∷ []
place e (x ∷ xs) = let rest = place e xs in if before x.key e.key then x ∷ rest else e ∷ x ∷ xs

unfoldable pub sorted : List Entry → List Entry
unfolding place
sorted [] = []
sorted (e ∷ es) = place e (sorted es)

unfoldable pub matching : Bytes → Dict Entry → List Entry
matching prefix [] = []
matching prefix ((k, e) ∷ m) =
    let rest = matching prefix m in if starts_with k prefix then e ∷ rest else rest

unfoldable pub list : Bytes → Raft → List Entry
unfolding sorted matching
list prefix r = sorted (matching prefix r.st.entries)

unfoldable pub view : Bytes → Raft → View
unfolding list
view prefix r = record { revision = r.st.version; entries = list prefix r }

abbrev pub subscribers : Option (List Watcher) → List Watcher
subscribers none = []
subscribers (some ws) = ws

-- The registration of `Watch`, and the entries that its goroutine then sends. `Since` is not read.
unfoldable pub watch : Bytes → Raft → List Entry × Raft
unfolding list
watch prefix r = (
  list prefix r,
  record r {
    watchers =
        insert prefix
          (subscribers (lookup prefix r.watchers) ++ record { prefix = prefix; ch = [] } ∷ [])
          r.watchers;
  },
)

unfoldable pub add_peer : Peer → Raft → Raft
unfolding contains_peer
add_peer p r = if contains_peer p.id r.peers then r else record r {
  peers = r.peers ++ p ∷ [];
  next_index = insert p.id (length r.log + 1) r.next_index;
  match_index = insert p.id 0 r.match_index;
}

unfoldable pub remove_peer : Bytes → Raft → Raft
remove_peer id r = record r {
  peers = keep (λ p. not (same p.id id)) r.peers;
  next_index = delete id r.next_index;
  match_index = delete id r.match_index;
}

-- what wakes the loop of `run`
pub data Wake : Type 0 where
  election_timeout apply_signal : Wake

unfoldable pub elect : Raft → Raft
elect r = record r {
  role = if length r.peers == 1 then Role.leader else Role.candidate;
  current_term = u64 (r.current_term + 1);
  voted_for = r.cfg.node_id;
}

unfoldable pub on_wake : Wake → Raft → Raft
unfolding elect
on_wake election_timeout r = elect r
on_wake apply_signal r = apply_from_queue (record r { apply_signal = false })

-- one round of the loop of `run`
unfoldable pub run_once : Wake → SnapshotResult → Raft → Raft
unfolding on_wake
run_once w io r =
    let r' = on_wake w r in
    if r'.mets.applied % 256 == 0 && ltb 0 r'.mets.applied then snapshot io r' else r'
