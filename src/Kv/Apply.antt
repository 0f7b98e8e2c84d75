-- ===== src/Kv/Apply.antt =====
-- The in-memory map and the state machine of raft.go: `store.get`, `put` and `del`, `applyLocked`,
-- `applyFromQueue` and `fanout`.
use minicloud_platform.Prelude.{
  ℕ, ◌+◌, true, false, ◌&&◌, Option, none, some, List, [], ◌∷◌, ◌++◌, map, ltb, leb, if◌then◌else◌,
  u64, length, Bytes, starts_with, Dict, lookup, insert, delete,
}
use minicloud_platform.Kv.State.{Entry, LogEntry, Op, Store, Watcher, Raft}

-- a copy of the entry, or nil
unfoldable pub store_get : Bytes → Store → Option Entry
store_get key st = lookup key st.entries

-- the version that the next write of a key has
unfoldable pub bumped : Option Entry → ℕ
bumped none = 1
bumped (some cur) = u64 (cur.version + 1)

unfoldable pub store_put : Bytes → Entry → Store → ℕ × Store
unfolding bumped
store_put key e st =
    let v = bumped (lookup key st.entries) in
    (
      v,
      record {
        entries = insert key (record e { version = v }) st.entries;
        version = u64 (st.version + 1);
      },
    )

unfoldable pub store_del : Bytes → Store → ℕ × Store
store_del key st =
    let v : ℕ = elim (lookup key st.entries) [ none ↦ 0 | some cur ↦ u64 (cur.version + 1) ] in
    (v, record { entries = delete key st.entries; version = u64 (st.version + 1) })

-- the entry that a "put" stores
abbrev pub stored : ℕ → LogEntry → Entry
stored now e = record {
  key = e.key;
  value = e.value;
  version = e.version;
  deleted = false;
  created_at = now;
}

-- the event of a "del"
abbrev pub tombstone : ℕ → LogEntry → Entry
tombstone now e = record {
  key = e.key;
  value = [];
  version = e.version;
  deleted = true;
  created_at = now;
}

-- the `switch` of `applyLocked`
unfoldable pub apply_op : ℕ → LogEntry → Store → Store
apply_op now e st = elim e.op [
  | Op.put ↦ record {
    entries = insert e.key (stored now e) st.entries;
    version = u64 (st.version + 1);
  }
  | Op.del ↦ record { entries = delete e.key st.entries; version = u64 (st.version + 1) }
]

-- `ev`: the copy that `get` returns, or for a "del" a tombstone
unfoldable pub event : ℕ → LogEntry → Store → Option Entry
unfolding store_get
event now e st = elim e.op [ Op.put ↦ store_get e.key st | Op.del ↦ some (tombstone now e) ]

unfoldable pub apply_locked : ℕ → LogEntry → Raft → Raft
unfolding apply_op event
apply_locked now e r =
    if leb e.index r.last_applied
    then r
    else let st' = apply_op now e r.st in
      record r {
        last_applied = e.index;
        st = st';
        apply_queue = r.apply_queue ++ event now e st' ∷ [];
        mets = record r.mets { applied = u64 (r.mets.applied + 1) };
        apply_signal = true;
      }

-- a send that is dropped when the channel is full
unfoldable pub offer : Entry → Watcher → Watcher
offer ev w =
    if starts_with ev.key w.prefix && ltb (length w.ch) 256
    then record w { ch = w.ch ++ ev ∷ [] }
    else w

unfoldable pub offer_all : Entry → Dict (List Watcher) → Dict (List Watcher)
unfolding offer
offer_all ev [] = []
offer_all ev ((prefix, subs) ∷ m) = (prefix, map (offer ev) subs) ∷ offer_all ev m

-- The code would dereference a nil event; here it is skipped.
unfoldable pub fanout : Option Entry → Dict (List Watcher) → Dict (List Watcher)
unfolding offer_all
fanout none m = m
fanout (some ev) m = offer_all ev m

unfoldable pub fanout_each : List (Option Entry) → Dict (List Watcher) → Dict (List Watcher)
unfolding fanout
fanout_each [] m = m
fanout_each (ev ∷ evs) m = fanout_each evs (fanout ev m)

unfoldable pub apply_from_queue : Raft → Raft
apply_from_queue r = record r { apply_queue = []; watchers = fanout_each r.apply_queue r.watchers }
