-- ===== src/Kv/Examples.antt =====
-- Runs of the store of internal/primitives/db at concrete inputs.
use minicloud_platform.Prelude.{
  ℕ, ◌≡◌, refl, true, false, none, some, List, [], ◌∷◌, map, arith, Bytes, codes, same, lookup,
  insert, delete,
}
use mathlib.Core.List.{Perm}
use minicloud_platform.Kv.State.{Config, Peer, Role, Raft, ok, cas_mismatch, not_found}
use minicloud_platform.Kv.Journal.{synced, open_raft, snapshot, done}
use minicloud_platform.Kv.Ops.{Env, commit, get, put, remove, compare_and_swap, list, cas_version}
use minicloud_platform.Kv.Writes.{IsAlone}
use minicloud_platform.Kv.Spec.{
  Command, get_key, delete_key, put_key, cas_key, entry, deleted, failed, serve, serve_all,
  contents, new_entry,
}
use minicloud_platform.Kv.Replay.{apply_ops, SameStore, SameStore-refl, empty_store}
use minicloud_platform.Kv.Durable.{IsDurable}
use minicloud_platform.Kv.Restart.{IsSingle, open_raft-serve_all}
use minicloud_platform.Kv.SnapshotLoss.{unapplied_all, serve_all-open_raft-snapshot}
use minicloud_platform.Kv.Races.{Call, World, Reach, start, returned, both_swap}
use minicloud_platform.Kv.Listing.{IsSorted, with_prefix, list_lem}

-- all keys here are ASCII
abbrev as_is : Bytes → Bytes
as_is k = k

abbrev single : Config
single = record {
  node_id = codes "n1";
  data_dir = codes "/var/lib/db";
  listen = codes ":7000";
  bootstrap = true;
  peers = [];
}

abbrev self_peer : Peer
self_peer = record { id = codes "n1"; address = codes ":7000" }

-- the node that `openRaft` makes from an empty directory
abbrev first_node : Raft
first_node = record {
  cfg = single;
  role = Role.follower;
  current_term = 1;
  voted_for = codes "n1";
  log = [];
  commit_index = 0;
  last_applied = 0;
  peers = self_peer ∷ [];
  next_index = (codes "n1", 1) ∷ [];
  match_index = (codes "n1", 0) ∷ [];
  st = empty_store;
  disk = record { journal = []; snap = none };
  journal_open = true;
  apply_signal = false;
  apply_queue = [];
  watchers = [];
  mets = record { puts = 0; dels = 0; applied = 0 };
}

first_node_opened : open_raft as_is (λ _. 9) single first_node ≡ ok first_node
unfolding open_raft insert
first_node_opened = refl

abbrev script : List (ℕ × Command)
script =
    (5, put_key (codes "a") (codes "x"))
    ∷ (6, put_key (codes "a") (codes "y"))
    ∷ (7, cas_key (codes "a") (codes "z") 1)
    ∷ (8, cas_key (codes "a") (codes "z") 2)
    ∷ (9, delete_key (codes "b"))
    ∷ (9, get_key (codes "b"))
    ∷ []

script_replies :
    (serve_all script first_node).0
    ≡ entry (some (new_entry 5 (codes "a") (codes "x") 1))
      ∷ entry (some (new_entry 6 (codes "a") (codes "y") 2))
      ∷ failed cas_mismatch
      ∷ entry (some (new_entry 8 (codes "a") (codes "z") 3))
      ∷ deleted
      ∷ failed not_found
      ∷ []
unfolding serve_all serve get put remove compare_and_swap commit lookup insert delete same
script_replies = refl

first_node-IsDurable : IsDurable first_node
first_node-IsDurable = record {
  alone = refl;
  open_journal = refl;
  applied_all = refl;
  no_snapshot = refl;
  journaled = refl;
  numbered = tt;
  same_store = unfold apply_ops in SameStore-refl empty_store;
}

single-IsSingle : IsSingle single
single-IsSingle = record { named = cc; placed = cc; no_peers = refl }

open_raft-serve_all_example :
    (r' : Raft) × (open_raft as_is (λ _. 50) single (serve_all script first_node).1 ≡ ok r')
    × IsDurable r'
    × SameStore r'.st (serve_all script first_node).1.st
open_raft-serve_all_example =
    open_raft-serve_all as_is (λ _. 50) single script first_node single-IsSingle
      first_node-IsDurable tt (refl, (refl, (refl, (refl, (refl, (refl, tt))))))

-- a node whose map has had one write
abbrev written : Raft
written = record first_node {
  st = record { entries = (codes "a", new_entry 5 (codes "a") (codes "x") 1) ∷ []; version = 1 };
}

serve_all-open_raft-snapshot_example :
    (r' : Raft) × (open_raft as_is (λ _. 50) single (snapshot done written) ≡ ok r')
    × (r'.st ≡ written.st)
    × ((serve_all ((60, put_key (codes "a") (codes "new")) ∷ []) r').0
        ≡ unapplied_all ((60, put_key (codes "a") (codes "new")) ∷ []) (contents written))
    × ((serve_all ((60, put_key (codes "a") (codes "new")) ∷ []) r').1.st ≡ written.st)
unfolding lookup
serve_all-open_raft-snapshot_example =
    serve_all-open_raft-snapshot as_is (λ _. 50) single
      ((60, put_key (codes "a") (codes "new")) ∷ []) written single-IsSingle refl ((refl, refl), tt)
      (refl, tt) (omega arith)

abbrev trio : Raft
trio = record first_node {
  peers =
      self_peer
      ∷ record { id = codes "n2"; address = codes ":7001" }
      ∷ record { id = codes "n3"; address = codes ":7002" }
      ∷ [];
}

-- only the peer n2 answers
abbrev n2_answers : Env
n2_answers = record { now = 4; io = synced; acks = λ p. same p.id (codes "n2") }

abbrev call_x : Call
call_x = record { key = codes "a"; value = codes "one"; expect = 1 }

abbrev call_y : Call
call_y = record { key = codes "a"; value = codes "two"; expect = 1 }

written-IsAlone : IsAlone written
written-IsAlone = record { alone = refl; open_journal = refl; applied_le = omega arith }

both_swap_example :
    (w : World) × Reach call_x call_y (start written) w
    × (w.first ≡ returned (ok (some (new_entry 7 (codes "a") (codes "one") 2))))
    × (w.second ≡ returned (ok (some (new_entry 7 (codes "a") (codes "two") 2))))
unfolding cas_version lookup same
both_swap_example = both_swap 7 call_x call_y 2 written written-IsAlone refl refl refl

list_lem_example :
    IsSorted (list (codes "a") written)
    × Perm (list (codes "a") written) (map (λ p. p.1) (with_prefix (codes "a") written.st.entries))
list_lem_example = list_lem (codes "a") written
