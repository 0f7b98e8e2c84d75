-- ===== src/Leader/Examples.antt =====
-- Runs of the election of internal/util/leader at concrete inputs.
use minicloud_platform.Prelude.{
  ◌≡◌, refl, ◌⊎◌, true, false, none, some, List, [], ◌∷◌, arith, Bytes, codes, lookup,
}
use minicloud_platform.Kv.State.{Role, Entry, Raft, ok}
use minicloud_platform.Kv.Writes.{IsAlone}
use minicloud_platform.Kv.Spec.{calm}
use minicloud_platform.Leader.Election.{
  follower, Election, LeaderRecord, Codec, leader_key, stand, claim, is_leader, tick, get_leader,
  new_election,
}
use minicloud_platform.Leader.Leases.{Claimed, blocked, followed, tick_lem}
use minicloud_platform.Leader.Takeover.{two_leaders}

abbrev plain_encode : LeaderRecord → Bytes
plain_encode x = x.term ∷ x.expiry ∷ x.node_id

abbrev plain_decode : Bytes → LeaderRecord
plain_decode (t ∷ x ∷ id) = record { node_id = id; term = t; expiry = x }
plain_decode _ = record { node_id = []; term = 0; expiry = 0 }

abbrev plain : Codec
plain = record { encode = plain_encode; decode = plain_decode; decode-encode = λ x. refl }

abbrev ctrl : Bytes → Election
ctrl id = record {
  cfg = record { node_id = id; group = codes "ctrl"; ttl = 100; heartbeat = 10 };
  state = follower;
  term = 0;
  last_seen = 0;
}

abbrev store : List (Bytes × Entry) → Raft
store entries = record {
  cfg = record {
    node_id = codes "n";
    data_dir = codes "d";
    listen = codes ":1";
    bootstrap = true;
    peers = [];
  };
  role = Role.follower;
  current_term = 1;
  voted_for = codes "n";
  log = [];
  commit_index = 0;
  last_applied = 0;
  peers = record { id = codes "n"; address = codes ":1" } ∷ [];
  next_index = [];
  match_index = [];
  st = record { entries = entries; version = 1 };
  disk = record { journal = []; snap = none };
  journal_open = true;
  apply_signal = false;
  apply_queue = [];
  watchers = [];
  mets = record { puts = 0; dels = 0; applied = 0 };
}

store-IsAlone : (entries : List (Bytes × Entry)) → IsAlone (store entries)
store-IsAlone entries = record { alone = refl; open_journal = refl; applied_le = omega arith }

-- n1 leads with term 1 until 105
abbrev lease : Entry
lease = record {
  key = codes "_leader/ctrl";
  value = 1 ∷ 105 ∷ codes "n1";
  version = 1;
  deleted = false;
  created_at = 5;
}

abbrev leased : Raft
leased = store ((codes "_leader/ctrl", lease) ∷ [])

defaults :
    (new_election (record { node_id = []; group = []; ttl = 0; heartbeat = 0 })).cfg.ttl
    ≡ 5000000000
unfolding new_election
defaults = refl

tick_lem_example :
    let found = lookup (leader_key (codes "ctrl")) leased.st.entries in
    let e = ctrl (codes "n2") in
    ((blocked plain 6 found (stand e) ≡ true)
      × ((ent : Entry) × (found ≡ some ent)
          × (tick plain (calm 6) e leased ≡ (followed plain 6 e ent, leased))))
    ⊎ ((blocked plain 6 found (stand e) ≡ false) × Claimed plain 6 e (tick plain (calm 6) e leased))
tick_lem_example = tick_lem plain 6 (ctrl (codes "n2")) leased (store-IsAlone _)

two_leaders_example :
    let (a', r₁) = tick plain (calm 5) (ctrl (codes "n1")) (store []) in
    let (b', r₂) = tick plain (calm 6) (ctrl (codes "n2")) r₁ in
    let (b'', r₃) = tick plain (calm 7) b' r₂ in
    (is_leader a' ≡ true)
    × (is_leader b'' ≡ true)
    × (get_leader plain b'.cfg.group r₃ ≡ ok (claim 7 (stand b')))
unfolding lookup
two_leaders_example =
    two_leaders plain 5 6 7 (ctrl (codes "n1")) (ctrl (codes "n2")) (store []) (store-IsAlone _)
      refl (omega arith) (omega arith) refl
