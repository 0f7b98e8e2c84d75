-- ===== src/Leader/Election.antt =====
-- The election of internal/util/leader/leader.go. One key of the store holds the leader's record.
-- encoding/json, by which codec.go writes that record, is the parameter `Codec`.
use minicloud_platform.Prelude.{
  ℕ, ◌+◌, ◌≡◌, Bool, true, false, ◌&&◌, Option, ◌++◌, ltb, leb, ◌==◌, if◌then◌else◌, u64, Bytes,
  codes,
}
use minicloud_platform.Kv.State.{not_found, Entry, Raft, Outcome, ok, err}
use minicloud_platform.Kv.Ops.{Env, get, put, compare_and_swap}

-- `State`
pub data Standing : Type 0 where
  follower candidate leader : Standing

pub record Config : Type 0 where
  pub node_id : Bytes
  pub group : Bytes
  pub ttl : ℕ
  pub heartbeat : ℕ

pub record Election : Type 0 where
  pub cfg : Config
  pub state : Standing
  pub term : ℕ  -- uint64
  pub last_seen : ℕ

pub record LeaderRecord : Type 0 where
  pub node_id : Bytes
  pub term : ℕ
  pub expiry : ℕ

-- `mustMarshal` and `mustUnmarshal`: a record is read back as it was written.
pub record Codec : Type 0 where
  pub encode : LeaderRecord → Bytes
  pub decode : Bytes → LeaderRecord
  pub decode-encode : (x : LeaderRecord) → decode (encode x) ≡ x

unfoldable pub new_election : Config → Election
new_election cfg = record {
  cfg = record cfg {
    ttl = if cfg.ttl == 0 then 5000000000 else cfg.ttl;
    heartbeat = if cfg.heartbeat == 0 then 1500000000 else cfg.heartbeat;
  };
  state = follower;
  term = 0;
  last_seen = 0;
}

abbrev pub is_leader_state : Standing → Bool
is_leader_state leader = true
is_leader_state _ = false

unfoldable pub is_leader : Election → Bool
is_leader e = is_leader_state e.state

unfoldable pub leader_key : Bytes → Bytes
leader_key group = codes "_leader/" ++ group

-- the next term, as a candidate
unfoldable pub stand : Election → Election
stand e = record e { state = candidate; term = u64 (e.term + 1) }

abbrev pub claim : ℕ → Election → LeaderRecord
claim now e = record { node_id = e.cfg.node_id; term = e.term; expiry = now + e.cfg.ttl }

-- the state after a `Put` or a `CompareAndSwap`: leader if it returned no error
unfoldable pub won : ℕ → Election → Outcome (Option Entry) × Raft → Election × Raft
won now e (ok _, r) = (record e { state = leader; last_seen = now }, r)
won now e (err _, r) = (e, r)

module _ (codec : Codec) where
  -- `prev.Expiry.After(now) && prev.Term >= cur.Term`
  unfoldable pub is_held : ℕ → LeaderRecord → Election → Bool
  is_held now prev e = ltb now prev.expiry && leb e.term prev.term

  -- the candidate `e` has found an entry
  unfoldable pub contend : Env → Bytes → Entry → Election → Raft → Election × Raft
  unfolding is_held won
  contend env key ent e r =
      let prev = codec.decode ent.value in
      if is_held env.now prev e
      then (record e { state = follower; term = prev.term; last_seen = env.now }, r)
      else won env.now e (compare_and_swap env key (codec.encode (claim env.now e)) ent.version r)

  unfoldable pub after_get : Env → Bytes → Outcome Entry → Election → Raft → Election × Raft
  unfolding contend won
  after_get env key (ok ent) e r = contend env key ent e r
  after_get env key (err not_found) e r =
      won env.now e (put env key (codec.encode (claim env.now e)) r)
  after_get env key (err _) e r = (e, r)

  unfoldable pub tick : Env → Election → Raft → Election × Raft
  unfolding stand after_get
  tick env e r = let key = leader_key e.cfg.group in after_get env key (get key r) (stand e) r

  unfoldable pub get_leader : Bytes → Raft → Outcome LeaderRecord
  get_leader group r = elim (get (leader_key group) r) [
    | err x ↦ err x
    | ok ent ↦ ok (codec.decode ent.value)
  ]
