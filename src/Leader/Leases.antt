-- ===== src/Leader/Leases.antt =====
-- What a tick of internal/util/leader/leader.go decides, and how long a lease protects its holder.
use minicloud_platform.Prelude.{
  ℕ, ◌+◌, ◌≤◌, ◌<◌, ◌≡◌, refl, ◌⊎◌, inl, inr, Bool, true, false, ◌&&◌, Option, none, some, arith,
  ltb, leb, u64, max_u64, Bool-cases, Option-cases, lookup,
}
use minicloud_platform.Kv.State.{not_found, Entry, Raft, Outcome, ok, err}
use minicloud_platform.Kv.Apply.{store_get}
use minicloud_platform.Kv.Ops.{get, cas_version}
use minicloud_platform.Kv.Writes.{IsAlone}
use minicloud_platform.Kv.Spec.{calm}
use minicloud_platform.Kv.Results.{put_lem, cas_lem}
use minicloud_platform.Leader.Election.{
  follower, leader, Election, LeaderRecord, Codec, leader_key, stand, claim, is_held, tick,
  get_leader,
}

cas_version_self : (ent : Entry) → cas_version (some ent) ent.version ≡ ok (u64 (ent.version + 1))
unfolding cas_version
cas_version_self ent = ground arith

module _ (codec : Codec) where
  -- whether the entry that the candidate finds keeps it from claiming
  abbrev pub blocked : ℕ → Option Entry → Election → Bool
  blocked now none e = false
  blocked now (some ent) e =
      let prev = codec.decode ent.value in ltb now prev.expiry && leb e.term prev.term

  -- the record that the key holds for a group
  abbrev pub holder : Option Entry → Outcome LeaderRecord
  holder none = err not_found
  holder (some ent) = ok (codec.decode ent.value)

  pub record Claimed (now : ℕ) (e : Election) (res : Election × Raft) : Type 0 where
    pub leads : res.0 ≡ record (stand e) { state = leader; last_seen = now }
    pub recorded : get_leader codec e.cfg.group res.1 ≡ ok (claim now (stand e))
    pub still_alone : IsAlone res.1

  -- the state of a candidate that gives way
  abbrev pub followed : ℕ → Election → Entry → Election
  followed now e ent = record (stand e) {
    state = follower;
    term = (codec.decode ent.value).term;
    last_seen = now;
  }

  tick_blocked :
      (now : ℕ) (e : Election) (r : Raft) (ent : Entry)
      → lookup (leader_key e.cfg.group) r.st.entries ≡ some ent
      → is_held codec now (codec.decode ent.value) (stand e) ≡ true
      → tick codec (calm now) e r ≡ (followed now e ent, r)
  unfolding tick get store_get
  tick_blocked now e r ent l b = ground (arith, l, b)

  module _ (now : ℕ) (e : Election) (r : Raft) (h : IsAlone r) where
    pub tick_empty :
        lookup (leader_key e.cfg.group) r.st.entries ≡ none
        → Claimed now e (tick codec (calm now) e r)
    unfolding tick get get_leader store_get
    tick_empty l =
        let key = leader_key e.cfg.group in
        let c = claim now (stand e) in
        ground (arith, l, put_lem now key (codec.encode c) r h, codec.decode-encode c)

    tick_free :
        (ent : Entry)
        → lookup (leader_key e.cfg.group) r.st.entries ≡ some ent
        → is_held codec now (codec.decode ent.value) (stand e) ≡ false
        → Claimed now e (tick codec (calm now) e r)
    unfolding tick get get_leader store_get
    tick_free ent l b =
        let key = leader_key e.cfg.group in
        let c = claim now (stand e) in
        let version = u64 (ent.version + 1) in
        let passed : cas_version (lookup key r.st.entries) ent.version ≡ ok version =
          rw l (cas_version_self ent) in
        ground (
          arith,
          l,
          b,
          cas_lem now key (codec.encode c) version r h ent.version passed,
          codec.decode-encode c,
        )

    -- A tick on a store that works: if the group's record has not expired and its term is not below
    -- the candidate's next one, the node follows with that term and the store is unchanged;
    -- otherwise the node leads, and the store holds its record.
    pub tick_lem :
        let found = lookup (leader_key e.cfg.group) r.st.entries in
        ((blocked now found (stand e) ≡ true)
          × ((ent : Entry) × (found ≡ some ent)
              × (tick codec (calm now) e r ≡ (followed now e ent, r))))
        ⊎ ((blocked now found (stand e) ≡ false) × Claimed now e (tick codec (calm now) e r))
    unfolding is_held
    tick_lem = elim (Option-cases (lookup (leader_key e.cfg.group) r.st.entries)) [
      | inl l ↦ inr (rw l refl, tick_empty l)
      | inr (ent, l) ↦ elim (Bool-cases (is_held codec now (codec.decode ent.value) (stand e))) [
        | inl b ↦ inl (rw l b, (ent, l, tick_blocked now e r ent l b))
        | inr b ↦ inr (rw l b, tick_free ent l b)
      ]
    ]

  -- a term above the recorded one is not held back
  not_held :
      (now : ℕ) (prev : LeaderRecord) (e : Election)
      → prev.term < e.term
      → is_held codec now prev e ≡ false
  unfolding is_held
  not_held now prev e h = ground arith

  stand_term : (e : Election) → e.term < max_u64 → (stand e).term ≡ e.term + 1
  unfolding stand
  stand_term e h = omega arith

  stand_cfg : (e : Election) → (stand e).cfg ≡ e.cfg
  unfolding stand
  stand_cfg e = refl

  -- A node that stands on the term of the record, or above it, leads after one tick.
  pub tick_above :
      (now : ℕ) (e : Election) (r : Raft) (ent : Entry)
      → IsAlone r
      → e.term < max_u64
      → lookup (leader_key e.cfg.group) r.st.entries ≡ some ent
      → (codec.decode ent.value).term ≤ e.term
      → Claimed now e (tick codec (calm now) e r)
  tick_above now e r ent h small l le =
      tick_free now e r h ent l
        (not_held now (codec.decode ent.value) (stand e) (omega (arith, stand_term e small)))
