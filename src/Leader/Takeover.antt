-- ===== src/Leader/Takeover.antt =====
-- Two candidates of internal/util/leader/leader.go: how the second one comes to lead.
use minicloud_platform.Prelude.{
  ℕ, ◌+◌, ◌<◌, ◌≡◌, ap, inl, inr, true, none, some, arith, max_u64, Option-cases, Bytes, lookup,
}
use minicloud_platform.Kv.State.{Entry, Raft, ok}
use minicloud_platform.Kv.Apply.{store_get}
use minicloud_platform.Kv.Ops.{get}
use minicloud_platform.Kv.Writes.{IsAlone}
use minicloud_platform.Kv.Spec.{calm}
use minicloud_platform.Leader.Election.{
  Election, LeaderRecord, Codec, leader_key, stand, claim, is_leader, tick, get_leader,
}
use minicloud_platform.Leader.Leases.{Claimed, followed, tick_lem, tick_above, tick_empty}

module _ (codec : Codec) where
  -- the entry behind a record
  entry_of_leader :
      (group : Bytes) (r : Raft) (rec : LeaderRecord)
      → get_leader codec group r ≡ ok rec
      → (ent : Entry) × (lookup (leader_key group) r.st.entries ≡ some ent)
        × (codec.decode ent.value ≡ rec)
  unfolding get_leader get store_get
  entry_of_leader group r rec h = elim (Option-cases (lookup (leader_key group) r.st.entries)) [
    | inl l ↦ let f : ⊥ = ground (arith, l, h) in absurd f
    | inr (ent, l) ↦ (ent, l, ground (arith, l, h))
  ]

  Claimed-term :
      (now : ℕ) (e : Election) (res : Election × Raft)
      → Claimed codec now e res
      → e.term < max_u64
      → (res.0.term ≡ e.term + 1) × (res.0.cfg ≡ e.cfg)
  unfolding stand
  Claimed-term now e res c small = ground (arith, c.leads)

  -- A node that has just claimed leads again after its next tick.
  tick-Claimed :
      (now later : ℕ) (e : Election) (res : Election × Raft)
      → Claimed codec now e res
      → e.term + 1 < max_u64
      → Claimed codec later res.0 (tick codec (calm later) res.0 res.1)
  unfolding stand
  tick-Claimed now later e res c small =
      let own = Claimed-term now e res c (omega arith) in
      let at = entry_of_leader e.cfg.group res.1 (claim now (stand e)) c.recorded in
      let found : lookup (leader_key res.0.cfg.group) res.1.st.entries ≡ some at.0 =
        rw own.1 at.1 in
      tick_above codec later res.0 res.1 at.0 c.still_alone (omega (arith, own.0)) found
        (omega (arith, own.0, ap (λ (x : LeaderRecord). x.term) at.2))

  -- Two ticks in a row make a node the leader, whatever record the store holds for the group, expired
  -- or not, on a store that works and with terms that do not wrap.
  tick_twice :
      (now later : ℕ) (e : Election) (r : Raft) (ent : Entry)
      → IsAlone r
      → e.term + 1 < max_u64
      → lookup (leader_key e.cfg.group) r.st.entries ≡ some ent
      → (codec.decode ent.value).term < max_u64
      → let (e', r') = tick codec (calm now) e r in
        Claimed codec later e' (tick codec (calm later) e' r')
  unfolding stand
  tick_twice now later e r ent h small l bound = elim (tick_lem codec now e r h) [
    | inr (_, c) ↦ tick-Claimed now later e (tick codec (calm now) e r) c small
    | inl (_, (ent', l', t)) ↦
        let same_ent : ent ≡ ent' = ground (arith, l, l') in
        let e' = followed codec now e ent' in
        rw t (tick_above codec later e' r ent' h (rw (← same_ent) bound) l' (omega arith))
  ]

  -- On a store of one node that works, with terms that do not wrap, one node claims a group for which there is no record.
  -- Another node of the group ticks twice before the
  -- first one does again: then both hold themselves for the leader, at whatever times the ticks come,
  -- also long before the first one's lease runs out, and the record is the second one's.
  pub two_leaders :
      (now soon later : ℕ) (a b : Election) (r : Raft)
      → IsAlone r
      → a.cfg.group ≡ b.cfg.group
      → a.term + 1 < max_u64
      → b.term + 1 < max_u64
      → lookup (leader_key a.cfg.group) r.st.entries ≡ none
      → let (a', r₁) = tick codec (calm now) a r in
        let (b', r₂) = tick codec (calm soon) b r₁ in
        let (b'', r₃) = tick codec (calm later) b' r₂ in
        (is_leader a' ≡ true)
        × (is_leader b'' ≡ true)
        × (get_leader codec b'.cfg.group r₃ ≡ ok (claim later (stand b')))
  unfolding is_leader stand
  two_leaders now soon later a b r h g sa sb l =
      let first = tick_empty codec now a r h l in
      let at =
        entry_of_leader a.cfg.group (tick codec (calm now) a r).1 (claim now (stand a))
          first.recorded in
      let second =
        tick_twice soon later b (tick codec (calm now) a r).1 at.0 first.still_alone sb
          (rw (← g) at.1) (omega (arith, ap (λ (x : LeaderRecord). x.term) at.2)) in
      (ground (arith, first.leads), ground (arith, second.leads), second.recorded)
