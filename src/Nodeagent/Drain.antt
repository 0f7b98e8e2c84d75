-- ===== src/Nodeagent/Drain.antt =====
-- A node whose agent of internal/nodeagent/agent.go drains is never planned for, and stays so.
use minicloud_platform.Prelude.{
  ◌≡◌, refl, sym, ap, subst, ◌∙◌, ◌≢◌, ◌⊎◌, inl, inr, Bool, true, false, Option, none, some, List,
  [], ◌∷◌, arith, Bool-cases, All, All-imp, Bytes,
}
use minicloud_platform.Prelude.Fallible.{Fallible, value, failed}
use minicloud_platform.Scheduler.Types.{Node, Workload, Placement, Float64}
use minicloud_platform.Scheduler.Match.{admits}
use minicloud_platform.Scheduler.Place.{plan, placements_of}
use minicloud_platform.Scheduler.Rounds.{IsOn}
use minicloud_platform.Scheduler.Plans.{plan-IsOn}
use minicloud_platform.Nodeagent.Agent.{
  HostNode, Heartbeat, Agent, Nodes, known, reported, drained, heartbeat_once, set_drain,
}

-- What the store is relied on for: a node is kept under its id, and is changed by a write that succeeds
-- and no other.
pub record KeepsNodes {S : Type 0} (st : Nodes S) : Type 0 where
  pub get_named : (s : S) (id : Bytes) (n : HostNode) → st.get_node s id ≡ value n → n.node.id ≡ id
  pub get_upserted :
      (s s' : S) (n : HostNode)
      → st.upsert_node s n ≡ (s', none)
      → st.get_node s' n.node.id ≡ value n
  pub get_kept :
      (s s' : S) (n : HostNode) (e id : Bytes)
      → st.upsert_node s n ≡ (s', some e)
      → st.get_node s' id ≡ st.get_node s id

-- What happens to an agent: SetDrain, or a heartbeat with what the collector answers.
pub data Event : Type 0 where
  toggled : Bool → Event
  beat : Fallible Heartbeat → Event

module _ {S : Type 0} (st : Nodes S) where
  -- the stored node takes no placements
  abbrev pub IsClosed : S → Bytes → Type 0
  IsClosed s id = (n : HostNode) × (st.get_node s id ≡ value n) × (n.node.unschedulable ≡ true)

  abbrev pub after_event : Event → Agent × S → Agent × S
  after_event (toggled drain) (a, s) = (set_drain drain a, s)
  after_event (beat hb) (a, s) = (a, heartbeat_once st hb a s)

  unfoldable pub after_events : List Event → Agent × S → Agent × S
  unfolding heartbeat_once set_drain
  after_events [] x = x
  after_events (e ∷ es) x = after_events es (after_event e x)

  drained_id : (a : Agent) (n : HostNode) → (drained a n).node.id ≡ n.node.id
  drained_id a n = elim (Bool-cases a.draining) [
    | inl q ↦ rw (drained, q) refl
    | inr q ↦ rw (drained, q) refl
  ]

  drained_closed :
      (a : Agent) (n : HostNode)
      → n.node.unschedulable ≡ true
      → (drained a n).node.unschedulable ≡ true
  drained_closed a n h = elim (Bool-cases a.draining) [
    | inl q ↦ rw (drained, q) refl
    | inr q ↦ rw (drained, q) h
  ]

  draining_closed :
      (a : Agent) (n : HostNode) → a.draining ≡ true → (drained a n).node.unschedulable ≡ true
  draining_closed a n q = rw (drained, q) refl

  known_id :
      (s : S) (a : Agent) (r : Fallible HostNode)
      → KeepsNodes st
      → st.get_node s a.node_id ≡ r
      → (known a r).node.id ≡ a.node_id
  known_id s a (failed e) laws h = refl
  known_id s a (value n) laws h = laws.get_named s a.node_id n h

  -- The store takes what a heartbeat writes.
  abbrev pub Took : Heartbeat → Agent → S → Type 0
  Took hb a s =
      (st.upsert_node s (drained a (reported hb (known a (st.get_node s a.node_id))))).1 ≡ none

  -- A write of a closed node leaves the node closed, whether it succeeds or, closed before, fails.
  upsert-IsClosed :
      (s s' : S) (n : HostNode) (id : Bytes) (o : Option Bytes)
      → KeepsNodes st
      → n.node.id ≡ id
      → n.node.unschedulable ≡ true
      → (o ≡ none) ⊎ IsClosed s id
      → st.upsert_node s n ≡ (s', o)
      → IsClosed s' id
  upsert-IsClosed s s' n id none laws i h c u =
      (n, ap (st.get_node s') (sym i) ∙ laws.get_upserted s s' n u, h)
  upsert-IsClosed s s' n id (some e) laws i h (inl x) u = ground (arith, x)
  upsert-IsClosed s s' n id (some e) laws i h (inr (m, g, k)) u =
      (m, laws.get_kept s s' n e id u ∙ g, k)

  heartbeat-IsClosed :
      (hb : Fallible Heartbeat) (a : Agent) (s : S)
      → KeepsNodes st
      → IsClosed s a.node_id
      → IsClosed (heartbeat_once st hb a s) a.node_id
  unfolding heartbeat_once
  heartbeat-IsClosed (failed e) a s laws c = c
  heartbeat-IsClosed (value hb) a s laws (m, g, k) =
      let n = drained a (reported hb (known a (st.get_node s a.node_id))) in
      let p = st.upsert_node s n in
      let i : n.node.id ≡ a.node_id =
        drained_id a (reported hb (known a (st.get_node s a.node_id)))
        ∙ known_id s a (st.get_node s a.node_id) laws refl in
      let closed : n.node.unschedulable ≡ true =
        drained_closed a (reported hb (known a (st.get_node s a.node_id)))
          (subst (λ r. (known a r).node.unschedulable ≡ true) (sym g) k) in
      upsert-IsClosed s p.0 n a.node_id p.1 laws i closed (inr (m, g, k)) refl

  after_events-IsClosed :
      (es : List Event) (a : Agent) (s : S) (id : Bytes)
      → KeepsNodes st
      → a.node_id ≡ id
      → IsClosed s id
      → IsClosed (after_events es (a, s)).1 id
  unfolding after_events
  after_events-IsClosed [] a s id laws i c = c
  after_events-IsClosed (toggled drain ∷ es) a s id laws i c =
      after_events-IsClosed es (set_drain drain a) s id laws (unfold set_drain in i) c
  after_events-IsClosed (beat hb ∷ es) a s id laws i c =
      after_events-IsClosed es a (heartbeat_once st hb a s) id laws i (
        subst (IsClosed (heartbeat_once st hb a s)) i
          (heartbeat-IsClosed hb a s laws (subst (IsClosed s) (sym i) c)))

  beat_closes :
      (hb : Heartbeat) (a : Agent) (s : S)
      → KeepsNodes st
      → a.draining ≡ true
      → Took hb a s
      → IsClosed (heartbeat_once st (value hb) a s) a.node_id
  unfolding heartbeat_once
  beat_closes hb a s laws q took =
      let base = reported hb (known a (st.get_node s a.node_id)) in
      let p = st.upsert_node s (drained a base) in
      upsert-IsClosed s p.0 (drained a base) a.node_id p.1 laws
        (drained_id a base ∙ known_id s a (st.get_node s a.node_id) laws refl)
        (draining_closed a base q) (inl took) refl

  -- a listed node is as the store has it
  abbrev pub IsStored : S → Node → Type 0
  IsStored s n = (m : HostNode) × (st.get_node s n.id ≡ value m) × (m.node ≡ n)

  closed_not_admitted : (w : Workload) (n : Node) → n.unschedulable ≡ true → admits w n ≡ false
  unfolding admits
  closed_not_admitted w n h = ground (arith, h)

  not_on :
      (s : S) (id : Bytes) (w : Workload) (p : Placement)
      → IsClosed s id
      → IsOn (λ n. IsStored s n × (admits w n ≡ true)) p
      → p.node_id ≢ id
  not_on s id w p (m, g, k) (n, e, ((m', g', i'), adm)) h =
      let same_id = sym e ∙ h in
      let both : value m ≡ value m' = sym g ∙ ap (st.get_node s) (sym same_id) ∙ g' in
      let closed : n.unschedulable ≡ true = ground (arith, both, i', k) in
      ground (arith, adm, closed_not_admitted w n closed)

  -- Once a draining agent has sent a heartbeat that the store took, no plan over the stored nodes places a replica on
  -- its node, whatever heartbeats and calls of SetDrain follow, SetDrain(false) included, and whether or not the
  -- store takes the later heartbeats.
  pub after_events-Avoided :
      (f : Float64) (w : Workload) (nodes : List Node) (hb : Heartbeat) (a : Agent) (s : S)
      (es : List Event)
      → KeepsNodes st
      → Took hb a s
      → a.draining ≡ true
      → All (IsStored (after_events es (a, heartbeat_once st (value hb) a s)).1) nodes
      → All (λ p. p.node_id ≢ a.node_id) (placements_of (plan f nodes w))
  after_events-Avoided f w nodes hb a s es laws took q stored =
      let s' = (after_events es (a, heartbeat_once st (value hb) a s)).1 in
      let c =
        after_events-IsClosed es a (heartbeat_once st (value hb) a s) a.node_id laws refl
          (beat_closes hb a s laws q took) in
      All-imp (λ p on. not_on s' a.node_id w p c on) (placements_of (plan f nodes w))
        (plan-IsOn (IsStored s') f nodes w stored)
