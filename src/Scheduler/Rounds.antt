-- ===== src/Scheduler/Rounds.antt =====
-- The placement loop of internal/scheduler/scheduler.go, round by round.
use minicloud_platform.Prelude.{
  ℕ, zero, suc, ◌+◌, ◌≤◌, ◌<◌, ◌≡◌, refl, sym, ap, subst, ◌∙◌, inl, inr, true, false, none, some,
  List, [], ◌∷◌, map, arith, Bool-cases, Option-cases, length, All, All-imp, Bytes, same, same_iff,
  Dict,
}
use minicloud_platform.Scheduler.Types.{Node, Workload, Placement}
use minicloud_platform.Scheduler.Place.{max_per_node, count_of, choose, placed, place}
use minicloud_platform.Scheduler.Bounds.{
  choose-All, choose-none, after, after_placed, bump, count_of-bump_self, count_of-bump_ne, on_node,
}

place-some :
    (w : Workload) (scored : List Node) (r i : ℕ) (d : Dict ℕ) (n : Node)
    → choose w d scored ≡ some n
    → place w scored (suc r) i d ≡ (
      placed n i ∷ (place w scored r (i + 1) (bump n d)).0,
      (place w scored r (i + 1) (bump n d)).1,
    )
unfolding place bump
place-some w scored r i d n h = rw (h, place)

place-none :
    (w : Workload) (scored : List Node) (r i : ℕ) (d : Dict ℕ)
    → choose w d scored ≡ none
    → place w scored (suc r) i d ≡ ([], false)
unfolding place
place-none w scored r i d h = rw (h, place)

-- Each placement is on one of the nodes.
abbrev pub IsOn : (Node → Type 0) → Placement → Type 0
IsOn P p = (n : Node) × (p.node_id ≡ n.id) × P n

pub place-IsOn :
    (P : Node → Type 0) (w : Workload) (scored : List Node) (r i : ℕ) (d : Dict ℕ)
    → All P scored
    → All (IsOn P) (place w scored r i d).0
unfolding place
place-IsOn P w scored zero i d hs = tt
place-IsOn P w scored (suc r) i d hs = elim (Option-cases (choose w d scored)) [
  | inl e ↦ subst (λ x. All (IsOn P) x.0) (sym (place-none w scored r i d e)) tt
  | inr (n, e) ↦
      subst (λ x. All (IsOn P) x.0) (sym (place-some w scored r i d n e))
        (
          (n, refl, (choose-All w d P scored n hs e).0),
          place-IsOn P w scored r (i + 1) (bump n d) hs,
        )
]

-- The replica indices follow each other.
abbrev pub count_up : ℕ → ℕ → List ℕ
count_up i zero = []
count_up i (suc n) = i ∷ count_up (i + 1) n

pub place-count_up :
    (w : Workload) (scored : List Node) (r i : ℕ) (d : Dict ℕ)
    → let ps = (place w scored r i d).0 in map (λ p. p.replica_idx) ps ≡ count_up i (length ps)
unfolding place
place-count_up w scored zero i d = refl
place-count_up w scored (suc r) i d = elim (Option-cases (choose w d scored)) [
  | inl e ↦ rw (place-none w scored r i d e) refl
  | inr (n, e) ↦
      rw (place-some w scored r i d n e)
        (ap (λ l. i ∷ l) (place-count_up w scored r (i + 1) (bump n d)))
]

-- The loop makes all its rounds or reports that it stopped early.
pub place-length :
    (w : Workload) (scored : List Node) (r i : ℕ) (d : Dict ℕ)
    → (place w scored r i d).1 ≡ true
    → length (place w scored r i d).0 ≡ r
unfolding place
place-length w scored zero i d h = refl
place-length w scored (suc r) i d h = elim (Option-cases (choose w d scored)) [
  | inl e ↦ ground (arith, h, place-none w scored r i d e)
  | inr (n, e) ↦
      let s = place-some w scored r i d n e in
      let ih = place-length w scored r (i + 1) (bump n d) (sym (ap (λ x. x.1) s) ∙ h) in
      ap (λ x. length x.0) s ∙ ap suc ih
]

pub place-length_le :
    (w : Workload) (scored : List Node) (r i : ℕ) (d : Dict ℕ) → length (place w scored r i d).0 ≤ r
unfolding place
place-length_le w scored zero i d = omega arith
place-length_le w scored (suc r) i d = elim (Option-cases (choose w d scored)) [
  | inl e ↦ rw (place-none w scored r i d e) (omega arith)
  | inr (n, e) ↦
      let ih = place-length_le w scored r (i + 1) (bump n d) in
      rw (place-some w scored r i d n e) (omega (arith, ih))
]

-- Where ids tell nodes apart.
module _ (node_of : Bytes → Node) where
  abbrev pub IsNamed : Node → Type 0
  IsNamed n = node_of n.id ≡ n

  bump_le :
      (w : Workload) (id : Bytes) (d : Dict ℕ) (n : Node)
      → IsNamed n
      → count_of n.id d < max_per_node w n
      → count_of id d ≤ max_per_node w (node_of id)
      → count_of id (bump n d) ≤ max_per_node w (node_of id)
  bump_le w id d n e lt h = elim (Bool-cases (same n.id id)) [
    | inl q ↦
        let k = (same_iff n.id id).0 q in
        subst (λ k. count_of k (bump n d) ≤ max_per_node w (node_of k)) k
          (rw (count_of-bump_self n d, e) (omega (arith, lt)))
    | inr q ↦ rw (count_of-bump_ne id d n q) h
  ]

  -- No node gets more replicas than its limit.
  pub place-bound :
      (w : Workload) (scored : List Node) (r i : ℕ) (d : Dict ℕ) (id : Bytes)
      → All IsNamed scored
      → count_of id d ≤ max_per_node w (node_of id)
      → after id d (place w scored r i d).0 ≤ max_per_node w (node_of id)
  unfolding place on_node
  place-bound w scored zero i d id hs h = omega (arith, h)
  place-bound w scored (suc r) i d id hs h = elim (Option-cases (choose w d scored)) [
    | inl e ↦ rw (place-none w scored r i d e) (omega (arith, h))
    | inr (n, e) ↦
        let c = choose-All w d IsNamed scored n hs e in
        let ih = place-bound w scored r (i + 1) (bump n d) id hs (bump_le w id d n c.0 c.1 h) in
        rw
          (
            place-some w scored r i d n e,
            after_placed id d n i (place w scored r (i + 1) (bump n d)).0,
          )
          ih
  ]

-- Where the loop stops early, every node has reached its limit.
pub place_full :
    (w : Workload) (scored : List Node) (r i : ℕ) (d : Dict ℕ)
    → (place w scored r i d).1 ≡ false
    → All (λ n. max_per_node w n ≤ after n.id d (place w scored r i d).0) scored
unfolding place on_node
place_full w scored zero i d h = let f : ⊥ = ground (arith, h) in absurd f
place_full w scored (suc r) i d h = elim (Option-cases (choose w d scored)) [
  | inl e ↦
      rw (place-none w scored r i d e)
        (All-imp (λ m k. omega (arith, k)) scored (choose-none w d scored e))
  | inr (n, e) ↦
      let s = place-some w scored r i d n e in
      let ih = place_full w scored r (i + 1) (bump n d) (sym (ap (λ x. x.1) s) ∙ h) in
      rw (s) (
        All-imp
          (λ m.
            subst (λ c. max_per_node w m ≤ c)
              (sym (after_placed m.id d n i (place w scored r (i + 1) (bump n d)).0)))
          scored ih)
]
