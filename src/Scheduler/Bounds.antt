-- ===== src/Scheduler/Bounds.antt =====
-- What the placement loop of internal/scheduler/scheduler.go does to the nodes it is given: the
-- ranking keeps them, and no node gets more replicas than its limit.
use minicloud_platform.Prelude.{
  ℕ, ◌+◌, ◌≤◌, ◌<◌, ◌≡◌, ap, subst, ◌⊎◌, inl, inr, Bool, true, false, none, some, List, [], ◌∷◌,
  arith, leb, if◌then◌else◌, Bool-cases, either, All, Bytes, same, same_iff, Dict, insert,
  lookup-insert_self, lookup-insert_ne,
}
use minicloud_platform.Scheduler.Types.{Node, Workload, Placement, Float64}
use minicloud_platform.Scheduler.Place.{
  score_of, rank, score, or_zero, max_per_node, count_of, choose, placed,
}

-- the placements on a node
unfoldable pub on_node : Bytes → List Placement → ℕ
on_node id [] = 0
on_node id (p ∷ ps) = (if same p.node_id id then 1 else 0) + on_node id ps

one_of {ℓ κ} :
    {A : Type ℓ} (P : A → Type κ) (b : Bool) {x y : A} → P (if b then x else y) → P x ⊎ P y
one_of P true h = inl h
one_of P false h = inr h

-- The ranking keeps what holds of each node.
rank-All :
    (f : Float64) (P : Node → Type 0) (n : Node) (ns : List Node)
    → P n
    → All P ns
    → All P (rank f n ns)
unfolding rank
rank-All f P n [] h hs = (h, tt)
rank-All f P n (x ∷ xs) h hs =
    either (All P) (f.above (score_of f x) (score_of f n)) (hs.0, rank-All f P n xs h hs.1) (h, hs)

pub score-All : (f : Float64) (P : Node → Type 0) (ns : List Node) → All P ns → All P (score f ns)
unfolding score
score-All f P [] hs = tt
score-All f P (n ∷ ns) hs = rank-All f P n (score f ns) hs.0 (score-All f P ns hs.1)

un_rank :
    (f : Float64) (P : Node → Type 0) (n : Node) (ns : List Node)
    → All P (rank f n ns)
    → P n × All P ns
unfolding rank
un_rank f P n [] hs = hs
un_rank f P n (x ∷ xs) hs =
    elim (one_of (All P) (f.above (score_of f x) (score_of f n)) {x = x ∷ rank f n xs}
      {y = n ∷ x ∷ xs} hs) [ inl h ↦ let r = un_rank f P n xs h.1 in (r.0, (h.0, r.1)) | inr h ↦ h ]

pub un_score : (f : Float64) (P : Node → Type 0) (ns : List Node) → All P (score f ns) → All P ns
unfolding score
un_score f P [] hs = tt
un_score f P (n ∷ ns) hs = let h = un_rank f P n (score f ns) hs in (h.0, un_score f P ns h.1)

-- What holds of each node holds of the chosen one, which has room.
pub choose-All :
    (w : Workload) (d : Dict ℕ) (P : Node → Type 0) (ns : List Node) (n : Node)
    → All P ns
    → choose w d ns ≡ some n
    → P n × (count_of n.id d < max_per_node w n)
unfolding choose
choose-All w d P [] n hs h = ground arith
choose-All w d P (x ∷ xs) n hs h = elim (Bool-cases (leb (max_per_node w x) (count_of x.id d))) [
  | inl q ↦ choose-All w d P xs n hs.1 (ground (arith, h, q))
  | inr q ↦
      let e : x ≡ n = ground (arith, h, q) in
      subst (λ n. P n × (count_of n.id d < max_per_node w n)) e (hs.0, ground (arith, q))
]

-- Where no node is chosen, none has room.
pub choose-none :
    (w : Workload) (d : Dict ℕ) (ns : List Node)
    → choose w d ns ≡ none
    → All (λ n. max_per_node w n ≤ count_of n.id d) ns
unfolding choose
choose-none w d [] h = tt
choose-none w d (x ∷ xs) h = elim (Bool-cases (leb (max_per_node w x) (count_of x.id d))) [
  | inl q ↦ (ground (arith, q), choose-none w d xs (ground (arith, h, q)))
  | inr q ↦ let e : ⊥ = ground (arith, h, q) in absurd e
]

-- how many placements on a node are counted
abbrev pub after : Bytes → Dict ℕ → List Placement → ℕ
after id d ps = on_node id ps + count_of id d

unfoldable pub bump : Node → Dict ℕ → Dict ℕ
bump n d = insert n.id (count_of n.id d + 1) d

pub count_of-bump_self : (n : Node) (d : Dict ℕ) → count_of n.id (bump n d) ≡ count_of n.id d + 1
unfolding bump
count_of-bump_self n d = ap or_zero (lookup-insert_self n.id (count_of n.id d + 1) d)

pub count_of-bump_ne :
    (id : Bytes) (d : Dict ℕ) (n : Node)
    → same n.id id ≡ false
    → count_of id (bump n d) ≡ count_of id d
unfolding bump
count_of-bump_ne id d n q =
    ap or_zero (
      lookup-insert_ne n.id id (count_of n.id d + 1) d
        (λ e. ground (arith, e, q, same_iff n.id id)))

-- One more placement is counted for the chosen node, and for no other.
pub after_placed :
    (id : Bytes) (d : Dict ℕ) (n : Node) (i : ℕ) (ps : List Placement)
    → after id d (placed n i ∷ ps) ≡ after id (bump n d) ps
unfolding on_node
after_placed id d n i ps = elim (Bool-cases (same n.id id)) [
  | inl q ↦
      let k = (same_iff n.id id).0 q in
      let l = count_of-bump_self n d in
      let l2 = subst (λ k. count_of k (bump n d) ≡ count_of k d + 1) k l in ground (arith, q, l2)
  | inr q ↦ ground (arith, q, count_of-bump_ne id d n q)
]
