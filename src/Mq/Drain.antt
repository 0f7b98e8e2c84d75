-- ===== src/Mq/Drain.antt =====
-- A consumer group of internal/primitives/mq/mq.go comes to the end of its queue, whatever its
-- handler answers.
use minicloud_platform.Prelude.{
  ℕ, zero, suc, ◌+◌, ◌-◌, ◌≤◌, ◌<◌, ◌≡◌, refl, ap, ◌⊎◌, inl, inr, Bool, none, some, List, [], ◌∷◌,
  arith, length, get_elem?, All, Bytes, lookup, lookup-insert_self,
}
use minicloud_platform.Mq.Broker.{Config, Topic, idle, deliver}
use minicloud_platform.Mq.Budget.{IsPlain, reach, deliver-Kept}

get_elem?_past {ℓ} : {A : Type ℓ} (xs : List A) (i : ℕ) → length xs ≤ i → get_elem? xs i ≡ none
get_elem?_past [] i h = refl
get_elem?_past (x ∷ xs) zero h = absurd (omega arith)
get_elem?_past (x ∷ xs) (suc i) h = get_elem?_past xs i (omega arith)

-- the rounds of the loop of `Subscribe`, with what the handler answers in each
unfoldable pub deliver_all : Config → List Bool → Bytes → Topic → Topic
deliver_all cfg [] group t = t
deliver_all cfg (ok ∷ oks) group t = deliver_all cfg oks group (deliver cfg ok group t).1

-- Either no message is left for the group, or a delivery moves the cursor by one.
deliver_cursor :
    (cfg : Config) (ok : Bool) (group : Bytes) (c : ℕ) (t : Topic)
    → lookup group t.groups ≡ some c
    → (get_elem? t.queue c ≡ none) ⊎ (lookup group (deliver cfg ok group t).1.groups ≡ some (c + 1))
unfolding deliver
deliver_cursor cfg ok group c t e = ground (arith, e, lookup-insert_self group (c + 1) t.groups)

idle_at_end :
    (cfg : Config) (ok : Bool) (group : Bytes) (c : ℕ) (t : Topic)
    → lookup group t.groups ≡ some c
    → get_elem? t.queue c ≡ none
    → deliver cfg ok group t ≡ (idle, t)
unfolding deliver
idle_at_end cfg ok group c t e h = ground (arith, e, h)

-- what a group has still before it at most
abbrev pub ahead : Config → ℕ → Topic → ℕ
ahead cfg c t = reach cfg.max_retries t - c

module _ (cfg : Config) (small : cfg.max_retries < 1000000000000000) where
  idle_all :
      (oks : List Bool) (ok : Bool) (group : Bytes) (t : Topic)
      → ((b : Bool) → deliver cfg b group t ≡ (idle, t))
      → deliver cfg ok group (deliver_all cfg oks group t) ≡ (idle, deliver_all cfg oks group t)
  unfolding deliver_all
  idle_all [] ok group t h = h ok
  idle_all (b ∷ oks) ok group t h =
      let e : (deliver cfg b group t).1 ≡ t = ap (λ x. x.1) (h b) in
      rw e (idle_all oks ok group t h)

  -- After as many rounds as the queue can still grow and hold, the group finds no message: the
  -- handler's errors cannot keep it busy for ever.
  pub deliver_all_ends :
      (oks : List Bool) (ok : Bool) (group : Bytes) (c : ℕ) (t : Topic)
      → All IsPlain t.heap
      → lookup group t.groups ≡ some c
      → ahead cfg c t ≤ length oks
      → deliver cfg ok group (deliver_all cfg oks group t) ≡ (idle, deliver_all cfg oks group t)
  unfolding deliver_all
  deliver_all_ends [] ok group c t h e le =
      idle_at_end cfg ok group c t e (get_elem?_past t.queue c (omega arith))
  deliver_all_ends (b ∷ oks) ok group c t h e le = elim (deliver_cursor cfg b group c t e) [
    | inl empty ↦ idle_all (b ∷ oks) ok group t (λ x. idle_at_end cfg x group c t e empty)
    | inr moved ↦
        let kept = (deliver-Kept cfg small b group t h).0 in
        deliver_all_ends oks ok group (c + 1) (deliver cfg b group t).1 kept.plain moved
          (omega (arith, kept.reach_eq))
  ]
