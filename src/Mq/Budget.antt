-- ===== src/Mq/Budget.antt =====
-- How often the broker of internal/primitives/mq/mq.go can put messages back: each retry uses up one
-- of the retries that its message has left, so a group comes to the end of the queue.
use minicloud_platform.Prelude.{
  ℕ, zero, suc, ◌+◌, ◌-◌, ◌<◌, ◌≡◌, refl, subst, ◌≢◌, inl, inr, Bool, true, false, some, List, [],
  ◌∷◌, arith, leb, Bool-cases, Option-cases, length, get_elem?, set, length-append, All, Bytes,
  lookup, insert, lookup-insert_self,
}
use minicloud_platform.Prelude.Int64.{i64, le_i64}
use minicloud_platform.Mq.Number.{read_digits}
use minicloud_platform.Mq.RoundTrip.{itoa_total}
use minicloud_platform.Mq.Broker.{
  Message, Config, Topic, crashed, retries_key, retries_of, with_retries, requeue, on_error,
  hand_over, deliver_at, deliver,
}

-- A count that the header can hold without overflow.
abbrev pub IsPlain : Message → Type 0
IsPlain m = retries_of m < 9223372036854775808

abbrev pub left : ℕ → Message → ℕ
left max m = max - retries_of m

-- the retries that the messages have left together
abbrev pub spare : ℕ → List Message → ℕ
spare max [] = 0
spare max (m ∷ ms) = left max m + spare max ms

spare-set :
    (max : ℕ) (ms : List Message) (p : ℕ) (m m' : Message)
    → get_elem? ms p ≡ some m
    → spare max (set ms p m') + left max m ≡ spare max ms + left max m'
spare-set max [] p m m' h = ground arith
spare-set max (x ∷ ms) zero m m' h = ground arith
spare-set max (x ∷ ms) (suc p) m m' h = omega (arith, spare-set max ms p m m' h)

All-set :
    (ms : List Message) (p : ℕ) (m' : Message)
    → All IsPlain ms
    → IsPlain m'
    → All IsPlain (set ms p m')
All-set [] p m' h g = tt
All-set (x ∷ ms) zero m' h g = (g, h.1)
All-set (x ∷ ms) (suc p) m' h g = (h.0, All-set ms p m' h.1 g)

All-get_elem? :
    (ms : List Message) (p : ℕ) (m : Message) → All IsPlain ms → get_elem? ms p ≡ some m → IsPlain m
All-get_elem? [] p m h e = ground arith
All-get_elem? (x ∷ ms) zero m h e = subst IsPlain (ground (arith, e)) h.0
All-get_elem? (x ∷ ms) (suc p) m h e = All-get_elem? ms p m h.1 e

retries_of-with_retries :
    (count : Bytes) (m : Message) → retries_of (with_retries count m) ≡ read_digits 0 count
unfolding retries_of with_retries
retries_of-with_retries count m = ground (arith, lookup-insert_self retries_key count [])

-- The length that the queue can reach, if each message uses up its retries.
abbrev pub reach : ℕ → Topic → ℕ
reach max t = length t.queue + spare max t.heap

-- what one delivery keeps
pub record Kept (max : ℕ) (t t' : Topic) : Type 0 where
  pub reach_eq : reach max t' ≡ reach max t
  pub plain : All IsPlain t'.heap

le_i64_small : (a b : ℕ) → a < 9223372036854775808 → b < 9223372036854775808 → le_i64 a b ≡ leb a b
le_i64_small a b h g = ground arith

-- A retry on behalf of a message that has one left.
requeue-Kept :
    (max p : ℕ) (mv : Message) (count : Bytes) (t : Topic)
    → All IsPlain t.heap
    → get_elem? t.heap p ≡ some mv
    → retries_of mv < max
    → max < 1000000000000000
    → read_digits 0 count ≡ retries_of mv + 1
    → Kept max t (requeue p mv (some count) t).1
unfolding requeue
requeue-Kept max p mv count t h e lt small r =
    let mv' = with_retries count mv in
    let now = retries_of-with_retries count mv in
    record {
      reach_eq =
          omega (arith, spare-set max t.heap p mv mv' e, length-append t.queue (p ∷ []), now, r);
      plain = All-set t.heap p mv' h (omega (arith, now, r));
    }

module _ (cfg : Config) (small : cfg.max_retries < 1000000000000000) where
  on_error-Kept :
      (p : ℕ) (mv : Message) (t : Topic)
      → All IsPlain t.heap
      → get_elem? t.heap p ≡ some mv
      → Kept cfg.max_retries t (on_error cfg p mv t).1 × ((on_error cfg p mv t).0 ≢ crashed)
  unfolding on_error
  on_error-Kept p mv t h e =
      let plain = All-get_elem? t.heap p mv h e in
      let test = le_i64_small cfg.max_retries (retries_of mv) (omega arith) plain in
      elim (Bool-cases (leb cfg.max_retries (retries_of mv))) [
        | inl q ↦ rw (test, q) (record { reach_eq = refl; plain = h }, λ c. cc)
        | inr q ↦
            let lt : retries_of mv < cfg.max_retries = ground (arith, q) in
            let out = itoa_total (i64 (retries_of mv + 1)) (omega arith) in
            let back : read_digits 0 out.0 ≡ retries_of mv + 1 = omega (arith, out.2) in
            rw (test, q, out.1)
              (requeue-Kept cfg.max_retries p mv out.0 t h e lt small back, λ c. cc)
      ]

  hand_over-Kept :
      (ok : Bool) (p : ℕ) (t : Topic)
      → All IsPlain t.heap
      → Kept cfg.max_retries t (hand_over cfg ok p (get_elem? t.heap p) t).1
        × ((hand_over cfg ok p (get_elem? t.heap p) t).0 ≢ crashed)
  unfolding hand_over
  hand_over-Kept ok p t h = elim (Option-cases (get_elem? t.heap p)) [
    | inl e ↦ rw e (record { reach_eq = refl; plain = h }, λ c. cc)
    | inr (mv, e) ↦ rw e (answered ok mv e)
  ]
    where
      answered :
          (ok : Bool) (mv : Message)
          → get_elem? t.heap p ≡ some mv
          → Kept cfg.max_retries t (hand_over cfg ok p (some mv) t).1
            × ((hand_over cfg ok p (some mv) t).0 ≢ crashed)
      answered true mv e = (record { reach_eq = refl; plain = h }, λ c. cc)
      answered false mv e = on_error-Kept p mv t h e

  deliver_at-Kept :
      (ok : Bool) (group : Bytes) (cursor : ℕ) (t : Topic)
      → All IsPlain t.heap
      → Kept cfg.max_retries t (deliver_at cfg ok group cursor t).1
        × ((deliver_at cfg ok group cursor t).0 ≢ crashed)
  unfolding deliver_at
  deliver_at-Kept ok group cursor t h = elim (Option-cases (get_elem? t.queue cursor)) [
    | inl e ↦ rw (e, deliver_at) (record { reach_eq = refl; plain = h }, λ c. cc)
    | inr (p, e) ↦
        let t' = record t { groups = insert group (cursor + 1) t.groups } in
        let kept = hand_over-Kept ok p t' h in
        rw (e, deliver_at) (record { reach_eq = kept.0.reach_eq; plain = kept.0.plain }, kept.1)
  ]

  -- A delivery never panics, and the length of the queue and the retries that the messages have
  -- left add up to what they were: a retry takes one from the second and adds one to the first.
  pub deliver-Kept :
      (ok : Bool) (group : Bytes) (t : Topic)
      → All IsPlain t.heap
      → Kept cfg.max_retries t (deliver cfg ok group t).1 × ((deliver cfg ok group t).0 ≢ crashed)
  unfolding deliver
  deliver-Kept ok group t h = elim (Option-cases (lookup group t.groups)) [
    | inl e ↦ rw (e, deliver) (record { reach_eq = refl; plain = h }, λ c. cc)
    | inr (cursor, e) ↦ rw (e, deliver) (deliver_at-Kept ok group cursor t h)
  ]
