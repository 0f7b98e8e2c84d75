-- ===== src/Mq/Retries.antt =====
-- What a retry of internal/primitives/mq/mq.go does to the message, and where dead letters go.
use minicloud_platform.Prelude.{
  ℕ, zero, suc, ◌+◌, ◌≡◌, refl, sym, ◌∙◌, ◌≢◌, inl, inr, false, Option, none, some, List, [], ◌∷◌,
  arith, Bool-cases, length, get_elem?, set, length-append, Bytes, Dict, lookup, insert,
  lookup-insert_self, lookup-insert_ne,
}
use minicloud_platform.Prelude.Int64.{le_i64, i64}
use minicloud_platform.Mq.Number.{itoa}
use minicloud_platform.Mq.Broker.{
  Message, Config, Topic, Mem, retried, dead, retries_key, retries_of, with_retries, requeue,
  on_error, hand_over, deliver_at, deliver, publish, dead_letters,
}

get_elem?-set {ℓ} :
    {A : Type ℓ} (xs : List A) (i : ℕ) (x y : A)
    → get_elem? xs i ≡ some x
    → get_elem? (set xs i y) i ≡ some y
get_elem?-set [] i x y h = ground arith
get_elem?-set (z ∷ xs) zero x y h = refl
get_elem?-set (z ∷ xs) (suc i) x y h = get_elem?-set xs i x y h

-- The message as a retry leaves it: its headers are gone, but for the counter.
pub record Stripped (k : Bytes) (mv mv' : Message) : Type 0 where
  pub key_eq : mv'.key ≡ mv.key
  pub value_eq : mv'.value ≡ mv.value
  pub offset_eq : mv'.offset ≡ mv.offset
  pub header_gone : lookup k mv'.headers ≡ none

Stripped-with_retries :
    (k count : Bytes) (mv : Message) → k ≢ retries_key → Stripped k mv (with_retries count mv)
unfolding with_retries
Stripped-with_retries k count mv h = record {
  key_eq = refl;
  value_eq = refl;
  offset_eq = refl;
  header_gone = lookup-insert_ne retries_key k count [] (λ e. h (sym e)) ∙ unfold lookup in refl;
}

requeue-Stripped :
    (k : Bytes) (p : ℕ) (mv : Message) (o : Option Bytes) (t : Topic)
    → k ≢ retries_key
    → get_elem? t.heap p ≡ some mv
    → (requeue p mv o t).0 ≡ retried
    → (mv' : Message) × (get_elem? (requeue p mv o t).1.heap p ≡ some mv') × Stripped k mv mv'
unfolding requeue
requeue-Stripped k p mv none t ne e f = cc
requeue-Stripped k p mv (some count) t ne e f = (
  with_retries count mv,
  get_elem?-set t.heap p mv (with_retries count mv) e,
  Stripped-with_retries k count mv ne,
)

on_error-Stripped :
    (cfg : Config) (k : Bytes) (p : ℕ) (mv : Message) (t : Topic)
    → k ≢ retries_key
    → get_elem? t.heap p ≡ some mv
    → (on_error cfg p mv t).0 ≡ retried
    → (mv' : Message) × (get_elem? (on_error cfg p mv t).1.heap p ≡ some mv') × Stripped k mv mv'
unfolding on_error
on_error-Stripped cfg k p mv t ne e f = elim (Bool-cases (le_i64 cfg.max_retries (retries_of mv))) [
  | inl q ↦ let f' : dead p ≡ retried = rw (q, on_error) at f in cc
  | inr q ↦
      rw (q, on_error)
        (requeue-Stripped k p mv (itoa (i64 (retries_of mv + 1))) t ne e (rw (q, on_error) at f))
]

-- A message whose handler failed and that is put back has lost every header but the retry counter,
-- in the one object that all groups and the publisher's queue share; its key, its value and its
-- offset are as before.
pub deliver-Stripped :
    (cfg : Config) (group k : Bytes) (c p : ℕ) (mv : Message) (t : Topic)
    → lookup group t.groups ≡ some c
    → get_elem? t.queue c ≡ some p
    → get_elem? t.heap p ≡ some mv
    → (deliver cfg false group t).0 ≡ retried
    → k ≢ retries_key
    → (mv' : Message) × (get_elem? (deliver cfg false group t).1.heap p ≡ some mv')
      × Stripped k mv mv'
unfolding deliver deliver_at hand_over
deliver-Stripped cfg group k c p mv t e q m f ne =
    let t' = record t { groups = insert group (c + 1) t.groups } in
    rw (e, deliver, q, deliver_at, m, hand_over)
      (on_error-Stripped cfg k p mv t' ne m (rw (e, deliver, q, deliver_at, m, hand_over) at f))

-- A channel that `DLQ` makes before the topic exists is not the one that dead letters are sent to:
-- the first publication registers another.
pub publish-dead_letters :
    (name key value : Bytes) (headers : Dict Bytes) (now : ℕ) (m : Mem)
    → lookup name m.topics ≡ none
    → lookup name m.dlq ≡ none
    → let (c, m') = dead_letters name m in
      lookup name (publish name key value headers now m').dlq ≡ some (c + 1)
unfolding publish dead_letters
publish-dead_letters name key value headers now m e q = ground (
  arith,
  e,
  q,
  length-append m.chans ([] ∷ []),
  lookup-insert_self name (length m.chans + 1) (insert name (length m.chans) m.dlq),
)
