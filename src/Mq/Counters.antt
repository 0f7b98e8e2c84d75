-- ===== src/Mq/Counters.antt =====
-- The counters and the offsets of the broker of internal/primitives/mq/mq.go.
use minicloud_platform.Prelude.{
  ℕ, zero, suc, ◌+◌, ◌≤◌, ◌<◌, ◌≡◌, refl, ◌≢◌, inl, inr, Bool, some, List, [], ◌∷◌, ◌++◌, arith,
  u64, max_u64, Option-cases, length, get_elem?, set, length-append, All, All-append, Bytes, Dict,
  lookup,
}
use minicloud_platform.Mq.Broker.{
  Message, Topic, Mem, Stats, Fate, idle, acked, retried, crashed, dead, enqueue, deliver, tally,
  notify, deliver_once,
}

-- Every delivery is acknowledged, put back, or dead: the counters agree, as uint64 numbers.
abbrev pub IsBalanced : Mem → Type 0
IsBalanced m = m.st.delivered ≡ u64 (m.st.acked + m.st.retried + m.st.dead)

st-notify : (f : Fate) (name : Bytes) (m : Mem) → (notify f name m).st ≡ m.st
unfolding notify
st-notify (dead p) name m = ground arith
st-notify idle name m = refl
st-notify acked name m = refl
st-notify retried name m = refl
st-notify crashed name m = refl

tally-IsBalanced :
    (f : Fate) (s : Stats)
    → s.delivered ≡ u64 (s.acked + s.retried + s.dead)
    → f ≢ crashed
    → (tally f s).delivered ≡ u64 ((tally f s).acked + (tally f s).retried + (tally f s).dead)
unfolding tally
tally-IsBalanced idle s h n = h
tally-IsBalanced acked s h n = omega arith
tally-IsBalanced retried s h n = omega arith
tally-IsBalanced crashed s h n = absurd (n refl)
tally-IsBalanced (dead p) s h n = omega arith

-- A delivery that does not panic keeps the counters in agreement, whether the message is
-- acknowledged, put back or given up, or none is there.
pub deliver_once-IsBalanced :
    (ok : Bool) (name group : Bytes) (m : Mem)
    → IsBalanced m
    → (deliver_once ok name group m).0 ≢ crashed
    → IsBalanced (deliver_once ok name group m).1
unfolding deliver_once
deliver_once-IsBalanced ok name group m h n = elim (Option-cases (lookup name m.topics)) [
  | inl e ↦ rw (e, deliver_once) h
  | inr (t, e) ↦
      let fate = (deliver m.cfg ok group t).0 in
      let n' : fate ≢ crashed = λ c. n (rw (e, deliver_once) c) in
      rw (e, deliver_once) (rw st-notify (tally-IsBalanced fate m.st h n'))
]

-- the offsets n + 1, n + 2, …
abbrev pub Numbered : ℕ → List Message → Type 0
Numbered n [] = Unit
Numbered n (m ∷ ms) = (m.offset ≡ n + 1) × Numbered (n + 1) ms

-- The messages of a topic in the order of their publication, and a queue of pointers to them.
pub record IsOrdered (t : Topic) : Type 0 where
  pub next_eq : t.next_off ≡ length t.heap
  pub numbered : Numbered 0 t.heap
  pub in_heap : All (λ p. p < length t.heap) t.queue

Numbered-append :
    (n : ℕ) (ms : List Message) (m : Message)
    → Numbered n ms
    → m.offset ≡ n + length ms + 1
    → Numbered n (ms ++ m ∷ [])
Numbered-append n [] m h e = (omega arith, tt)
Numbered-append n (x ∷ ms) m h e = (h.0, Numbered-append (n + 1) ms m h.1 (omega arith))

Numbered-set :
    (n : ℕ) (ms : List Message) (p : ℕ) (m m' : Message)
    → Numbered n ms
    → get_elem? ms p ≡ some m
    → m'.offset ≡ m.offset
    → Numbered n (set ms p m')
Numbered-set n [] p m m' h e q = tt
Numbered-set n (x ∷ ms) zero m m' h e q = (ground (arith, h.0, e, q), h.1)
Numbered-set n (x ∷ ms) (suc p) m m' h e q = (h.0, Numbered-set (n + 1) ms p m m' h.1 e q)

All-below_mono : (ps : List ℕ) (a b : ℕ) → a ≤ b → All (λ p. p < a) ps → All (λ p. p < b) ps
All-below_mono [] a b le h = tt
All-below_mono (p ∷ ps) a b le h = (omega arith, All-below_mono ps a b le h.1)

-- A publication gives the message the next offset, while fewer than 2^64 - 1 were published.
pub enqueue-IsOrdered :
    (key value : Bytes) (headers : Dict Bytes) (now : ℕ) (t : Topic)
    → length t.heap < max_u64
    → IsOrdered t
    → IsOrdered (enqueue key value headers now t)
unfolding enqueue
enqueue-IsOrdered key value headers now t small h = record {
  next_eq = omega (arith, h.next_eq, length-append t.heap (m ∷ []));
  numbered = Numbered-append 0 t.heap m h.numbered (omega (arith, h.next_eq));
  in_heap =
      All-append (λ p. p < length (t.heap ++ m ∷ [])) t.queue (length t.heap ∷ [])
        (All-below_mono t.queue (length t.heap) (length (t.heap ++ m ∷ []))
          (omega (arith, length-append t.heap (m ∷ []))) h.in_heap)
        (omega (arith, length-append t.heap (m ∷ [])), tt);
}
  where
    m : Message
    m = record {
      topic = t.name;
      partition = 0;
      offset = u64 (t.next_off + 1);
      key = key;
      value = value;
      headers = headers;
      timestamp = now;
    }
