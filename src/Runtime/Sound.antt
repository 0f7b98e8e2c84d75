-- ===== src/Runtime/Sound.antt =====
-- What the operations of internal/primitives/runtime/fake/fake.go keep of the maps and the heap.
use minicloud_platform.Prelude.{
  ap, zero, suc, suc, [], subst, sym, ◌∷◌, ◌++◌, ◌⊎◌, Option-cases, ◌∙◌, set, List, Option, ℕ, ◌≡◌,
  refl, inl, inr, Bool, true, false, none, some, arith, if◌then◌else◌, Bool-cases, get_elem?, Bytes,
  same, Dict, lookup, insert, delete, lookup-insert, lookup-delete,
}
use minicloud_platform.Runtime.Fake.{
  set_stopped, set_running, modify_with, close_done_of, set_exited, finish, stop, modify, start,
  begin, exited, Held, Fake,
}

abbrev pub has {ℓ} : {V : Type ℓ} → Bytes → Dict V → Bool
has k m = elim (lookup k m) [ none ↦ false | some _ ↦ true ]

module _ {ℓ} {V : Type ℓ} where
  pub has-insert :
      (k j : Bytes) (v : V) (m : Dict V)
      → has j (insert k v m) ≡ (if same k j then true else has j m)
  has-insert k j v m = elim (Bool-cases (same k j)) [
    | inl q ↦ ground (arith, lookup-insert k j v m, q)
    | inr q ↦ ground (arith, lookup-insert k j v m, q)
  ]

  pub has-delete :
      (k j : Bytes) (m : Dict V) → has j (delete k m) ≡ (if same k j then false else has j m)
  has-delete k j m = elim (Bool-cases (same k j)) [
    | inl q ↦ ground (arith, lookup-delete k j m, q)
    | inr q ↦ ground (arith, lookup-delete k j m, q)
  ]

  has-some : (k : Bytes) (v : V) (m : Dict V) → lookup k m ≡ some v → has k m ≡ true
  has-some k v m h = rw (h, has) refl

-- A held container that has exited was asked to stop.
abbrev pub IsStopped : Held → Type 0
IsStopped h = h.cont.status ≡ exited → h.stop_closed ≡ true

-- A container that is in the map has its logs, its statistics, and a place in the heap that holds its id; no logs
-- are without a container.
pub record IsSound (f : Fake) : Type 0 where
  pub logged : (id : Bytes) → has id f.logs ≡ has id f.conts
  pub measured : (id : Bytes) → has id f.conts ≡ true → has id f.stats ≡ true
  pub held :
      (id : Bytes) (a : ℕ)
      → lookup id f.conts ≡ some a
      → (h : Held) × (get_elem? f.heap a ≡ some h) × (h.cont.id ≡ id)
  pub stopped : (a : ℕ) (h : Held) → get_elem? f.heap a ≡ some h → IsStopped h

-- A read behind an append of one element gives an old element or the new one.
pub get_elem?-append_cases :
    (xs : List Held) (x h : Held) (a : ℕ)
    → get_elem? (xs ++ x ∷ []) a ≡ some h
    → (get_elem? xs a ≡ some h) ⊎ (x ≡ h)
get_elem?-append_cases [] x h zero e = inr (ground (arith, e))
get_elem?-append_cases [] x h (suc a) e = ground (arith, e)
get_elem?-append_cases (y ∷ xs) x h zero e = inl e
get_elem?-append_cases (y ∷ xs) x h (suc a) e = get_elem?-append_cases xs x h a e

pub get_elem?-append_old :
    (xs : List Held) (x h : Held) (a : ℕ)
    → get_elem? xs a ≡ some h
    → get_elem? (xs ++ x ∷ []) a ≡ some h
get_elem?-append_old [] x h a e = ground (arith, e)
get_elem?-append_old (y ∷ xs) x h zero e = e
get_elem?-append_old (y ∷ xs) x h (suc a) e = get_elem?-append_old xs x h a e

-- A read behind a write through a pointer: the element is untouched, or is the written one.
get_elem?-set_cases :
    (xs : List Held) (x h : Held) (a b : ℕ)
    → get_elem? (set xs b x) a ≡ some h
    → (get_elem? xs a ≡ some h) ⊎ ((a ≡ b) × (x ≡ h))
get_elem?-set_cases [] x h a b e = inl e
get_elem?-set_cases (y ∷ xs) x h zero zero e = inr (refl, ground (arith, e))
get_elem?-set_cases (y ∷ xs) x h zero (suc b) e = inl e
get_elem?-set_cases (y ∷ xs) x h (suc a) zero e = inl e
get_elem?-set_cases (y ∷ xs) x h (suc a) (suc b) e = elim (get_elem?-set_cases xs x h a b e) [
  | inl o ↦ inl o
  | inr (q, w) ↦ inr (ap suc q, w)
]

-- Elements stay elements under a write that keeps the id of what was there.
get_elem?-set_held :
    (xs : List Held) (x old h : Held) (a b : ℕ)
    → get_elem? xs b ≡ some old
    → x.cont.id ≡ old.cont.id
    → get_elem? xs a ≡ some h
    → (k : Held) × (get_elem? (set xs b x) a ≡ some k) × (k.cont.id ≡ h.cont.id)
get_elem?-set_held [] x old h a b eb i e = ground (arith, e)
get_elem?-set_held (y ∷ xs) x old h zero zero eb i e =
    let yo : some y ≡ some h = e in
    let yb : some y ≡ some old = eb in (x, refl, ground (arith, i, yo, yb))
get_elem?-set_held (y ∷ xs) x old h zero (suc b) eb i e = (h, e, refl)
get_elem?-set_held (y ∷ xs) x old h (suc a) zero eb i e = (h, e, refl)
get_elem?-set_held (y ∷ xs) x old h (suc a) (suc b) eb i e =
    get_elem?-set_held xs x old h a b eb i e

-- A write through a pointer keeps a sound runtime sound, if it keeps the id and the rule on stopped containers.
put-IsSound :
    (f : Fake) (a : ℕ) (old x : Held)
    → IsSound f
    → get_elem? f.heap a ≡ some old
    → x.cont.id ≡ old.cont.id
    → IsStopped x
    → IsSound (record f { heap = set f.heap a x })
put-IsSound f a old x v e i st = record {
  logged = v.logged;
  measured = v.measured;
  held = λ id b l.
      let (h, eh, ih) = v.held id b l in
      let (k, ek, ik) = get_elem?-set_held f.heap x old h b a e i eh in (k, ek, ik ∙ ih);
  stopped = λ b h eh. elim (get_elem?-set_cases f.heap x h b a eh) [
    | inl o ↦ v.stopped b h o
    | inr (q, w) ↦ subst IsStopped w st
  ];
}

modify_with-IsSound :
    (g : Held → Held) (f : Fake) (a : ℕ) (o : Option Held)
    → IsSound f
    → ((h : Held) → (g h).cont.id ≡ h.cont.id)
    → ((h : Held) → get_elem? f.heap a ≡ some h → IsStopped h → IsStopped (g h))
    → get_elem? f.heap a ≡ o
    → IsSound (record f { heap = modify_with g a f.heap o })
modify_with-IsSound g f a none v i st e = v
modify_with-IsSound g f a (some h) v i st e =
    put-IsSound f a h (g h) v e (i h) (st h e (v.stopped a h e))

modify-IsSound :
    (g : Held → Held) (f : Fake) (a : ℕ)
    → IsSound f
    → ((h : Held) → (g h).cont.id ≡ h.cont.id)
    → ((h : Held) → get_elem? f.heap a ≡ some h → IsStopped h → IsStopped (g h))
    → IsSound (record f { heap = modify g a f.heap })
unfolding modify
modify-IsSound g f a v i st = modify_with-IsSound g f a (get_elem? f.heap a) v i st refl

pub start-IsSound : (now : ℕ) (id : Bytes) (f : Fake) → IsSound f → IsSound (start now id f).0
unfolding start
start-IsSound now id f v = elim (Option-cases (lookup id f.conts)) [
  | inl e ↦ rw (e, start) v
  | inr (a, e) ↦
      rw (e, start)
        (modify-IsSound (set_running now _) f a v (λ h. refl) (λ h eh st x. ground (arith, x)))
]

pub stop-IsSound : (id : Bytes) (f : Fake) → IsSound f → IsSound (stop id f).0
unfolding stop
stop-IsSound id f v = elim (Option-cases (lookup id f.conts)) [
  | inl e ↦ rw (e, stop) v
  | inr (a, e) ↦ rw (e, stop) (modify-IsSound set_stopped f a v (λ h. refl) (λ h eh st x. refl))
]

-- The goroutine ends once the channel is closed.
pub finish-IsSound :
    (now a : ℕ) (f : Fake) (h : Held)
    → get_elem? f.heap a ≡ some h
    → h.stop_closed ≡ true
    → IsSound f
    → IsSound (finish now a f)
unfolding finish
finish-IsSound now a f h e c v =
    modify-IsSound (set_exited now) f a v (λ k. refl)
      (λ k ek st x. let s : some h ≡ some k = sym e ∙ ek in ground (arith, s, c))

put_back-IsSound :
    (a : ℕ) (f f' : Fake) (o : Option Held)
    → IsSound f
    → get_elem? f.heap a ≡ o
    → close_done_of a f o ≡ some f'
    → IsSound f'
put_back-IsSound a f f' none v e h = ground (arith, h)
put_back-IsSound a f f' (some k) v e h = elim (Bool-cases k.done_closed) [
  | inl q ↦ ground (arith, h, q)
  | inr q ↦
      let k' = record k { done_closed = true } in
      let r : record f { heap = set f.heap a k' } ≡ f' = ground (arith, h, q) in
      subst IsSound r (put-IsSound f a k k' v e refl (v.stopped a k e))
]

pub begin-IsSound : (a : ℕ) (f f' : Fake) → begin a f ≡ some f' → IsSound f → IsSound f'
unfolding begin
begin-IsSound a f f' h v = put_back-IsSound a f f' (get_elem? f.heap a) v refl h
