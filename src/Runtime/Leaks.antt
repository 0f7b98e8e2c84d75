-- ===== src/Runtime/Leaks.antt =====
-- Two faults of the goroutines of internal/primitives/runtime/fake/fake.go.
use minicloud_platform.Prelude.{
  ℕ, zero, suc, ◌+◌, ◌*◌, ◌≡◌, refl, ap, ◌∙◌, inl, inr, true, none, some, List, [], ◌∷◌, ◌++◌,
  arith, Bool-cases, length, get_elem?, set, Bytes, before, lookup, delete, lookup-insert_self,
  lookup-delete_self,
}
use minicloud_platform.Runtime.Fake.{
  Held, Fake, no_stats, plus_sample, used, modify, start, set_running, begin, sample, remove, runs,
  get, stats_of, close_done_of,
}
use minicloud_platform.Runtime.Steps.{Machine, Reach, removed, sampled, here, next}

removed_away :
    (id : Bytes) (f : Fake) (a : ℕ)
    → lookup id f.conts ≡ some a
    → (remove id true f).0
      ≡ record f { conts = delete id f.conts; logs = delete id f.logs; stats = delete id f.stats }
unfolding remove
removed_away id f a e = elim (Bool-cases (runs (get_elem? f.heap a))) [
  | inl q ↦ rw (e, remove, q) refl
  | inr q ↦ rw (e, remove, q) refl
]

sample_of_removed :
    (id : Bytes) (f : Fake)
    → let g = sample id (record f {
      conts = delete id f.conts;
      logs = delete id f.logs;
      stats = delete id f.stats;
    }) in
      (get id g ≡ none) × (stats_of id g ≡ some (plus_sample no_stats))
unfolding sample get stats_of
sample_of_removed id f = (
  rw (lookup-delete_self id f.conts) refl,
  rw
      (
        lookup-insert_self id (plus_sample (used (lookup id (delete id f.stats))))
            (delete id f.stats),
        lookup-delete_self id f.stats,
      )
      refl,
)

-- If a started container is removed by force before its sampler has seen it stop, the sampler can bring its
-- statistics back: Stats then answers for a container that Get does not find.
pub sampled-removed :
    (m : Machine) (id : Bytes) (a : ℕ) (before behind : List (ℕ × Bytes))
    → lookup id m.fake.conts ≡ some a
    → m.sampling ≡ before ++ (a, id) ∷ behind
    → (n : Machine) × Reach m n
      × (get id n.fake ≡ none)
      × (stats_of id n.fake ≡ some (plus_sample no_stats))
sampled-removed m id a before behind e s =
    let gone : Machine = record m { fake = (remove id true m.fake).0 } in
    let n : Machine = record gone { fake = sample id gone.fake } in
    let r = removed_away id m.fake a e in
    let w = sample_of_removed id m.fake in
    (
      n,
      next (next here (removed id true refl)) (sampled a id before behind s refl),
      ap (λ f. get id (sample id f)) r ∙ w.0,
      ap (λ f. stats_of id (sample id f)) r ∙ w.1,
    )

get_elem?-set-some :
    (xs : List Held) (a : ℕ) (h x : Held)
    → get_elem? xs a ≡ some h
    → get_elem? (set xs a x) a ≡ some x
get_elem?-set-some [] a h x e = ground (arith, e)
get_elem?-set-some (y ∷ xs) zero h x e = refl
get_elem?-set-some (y ∷ xs) (suc a) h x e = get_elem?-set-some xs a h x e

closed_twice :
    (a : ℕ) (f : Fake) (h : Held) → h.done_closed ≡ true → close_done_of a f (some h) ≡ none
closed_twice a f h d = ground (arith, d)

-- If a container that was started once, and whose first goroutine has run, is started again, running or exited,
-- the new goroutine closes a closed channel and panics.
pub begin-start :
    (now : ℕ) (id : Bytes) (f : Fake) (a : ℕ) (h : Held)
    → lookup id f.conts ≡ some a
    → get_elem? f.heap a ≡ some h
    → h.done_closed ≡ true
    → ((start now id f).1 ≡ none) × (begin a (start now id f).0 ≡ none)
unfolding start begin modify
begin-start now id f a h e g d =
    let pid = length f.conts * 100 + 1 in
    let k = set_running now pid h in
    let heap = get_elem?-set-some f.heap a h k g in
    (rw (e, start) refl, rw (e, start, g, heap) (closed_twice a _ k d))
