-- ===== src/Runtime/Keys.antt =====
-- The operations of internal/primitives/runtime/fake/fake.go that change its maps keep it sound.
use minicloud_platform.Prelude.{
  get_elem?-append_last, ℕ, ◌≡◌, refl, sym, ap, subst, ◌∙◌, inl, inr, Bool, true, false, not, ◌&&◌,
  Option, none, some, List, [], ◌∷◌, ◌++◌, arith, if◌then◌else◌, Bool-cases, Option-cases, length,
  get_elem?, Bytes, same, same_iff, lookup, delete, lookup-insert, lookup-delete,
}
use minicloud_platform.Runtime.Fake.{
  plus_sample, Spec, Fake, fresh, create, sample, remove, exec, echo, append_log, with_newline,
  write_to, runs, pull, used, no_stats,
}
use minicloud_platform.Runtime.Sound.{
  has, has-insert, has-delete, get_elem?-append_cases, get_elem?-append_old, IsStopped, IsSound,
}

pub pull-IsSound : (image : Bytes) (f : Fake) → IsSound f → IsSound (pull image f)
unfolding pull
pull-IsSound image f v = record {
  logged = v.logged;
  measured = v.measured;
  held = v.held;
  stopped = v.stopped;
}

both_tests : (b c d : Bool) → c ≡ d → (if b then true else c) ≡ (if b then true else d)
both_tests b c d e = ap (λ x. if b then true else x) e

pub create-IsSound : (now : ℕ) (s : Spec) (f : Fake) → IsSound f → IsSound (create now s f).0
unfolding create
create-IsSound now s f v = record {
  logged = λ id.
      has-insert s.id id [] f.logs
      ∙ both_tests (same s.id id) _ _ (v.logged id)
      ∙ sym (has-insert s.id id (length f.heap) f.conts);
  measured = λ id h.
      let c = has-insert s.id id (length f.heap) f.conts in
      let m = has-insert s.id id no_stats f.stats in ground (arith, h, c, m, v.measured id);
  held = λ id a l. elim (Bool-cases (same s.id id)) [
    | inl q ↦
        let e : some (length f.heap) ≡ some a =
          sym (rw (lookup-insert s.id id (length f.heap) f.conts, q) refl) ∙ l in
        (
          fresh now s,
          subst (λ n. get_elem? (f.heap ++ fresh now s ∷ []) n ≡ some (fresh now s))
              (ground (arith, e)) (get_elem?-append_last f.heap (fresh now s)),
          (same_iff s.id id).0 q,
        )
    | inr q ↦
        let e : lookup id f.conts ≡ some a =
          sym (rw (lookup-insert s.id id (length f.heap) f.conts, q) refl) ∙ l in
        let (h, eh, ih) = v.held id a e in (h, get_elem?-append_old f.heap (fresh now s) h a eh, ih)
  ];
  stopped = λ a h e. elim (get_elem?-append_cases f.heap (fresh now s) h a e) [
    | inl o ↦ v.stopped a h o
    | inr w ↦ subst IsStopped w (λ x. ground (arith, x))
  ];
}

removed-IsSound :
    (id : Bytes) (f : Fake)
    → IsSound f
    → IsSound
        (record f { conts = delete id f.conts; logs = delete id f.logs; stats = delete id f.stats })
removed-IsSound id f v = record {
  logged = λ j.
      has-delete id j f.logs
      ∙ ap (λ x. if same id j then false else x) (v.logged j)
      ∙ sym (has-delete id j f.conts);
  measured = λ j h.
      let c = has-delete id j f.conts in
      let m = has-delete id j f.stats in ground (arith, h, c, m, v.measured j);
  held = λ j a l. v.held j a (ground (arith, l, lookup-delete id j f.conts));
  stopped = v.stopped;
}

pub remove-IsSound :
    (id : Bytes) (force : Bool) (f : Fake) → IsSound f → IsSound (remove id force f).0
unfolding remove
remove-IsSound id force f v = elim (Option-cases (lookup id f.conts)) [
  | inl e ↦ rw (e, remove) v
  | inr (a, e) ↦ elim (Bool-cases (runs (get_elem? f.heap a) && not force)) [
    | inl q ↦ rw (e, remove, q) v
    | inr q ↦ rw (e, remove, q) (removed-IsSound id f v)
  ]
]

-- A tick of a sampler may bring statistics back, but takes none away.
pub sample-IsSound : (id : Bytes) (f : Fake) → IsSound f → IsSound (sample id f)
unfolding sample
sample-IsSound id f v = record {
  logged = v.logged;
  measured = λ j h.
      let m = has-insert id j (plus_sample (used (lookup id f.stats))) f.stats in
      ground (arith, m, v.measured j h);
  held = v.held;
  stopped = v.stopped;
}

-- A buffer that is written to was there.
write_to-IsSound :
    (id text : Bytes) (f : Fake) (o : Option Bytes)
    → lookup id f.logs ≡ o
    → IsSound f
    → IsSound (write_to id text f o)
write_to-IsSound id text f none e v = v
write_to-IsSound id text f (some buf) e v = record {
  logged = λ j. elim (Bool-cases (same id j)) [
    | inl q ↦
        let here : has j f.logs ≡ true =
          subst (λ k. has k f.logs ≡ true) ((same_iff id j).0 q) (rw (e, has) refl) in
        ground (arith, has-insert id j (buf ++ text) f.logs, q, here, v.logged j)
    | inr q ↦ ground (arith, has-insert id j (buf ++ text) f.logs, q, v.logged j)
  ];
  measured = v.measured;
  held = v.held;
  stopped = v.stopped;
}

pub exec-IsSound :
    (id : Bytes) (cmd : List Bytes) (f : Fake) → IsSound f → IsSound (exec id cmd f).0
unfolding exec
exec-IsSound id cmd f v = elim (Option-cases (lookup id f.conts)) [
  | inl e ↦ rw (e, exec) v
  | inr (a, e) ↦ rw (e, exec) (write_to-IsSound id (echo cmd) f (lookup id f.logs) refl v)
]

pub append_log-IsSound : (id line : Bytes) (f : Fake) → IsSound f → IsSound (append_log id line f)
unfolding append_log
append_log-IsSound id line f v = write_to-IsSound id (with_newline line) f (lookup id f.logs) refl v
