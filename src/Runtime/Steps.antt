-- ===== src/Runtime/Steps.antt =====
-- The runs of internal/primitives/runtime/fake/fake.go: calls and goroutines, in any order. A machine has the
-- runtime and the goroutines of Start: those that have not begun, those that wait for the channel
-- `stop`, and the samplers, each with its container. A panic of a goroutine ends the process, so a run has none.
use minicloud_platform.Prelude.{
  ℕ, ◌≡◌, refl, sym, ap, subst, ◌∙◌, ◌≢◌, ◌⊎◌, inl, inr, Bool, true, false, Option, none, some,
  List, [], ◌∷◌, ◌++◌, arith, Option-cases, get_elem?, Bytes, before, Dict, lookup,
}
use minicloud_platform.Runtime.Fake.{
  Status, exited, Container, Spec, Stats, Held, Fake, new, pull, create, start, begin, finish,
  sample, stop, remove, get, exec, append_log, stats_of, logs_of, cont_at,
}
use minicloud_platform.Runtime.Sound.{
  has, IsStopped, IsSound, start-IsSound, stop-IsSound, finish-IsSound, begin-IsSound,
}
use minicloud_platform.Runtime.Keys.{
  pull-IsSound, create-IsSound, remove-IsSound, sample-IsSound, exec-IsSound, append_log-IsSound,
}

pub record Machine : Type 0 where
  pub fake : Fake
  pub starting : List ℕ
  pub waiting : List ℕ
  pub sampling : List (ℕ × Bytes)

abbrev pub booted : Machine
booted = record { fake = new; starting = []; waiting = []; sampling = [] }

-- one call, or one stretch of a goroutine
pub data Step (m n : Machine) : Type 0 where
  pulled : (image : Bytes) → n ≡ record m { fake = pull image m.fake } → Step m n
  created : (now : ℕ) (s : Spec) → n ≡ record m { fake = (create now s m.fake).0 } → Step m n
  started :
      (now : ℕ) (id : Bytes) (a : ℕ)
      → lookup id m.fake.conts ≡ some a
      → n ≡ record m {
        fake = (start now id m.fake).0;
        starting = a ∷ m.starting;
        sampling = (a, id) ∷ m.sampling;
      }
      → Step m n
  began :
      (a : ℕ) (before behind : List ℕ) (f : Fake)
      → m.starting ≡ before ++ a ∷ behind
      → begin a m.fake ≡ some f
      → n ≡ record m { fake = f; starting = before ++ behind; waiting = a ∷ m.waiting }
      → Step m n
  finished :
      (now a : ℕ) (h : Held) (before behind : List ℕ)
      → m.waiting ≡ before ++ a ∷ behind
      → get_elem? m.fake.heap a ≡ some h
      → h.stop_closed ≡ true
      → n ≡ record m { fake = finish now a m.fake; waiting = before ++ behind }
      → Step m n
  sampled :
      (a : ℕ) (id : Bytes) (before behind : List (ℕ × Bytes))
      → m.sampling ≡ before ++ (a, id) ∷ behind
      → n ≡ record m { fake = sample id m.fake }
      → Step m n
  silenced :
      (a : ℕ) (id : Bytes) (h : Held) (before behind : List (ℕ × Bytes))
      → m.sampling ≡ before ++ (a, id) ∷ behind
      → get_elem? m.fake.heap a ≡ some h
      → h.stop_closed ≡ true
      → n ≡ record m { sampling = before ++ behind }
      → Step m n
  stopped : (id : Bytes) → n ≡ record m { fake = (stop id m.fake).0 } → Step m n
  removed :
      (id : Bytes) (force : Bool) → n ≡ record m { fake = (remove id force m.fake).0 } → Step m n
  executed :
      (id : Bytes) (cmd : List Bytes) → n ≡ record m { fake = (exec id cmd m.fake).0 } → Step m n
  logged : (id line : Bytes) → n ≡ record m { fake = append_log id line m.fake } → Step m n

pub data Reach (m : Machine) : Machine → Type 0 where
  here : Reach m m
  next : {n o : Machine} → Reach m n → Step n o → Reach m o

pub new-IsSound : IsSound new
unfolding lookup
new-IsSound = record {
  logged = λ id. refl;
  measured = λ id h. ground (arith, h);
  held = λ id a h. ground (arith, h);
  stopped = λ a h e. ground (arith, e);
}

-- The runtime of a machine that is known.
Sound-at : (m n : Machine) (f : Fake) → n.fake ≡ f → IsSound f → IsSound n.fake
Sound-at m n f e v = subst IsSound (sym e) v

Step-IsSound : (m n : Machine) → Step m n → IsSound m.fake → IsSound n.fake
Step-IsSound m n (pulled image e) v =
    Sound-at m n _ (ap (λ x. x.fake) e) (pull-IsSound image m.fake v)
Step-IsSound m n (created now s e) v =
    Sound-at m n _ (ap (λ x. x.fake) e) (create-IsSound now s m.fake v)
Step-IsSound m n (started now id a l e) v =
    Sound-at m n _ (ap (λ x. x.fake) e) (start-IsSound now id m.fake v)
Step-IsSound m n (began a before behind f s b e) v =
    Sound-at m n _ (ap (λ x. x.fake) e) (begin-IsSound a m.fake f b v)
Step-IsSound m n (finished now a h before behind w g c e) v =
    Sound-at m n _ (ap (λ x. x.fake) e) (finish-IsSound now a m.fake h g c v)
Step-IsSound m n (sampled a id before behind s e) v =
    Sound-at m n _ (ap (λ x. x.fake) e) (sample-IsSound id m.fake v)
Step-IsSound m n (silenced a id h before behind s g c e) v = Sound-at m n _ (ap (λ x. x.fake) e) v
Step-IsSound m n (stopped id e) v = Sound-at m n _ (ap (λ x. x.fake) e) (stop-IsSound id m.fake v)
Step-IsSound m n (removed id force e) v =
    Sound-at m n _ (ap (λ x. x.fake) e) (remove-IsSound id force m.fake v)
Step-IsSound m n (executed id cmd e) v =
    Sound-at m n _ (ap (λ x. x.fake) e) (exec-IsSound id cmd m.fake v)
Step-IsSound m n (logged id line e) v =
    Sound-at m n _ (ap (λ x. x.fake) e) (append_log-IsSound id line m.fake v)

pub Reach-IsSound : {m n : Machine} → Reach m n → IsSound m.fake → IsSound n.fake
Reach-IsSound here v = v
Reach-IsSound (next {n} {o} r s) v = Step-IsSound n o s (Reach-IsSound r v)

-- What Get finds in a runtime.
get_sound :
    (f : Fake) (id : Bytes) (c : Container) (o : Option ℕ)
    → IsSound f
    → lookup id f.conts ≡ o
    → cont_at f o ≡ some c
    → (c.id ≡ id)
      × (has id f.logs ≡ true)
      × (has id f.stats ≡ true)
      × (a : ℕ) × (h : Held) × (lookup id f.conts ≡ some a)
      × (get_elem? f.heap a ≡ some h)
      × (h.cont ≡ c)
      × IsStopped h
get_sound f id c none v e g = ground (arith, g)
get_sound f id c (some a) v e g =
    let (h, eh, ih) = v.held id a e in
    let hc : h.cont ≡ c = ground (arith, g, eh) in
    let there : has id f.conts ≡ true = rw (e, has) refl in
    (
      ap (λ x. x.id) (sym hc) ∙ ih,
      v.logged id ∙ there,
      v.measured id there,
      a,
      h,
      e,
      eh,
      hc,
      v.stopped a h eh,
    )

Status-discrete : Discrete Status
Status-discrete = hlevel

-- What a caller finds for a container that Get returns.
pub record Served (f : Fake) (id : Bytes) (c : Container) : Type 0 where
  pub id_eq : c.id ≡ id
  pub logs : (text : Bytes) × (logs_of id false 0 f ≡ some text)
  pub stats : (s : Stats) × (stats_of id f ≡ some s)
  pub exit_asked :
      (c.status ≢ exited)
      ⊎ ((a : ℕ) × (h : Held) × (lookup id f.conts ≡ some a)
          × (get_elem? f.heap a ≡ some h)
          × (h.stop_closed ≡ true))

found {ℓ} : {V : Type ℓ} (k : Bytes) (m : Dict V) → has k m ≡ true → (v : V) × (lookup k m ≡ some v)
found k m h = elim (Option-cases (lookup k m)) [ inl e ↦ ground (arith, h, e) | inr p ↦ p ]

exited_cases : (s : Status) → (s ≡ exited) ⊎ (s ≢ exited)
exited_cases s = elim (Status-discrete s exited) [ yes e ↦ inl e | no e ↦ inr e ]

-- Whatever was called and whichever goroutines ran: a container that Get returns for an id has that id, its logs
-- and its statistics are found, and it has not exited or its channel `stop` is closed.
pub get-Served :
    (m : Machine) (id : Bytes) (c : Container)
    → Reach booted m
    → get id m.fake ≡ some c
    → Served m.fake id c
unfolding get logs_of stats_of
get-Served m id c r g =
    let v = Reach-IsSound r new-IsSound in
    let (i, l, s, a, h, e, eh, hc, st) = get_sound m.fake id c (lookup id m.fake.conts) v refl g in
    record {
      id_eq = i;
      logs = found id m.fake.logs l;
      stats = found id m.fake.stats s;
      exit_asked = elim (exited_cases c.status) [
        | inr n ↦ inl n
        | inl x ↦ inr (a, h, e, eh, st (ap (λ k. k.status) hc ∙ x))
      ];
    }
