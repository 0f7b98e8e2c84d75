-- ===== src/Nodeagent/Converge.antt =====
-- After a reconciliation of internal/nodeagent/agent.go the runtime has no container that is not wanted.
use minicloud_platform.Prelude.{
  ℕ, ◌≡◌, refl, sym, subst, ◌∙◌, inl, inr, Bool, true, false, not, ◌&&◌, ◌||◌, Option, none, some,
  List, [], ◌∷◌, ◌++◌, arith, if◌then◌else◌, Bool-cases, Option-cases, get_elem?, Bytes, same,
  same_iff, before, Dict, lookup, insert, lookup-delete,
}
use minicloud_platform.Prelude.Fallible.{Fallible, value, failed}
use minicloud_platform.Runtime.Fake
use minicloud_platform.Runtime.Fake.{
  list, listed, Fake, Container, Held, remove, runs, list_from, cont_at,
}
use minicloud_platform.Runtime.Sound.{has, has-insert, IsSound}
use minicloud_platform.Controller.Reconcile.{Tracked, StoredPlacement, Cluster}
use minicloud_platform.Nodeagent.Agent.{
  Agent, Apply, apply_to, want_placements, want_read, remove_unwanted, want_workloads, workloads_of,
  want_projects, remove_rest, reconcile_once,
}

-- An Apply that keeps the runtime sound, as the operations of the runtime do.
abbrev pub AppliesSoundly : Option Apply → Type 0
AppliesSoundly apply =
    (w : Tracked) (p : StoredPlacement) (f : Fake) → IsSound f → IsSound (apply_to apply w p f)

-- Some placement on the node has the id.
abbrev pub is_wanted : Bytes → Bytes → List StoredPlacement → Bool
is_wanted node_id id [] = false
is_wanted node_id id (p ∷ ps) = (same p.node_id node_id && same p.id id) || is_wanted node_id id ps

is_wanted-append :
    (node_id id : Bytes) (ps qs : List StoredPlacement)
    → is_wanted node_id id (ps ++ qs) ≡ (is_wanted node_id id ps || is_wanted node_id id qs)
is_wanted-append node_id id [] qs = refl
is_wanted-append node_id id (p ∷ ps) qs = ground (arith, is_wanted-append node_id id ps qs)

want_placements_lem :
    (apply : Option Apply) (node_id id : Bytes) (w : Tracked) (ps : List StoredPlacement)
    (want : Dict StoredPlacement) (f : Fake)
    → AppliesSoundly apply
    → IsSound f
    → let r = want_placements apply node_id w ps (want, f) in
      (has id r.0 ≡ (is_wanted node_id id ps || has id want)) × IsSound r.1
unfolding want_placements
want_placements_lem apply node_id id w [] want f k v = (refl, v)
want_placements_lem apply node_id id w (p ∷ ps) want f k v =
    elim (Bool-cases (same p.node_id node_id)) [
      | inl q ↦
          let ih =
            want_placements_lem apply node_id id w ps (insert p.id p want) (apply_to apply w p f) k
              (k w p f v) in
          let e = has-insert p.id id p want in
          rw (q, want_placements) (ground (arith, ih.0, e), ih.1)
      | inr q ↦
          let ih = want_placements_lem apply node_id id w ps want f k v in
          rw (q, want_placements) ih
    ]

-- A removal by force takes one key away and leaves the others.
lookup-remove :
    (id j : Bytes) (f : Fake)
    → lookup j (remove id true f).0.conts ≡ (if same id j then none else lookup j f.conts)
unfolding remove
lookup-remove id j f = elim (Option-cases (lookup id f.conts)) [
  | inl e ↦
      rw (e, remove)
        (elim (Bool-cases (same id j)) [
          | inl q ↦ rw q (subst (λ k. lookup k f.conts ≡ none) ((same_iff id j).0 q) e)
          | inr q ↦ rw q refl
        ])
  | inr (a, e) ↦ elim (Bool-cases (runs (get_elem? f.heap a))) [
    | inl q ↦ rw (e, remove, q) (lookup-delete id j f.conts)
    | inr q ↦ rw (e, remove, q) (lookup-delete id j f.conts)
  ]
]

abbrev has_id : Bytes → List Container → Bool
has_id id [] = false
has_id id (c ∷ cs) = same c.id id || has_id id cs

kept_lem :
    (want : Dict StoredPlacement) (c : Container) (cs : List Container) (f : Fake) (id : Bytes)
    (o : Option ℕ)
    → has c.id want ≡ true
    → o ≡ (if not (has id want) && has_id id cs then none else lookup id f.conts)
    → o ≡ (if not (has id want) && has_id id (c ∷ cs) then none else lookup id f.conts)
kept_lem want c cs f id o h e = elim (Bool-cases (same c.id id)) [
  | inl q ↦
      let k : has id want ≡ true = subst (λ j. has j want ≡ true) ((same_iff c.id id).0 q) h in
      ground (arith, e, k)
  | inr q ↦ ground (arith, e, q)
]

gone_lem :
    (want : Dict StoredPlacement) (c : Container) (cs : List Container) (f : Fake) (id : Bytes)
    (o : Option ℕ)
    → has c.id want ≡ false
    → o
      ≡ (if not (has id want) && has_id id cs then none else lookup id (remove c.id true f).0.conts)
    → o ≡ (if not (has id want) && has_id id (c ∷ cs) then none else lookup id f.conts)
gone_lem want c cs f id o h e = elim (Bool-cases (same c.id id)) [
  | inl q ↦
      let k : has id want ≡ false = subst (λ j. has j want ≡ false) ((same_iff c.id id).0 q) h in
      ground (arith, e, k, q, lookup-remove c.id id f)
  | inr q ↦ ground (arith, e, q, lookup-remove c.id id f)
]

remove_unwanted_lem :
    (want : Dict StoredPlacement) (cs : List Container) (f : Fake) (id : Bytes)
    → lookup id (remove_unwanted want cs f).conts
      ≡ (if not (has id want) && has_id id cs then none else lookup id f.conts)
unfolding remove_unwanted
remove_unwanted_lem want [] f id = ground arith
remove_unwanted_lem want (c ∷ cs) f id = elim (Option-cases (lookup c.id want)) [
  | inr (p, e) ↦
      rw (e, remove_unwanted)
        (kept_lem want c cs f id (lookup id (remove_unwanted want cs f).conts) (rw (e, has) refl)
          (remove_unwanted_lem want cs f id))
  | inl e ↦
      rw (e, remove_unwanted)
        (gone_lem want c cs f id (lookup id (remove_unwanted want cs (remove c.id true f).0).conts)
          (rw (e, has) refl) (remove_unwanted_lem want cs (remove c.id true f).0 id))
]

module _ {S : Type 0} (c : Cluster S) (s : S) where
  -- All placements that the agent can read: an answer that is an error counts as none, as the loops pass over it.
  abbrev readable : Fallible (List StoredPlacement) → List StoredPlacement
  readable (failed e) = []
  readable (value ps) = ps

  abbrev pub placements_of : List Tracked → List StoredPlacement
  placements_of [] = []
  placements_of (w ∷ ws) = readable (c.get_placements s w.spec.id) ++ placements_of ws

  abbrev pub all_placements : List Bytes → List StoredPlacement
  all_placements [] = []
  all_placements (p ∷ projects) =
      placements_of (workloads_of (c.list_workloads s p)) ++ all_placements projects

module _ {S : Type 0} (c : Cluster S) (apply : Option Apply) (a : Agent) (s : S) (id : Bytes)
    (sound : AppliesSoundly apply) where
  -- What one loop makes of what is wanted and of the runtime.
  abbrev Gathers :
      List StoredPlacement → Dict StoredPlacement × Fake → Dict StoredPlacement × Fake → Type 0
  Gathers ps before behind =
      (has id behind.0 ≡ (is_wanted a.node_id id ps || has id before.0)) × IsSound behind.1

  want_read_lem :
      (w : Tracked) (r : Fallible (List StoredPlacement)) (acc : Dict StoredPlacement × Fake)
      → IsSound acc.1
      → Gathers (readable c s r) acc (want_read apply a.node_id w r acc)
  want_read_lem w (failed e) acc v = (refl, v)
  want_read_lem w (value ps) (want, f) v =
      want_placements_lem apply a.node_id id w ps want f sound v

  Gathers-append :
      (ps qs : List StoredPlacement) (x y z : Dict StoredPlacement × Fake)
      → Gathers ps x y
      → Gathers qs y z
      → Gathers (ps ++ qs) x z
  Gathers-append ps qs x y z (e, v) (e', v') =
      (ground (arith, e, e', is_wanted-append a.node_id id ps qs), v')

  want_workloads_lem :
      (ws : List Tracked) (acc : Dict StoredPlacement × Fake)
      → IsSound acc.1
      → Gathers (placements_of c s ws) acc (want_workloads c apply a s ws acc)
  unfolding want_workloads
  want_workloads_lem [] acc v = (refl, v)
  want_workloads_lem (w ∷ ws) acc v =
      let r = want_read_lem w (c.get_placements s w.spec.id) acc v in
      Gathers-append (readable c s (c.get_placements s w.spec.id)) (placements_of c s ws) acc
        (want_read apply a.node_id w (c.get_placements s w.spec.id) acc) _ r
        (want_workloads_lem ws (want_read apply a.node_id w (c.get_placements s w.spec.id) acc) r.1)

  want_projects_lem :
      (projects : List Bytes) (acc : Dict StoredPlacement × Fake)
      → IsSound acc.1
      → Gathers (all_placements c s projects) acc (want_projects c apply a s projects acc)
  unfolding want_projects
  want_projects_lem [] acc v = (refl, v)
  want_projects_lem (p ∷ projects) acc v =
      let ws = workloads_of (c.list_workloads s p) in
      let r = want_workloads_lem ws acc v in
      Gathers-append (placements_of c s ws) (all_placements c s projects) acc
        (want_workloads c apply a s ws acc) _ r
        (want_projects_lem projects (want_workloads c apply a s ws acc) r.1)

has_id-listed :
    (id : Bytes) (o : Option Container) (rest : List Container)
    → has_id id rest ≡ true
    → has_id id (listed true o rest) ≡ true
has_id-listed id none rest h = h
has_id-listed id (some c) rest h = ground (arith, h)

-- A container that is in the map, with its id in the heap, is listed.
list_from-has_id :
    (f : Fake) (conts : Dict ℕ) (id : Bytes) (k : ℕ) (h : Held)
    → get_elem? f.heap k ≡ some h
    → h.cont.id ≡ id
    → lookup id conts ≡ some k
    → has_id id (list_from true f conts) ≡ true
unfolding lookup list_from
list_from-has_id f [] id k h e i l = ground (arith, l)
list_from-has_id f ((j, b) ∷ conts) id k h e i l = elim (Bool-cases (same j id)) [
  | inr q ↦
      has_id-listed id _ (list_from true f conts)
        (list_from-has_id f conts id k h e i (ground (arith, l, q)))
  | inl q ↦
      let bk : b ≡ k = ground (arith, l, q) in
      let there : cont_at f (some b) ≡ some h.cont = rw (bk, e) refl in
      subst (λ o. has_id id (listed true o (list_from true f conts)) ≡ true) (sym there)
        (ground (arith, (same_iff h.cont.id id).1 i))
]

list_lem :
    (f : Fake) (id : Bytes) (k : ℕ)
    → IsSound f
    → lookup id f.conts ≡ some k
    → has_id id (Fake.list true f) ≡ true
unfolding list
list_lem f id k v l = let (h, e, i) = v.held id k l in list_from-has_id f f.conts id k h e i l

-- What is removed of a sound runtime is what is not wanted.
remove_rest_lem :
    (want : Dict StoredPlacement) (f : Fake) (id : Bytes)
    → IsSound f
    → lookup id (remove_rest (want, f)).conts ≡ (if has id want then lookup id f.conts else none)
remove_rest_lem want f id v =
    remove_unwanted_lem want (Fake.list true f) f id ∙ elim (Option-cases (lookup id f.conts)) [
      | inl e ↦ ground (arith, e)
      | inr (k, e) ↦ ground (arith, list_lem f id k v e)
    ]

-- A reconciliation of a sound runtime, with an Apply that keeps it sound, on a store that lists the projects, leaves of
-- the containers that were there, and that Apply added, those whose id some placement on this node has that the agent
-- could read, and no others: what it asked for in vain, workloads or placements, counts as none.
pub reconcile_once-Wanted :
    {S : Type 0} (c : Cluster S) (apply : Option Apply) (a : Agent) (s : S) (projects : List Bytes)
    (f : Fake) (id : Bytes)
    → AppliesSoundly apply
    → c.list_projects s ≡ value projects
    → IsSound f
    → lookup id (reconcile_once c apply a s f).conts ≡ (
        if is_wanted a.node_id id (all_placements c s projects)
        then lookup id (want_projects c apply a s projects ([], f)).1.conts
        else none)
unfolding reconcile_once lookup
reconcile_once-Wanted c apply a s projects f id sound listed v =
    let (want, v') = want_projects_lem c apply a s id sound projects ([], f) v in
    let r = want_projects c apply a s projects ([], f) in
    rw (listed, reconcile_once) (remove_rest_lem r.0 r.1 id v' ∙ ground (arith, want))
