-- ===== src/Controller/Available.antt =====
-- What an available workload means in internal/controller/controller.go.
use minicloud_platform.Prelude.{
  ℕ, suc, ◌≤◌, ◌<◌, ◌≡◌, refl, sym, ap, subst, ◌∙◌, inl, inr, true, not, ◌&&◌, Option, none, some,
  List, [], ◌∷◌, map, arith, Bool-cases, length, All, Bytes, same,
}
use minicloud_platform.Prelude.Fallible.{value}
use minicloud_platform.Prelude.Int64.{le_i64, to_i32}
use minicloud_platform.Scheduler.Types.{Decision, Node, Workload, Float64}
use minicloud_platform.Scheduler.Place.{plan, placements_of, rounds_of}
use minicloud_platform.Scheduler.Plans.{plan-length_le}
use minicloud_platform.Controller.Reconcile.{
  with_plan, Tracked, StoredPlacement, Cluster, Notifier, stored_placement, is_empty, count_ready,
  ready_of, unavailable, settled, notify_all, with_nodes, reconcile_workload,
}

-- What the store is relied on for: what was written is read, and a workload and its placements are
-- kept apart.
pub record Keeps {S : Type 0} (c : Cluster S) : Type 0 where
  pub get_updated :
      (s s' : S) (w : Tracked)
      → c.update_workload s w ≡ (s', none)
      → c.get_workload s' w.project_id w.spec.id ≡ value w
  pub placements_kept :
      (s s' : S) (w : Tracked) (id : Bytes)
      → c.update_workload s w ≡ (s', none)
      → c.get_placements s' id ≡ c.get_placements s id
  pub get_set :
      (s s' : S) (id : Bytes) (ps : List StoredPlacement)
      → c.set_placements s id ps ≡ (s', none)
      → c.get_placements s' id ≡ value ps

abbrev pub Acknowledged : Option Notifier → Tracked → StoredPlacement → Type 0
Acknowledged none w p = ⊥
Acknowledged (some notify) w p = notify w p ≡ true

count_ready-le :
    (notify : Notifier) (w : Tracked) (ps : List StoredPlacement)
    → count_ready notify w ps ≤ length ps
unfolding count_ready
count_ready-le notify w [] = omega arith
count_ready-le notify w (p ∷ ps) = ground (arith, count_ready-le notify w ps)

-- As many acknowledgements as placements: each is acknowledged.
count_ready_all :
    (notify : Notifier) (w : Tracked) (ps : List StoredPlacement)
    → length ps ≤ count_ready notify w ps
    → All (λ p. notify w p ≡ true) ps
unfolding count_ready
count_ready_all notify w [] h = tt
count_ready_all notify w (p ∷ ps) h = elim (Bool-cases (notify w p)) [
  | inl q ↦ (q, count_ready_all notify w ps (ground (arith, h, q)))
  | inr q ↦ ground (arith, h, q, count_ready-le notify w ps)
]

length-map {ℓ κ} :
    {A : Type ℓ} {B : Type κ} (g : A → B) (xs : List A) → length (map g xs) ≡ length xs
length-map g [] = refl
length-map g (x ∷ xs) = ap suc (length-map g xs)

-- As many ready replicas as are wanted, and no more placements.
ready_of_all :
    (notifier : Option Notifier) (w : Tracked) (ps : List StoredPlacement) (n : ℕ)
    → 0 < n
    → length ps ≤ n
    → n ≤ ready_of notifier w ps
    → (length ps ≡ n) × All (Acknowledged notifier w) ps
ready_of_all none w ps n pos le h = ground (arith, h, pos)
ready_of_all (some notify) w ps n pos le h =
    (omega (arith, count_ready-le notify w ps), count_ready_all notify w ps (omega (arith, h, le)))

le_of_available :
    (n ready : ℕ) → n < 2147483648 → ready ≤ n → le_i64 n (to_i32 ready) ≡ true → n ≤ ready
le_of_available n ready small le h = ground (arith, h)

ready_of-le :
    (notifier : Option Notifier) (w : Tracked) (ps : List StoredPlacement)
    → ready_of notifier w ps ≤ length ps
ready_of-le none w ps = omega arith
ready_of-le (some notify) w ps = count_ready-le notify w ps

rounds_small : (w : Workload) → 0 < w.replicas → w.replicas < 2147483648 → rounds_of w ≡ w.replicas
rounds_small w pos small = ground (arith, pos, small)

pair_eq : {A B : Type 0} (p : A × B) (a : A) (b : B) → p.0 ≡ a → p.1 ≡ b → p ≡ (a, b)
pair_eq (x, y) a b ea eb = rw (ea, eb) refl

down :
    (w t : Tracked) (reason : Bytes)
    → value (unavailable w reason) ≡ value t
    → t.status.available ≡ true
    → ⊥
down w t reason e up = ground (arith, e, up)

module _ {S : Type 0} (c : Cluster S) (f : Float64) (notifier : Option Notifier) where
  -- What is stored for a workload that is written as available.
  pub record Serving (s' : S) (nodes : List Node) (w : Tracked) : Type 0 where
    pub placements : List StoredPlacement
    pub stored : c.get_placements s' w.spec.id ≡ value placements
    pub planned : placements ≡ map (stored_placement w) (placements_of (plan f nodes w.spec))
    pub complete : length placements ≡ w.spec.replicas
    pub acknowledged : All (Acknowledged notifier w) placements

  notify_all_sound :
      (s' : S) (w : Tracked) (ps : List StoredPlacement) (p : S × Option Bytes)
      → notify_all c f notifier w ps p ≡ (s', none)
      → (t : S) × (p ≡ (t, none))
        × (c.update_workload t (settled w (ready_of notifier w ps)) ≡ (s', none))
  notify_all_sound s' w ps (t, none) h = (t, refl, h)
  notify_all_sound s' w ps (t, some e) h = ground (arith, h)

  settled-Serving :
      (s s' : S) (nodes : List Node) (w t : Tracked)
      → Keeps c
      → 0 < w.spec.replicas
      → w.spec.replicas < 2147483648
      → let ps = map (stored_placement w) (placements_of (plan f nodes w.spec)) in
        notify_all c f notifier w ps (c.set_placements s w.spec.id ps) ≡ (s', none)
        → c.get_workload s' w.project_id w.spec.id ≡ value t
        → t.status.available ≡ true
        → Serving s' nodes w
  settled-Serving s s' nodes w t laws pos small h got up =
      let placed = (placements_of (plan f nodes w.spec)) in
      let ps = map (stored_placement w) placed in
      let (m, e, u) = notify_all_sound s' w ps (c.set_placements s w.spec.id ps) h in
      let ready = ready_of notifier w ps in
      let same_t : value (settled w ready) ≡ value t =
        sym (laws.get_updated m s' (settled w ready) u) ∙ got in
      let av : le_i64 w.spec.replicas (to_i32 ready) ≡ true = ground (arith, same_t, up) in
      let short : length ps ≤ w.spec.replicas = omega (
        arith,
        length-map (stored_placement w) placed,
        rounds_small w.spec pos small,
        plan-length_le f nodes w.spec,
      ) in
      let at_most = ready_of-le notifier w ps in
      let enough = le_of_available w.spec.replicas ready small (omega (arith, at_most, short)) av in
      let all = ready_of_all notifier w ps w.spec.replicas pos short enough in
      record {
        placements = ps;
        stored =
            laws.placements_kept m s' (settled w ready) w.spec.id u
            ∙ laws.get_set s m w.spec.id ps e;
        planned = refl;
        complete = all.0;
        acknowledged = all.1;
      }

  -- the same once the plan is made
  carried :
      (s s' : S) (nodes : List Node) (w t : Tracked) (o : Option Decision)
      → plan f nodes w.spec ≡ o
      → Keeps c
      → ((u : S) (v : Tracked) → (c.update_workload u v).1 ≡ none)
      → 0 < w.spec.replicas
      → w.spec.replicas < 2147483648
      → with_plan c f notifier s w o ≡ some (s', none)
      → c.get_workload s' w.project_id w.spec.id ≡ value t
      → t.status.available ≡ true
      → Serving s' nodes w
  carried s s' nodes w t none o laws works pos small h got up = ground (arith, h)
  carried s s' nodes w t (some d) o laws works pos small h got up =
      elim (Bool-cases (not (same d.unscheduled []) && is_empty d.placements)) [
        | inl q ↦
            let v = unavailable w d.unscheduled in
            let p = c.update_workload s v in
            let e : p ≡ (s', none) = pair_eq p s' none (ground (arith, h, q)) (works s v) in
            let same_t : value v ≡ value t = sym (laws.get_updated s s' v e) ∙ got in
            absurd (down w t d.unscheduled same_t up)
        | inr q ↦
            let run : let ps = map (stored_placement w) d.placements in
                notify_all c f notifier w ps (c.set_placements s w.spec.id ps) ≡ (s', none) =
              ground (arith, h, q) in
            settled-Serving s s' nodes w t laws pos small
              (subst
                (λ x.
                  let ps = map (stored_placement w) (placements_of x) in
                  notify_all c f notifier w ps (c.set_placements s w.spec.id ps) ≡ (s', none))
                (sym o) run)
              got up
      ]

  -- A workload that wants a replica, and fewer than 2^31, and is stored as available after a reconciliation that
  -- succeeds, on a store whose writes of workloads do not fail, has all its replicas placed as planned, and each
  -- placement is stored and was acknowledged by its node agent.
  pub reconcile_workload-Serving :
      (s s' : S) (nodes : List Node) (w t : Tracked)
      → Keeps c
      → ((u : S) (v : Tracked) → (c.update_workload u v).1 ≡ none)
      → c.list_nodes s ≡ value nodes
      → 0 < w.spec.replicas
      → w.spec.replicas < 2147483648
      → reconcile_workload c f notifier s w ≡ some (s', none)
      → c.get_workload s' w.project_id w.spec.id ≡ value t
      → t.status.available ≡ true
      → Serving s' nodes w
  unfolding reconcile_workload
  reconcile_workload-Serving s s' nodes w t laws works listed pos small h got up =
      let run : with_plan c f notifier s w (plan f nodes w.spec) ≡ some (s', none) =
        subst (λ x. with_nodes c f notifier s w x ≡ some (s', none)) listed h in
      carried s s' nodes w t (plan f nodes w.spec) refl laws works pos small run got up
