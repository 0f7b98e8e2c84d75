-- ===== src/Obs/Rules.antt =====
-- `Alerts` of internal/primitives/obs/alerts.go: Add, and a whole pass of Evaluate over the rules and the map of their
-- states. A rule without a state is a nil pointer, on which Go panics; a pass that does has no result.
use minicloud_platform.Prelude.{
  subst, inr, inl, Bool-cases, ℕ, ◌≡◌, ◌≢◌, refl, sym, ap, ◌∙◌, Option, none, some, List, [], ◌∷◌,
  ◌++◌, All, All-imp, Bytes, Dict, lookup, insert, lookup-insert, lookup-insert_self,
  lookup-insert_ne, same,
}
use mathlib.Core.Option
use minicloud_platform.Obs.Alerts.{
  Numbers, AlertRule, Alarm, quiet, Signal, silent, fires, resolves, eval_expr, evaluate_rule,
}

pub record AlertState (F : Type 0) : Type 0 where
  pub id : Bytes
  pub alarm : Alarm
  pub last_value : F
  pub last_evaluated : ℕ

pub record Alerts (F : Type 0) : Type 0 where
  pub rules : List AlertRule
  pub states : Dict (AlertState F)

-- what a pass has returned and changed so far
pub record Pass (F : Type 0) : Type 0 where
  pub firing : List (AlertState F)
  pub resolved : List (AlertState F)
  pub states : Dict (AlertState F)

-- The state that is returned is a copy: of one that has just become firing, or of one that still is.
abbrev pub passed : {F : Type 0} → Signal → Bytes → AlertState F → AlertState F → Pass F → Pass F
passed silent id old st p = record p { states = insert id st p.states }
passed fires id old st p = record p { firing = p.firing ++ st ∷ []; states = insert id st p.states }
passed resolves id old st p = record p {
  resolved = p.resolved ++ (record st { alarm = old.alarm }) ∷ [];
  states = insert id st p.states;
}

module _ (n : Numbers) where
  unfoldable pub add : AlertRule → Alerts n.F → Alerts n.F
  add r a = record {
    rules = a.rules ++ r ∷ [];
    states =
        insert r.id
          (record { id = r.id; alarm = quiet; last_value = n.zero_value; last_evaluated = 0 })
          a.states;
  }

  abbrev pub value_or_zero : Option n.F → n.F
  value_or_zero none = n.zero_value
  value_or_zero (some v) = v

  -- one rule: the state after it
  unfoldable pub next_state : ℕ → List (Bytes × n.F) → AlertRule → AlertState n.F → AlertState n.F
  next_state now ms r st = record st {
    alarm = (evaluate_rule n now r ms st.alarm).1;
    last_value = value_or_zero (eval_expr n r.expression ms);
    last_evaluated = now;
  }

  abbrev pub visit : ℕ → List (Bytes × n.F) → AlertRule → AlertState n.F → Pass n.F → Pass n.F
  visit now ms r st p =
      passed (evaluate_rule n now r ms st.alarm).0 r.id st (next_state now ms r st) p

  unfoldable pub evaluate_from :
      ℕ → List (Bytes × n.F) → List AlertRule → Pass n.F → Option (Pass n.F)
  evaluate_from now ms [] p = some p
  evaluate_from now ms (r ∷ rs) p = elim (lookup r.id p.states) [
    | none ↦ none
    | some st ↦ evaluate_from now ms rs (visit now ms r st p)
  ]

  unfoldable pub evaluate : ℕ → List (Bytes × n.F) → Alerts n.F → Option (Pass n.F)
  evaluate now ms a =
      evaluate_from now ms a.rules (record { firing = []; resolved = []; states = a.states })

-- no id twice
abbrev pub IsDistinct : List AlertRule → Type 0
IsDistinct [] = Unit
IsDistinct (r ∷ rs) = All (λ x. r.id ≢ x.id) rs × IsDistinct rs

abbrev pub HasState : {F : Type 0} → Dict (AlertState F) → AlertRule → Type 0
HasState {F} d r = (st : AlertState F) × (lookup r.id d ≡ some st)

states-passed :
    {F : Type 0} (g : Signal) (id : Bytes) (old st : AlertState F) (p : Pass F)
    → (passed g id old st p).states ≡ insert id st p.states
states-passed silent id old st p = refl
states-passed fires id old st p = refl
states-passed resolves id old st p = refl

insert-HasState :
    {F : Type 0} (id : Bytes) (new : AlertState F) (d : Dict (AlertState F)) (r : AlertRule)
    → HasState d r
    → HasState (insert id new d) r
insert-HasState id new d r (st, e) = elim (Bool-cases (same id r.id)) [
  | inl q ↦ (new, rw (lookup-insert id r.id new d, q) refl)
  | inr q ↦ (st, rw (lookup-insert id r.id new d, q) e)
]

module _ (n : Numbers) (now : ℕ) (ms : List (Bytes × n.F)) where
  -- the state of a rule in `e` is what the rule alone makes of that in `d`
  abbrev pub Moved : Dict (AlertState n.F) → Dict (AlertState n.F) → AlertRule → Type 0
  Moved d e r =
      (st : AlertState n.F)
      → lookup r.id d ≡ some st
      → lookup r.id e ≡ some (next_state n now ms r st)

  Moved-insert :
      (id : Bytes) (new : AlertState n.F) (d e : Dict (AlertState n.F)) (rs : List AlertRule)
      → All (λ x. id ≢ x.id) rs
      → All (Moved (insert id new d) e) rs
      → All (Moved d e) rs
  Moved-insert id new d e [] ne h = tt
  Moved-insert id new d e (r ∷ rs) ne h = (
    λ st l. h.0 st (lookup-insert_ne id r.id new d ne.0 ∙ l),
    Moved-insert id new d e rs ne.1 h.1,
  )

  -- The end of a pass: each rule has moved, and no other state has.
  evaluate_from_lem :
      (rs : List AlertRule) (p : Pass n.F)
      → IsDistinct rs
      → All (HasState p.states) rs
      → (q : Pass n.F) × (evaluate_from n now ms rs p ≡ some q)
        × All (Moved p.states q.states) rs
        × ((k : Bytes) → All (λ x. x.id ≢ k) rs → lookup k q.states ≡ lookup k p.states)
  unfolding evaluate_from
  evaluate_from_lem [] p d h = (p, refl, tt, λ k _. refl)
  evaluate_from_lem (r ∷ rs) p d h =
      let (st, found) = h.0 in
      let new = next_state n now ms r st in
      let p' = visit n now ms r st p in
      let states' = states-passed (evaluate_rule n now r ms st.alarm).0 r.id st new p in
      let have = All-imp (λ x. insert-HasState r.id new p.states x) rs h.1 in
      let (q, run, moved, frame) =
        evaluate_from_lem rs p' d.1 (subst (λ m. All (HasState m) rs) (sym states') have) in
      let at = λ (k : Bytes). ap (lookup k) states' in
      let apart : All (λ x. x.id ≢ r.id) rs = All-imp (λ x ne e. ne (sym e)) rs d.0 in
      (
        q,
        rw (found, evaluate_from) run,
        (
          λ st' l.
              frame r.id apart
              ∙ (at r.id
                  ∙ (lookup-insert_self r.id new p.states
                      ∙ ap (Option.map (next_state n now ms r)) (sym found ∙ l))),
          Moved-insert r.id new p.states q.states rs d.0
              (subst (λ m. All (Moved m q.states) rs) states' moved),
        ),
        λ k ne. frame k ne.1 ∙ (at k ∙ lookup-insert_ne r.id k new p.states ne.0),
      )

-- If no id stands twice among the rules and each has a state, Evaluate does not panic; afterwards the state of each
-- rule is what that rule alone makes of its state before, and a state whose id no rule has is as it was.
pub evaluate_lem :
    (n : Numbers) (now : ℕ) (ms : List (Bytes × n.F)) (a : Alerts n.F)
    → IsDistinct a.rules
    → All (HasState a.states) a.rules
    → (q : Pass n.F) × (evaluate n now ms a ≡ some q)
      × All (Moved n now ms a.states q.states) a.rules
      × ((k : Bytes) → All (λ x. x.id ≢ k) a.rules → lookup k q.states ≡ lookup k a.states)
unfolding evaluate
evaluate_lem n now ms a d h =
    evaluate_from_lem n now ms a.rules (record { firing = []; resolved = []; states = a.states }) d
      h
