-- ===== src/Obs/Examples.antt =====
-- Runs of the ring buffer of internal/primitives/obs at concrete inputs.
use minicloud_platform.Prelude.{
  ◌≢◌, insert, All, ℕ, ◌/◌, leb, lookup, ◌+◌, ◌-◌, ◌≡◌, refl, true, none, some, List, [], ◌∷◌,
  arith, ltb, Bytes, codes, same, starts_with,
}
use minicloud_platform.Obs.Registry.{Floats, Metrics}
use minicloud_platform.Obs.Histogram.{observe_all, Holds, observe_all-Holds}
use minicloud_platform.Obs.Logs.{LogRecord, append, new_logs, tail}
use minicloud_platform.Obs.Ring.{append_all, onto}
use minicloud_platform.Obs.Tail.{tail_after, take, tail-append_all}
use minicloud_platform.Obs.Firing.{evaluated, observed, streak, start, lasted, evaluated_lem}
use minicloud_platform.Obs.Rules.{
  Alerts, Pass, add, evaluate, IsDistinct, HasState, Moved, evaluate_lem,
}
use minicloud_platform.Obs.Alerts.{Numbers, AlertRule, split_by, index_outside}

abbrev line : ℕ → LogRecord
line n = record { time = n; level = codes "info"; message = []; labels = [] }

abbrev five : List LogRecord
five = line 1 ∷ line 2 ∷ line 3 ∷ line 4 ∷ line 5 ∷ []

-- a buffer of three keeps the last three of five
tail_run : tail_after five 3 10 ≡ some (line 5 ∷ line 4 ∷ line 3 ∷ [])
unfolding append_all append new_logs tail
tail_run = refl

tail-append_all_example : tail_after five 3 10 ≡ some (take 3 (onto five []))
tail-append_all_example = tail-append_all five 3 10 (omega arith) (omega arith)

-- numbers are whole, a text has the number that its first digit says
abbrev digits : Numbers
digits = record {
  F = ℕ;
  zero_value = 0;
  add = λ a b. a + b;
  compare_op = λ op a b. ltb b a;
  scan = λ s. elim s [ [] ↦ none | c ∷ _ ↦ some (c - 48) ];
  trim = λ s. s;
}

abbrev rule : AlertRule
rule = record { id = codes "r"; expression = codes "cpu>5"; for_at_least = 15 }

-- matched at 10, 20 and 30, after a miss at 5
abbrev history : List (ℕ × List (Bytes × ℕ))
history =
    (30, (codes "cpu", 9) ∷ [])
    ∷ (20, (codes "cpu", 7) ∷ [])
    ∷ (10, (codes "cpu", 8) ∷ [])
    ∷ (5, (codes "cpu", 1) ∷ [])
    ∷ []

fires_run : (evaluated digits rule history).firing ≡ true
unfolding evaluated same starts_with split_by index_outside
fires_run = refl

evaluated_lem_example :
    let ts = streak (observed digits rule history) in
    ((evaluated digits rule history).firing ≡ lasted (start ts + 15) ts)
    × ((evaluated digits rule history).pending_since ≡ start ts)
evaluated_lem_example =
    evaluated_lem digits rule history (omega arith, (omega arith, (omega arith, (omega arith, tt))))

-- two rules on one metric
abbrev low_rule : AlertRule
low_rule = record { id = codes "low"; expression = codes "cpu>1"; for_at_least = 0 }

abbrev both : Alerts ℕ
both = add digits low_rule (add digits rule (record { rules = []; states = [] }))

both-IsDistinct : IsDistinct both.rules
unfolding add
both-IsDistinct = ((λ e. ground (arith, e), tt), (tt, tt))

both_states : All (HasState both.states) both.rules
unfolding lookup insert same add
both_states = ((_, refl), ((_, refl), tt))

evaluate_lem_example :
    (q : Pass ℕ) × (evaluate digits 10 ((codes "cpu", 8) ∷ []) both ≡ some q)
    × All (Moved digits 10 ((codes "cpu", 8) ∷ []) both.states q.states) both.rules
    × ((k : Bytes) → All (λ x. x.id ≢ k) both.rules → lookup k q.states ≡ lookup k both.states)
evaluate_lem_example =
    evaluate_lem digits 10 ((codes "cpu", 8) ∷ []) both both-IsDistinct both_states

-- the same numbers for the registry
abbrev whole : Floats
whole = record {
  F = ℕ;
  zero_value = 0;
  one = 1;
  add = λ a b. a + b;
  div = λ a b. a / b;
  of_count = λ n. n;
  at_most = λ a b. leb a b;
  format = λ n. n ∷ [];
  quote = λ s. s;
  decimal = λ n. n ∷ [];
}

-- samples of 3, 12 and 7 in buckets up to 5 and 10
observe_all-Holds_example :
    (m : Metrics whole) × (observe_all whole (codes "lat") [] (5 ∷ 10 ∷ []) (7 ∷ 12 ∷ 3 ∷ []) []
      ≡ some m)
    × Holds whole (codes "lat") [] (5 ∷ 10 ∷ []) (7 ∷ 12 ∷ 3 ∷ []) m
unfolding lookup
observe_all-Holds_example =
    observe_all-Holds whole (codes "lat") [] (5 ∷ 10 ∷ []) (12 ∷ 3 ∷ []) 7 [] (omega arith) refl
