-- ===== src/Obs/Alerts.antt =====
-- The alert rules of internal/primitives/obs/alerts.go. float64, `strings.TrimSpace` and `fmt.Sscanf` are
-- parameters. A snapshot of the metrics is given as names and values. Times are numbers, of which zero
-- is the zero time, and durations are not negative.
use minicloud_platform.Prelude.{
  ℕ, zero, suc, ◌+◌, Bool, true, false, not, Option, none, some, List, [], ◌∷◌, leb, ◌==◌,
  if◌then◌else◌, length, Bytes, codes, same, starts_with,
}
use mathlib.Core.Option

pub data Op : Type 0 where
  ge le eq ne gt lt : Op

abbrev pub text_of : Op → Bytes
text_of ge = codes ">="
text_of le = codes "<="
text_of eq = codes "=="
text_of ne = codes "!="
text_of gt = codes ">"
text_of lt = codes "<"

pub record Numbers : Type 1 where
  pub F : Type 0
  pub zero_value : F
  pub add : F → F → F
  pub compare_op : Op → F → F → Bool
  pub scan : Bytes → Option F
  pub trim : Bytes → Bytes

-- `indexOutside`; the flag says that the place is in a label block
unfoldable pub index_outside : Bool → Bytes → Bytes → Option ℕ
index_outside inside [] op = none
index_outside true (c ∷ s) op = Option.map suc (index_outside (not (c == b'}')) s op)
index_outside false (c ∷ s) op =
    let skipped = Option.map suc (index_outside true s op) in
    let next = Option.map suc (index_outside false s op) in
    if c == b'{' then skipped else if starts_with (c ∷ s) op then some 0 else next

abbrev pub take_bytes : ℕ → Bytes → Bytes
take_bytes zero s = []
take_bytes (suc n) [] = []
take_bytes (suc n) (c ∷ s) = c ∷ take_bytes n s

abbrev pub drop_bytes : ℕ → Bytes → Bytes
drop_bytes zero s = s
drop_bytes (suc n) [] = []
drop_bytes (suc n) (c ∷ s) = drop_bytes n s

abbrev pub all_ops : List Op
all_ops = ge ∷ le ∷ eq ∷ ne ∷ gt ∷ lt ∷ []

pub record AlertRule : Type 0 where
  pub id : Bytes
  pub expression : Bytes
  pub for_at_least : ℕ

module _ (n : Numbers) where
  -- the name, the operator and the threshold at an index
  abbrev pub parts_at : Bytes → Op → ℕ → Option (Bytes × (Op × n.F))
  parts_at e op i =
      Option.map (λ v. (n.trim (take_bytes i e), (op, v)))
        (n.scan (n.trim (drop_bytes (i + length (text_of op)) e)))

  -- The first operator that is found decides.
  unfoldable pub split_by : Bytes → List Op → Option (Bytes × (Op × n.F))
  unfolding index_outside
  split_by e [] = none
  split_by e (op ∷ ops) =
      let rest = split_by e ops in
      elim (index_outside false e (text_of op)) [ none ↦ rest | some i ↦ parts_at e op i ]

  abbrev pub split_expr : Bytes → Option (Bytes × (Op × n.F))
  split_expr e = split_by e all_ops

  -- the sum of the values under a name, if there are any
  unfoldable pub sum_of : Bytes → List (Bytes × n.F) → n.F → Bool → Option n.F
  sum_of name [] sum found = if found then some sum else none
  sum_of name ((m, v) ∷ ms) sum found =
      if same m name then sum_of name ms (n.add sum v) true else sum_of name ms sum found

  unfoldable pub eval_expr : Bytes → List (Bytes × n.F) → Option n.F
  unfolding split_by sum_of
  eval_expr e ms = elim (split_expr e) [
    | none ↦ none
    | some (name, _) ↦ sum_of name ms n.zero_value false
  ]

  unfoldable pub matches_threshold : Bytes → n.F → Bool
  unfolding split_by
  matches_threshold e v = elim (split_expr e) [
    | none ↦ false
    | some (_, (op, t)) ↦ n.compare_op op v t
  ]

-- the part of an alert's state that decides
pub record Alarm : Type 0 where
  pub firing : Bool
  pub pending_since : ℕ

abbrev pub quiet : Alarm
quiet = record { firing = false; pending_since = 0 }

pub data Signal : Type 0 where
  silent fires resolves : Signal

-- what `Evaluate` does once the expression has a value, which matches the threshold or does not
unfoldable pub settle : ℕ → ℕ → Bool → Alarm → Signal × Alarm
settle now for true st =
    if st.firing
    then (silent, st)
    else if st.pending_since == 0
    then (silent, record st { pending_since = now })
    else if leb (st.pending_since + for) now
    then (fires, record st { firing = true })
    else (silent, st)
settle now for false st =
    (if st.firing then resolves else silent, record st { firing = false; pending_since = 0 })

-- an expression without a value leaves the state as it is
abbrev pub settle_value : (n : Numbers) → ℕ → AlertRule → Option n.F → Alarm → Signal × Alarm
settle_value n now r none st = (silent, st)
settle_value n now r (some v) st = settle now r.for_at_least (matches_threshold n r.expression v) st

-- one rule of `Evaluate`
unfoldable pub evaluate_rule :
    (n : Numbers) → ℕ → AlertRule → List (Bytes × n.F) → Alarm → Signal × Alarm
unfolding settle eval_expr matches_threshold
evaluate_rule n now r ms st = settle_value n now r (eval_expr n r.expression ms) st
