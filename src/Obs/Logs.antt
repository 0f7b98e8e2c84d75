-- ===== src/Obs/Logs.antt =====
-- The ring buffer of log records of internal/primitives/obs/metrics.go.
use minicloud_platform.Prelude.{
  ℕ, zero, suc, ◌+◌, ◌-◌, ◌%◌, Bool, true, false, ◌||◌, Option, none, some, List, [], ◌∷◌, ltb, leb,
  ◌==◌, if◌then◌else◌, length, get_elem?, set, Bytes, Dict,
}
use mathlib.Core.Option
use minicloud_platform.Prelude.Int64.{add_i64, le_i64, lt_i64}

-- Times are numbers.
pub record LogRecord : Type 0 where
  pub time : ℕ
  pub level : Bytes
  pub message : Bytes
  pub labels : Dict Bytes

-- `next` and `max_size` are ints, held as bit patterns.
pub record Logs : Type 0 where
  pub ring : List LogRecord
  pub next : ℕ
  pub full : Bool
  pub max_size : ℕ

abbrev pub empty_record : LogRecord
empty_record = record { time = 0; level = []; message = []; labels = [] }

-- `make([]LogRecord, n)`
unfoldable pub zeroes : ℕ → List LogRecord
zeroes zero = []
zeroes (suc n) = empty_record ∷ zeroes n

abbrev pub size_of : ℕ → ℕ
size_of max_size = if le_i64 max_size 0 then 1024 else max_size

unfoldable pub new_logs : ℕ → Logs
unfolding zeroes
new_logs max_size =
    let size = size_of max_size in
    record { ring = zeroes size; next = 0; full = false; max_size = size }

-- A write out of bounds, and a remainder by zero, panic: then there is no result.
unfoldable pub append : LogRecord → Logs → Option Logs
append rec l =
    if leb (length l.ring) l.next || l.max_size == 0
    then none
    else let next = add_i64 l.next 1 % l.max_size in
      some (record l {
        ring = set l.ring l.next rec;
        next = next;
        full = if next == 0 then true else l.full;
      })

abbrev pub count : Logs → ℕ
count l = if l.full then l.max_size else l.next

-- The index of the record that is `i` steps back: `next - 1 - i`, plus `max_size` if that is negative.
unfoldable pub index : Logs → ℕ → ℕ
index l i = if ltb i l.next then l.next - 1 - i else l.next + l.max_size - 1 - i

-- The loop of `Tail`, with the rounds that are left; a read out of bounds panics.
unfoldable pub tail_from : Logs → ℕ → ℕ → Option (List LogRecord)
unfolding index
tail_from l i zero = some []
tail_from l i (suc rounds) =
    let rest = tail_from l (i + 1) rounds in
    elim (get_elem? l.ring (index l i)) [ none ↦ none | some r ↦ Option.map (λ rs. r ∷ rs) rest ]

abbrev pub least : ℕ → ℕ → ℕ
least a b = if leb a b then a else b

-- `Tail`; a negative `n` makes `make` panic.
unfoldable pub tail : Logs → ℕ → Option (List LogRecord)
unfolding tail_from
tail l n =
    if lt_i64 n 0
    then none
    else let n = if lt_i64 l.max_size n then l.max_size else n in tail_from l 0 (least n (count l))
