-- ===== src/Mq/Number.antt =====
-- The retry counter of internal/primitives/mq/mq.go as text: `itoa`, and the loop of `deliverOnce`
-- that reads the header. An `int` is a 64-bit pattern (Prelude/Int64).
use minicloud_platform.Prelude.Int64.{i64, min_i64}
use minicloud_platform.Prelude.{
  ℕ, zero, suc, ◌+◌, ◌-◌, ◌*◌, ◌/◌, ◌%◌, ◌||◌, Option, none, some, [], ◌∷◌, ltb, leb, ◌==◌,
  if◌then◌else◌, Bytes,
}

-- `for _, c := range v { if c < '0' || c > '9' { break }; retries = retries*10 + int(c-'0') }`
unfoldable pub read_digits : ℕ → Bytes → ℕ
read_digits n [] = n
read_digits n (c ∷ s) =
    let rest = read_digits (i64 (n * 10 + (c - b'0'))) s in
    if ltb c b'0' || ltb b'9' c then n else rest

-- The loop of `itoa` over its buffer: `slots` bytes in front of `tail` are free. With none left the
-- index is out of range, a panic: `none`.
unfoldable pub fill : ℕ → ℕ → Bytes → Option Bytes
fill zero n tail = if n == 0 then some tail else none
fill (suc slots) n tail =
    let rest = fill slots (n / 10) ((b'0' + n % 10) ∷ tail) in if n == 0 then some tail else rest

-- The loop is not entered for a negative number.
unfoldable pub itoa : ℕ → Option Bytes
itoa n = if n == 0 then some (b'0' ∷ []) else if leb min_i64 n then some [] else fill 16 n []
