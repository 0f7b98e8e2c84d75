-- ===== src/Prelude/Int64.antt =====
-- 64-bit signed integers of Go as bit patterns: a pattern from 2^63 on stands for a negative number.
-- Narrower signed integers are held sign-extended.
use minicloud_platform.Prelude.{ℕ, ◌+◌, ◌-◌, ◌/◌, ◌%◌, ◌<◌, Bool, ltb, leb, if◌then◌else◌}

abbrev pub i64 : ℕ → ℕ
i64 n = n % 18446744073709551616

abbrev pub min_i64 : ℕ
min_i64 = 9223372036854775808

abbrev pub add_i64 : ℕ → ℕ → ℕ
add_i64 a b = i64 (a + b)

abbrev pub sub_i64 : ℕ → ℕ → ℕ
sub_i64 a b = i64 (a + 18446744073709551616 - b)

abbrev pub is_negative : ℕ → Bool
is_negative a = leb min_i64 a

-- `a <= b` and `a < b`
abbrev pub le_i64 : ℕ → ℕ → Bool
le_i64 a b = leb (i64 (a + min_i64)) (i64 (b + min_i64))

abbrev pub lt_i64 : ℕ → ℕ → Bool
lt_i64 a b = ltb (i64 (a + min_i64)) (i64 (b + min_i64))

abbrev pub magnitude : ℕ → ℕ
magnitude a = if is_negative a then 18446744073709551616 - a else a

abbrev pub negate : ℕ → ℕ
negate a = i64 (18446744073709551616 - a)

-- `a / b` for `b != 0`: the quotient is cut towards zero.
abbrev pub div_i64 : ℕ → ℕ → ℕ
div_i64 a b =
    let q = magnitude a / magnitude b in
    if is_negative a
    then (if is_negative b then i64 q else negate q)
    else if is_negative b
    then negate q
    else q

-- small numbers
abbrev pub IsSmall : ℕ → Type 0
IsSmall a = a < 4611686018427387904

-- an `int32`, sign-extended
abbrev pub to_i32 : ℕ → ℕ
to_i32 n = let m = n % 4294967296 in if ltb m 2147483648 then m else m + 18446744069414584320
