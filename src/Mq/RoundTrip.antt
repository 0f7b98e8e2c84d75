-- ===== src/Mq/RoundTrip.antt =====
-- The retry counter of internal/primitives/mq/mq.go is read back as it was written.
use minicloud_platform.Prelude.{
  ℕ, zero, suc, ◌+◌, ◌-◌, ◌*◌, ◌/◌, ◌%◌, ◌<◌, ◌≡◌, refl, ap, ◌∙◌, inl, inr, true, false, some, [],
  ◌∷◌, arith, leb, ◌==◌, leb-false, Bool-cases, Bytes,
}
use minicloud_platform.Prelude.Int64.{i64, min_i64}
use minicloud_platform.Mq.Number.{read_digits, fill, itoa}

-- reading a prefix of digits is a shift by their number
read_digits-cons :
    (acc d : ℕ) (s : Bytes)
    → d < 10
    → acc * 10 + d < 9223372036854775808
    → read_digits acc ((b'0' + d) ∷ s) ≡ read_digits (acc * 10 + d) s
unfolding read_digits
read_digits-cons acc d s h b =
    let e : i64 (acc * 10 + (b'0' + d - b'0')) ≡ acc * 10 + d = omega arith in
    ground (arith, ap (λ n. read_digits n s) e)

-- The loop of `itoa` writes the digits in front of `tail`; the reader takes them off again.
read_digits-fill :
    (slots n : ℕ) (tail s : Bytes)
    → n < 9223372036854775808
    → fill slots n tail ≡ some s
    → read_digits 0 s ≡ read_digits n tail
unfolding fill
read_digits-fill zero n tail s h e = ground arith
read_digits-fill (suc k) n tail s h e = elim (Bool-cases (n == 0)) [
  | inl q ↦ ground (arith, q)
  | inr q ↦
      let more : fill k (n / 10) ((b'0' + n % 10) ∷ tail) ≡ some s = ground (arith, q) in
      let ih = read_digits-fill k (n / 10) ((b'0' + n % 10) ∷ tail) s (omega arith) more in
      let split : n / 10 * 10 + n % 10 ≡ n = omega arith in
      ih
      ∙ read_digits-cons (n / 10) (n % 10) tail (omega arith) (omega arith)
      ∙ ap (λ m. read_digits m tail) split
]

abbrev pow10 : ℕ → ℕ
pow10 zero = 1
pow10 (suc k) = 10 * pow10 k

fill_total :
    (slots n : ℕ) (tail : Bytes) → n < pow10 slots → (s : Bytes) × (fill slots n tail ≡ some s)
unfolding fill
fill_total zero n tail h = (tail, ground arith)
fill_total (suc k) n tail h = elim (Bool-cases (n == 0)) [
  | inl q ↦ (tail, rw q)
  | inr q ↦
      let more = fill_total k (n / 10) ((b'0' + n % 10) ∷ tail) (omega arith) in
      (more.0, rw q more.1)
]

-- Every count below 10^16 is printed, and read back as it was.
pub itoa_total :
    (n : ℕ) → n < 10000000000000000 → (s : Bytes) × (itoa n ≡ some s) × (read_digits 0 s ≡ n)
unfolding itoa
itoa_total n h = elim (Bool-cases (n == 0)) [
  | inl q ↦ (b'0' ∷ [], rw q, zero_case q)
  | inr q ↦
      let big : leb min_i64 n ≡ false = leb-false min_i64 n (omega arith) in
      let out = fill_total 16 n [] h in
      (
        out.0,
        rw q (rw big out.1),
        read_digits-fill 16 n [] out.0 (omega arith) out.1 ∙ unfold read_digits in refl,
      )
]
  where
    zero_case : (n == 0) ≡ true → read_digits 0 (b'0' ∷ []) ≡ n
    zero_case q = unfold read_digits in ground (arith, q)
