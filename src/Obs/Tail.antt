-- ===== src/Obs/Tail.antt =====
-- `Tail` of the ring buffer of internal/primitives/obs/metrics.go returns the newest records.
use minicloud_platform.Prelude.{
  ℕ, zero, suc, ◌+◌, ◌≤◌, ◌<◌, ◌≡◌, refl, subst, ◌∙◌, inl, inr, false, Option, none, some, List, [],
  ◌∷◌, arith, if◌then◌else◌, Bool-cases, length, get_elem?,
}
use minicloud_platform.Prelude.Int64.{lt_i64, IsSmall}
use minicloud_platform.Obs.Logs.{LogRecord, Logs, new_logs, size_of, count, least, tail, tail_from}
use minicloud_platform.Obs.Ring.{Holds, new_logs-Holds, append_all, append_all-Holds, onto}

-- the first elements
abbrev pub take : ℕ → List LogRecord → List LogRecord
take zero xs = []
take (suc n) [] = []
take (suc n) (x ∷ xs) = x ∷ take n xs

abbrev drop : ℕ → List LogRecord → List LogRecord
drop zero xs = xs
drop (suc n) [] = []
drop (suc n) (x ∷ xs) = drop n xs

take-drop :
    (i k : ℕ) (h : List LogRecord)
    → i < length h
    → (r : LogRecord) × (get_elem? h i ≡ some r)
      × (take (suc k) (drop i h) ≡ r ∷ take k (drop (suc i) h))
take-drop i k [] lt = ground (arith, lt)
take-drop zero k (x ∷ h) lt = (x, refl, refl)
take-drop (suc i) k (x ∷ h) lt = take-drop i k h (omega (arith, lt))

tail_from-take :
    (l : Logs) (h : List LogRecord) (i k : ℕ)
    → Holds l h
    → i + k ≤ count l
    → i + k ≤ length h
    → tail_from l i k ≡ some (take k (drop i h))
unfolding tail_from
tail_from-take l h i zero v le lh = refl
tail_from-take l h i (suc k) v le lh =
    let (r, e, s) = take-drop i k h (omega (arith, lh)) in
    let g = v.recent i (omega (arith, le)) ∙ e in
    let one : i + 1 ≡ suc i = omega arith in
    let ih =
      subst (λ j. tail_from l (i + 1) k ≡ some (take k (drop j h))) one
        (tail_from-take l h (i + 1) k v (omega (arith, le)) (omega (arith, lh))) in
    rw (tail_from, g, ih, s) refl

count-Holds : (l : Logs) (h : List LogRecord) → Holds l h → count l ≡ least l.max_size (length h)
count-Holds l h v = elim (Bool-cases l.full) [
  | inl q ↦ ground (arith, q, v.grown q)
  | inr q ↦ ground (arith, q, v.growing q, v.within)
]

-- `Tail` of a buffer that holds a history
pub tail-Holds :
    (l : Logs) (h : List LogRecord) (n : ℕ)
    → Holds l h
    → IsSmall n
    → tail l n ≡ some (take (least n (least l.max_size (length h))) h)
unfolding tail
tail-Holds l h n v small =
    let c : count l ≡ least l.max_size (length h) = count-Holds l h v in
    let pos : lt_i64 n 0 ≡ false = ground (arith, small) in
    let r : least (if lt_i64 l.max_size n then l.max_size else n) (count l)
        ≡ least n (least l.max_size (length h)) =
      rw (c) (ground (arith, small, v.small)) in
    let m =
      tail_from-take l h 0 (least n (least l.max_size (length h))) v (rw (c) (ground arith))
        (ground arith) in
    rw (pos, r) m

length-onto : (rs h : List LogRecord) → length (onto rs h) ≡ length rs + length h
length-onto [] h = omega arith
length-onto (r ∷ rs) h = length-onto rs (r ∷ h) ∙ omega arith

-- what `Tail(n)` returns after the records have been appended to a new buffer
abbrev pub tail_after : List LogRecord → ℕ → ℕ → Option (List LogRecord)
tail_after rs size n = elim (append_all rs (new_logs size)) [ none ↦ none | some l ↦ tail l n ]

-- For sizes below 2^62: after any records have been appended to a new buffer, which does not panic,
-- `Tail(n)` returns the last n of them, or all that the buffer has room for, the newest first.
pub tail-append_all :
    (rs : List LogRecord) (size n : ℕ)
    → IsSmall size
    → IsSmall n
    → tail_after rs size n ≡ some (take (least n (least (size_of size) (length rs))) (onto rs []))
unfolding new_logs
tail-append_all rs size n hs hn =
    let (l, e, v, m) = append_all-Holds rs (new_logs size) [] (new_logs-Holds size hs) in
    let c : length (onto rs []) ≡ length rs = length-onto rs [] ∙ omega arith in
    rw (tail_after, e)
      (subst (λ k. tail l n ≡ some (take (least n (least k (length rs))) (onto rs []))) m
        (subst (λ k. tail l n ≡ some (take (least n (least l.max_size k)) (onto rs []))) c
          (tail-Holds l (onto rs []) n v hn)))
