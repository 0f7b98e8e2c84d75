-- ===== src/Obs/Ring.antt =====
-- What the ring buffer of internal/primitives/obs/metrics.go keeps: the last records, newest first.
use minicloud_platform.Prelude.{
  ℕ, zero, suc, ◌+◌, ◌%◌, ◌≤◌, ◌<◌, ◌≡◌, refl, sym, ap, ◌∙◌, ◌≢◌, ◌⊎◌, inl, inr, Bool, true, false,
  Option, none, some, List, [], ◌∷◌, arith, ltb, leb, ◌==◌, leb-false, ltb→lt, Bool-cases, length,
  get_elem?, set, length-set, get_elem?-set_self, get_elem?-set_ne,
}
use native.Mathlib.Nat.{mod-eq_of_lt, mod_self}
use minicloud_platform.Prelude.Int64.{add_i64, IsSmall}
use minicloud_platform.Obs.Logs.{LogRecord, Logs, zeroes, new_logs, size_of, append, count, index}

-- The buffer holds the newest records of a history, which is listed from the newest on.
pub record Holds (l : Logs) (h : List LogRecord) : Type 0 where
  pub size : length l.ring ≡ l.max_size
  pub small : IsSmall l.max_size
  pub within : l.next < l.max_size
  pub growing : l.full ≡ false → length h ≡ l.next
  pub grown : l.full ≡ true → l.max_size ≤ length h
  pub recent : (i : ℕ) → i < count l → get_elem? l.ring (index l i) ≡ get_elem? h i

abbrev pushed : LogRecord → Logs → ℕ → Bool → Logs
pushed rec l next full = record l { ring = set l.ring l.next rec; next = next; full = full }

-- where the index moves to
add_one :
    (n m : ℕ)
    → IsSmall m
    → n < m
    → ((n + 1 < m) × (add_i64 n 1 % m ≡ n + 1)) ⊎ ((n + 1 ≡ m) × (add_i64 n 1 % m ≡ 0))
add_one n m hm h =
    let s : add_i64 n 1 ≡ n + 1 = omega arith in
    elim (Bool-cases (ltb (n + 1) m)) [
      | inl q ↦ let lt = ltb→lt (n + 1) m q in inl (lt, rw (s) (mod-eq_of_lt lt))
      | inr q ↦ let e : n + 1 ≡ m = ground (arith, q) in inr (e, rw (s, e) (mod_self m))
    ]

module _ (rec : LogRecord) (l : Logs) (h : List LogRecord) (v : Holds l h) where
  -- one place that is not the written one
  older :
      (n : ℕ) (f : Bool) (i j : ℕ)
      → index (pushed rec l n f) i ≡ index l j
      → index l j ≢ l.next
      → j < count l
      → get_elem? (set l.ring l.next rec) (index (pushed rec l n f) i) ≡ get_elem? h j
  older n f i j e ne lt =
      rw (e) (get_elem?-set_ne l.ring l.next (index l j) rec (λ q. ne (sym q)) ∙ v.recent j lt)

  newest :
      (n : ℕ) (f : Bool) (i : ℕ)
      → index (pushed rec l n f) i ≡ l.next
      → get_elem? (set l.ring l.next rec) (index (pushed rec l n f) i) ≡ some rec
  newest n f i e = rw (e) (get_elem?-set_self l.ring l.next rec (omega (arith, v.size, v.within)))

  inside_recent :
      (i : ℕ)
      → i < count (pushed rec l (l.next + 1) l.full)
      → get_elem? (set l.ring l.next rec) (index (pushed rec l (l.next + 1) l.full) i)
        ≡ get_elem? (rec ∷ h) i
  unfolding index
  inside_recent zero lt = newest (l.next + 1) l.full 0 (ground arith)
  inside_recent (suc j) lt =
      older (l.next + 1) l.full (suc j) j (ground (arith, lt)) (ground (arith, lt, v.within))
        (ground (arith, lt))

  inside : l.next + 1 < l.max_size → Holds (pushed rec l (l.next + 1) l.full) (rec ∷ h)
  inside lt = record {
    size = length-set l.ring l.next rec ∙ v.size;
    small = v.small;
    within = lt;
    growing = λ f. omega (arith, v.growing f);
    grown = λ f. omega (arith, v.grown f);
    recent = inside_recent;
  }

  wrapped_recent :
      (i : ℕ)
      → l.next + 1 ≡ l.max_size
      → i < l.max_size
      → get_elem? (set l.ring l.next rec) (index (pushed rec l 0 true) i) ≡ get_elem? (rec ∷ h) i
  unfolding index
  wrapped_recent zero e lt = newest 0 true 0 (ground (arith, e))
  wrapped_recent (suc j) e lt =
      older 0 true (suc j) j (ground (arith, lt, e)) (ground (arith, lt, e)) (ground (arith, lt, e))

  long_enough : l.next + 1 ≡ l.max_size → l.max_size ≤ suc (length h)
  long_enough e = elim (Bool-cases l.full) [
    | inl q ↦ omega (arith, v.grown q)
    | inr q ↦ omega (arith, v.growing q, e)
  ]

  wrapped : l.next + 1 ≡ l.max_size → Holds (pushed rec l 0 true) (rec ∷ h)
  wrapped e = record {
    size = length-set l.ring l.next rec ∙ v.size;
    small = v.small;
    within = omega (arith, e);
    growing = λ f. ground (arith, f);
    grown = λ f. long_enough e;
    recent = λ i lt. wrapped_recent i e lt;
  }

-- `Append` does not panic, and the buffer holds the new record and the old ones.
pub append-Holds :
    (rec : LogRecord) (l : Logs) (h : List LogRecord)
    → Holds l h
    → (l2 : Logs) × (append rec l ≡ some l2) × Holds l2 (rec ∷ h) × (l2.max_size ≡ l.max_size)
unfolding append
append-Holds rec l h v =
    let b : leb (length l.ring) l.next ≡ false =
      leb-false (length l.ring) l.next (omega (arith, v.size, v.within)) in
    let z : (l.max_size == 0) ≡ false = ground (arith, v.within) in
    elim (add_one l.next l.max_size v.small v.within) [
      | inl (lt, e) ↦
          let nz : (l.next + 1 == 0) ≡ false = ground arith in
          (pushed rec l (l.next + 1) l.full, rw (b, z, e, nz) refl, inside rec l h v lt, refl)
      | inr (q, e) ↦ (pushed rec l 0 true, rw (b, z, e) refl, wrapped rec l h v q, refl)
    ]

length-zeroes : (n : ℕ) → length (zeroes n) ≡ n
unfolding zeroes
length-zeroes zero = refl
length-zeroes (suc n) = ap suc (length-zeroes n)

pub new_logs-Holds : (n : ℕ) → IsSmall n → Holds (new_logs n) []
unfolding new_logs
new_logs-Holds n h = record {
  size = length-zeroes (size_of n);
  small = ground (arith, h);
  within = ground (arith, h);
  growing = λ f. refl;
  grown = λ f. ground (arith, f);
  recent = λ i lt. ground (arith, lt);
}

-- `Append` of each record in turn
unfoldable pub append_all : List LogRecord → Logs → Option Logs
append_all [] l = some l
append_all (r ∷ rs) l = elim (append r l) [ none ↦ none | some l2 ↦ append_all rs l2 ]

-- the records in front of a history, the last one first
abbrev pub onto : List LogRecord → List LogRecord → List LogRecord
onto [] h = h
onto (r ∷ rs) h = onto rs (r ∷ h)

pub append_all-Holds :
    (rs : List LogRecord) (l : Logs) (h : List LogRecord)
    → Holds l h
    → (l2 : Logs) × (append_all rs l ≡ some l2) × Holds l2 (onto rs h) × (l2.max_size ≡ l.max_size)
unfolding append_all
append_all-Holds [] l h v = (l, refl, v, refl)
append_all-Holds (r ∷ rs) l h v =
    let (l1, e, v1, m1) = append-Holds r l h v in
    let (l2, e2, v2, m2) = append_all-Holds rs l1 (r ∷ h) v1 in
    (l2, rw (e, append_all) e2, v2, m2 ∙ m1)
