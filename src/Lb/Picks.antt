-- ===== src/Lb/Picks.antt =====
-- Which backends internal/lb/lb.go picks.
use minicloud_platform.Prelude.{
  ℕ, zero, suc, ◌+◌, ◌%◌, ◌<◌, ◌≡◌, refl, sym, subst, ◌∙◌, ◌⊎◌, inl, inr, Bool, true, false, some,
  List, [], ◌∷◌, arith, if◌then◌else◌, Bool-cases, either, length, get_elem?, All, All-imp, Any,
}
use native.Mathlib.Nat.{mod-lt}
use minicloud_platform.Prelude.Int64.{lt_i64, is_negative}
use minicloud_platform.Lb.Balancer.{
  picked, Strategy, round_robin, least_connections, Backend, healthy_from, conns_at, least_loaded,
  better, pick_from, pick,
}

-- A position of a healthy backend.
abbrev pub IsUp : List Backend → ℕ → Type 0
IsUp bs i = (b : Backend) × (get_elem? bs i ≡ some b) × (b.healthy ≡ true)

-- a position of a healthy backend, counted from `i` on
abbrev IsUpFrom : ℕ → List Backend → ℕ → Type 0
IsUpFrom i bs j = (k : ℕ) × (j ≡ i + k) × IsUp bs k

move_on :
    (i : ℕ) (b : Backend) (bs : List Backend) (j : ℕ)
    → IsUpFrom (i + 1) bs j
    → IsUpFrom i (b ∷ bs) j
move_on i b bs j (k, e, up) = (suc k, omega (arith, e), up)

head :
    (i : ℕ) (b : Backend) (bs : List Backend) (h : Bool)
    → b.healthy ≡ h
    → (is : List ℕ) → All (IsUpFrom i (b ∷ bs)) is
    → All (IsUpFrom i (b ∷ bs)) (if h then i ∷ is else is)
head i b bs true e is hs = ((0, omega arith, (b, refl, e)), hs)
head i b bs false e is hs = hs

healthy_from-IsUp : (i : ℕ) (bs : List Backend) → All (IsUpFrom i bs) (healthy_from i bs)
unfolding healthy_from
healthy_from-IsUp i [] = tt
healthy_from-IsUp i (b ∷ bs) =
    let rest = All-imp (move_on i b bs) (healthy_from (i + 1) bs) (healthy_from-IsUp (i + 1) bs) in
    head i b bs b.healthy refl (healthy_from (i + 1) bs) rest

-- Every position of a healthy backend is in the list.
healthy_from_complete :
    (i : ℕ) (bs : List Backend) (k : ℕ) → IsUp bs k → Any (λ j. j ≡ i + k) (healthy_from i bs)
unfolding healthy_from
healthy_from_complete i [] k (b, e, h) = ground (arith, e)
healthy_from_complete i (x ∷ bs) zero (b, e, h) =
    let q : x.healthy ≡ true = ground (arith, e, h) in
    subst
      (λ h.
        Any (λ j. j ≡ i + zero)
          (if h then i ∷ healthy_from (i + 1) bs else healthy_from (i + 1) bs))
      (sym q) (Any.here (omega arith))
healthy_from_complete i (x ∷ bs) (suc k) (b, e, h) =
    let rest =
      shifted i k (healthy_from (i + 1) bs) (healthy_from_complete (i + 1) bs k (b, e, h)) in
    either (Any (λ j. j ≡ i + suc k)) x.healthy (Any.there rest) rest
  where
    shifted : (i k : ℕ) (xs : List ℕ) → Any (λ j. j ≡ i + 1 + k) xs → Any (λ j. j ≡ i + suc k) xs
    shifted i k xs (Any.here e) = Any.here (omega (arith, e))
    shifted i k xs (Any.there a) = Any.there (shifted i k _ a)

-- no more connections, as signed numbers
abbrev pub NoMore : List Backend → ℕ → ℕ → Type 0
NoMore bs i j = lt_i64 (conns_at bs j) (conns_at bs i) ≡ false

NoMore-trans : (bs : List Backend) (i j k : ℕ) → NoMore bs i j → NoMore bs j k → NoMore bs i k
NoMore-trans bs i j k a b = ground (arith, a, b)

better_lem :
    (bs : List Backend) (best i : ℕ)
    → NoMore bs (better bs best i) best
      × NoMore bs (better bs best i) i
      × ((better bs best i ≡ best) ⊎ (better bs best i ≡ i))
better_lem bs best i = elim (Bool-cases (lt_i64 (conns_at bs i) (conns_at bs best))) [
  | inl q ↦ rw (q) (ground (arith, q), ground arith, inr refl)
  | inr q ↦ rw (q) (ground arith, q, inl refl)
]

least_loaded_lem :
    (bs : List Backend) (best : ℕ) (is : List ℕ)
    → NoMore bs (least_loaded bs best is) best
      × All (NoMore bs (least_loaded bs best is)) is
      × ((least_loaded bs best is ≡ best) ⊎ Any (λ j. j ≡ least_loaded bs best is) is)
unfolding least_loaded
least_loaded_lem bs best [] = (ground arith, tt, inl refl)
least_loaded_lem bs best (i ∷ is) =
    let (a, b, c) = least_loaded_lem bs (better bs best i) is in
    let (p, q, s) = better_lem bs best i in
    (
      NoMore-trans bs (least_loaded bs (better bs best i) is) (better bs best i) best a p,
      (NoMore-trans bs (least_loaded bs (better bs best i) is) (better bs best i) i a q, b),
      elim c [
        | inr m ↦ inr (Any.there m)
        | inl e ↦ elim s [ inl x ↦ inl (e ∙ x) | inr x ↦ inr (Any.here (sym x ∙ sym e)) ]
      ],
    )

-- a listed position has what all listed positions have
among : (P : ℕ → Type 0) (is : List ℕ) (k : ℕ) → All P is → Any (λ j. j ≡ k) is → P k
among P [] k hs a = elim a [ ]
among P (x ∷ is) k (p, hs) (Any.here e) = subst P e p
among P (x ∷ is) k (p, hs) (Any.there a) = among P is k hs a

nth :
    (P : ℕ → Type 0) (is : List ℕ) (n : ℕ)
    → All P is
    → n < length is
    → (i : ℕ) × (get_elem? is n ≡ some i) × P i
nth P [] n hs lt = ground (arith, lt)
nth P (i ∷ is) zero hs lt = (i, refl, hs.0)
nth P (i ∷ is) (suc n) hs lt = nth P is n hs.1 (omega (arith, lt))

pick_from-IsUp :
    (P : ℕ → Type 0) (strategy : Strategy) (now : ℕ) (bs : List Backend) (is : List ℕ)
    → is_negative now ≡ false
    → All P is
    → 0 < length is
    → (i : ℕ) × (pick_from strategy now bs is ≡ picked i) × P i
pick_from-IsUp P strategy now bs [] late hs lt = ground (arith, lt)
pick_from-IsUp P round_robin now bs (i ∷ is) late hs lt =
    let (k, e, h) = nth P (i ∷ is) (now % length (i ∷ is)) hs (mod-lt now lt) in
    (k, rw (late, e) refl, h)
pick_from-IsUp P least_connections now bs (i ∷ is) late hs lt =
    let (a, b, c) = least_loaded_lem bs i is in
    (
      least_loaded bs i is,
      refl,
      elim c [ inl e ↦ subst P (sym e) hs.0 | inr m ↦ among P is (least_loaded bs i is) hs.1 m ],
    )

some_listed : (k : ℕ) (is : List ℕ) → Any (λ j. j ≡ 0 + k) is → 0 < length is
some_listed k is (Any.here e) = omega arith
some_listed k is (Any.there a) = omega arith

-- counted from zero
from_zero : (bs : List Backend) (j : ℕ) → IsUpFrom 0 bs j → IsUp bs j
from_zero bs j (k, e, up) = let z : k ≡ j = omega (arith, e) in subst (IsUp bs) z up

-- As long as one backend is healthy and the clock is between 1970 and 2262, so that its nanoseconds are an int64 that
-- is not negative, each strategy picks a backend, and it is a healthy one.
pub pick-IsUp :
    (strategy : Strategy) (now : ℕ) (bs : List Backend) (k : ℕ)
    → is_negative now ≡ false
    → IsUp bs k
    → (i : ℕ) × (pick strategy now bs ≡ picked i) × IsUp bs i
unfolding pick
pick-IsUp strategy now bs k late up =
    let hs = All-imp (from_zero bs) (healthy_from 0 bs) (healthy_from-IsUp 0 bs) in
    pick_from-IsUp (IsUp bs) strategy now bs (healthy_from 0 bs) late hs
      (some_listed k (healthy_from 0 bs) (healthy_from_complete 0 bs k up))

pick_from-NoMore :
    (now : ℕ) (bs : List Backend) (is : List ℕ) (i k : ℕ)
    → Any (λ j. j ≡ k) is
    → pick_from least_connections now bs is ≡ picked i
    → NoMore bs i k
pick_from-NoMore now bs [] i k m e = ground (arith, e)
pick_from-NoMore now bs (x ∷ is) i k m e =
    let (a, b, c) = least_loaded_lem bs x is in
    let z : least_loaded bs x is ≡ i = ground (arith, e) in
    subst (λ r. NoMore bs r k) z (among (NoMore bs (least_loaded bs x is)) (x ∷ is) k (a, b) m)

-- By least connections no healthy backend has fewer connections than the one that is picked.
pub pick-NoMore :
    (now : ℕ) (bs : List Backend) (i k : ℕ)
    → IsUp bs k
    → pick least_connections now bs ≡ picked i
    → NoMore bs i k
unfolding pick
pick-NoMore now bs i k up e =
    let m = healthy_from_complete 0 bs k up in
    let z : 0 + k ≡ k = omega arith in
    pick_from-NoMore now bs (healthy_from 0 bs) i k
      (subst (λ q. Any (λ j. j ≡ q) (healthy_from 0 bs)) z m) e
