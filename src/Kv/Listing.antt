-- ===== src/Kv/Listing.antt =====
-- `List` of internal/primitives/db/raft.go: the order of the result, and what it holds.
use minicloud_platform.Prelude.{
  ◌≡◌, refl, ap, inl, inr, true, false, List, [], ◌∷◌, map, arith, Bool-cases, keep, All, Bytes,
  starts_with, before, Dict,
}
use mathlib.Core.List.{Perm}
use mathlib.Core.List.Perm
use minicloud_platform.Kv.State.{Entry, Raft}
use minicloud_platform.Kv.Ops.{place, sorted, matching, list}

-- no later key is smaller
abbrev pub IsSorted : List Entry → Type 0
IsSorted [] = Unit
IsSorted (x ∷ xs) = All (λ y. before y.key x.key ≡ false) xs × IsSorted xs

before_asymm : (s t : Bytes) → before s t ≡ true → before t s ≡ false
unfolding before
before_asymm s [] h = ground arith
before_asymm [] (y ∷ ys) h = refl
before_asymm (x ∷ xs) (y ∷ ys) h = ground (arith, before_asymm xs ys)

before_trans_not : (u t s : Bytes) → before u t ≡ false → before t s ≡ false → before u s ≡ false
unfolding before
before_trans_not u t [] h g = refl
before_trans_not u [] (z ∷ zs) h g = ground arith
before_trans_not [] (y ∷ ys) (z ∷ zs) h g = ground arith
before_trans_not (x ∷ xs) (y ∷ ys) (z ∷ zs) h g = ground (arith, before_trans_not xs ys zs)

-- what the loop of `place` keeps: a bound of both the new entry and the list
All-place :
    (k : Bytes) (e : Entry) (xs : List Entry)
    → before e.key k ≡ false
    → All (λ y. before y.key k ≡ false) xs
    → All (λ y. before y.key k ≡ false) (place e xs)
unfolding place
All-place k e [] h hs = (h, tt)
All-place k e (x ∷ xs) h hs = elim (Bool-cases (before x.key e.key)) [
  | inl q ↦ rw q (hs.0, All-place k e xs h hs.1)
  | inr q ↦ rw q (h, (hs.0, hs.1))
]

All-above :
    (e x : Entry) (xs : List Entry)
    → before x.key e.key ≡ false
    → All (λ y. before y.key x.key ≡ false) xs
    → All (λ y. before y.key e.key ≡ false) xs
All-above e x [] h hs = tt
All-above e x (y ∷ ys) h hs = (before_trans_not y.key x.key e.key hs.0 h, All-above e x ys h hs.1)

place-IsSorted : (e : Entry) (xs : List Entry) → IsSorted xs → IsSorted (place e xs)
unfolding place
place-IsSorted e [] h = (tt, tt)
place-IsSorted e (x ∷ xs) h = elim (Bool-cases (before x.key e.key)) [
  | inl q ↦ rw q (All-place x.key e xs (before_asymm x.key e.key q) h.0, place-IsSorted e xs h.1)
  | inr q ↦ rw q ((q, All-above e x xs q h.0), (h.0, h.1))
]

sorted-IsSorted : (es : List Entry) → IsSorted (sorted es)
unfolding sorted
sorted-IsSorted [] = tt
sorted-IsSorted (e ∷ es) = place-IsSorted e (sorted es) (sorted-IsSorted es)

place-Perm : (e : Entry) (xs : List Entry) → Perm (place e xs) (e ∷ xs)
unfolding place
place-Perm e [] = Perm.refl (e ∷ [])
place-Perm e (x ∷ xs) = elim (Bool-cases (before x.key e.key)) [
  | inl q ↦ rw q (Perm.trans (Perm.cons x (place-Perm e xs)) (Perm.swap e x xs))
  | inr q ↦ rw q (Perm.refl (e ∷ x ∷ xs))
]

sorted-Perm : (es : List Entry) → Perm (sorted es) es
unfolding sorted
sorted-Perm [] = Perm.refl []
sorted-Perm (e ∷ es) = Perm.trans (place-Perm e (sorted es)) (Perm.cons e (sorted-Perm es))

abbrev pub with_prefix : Bytes → Dict Entry → Dict Entry
with_prefix prefix = keep (λ p. starts_with p.0 prefix)

matching_lem :
    (prefix : Bytes) (m : Dict Entry) → matching prefix m ≡ map (λ p. p.1) (with_prefix prefix m)
unfolding matching keep
matching_lem prefix [] = refl
matching_lem prefix ((k, e) ∷ m) = elim (Bool-cases (starts_with k prefix)) [
  | inl q ↦ rw q (ap (◌∷◌ e) (matching_lem prefix m))
  | inr q ↦ rw q (matching_lem prefix m)
]

-- `List` returns the entries whose keys begin with the prefix, each as often as the map holds it, in
-- ascending order of their keys.
pub list_lem :
    (prefix : Bytes) (r : Raft)
    → IsSorted (list prefix r)
      × Perm (list prefix r) (map (λ p. p.1) (with_prefix prefix r.st.entries))
unfolding list
list_lem prefix r = (
  sorted-IsSorted (matching prefix r.st.entries),
  rw (← matching_lem prefix r.st.entries) (sorted-Perm (matching prefix r.st.entries)),
)
