-- ===== src/Storage/Calls.antt =====
-- Calls of the metadata and of the files, as internal/storage chains them: a call changes a state and gives a value or
-- the text of an error, at which the chain ends.
use minicloud_platform.Prelude.{◌≡◌, refl, ap, Bool, true, false, if◌then◌else◌, Bytes, arith}
use minicloud_platform.Prelude.Fallible.{Fallible, value, failed}

-- a call that changes a state
abbrev pub Action : Type 0 → Type 0 → Type 0
Action S A = S → Fallible A × S

infixl 5 ◌>>=◌ ◌>>◌
abbrev pub ◌>>=◌ : {S A B : Type 0} → Action S A → (A → Action S B) → Action S B
◌>>=◌ m f s = let (r, t) = m s in elim r [ value a ↦ f a t | failed e ↦ (failed e, t) ]

abbrev pub ◌>>◌ : {S A B : Type 0} → Action S A → Action S B → Action S B
m >> k = m >>= λ _. k

abbrev pub answer : {S A : Type 0} → Fallible A → Action S A
answer r s = (r, s)

abbrev pub fail_if : {S : Type 0} → Bool → Bytes → Action S (Unit {0})
fail_if c e s = (if c then failed e else value tt, s)

module _ {Meta Files A : Type 0} where
  abbrev pub on_meta : Action Meta A → Action (Meta × Files) A
  on_meta m s = let (r, t) = m s.0 in (r, (t, s.1))

  abbrev pub on_files : Action Files A → Action (Meta × Files) A
  on_files m s = let (r, t) = m s.1 in (r, (s.0, t))

-- A chain that gives a value has passed its test.
pub after_test :
    {S B : Type 0} (c : Bool) (x : Bytes) (k : Action S B) (s u : S) (b : B)
    → (fail_if c x >> k) s ≡ (value b, u)
    → k s ≡ (value b, u)
after_test true x k s u b e = ground (arith, ap (λ z. z.0) e)
after_test false x k s u b e = e

-- A chain that gives a value goes on from the value of its first call.
module _ {Meta Files A B : Type 0} where
  pub files_passed :
      (m : Meta) (r : Fallible A × Files) (k : A → Action (Meta × Files) B) (u : Meta × Files)
      (b : B)
      → (elim (r.0) [ value a ↦ k a (m, r.1) | failed x ↦ (failed x, (m, r.1)) ]) ≡ (value b, u)
      → (a : A) × (f : Files) × (r ≡ (value a, f)) × (k a (m, f) ≡ (value b, u))
  files_passed m (value a, f) k u b e = (a, f, refl, e)
  files_passed m (failed x, f) k u b e = ground (arith, ap (λ z. z.0) e)

  pub meta_passed :
      (f : Files) (r : Fallible A × Meta) (k : A → Action (Meta × Files) B) (u : Meta × Files)
      (b : B)
      → (elim (r.0) [ value a ↦ k a (r.1, f) | failed x ↦ (failed x, (r.1, f)) ]) ≡ (value b, u)
      → (a : A) × (m : Meta) × (r ≡ (value a, m)) × (k a (m, f) ≡ (value b, u))
  meta_passed f (value a, m) k u b e = (a, m, refl, e)
  meta_passed f (failed x, m) k u b e = ground (arith, ap (λ z. z.0) e)
