-- ===== src/Prelude/Split.antt =====
-- Strings cut in two at the first separator.
use minicloud_platform.Prelude.{
  ℕ, ◌≡◌, refl, inl, inr, true, false, Option, none, some, [], ◌∷◌, ◌++◌, arith, ◌==◌,
  if◌then◌else◌, Bool-cases, Option-cases, All, Bytes,
}

-- `strings.SplitN(s, sep, 2)`: the two parts, or nothing if there is one part only
unfoldable pub split_at : ℕ → Bytes → Option (Bytes × Bytes)
split_at sep [] = none
split_at sep (c ∷ s) =
    if c == sep
    then some ([], s)
    else elim (split_at sep s) [ none ↦ none | some (a, b) ↦ some (c ∷ a, b) ]

pub split_at_sound : (sep : ℕ) (s a b : Bytes) → split_at sep s ≡ some (a, b) → s ≡ a ++ sep ∷ b
unfolding split_at
split_at_sound sep [] a b h = ground arith
split_at_sound sep (c ∷ s) a b h = elim (Bool-cases (c == sep)) [
  | inl q ↦ ground (arith, h, q)
  | inr q ↦ elim (Option-cases (split_at sep s)) [
    | inl e ↦ ground (arith, h, q, e)
    | inr ((x, y), e) ↦ ground (arith, h, q, e, split_at_sound sep s x y e)
  ]
]

pub split_at_first :
    (sep : ℕ) (a s : Bytes)
    → All (λ c. (c == sep) ≡ false) a
    → split_at sep (a ++ sep ∷ s) ≡ some (a, s)
unfolding split_at
split_at_first sep [] s h = let e : (sep == sep) ≡ true = ground arith in rw (e) refl
split_at_first sep (c ∷ a) s h = rw (h.0, split_at_first sep a s h.1) refl
