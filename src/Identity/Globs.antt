-- ===== src/Identity/Globs.antt =====
-- What the patterns of internal/identity/identity.go match.
use minicloud_platform.Prelude.{
  ℕ, ◌≡◌, refl, sym, ap, subst, ◌∙◌, ◌↔◌, ◌⊎◌, inl, inr, true, ◌&&◌, none, some, [], ◌∷◌, ◌++◌,
  arith, Bool-cases, Bytes, codes, same, same_iff, starts_with,
}
use minicloud_platform.Prelude.Split.{split_at}
use minicloud_platform.Identity.Rules.{
  ends_with, init, match_part, match_rule, has_permission, User, unauthorized, authorize,
}

abbrev pub star : Bytes
star = codes "*"

-- What a pattern is meant to match: a pattern that is empty or a star matches all values, `p*` those that start with p, `*p`
-- those that end with p, and any other the value that is equal to it.
abbrev pub Matches : Bytes → Bytes → Type 0
Matches pattern value =
    (pattern ≡ [])
    ⊎ (((p : Bytes) × (rest : Bytes) × (pattern ≡ p ++ star) × (value ≡ p ++ rest))
        ⊎ (((p : Bytes) × (rest : Bytes) × (pattern ≡ star ++ p) × (value ≡ rest ++ p))
            ⊎ (pattern ≡ value)))

starts_with_sound : (s p : Bytes) → starts_with s p ≡ true → (rest : Bytes) × (s ≡ p ++ rest)
unfolding starts_with
starts_with_sound s [] h = (s, refl)
starts_with_sound [] (y ∷ p) h = ground (arith, h)
starts_with_sound (x ∷ s) (y ∷ p) h =
    let (rest, e) = starts_with_sound s p (ground (arith, h)) in
    let xy : x ≡ y = ground (arith, h) in (rest, rw (e, xy) refl)

ends_with_sound : (s p : Bytes) → ends_with s p ≡ true → (rest : Bytes) × (s ≡ rest ++ p)
unfolding ends_with
ends_with_sound [] p h = ([], (same_iff [] p).0 h)
ends_with_sound (c ∷ s) p h = elim (Bool-cases (same (c ∷ s) p)) [
  | inl q ↦ ([], (same_iff (c ∷ s) p).0 q)
  | inr q ↦
      let (rest, e) = ends_with_sound s p (ground (arith, h, q)) in (c ∷ rest, ap (λ l. c ∷ l) e)
]

init-append : (p : Bytes) (c : ℕ) → init (p ++ c ∷ []) ≡ p
init-append [] c = refl
init-append (x ∷ []) c = refl
init-append (x ∷ y ∷ p) c = ap (λ l. x ∷ l) (init-append (y ∷ p) c)

-- A pattern that the code matches with a value is meant to match it.
pub match_part-Matches :
    (pattern value : Bytes) → match_part pattern value ≡ true → Matches pattern value
unfolding match_part
match_part-Matches [] value h = inl refl
match_part-Matches (c ∷ p) value h = elim (Bool-cases (same (c ∷ p) star)) [
  | inl q ↦ inr (inl ([], value, (same_iff (c ∷ p) star).0 q, refl))
  | inr q ↦ elim (Bool-cases (ends_with (c ∷ p) star)) [
    | inl e ↦
        let (pre, w) = ends_with_sound (c ∷ p) star e in
        let s : starts_with value pre ≡ true =
          subst (λ i. starts_with value i ≡ true) (ap init w ∙ init-append pre b'*')
            (ground (arith, h, q, e)) in
        let (rest, v) = starts_with_sound value pre s in inr (inl (pre, rest, w, v))
    | inr e ↦ elim (Bool-cases (starts_with (c ∷ p) star)) [
      | inl f ↦
          let star_first : c ≡ b'*' = unfold starts_with in ground (arith, f) in
          let (rest, v) = ends_with_sound value p (ground (arith, h, q, e, f)) in
          inr (inr (inl (p, rest, ap (λ k. k ∷ p) star_first, v)))
      | inr f ↦ inr (inr (inr ((same_iff (c ∷ p) value).0 (ground (arith, h, q, e, f)))))
    ]
  ]
]

get_rule :
    (verb resource : Bytes)
    → match_rule (codes "get:*") verb resource ≡ same (codes "get") verb && true
unfolding match_rule match_part split_at ends_with starts_with same
get_rule verb resource = refl

list_rule :
    (verb resource : Bytes)
    → match_rule (codes "list:*") verb resource ≡ same (codes "list") verb && true
unfolding match_rule match_part split_at ends_with starts_with same
list_rule verb resource = refl

star_rule : (verb resource : Bytes) → match_rule (codes "*:*") verb resource ≡ true
unfolding match_rule match_part split_at same
star_rule verb resource = refl

-- `Authorize` lets an administrator do everything, and any other user get and list everything and do
-- nothing else.
pub authorize_lem :
    (u : User) (verb resource : Bytes)
    → (authorize (some u) verb resource ≡ none)
      ↔ ((u.admin ≡ true) ⊎ ((verb ≡ codes "get") ⊎ (verb ≡ codes "list")))
unfolding authorize has_permission
authorize_lem u verb resource = elim (Bool-cases u.admin) [
  | inl q ↦ ((λ _. inl q), (λ _. rw (authorize, q, star_rule verb resource) refl))
  | inr q ↦
      let g = get_rule verb resource in
      let l = list_rule verb resource in
      let eg = same_iff (codes "get") verb in
      let el = same_iff (codes "list") verb in
      elim (Bool-cases (same (codes "get") verb)) [
        | inl a ↦ ((λ _. inr (inl (sym (eg.0 a)))), (λ _. rw (authorize, q, g, a) refl))
        | inr a ↦ elim (Bool-cases (same (codes "list") verb)) [
          | inl b ↦ ((λ _. inr (inr (sym (el.0 b)))), (λ _. rw (authorize, q, g, a, l, b) refl))
          | inr b ↦
              let no : authorize (some u) verb resource ≡ some unauthorized =
                rw (authorize, q, g, a, l, b) refl in
              (
                (λ e. let f : ⊥ = ground (arith, sym e ∙ no) in absurd f),
                (λ s. elim s [
                  | inl x ↦ ground (arith, x, q)
                  | inr (inl x) ↦ ground (arith, eg.1 (sym x), a)
                  | inr (inr x) ↦ ground (arith, el.1 (sym x), b)
                ]),
              )
        ]
      ]
]
