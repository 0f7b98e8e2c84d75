-- ===== src/Identity/Keys.antt =====
-- Which API keys internal/identity/identity.go accepts.
use minicloud_platform.Prelude.{
  ℕ, ◌≤◌, ◌<◌, ◌≡◌, refl, subst, ◌⊎◌, inl, inr, true, false, not, ◌&&◌, List, [], ◌∷◌, arith, ltb,
  ◌==◌, Bool-cases, length, Any, Bytes, codes, same, same_iff, starts_with,
}
use minicloud_platform.Identity.Tokens.{granted, panic, ApiKey, prefix_of, find_key, auth_api_key}

-- A key that answers to the secret and has not expired.
pub record Answers (digest : Bytes → Bytes) (now : ℕ) (secret : Bytes) (k : ApiKey) : Type 0 where
  pub hash_eq : k.hash ≡ digest secret
  pub prefix_eq : k.prefix ≡ prefix_of secret
  pub current : (k.expires_at ≡ 0) ⊎ (now ≤ k.expires_at)

one_key :
    (digest : Bytes → Bytes) (now : ℕ) (secret : Bytes) (x k : ApiKey)
    → same x.prefix (prefix_of secret) ≡ true
    → same x.hash (digest secret) ≡ true
    → (not (x.expires_at == 0) && ltb x.expires_at now) ≡ false
    → x ≡ k
    → Answers digest now secret k
one_key digest now secret x k p h c e = subst (Answers digest now secret) e (record {
  hash_eq = (same_iff x.hash (digest secret)).0 h;
  prefix_eq = (same_iff x.prefix (prefix_of secret)).0 p;
  current = ground (arith, c);
})

find_key_sound :
    (digest : Bytes → Bytes) (now : ℕ) (secret : Bytes) (keys : List ApiKey) (k : ApiKey)
    → find_key digest now secret keys ≡ granted k
    → Any (λ x. (x ≡ k) × Answers digest now secret k) keys
unfolding find_key
find_key_sound digest now secret [] k h = ground (arith, h)
find_key_sound digest now secret (x ∷ keys) k h = elim (Bool-cases (ltb (length secret) 8)) [
  | inl q ↦ ground (arith, h, q)
  | inr q ↦ elim (Bool-cases (same x.prefix (prefix_of secret))) [
    | inr p ↦ Any.there (find_key_sound digest now secret keys k (ground (arith, h, q, p)))
    | inl p ↦ elim (Bool-cases (same x.hash (digest secret))) [
      | inr s ↦ Any.there (find_key_sound digest now secret keys k (ground (arith, h, q, p, s)))
      | inl s ↦ elim (Bool-cases (not (x.expires_at == 0) && ltb x.expires_at now)) [
        | inl c ↦ ground (arith, h, q, p, s, c)
        | inr c ↦
            let e : x ≡ k = ground (arith, h, q, p, s, c) in
            Any.here (e, one_key digest now secret x k p s c e)
      ]
    ]
  ]
]

-- The key that is accepted for a secret is one of the store's, has the hash and the first eight bytes of the
-- secret, and has no expiry or has not expired.
pub auth_api_key_sound :
    (digest : Bytes → Bytes) (now : ℕ) (keys : List ApiKey) (secret : Bytes) (k : ApiKey)
    → auth_api_key digest now keys secret ≡ granted k
    → Any (λ x. (x ≡ k) × Answers digest now secret k) keys
unfolding auth_api_key
auth_api_key_sound digest now keys secret k h =
    elim (Bool-cases (starts_with secret (codes "ctlk_"))) [
      | inl q ↦ find_key_sound digest now secret keys k (ground (arith, h, q))
      | inr q ↦ ground (arith, h, q)
    ]

-- A secret that has the right prefix and is shorter than eight bytes makes the check panic as soon as the store has
-- a key.
pub auth_api_key_short :
    (digest : Bytes → Bytes) (now : ℕ) (keys : List ApiKey) (secret : Bytes)
    → starts_with secret (codes "ctlk_") ≡ true
    → length secret < 8
    → 0 < length keys
    → auth_api_key digest now keys secret ≡ panic
unfolding auth_api_key find_key
auth_api_key_short digest now [] secret p s n = ground (arith, n)
auth_api_key_short digest now (k ∷ keys) secret p s n =
    let q : ltb (length secret) 8 ≡ true = ground (arith, s) in
    rw (auth_api_key, p, find_key, q) refl
