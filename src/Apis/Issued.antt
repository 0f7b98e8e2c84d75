-- ===== src/Apis/Issued.antt =====
-- The API keys that internal/apis/v1/api.go makes are never accepted afterwards.
use minicloud_platform.Prelude.{
  ℕ, ◌+◌, ◌<◌, ◌≡◌, refl, ap, ◌∙◌, ◌≢◌, inl, inr, Option, none, some, List, [], ◌∷◌, arith,
  Bool-cases, Any, Bytes, codes,
}
use minicloud_platform.Prelude.Fallible.{Fallible, value, failed}
use minicloud_platform.Identity.Tokens.{ApiKey, granted, auth_api_key}
use minicloud_platform.Identity.Keys.{Answers, auth_api_key_sound}
use minicloud_platform.Identity.Accounts.{KeyRecord, store_key, issue_api_key}
use minicloud_platform.Apis.Http.{method_is, ApiKeyReq, Request, issued, Server, Draws, write_json}
use minicloud_platform.Apis.People.{key_created, create_key_with, handle_api_keys}

-- An expired key answers to no secret.
expired-Answers :
    (digest : Bytes → Bytes) (later : ℕ) (secret : Bytes) (k : ApiKey)
    → 0 < k.expires_at
    → k.expires_at < later
    → ¬ Answers digest later secret k
expired-Answers digest later secret k pos past a = ground (arith, a.current)

pub expired_refused :
    (digest : Bytes → Bytes) (later : ℕ) (keys : List ApiKey) (secret : Bytes) (k : ApiKey)
    → 0 < k.expires_at
    → k.expires_at < later
    → auth_api_key digest later keys secret ≢ granted k
expired_refused digest later keys secret k pos past h =
    go keys (auth_api_key_sound digest later keys secret k h)
  where
    go : (xs : List ApiKey) → Any (λ x. (x ≡ k) × Answers digest later secret k) xs → ⊥
    go [] m = elim m [ ]
    go (x ∷ xs) (Any.here (e, a)) = expired-Answers digest later secret k pos past a
    go (x ∷ xs) (Any.there m) = go xs m

module _ {S : Type 0} (srv : Server S) (d : Draws) where
  -- What is stored when a request for a key succeeds.
  pub record Issued (s s' : S) (id : Bytes) (k : KeyRecord) : Type 0 where
    pub stored : srv.store.directory.create_api_key s k ≡ (s', none)
    pub id_eq : k.key.id ≡ id
    pub expiry : k.key.expires_at ≡ d.nanos

  key_created-Issued :
      (k : KeyRecord) (secret' secret id : Bytes) (s s' : S) (p : S × Option Bytes)
      → srv.store.directory.create_api_key s k ≡ p
      → k.key.expires_at ≡ d.nanos + 0
      → key_created (store_key srv.store.directory srv.bcrypt k secret' p)
        ≡ (s', write_json 201 (issued id secret))
      → Issued s s' id k
  key_created-Issued k secret' secret id s s' (t, none) e x h = record {
    stored = e ∙ ap (λ u. (u, none)) (ap (λ z. z.0) h);
    id_eq = ground (arith, h);
    expiry = omega (arith, x);
  }
  key_created-Issued k secret' secret id s s' (t, some m) e x h = ground (arith, h)

  create_key_with-Issued :
      (s s' : S) (q : Fallible ApiKeyReq) (id secret : Bytes)
      → create_key_with srv d s q ≡ (s', write_json 201 (issued id secret))
      → (k : KeyRecord) × Issued s s' id k
  unfolding issue_api_key
  create_key_with-Issued s s' (failed e) id secret h = ground (arith, h)
  create_key_with-Issued s s' (value q) id secret h =
      (_, key_created-Issued _ _ secret id s s' _ refl refl h)

  handle_api_keys_stored :
      (s s' : S) (r : Request) (id secret : Bytes)
      → handle_api_keys srv d s r ≡ (s', write_json 201 (issued id secret))
      → (k : KeyRecord) × Issued s s' id k
  unfolding handle_api_keys
  handle_api_keys_stored s s' r id secret h = elim (Bool-cases (method_is r (codes "GET"))) [
    | inl q ↦ ground (arith, h, q)
    | inr q ↦ elim (Bool-cases (method_is r (codes "POST"))) [
      | inr p ↦ ground (arith, h, q, p)
      | inl p ↦
          let e : create_key_with srv d s (srv.json.read_key r.body)
              ≡ (s', write_json 201 (issued id secret)) =
            ground (arith, h, q, p) in
          create_key_with-Issued s s' _ id secret e
    ]
  ]

  -- The key that a request is answered with is stored, expires at the time of the request, and is accepted at no
  -- later time, for no secret and whatever the keys of the store then are.
  pub handle_api_keys-Issued :
      (s s' : S) (r : Request) (id secret given : Bytes) (later : ℕ) (keys : List ApiKey)
      → 0 < d.nanos
      → d.nanos < later
      → handle_api_keys srv d s r ≡ (s', write_json 201 (issued id secret))
      → (k : KeyRecord) × Issued s s' id k
        × (auth_api_key srv.digest later keys given ≢ granted k.key)
  handle_api_keys-Issued s s' r id secret given later keys pos past h =
      let (k, w) = handle_api_keys_stored s s' r id secret h in
      let refused =
        expired_refused srv.digest later keys given k.key (omega (arith, w.expiry))
          (omega (arith, w.expiry)) in
      (k, w, refused)
