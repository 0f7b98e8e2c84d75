-- ===== src/Identity/Signed.antt =====
-- Which tokens and keys internal/identity/identity.go accepts.
use minicloud_platform.Prelude.{
  ℕ, ◌≡◌, refl, sym, ap, ◌∙◌, inl, inr, false, Option, none, some, ◌∷◌, ◌++◌, arith, if◌then◌else◌,
  Bool-cases, Option-cases, Bytes, same, same_iff, same_refl,
}
use minicloud_platform.Prelude.Split.{split_at, split_at_sound, split_at_first}
use minicloud_platform.Prelude.Int64.{lt_i64}
use minicloud_platform.Identity.Rules.{User, unauthorized, token_expired}
use minicloud_platform.Identity.Tokens.{Token, Codecs, granted, denied, sign_token, verify_token}

module _ (c : Codecs) (key : Bytes) where
  -- A token that was signed with the key is accepted until it expires, if the store has the user.
  pub verify_token-sign_token :
      (now exp : ℕ) (get_user : Bytes → Option User) (id : Bytes)
      → verify_token c key now get_user (sign_token c key id exp) ≡ (
          if lt_i64 exp now
          then denied token_expired
          else elim (get_user id) [ none ↦ denied unauthorized | some u ↦ granted u ])
  unfolding verify_token sign_token
  verify_token-sign_token now exp get_user id =
      let t : Token = record { user_id = id; expires_at = exp } in
      let enc = c.encode (c.marshal t) in
      rw
        (
          verify_token,
          split_at_first b'.' enc (c.encode (c.mac key enc)) (c.encode_plain (c.marshal t)),
          c.decode-encode (c.mac key enc),
          same_refl (c.mac key enc),
          c.decode-encode (c.marshal t),
          c.unmarshal-marshal t,
        )
        refl

  -- Why a token is accepted.
  pub record IsSigned (now : ℕ) (get_user : Bytes → Option User) (tok : Bytes) (u : User)
      : Type 0 where
    pub part : Bytes
    pub sig : Bytes
    pub body : Bytes
    pub token : Token
    pub parts_eq : tok ≡ part ++ b'.' ∷ sig
    pub signed : c.decode sig ≡ some (c.mac key part)
    pub body_eq : c.decode part ≡ some body
    pub token_eq : c.unmarshal body ≡ some token
    pub current : lt_i64 token.expires_at now ≡ false
    pub user_eq : get_user token.user_id ≡ some u

  -- A token that is accepted carries the key's MAC of its first part, which holds a token that has not
  -- expired, of the user whom the store has.
  pub verify_token-IsSigned :
      (now : ℕ) (get_user : Bytes → Option User) (tok : Bytes) (u : User)
      → verify_token c key now get_user tok ≡ granted u
      → IsSigned now get_user tok u
  unfolding verify_token
  verify_token-IsSigned now get_user tok u h = elim (Option-cases (split_at b'.' tok)) [
    | inl e ↦ ground (arith, h, e)
    | inr ((part, sig), e) ↦ elim (Option-cases (c.decode sig)) [
      | inl e2 ↦ ground (arith, h, e, e2)
      | inr (got, e2) ↦ elim (Bool-cases (same (c.mac key part) got)) [
        | inr e3 ↦ ground (arith, h, e, e2, e3)
        | inl e3 ↦ elim (Option-cases (c.decode part)) [
          | inl e4 ↦ ground (arith, h, e, e2, e3, e4)
          | inr (body, e4) ↦ elim (Option-cases (c.unmarshal body)) [
            | inl e5 ↦ ground (arith, h, e, e2, e3, e4, e5)
            | inr (token, e5) ↦ elim (Bool-cases (lt_i64 token.expires_at now)) [
              | inl e6 ↦ ground (arith, h, e, e2, e3, e4, e5, e6)
              | inr e6 ↦ elim (Option-cases (get_user token.user_id)) [
                | inl e7 ↦ ground (arith, h, e, e2, e3, e4, e5, e6, e7)
                | inr (w, e7) ↦
                    let wu : w ≡ u = ground (arith, h, e, e2, e3, e4, e5, e6, e7) in
                    record {
                      part = part;
                      sig = sig;
                      body = body;
                      token = token;
                      parts_eq = split_at_sound b'.' tok part sig e;
                      signed = e2 ∙ ap some (sym ((same_iff (c.mac key part) got).0 e3));
                      body_eq = e4;
                      token_eq = e5;
                      current = e6;
                      user_eq = e7 ∙ ap some wu;
                    }
              ]
            ]
          ]
        ]
      ]
    ]
  ]
