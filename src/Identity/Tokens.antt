-- ===== src/Identity/Tokens.antt =====
-- The tokens and the API keys of internal/identity/identity.go. HMAC, SHA-256, base64 and JSON of the
-- standard library are parameters; the store, whose package is not in the repository, answers with
-- a user or a list of keys.
use minicloud_platform.Prelude.{
  ℕ, ◌≡◌, false, not, ◌&&◌, Option, none, some, List, [], ◌∷◌, ◌++◌, ltb, ◌==◌, if◌then◌else◌,
  length, All, Bytes, codes, same, starts_with,
}
use minicloud_platform.Prelude.Split.{split_at}
use minicloud_platform.Prelude.Int64.{lt_i64}
use minicloud_platform.Identity.Rules.{
  User, AuthError, invalid_credentials, unauthorized, token_expired, token_malformed,
}

pub record Token : Type 0 where
  pub user_id : Bytes
  pub expires_at : ℕ  -- int64

-- Base64 and JSON read back what they wrote, and the base64 of an URL has no dot.
pub record Codecs : Type 0 where
  pub mac : Bytes → Bytes → Bytes
  pub encode : Bytes → Bytes
  pub decode : Bytes → Option Bytes
  pub marshal : Token → Bytes
  pub unmarshal : Bytes → Option Token
  pub decode-encode : (b : Bytes) → decode (encode b) ≡ some b
  pub encode_plain : (b : Bytes) → All (λ c. (c == b'.') ≡ false) (encode b)
  pub unmarshal-marshal : (t : Token) → unmarshal (marshal t) ≡ some t

-- A result, an error, or an index out of range.
pub data Auth (A : Type 0) : Type 0 where
  granted : A → Auth A
  denied : AuthError → Auth A
  panic : Auth A

module _ (c : Codecs) (key : Bytes) where
  unfoldable pub sign_token : Bytes → ℕ → Bytes
  sign_token user_id exp =
      let enc = c.encode (c.marshal (record { user_id = user_id; expires_at = exp })) in
      enc ++ b'.' ∷ c.encode (c.mac key enc)

  -- the end of `VerifyToken`: the expiry, and the user that the store has
  abbrev pub admit : ℕ → (Bytes → Option User) → Option Token → Auth User
  admit now get_user none = denied token_malformed
  admit now get_user (some t) =
      if lt_i64 t.expires_at now
      then denied token_expired
      else elim (get_user t.user_id) [ none ↦ denied unauthorized | some u ↦ granted u ]

  -- the body, once the signature is right
  abbrev pub read_body : ℕ → (Bytes → Option User) → Option Bytes → Auth User
  read_body now get_user none = denied token_malformed
  read_body now get_user (some body) = admit now get_user (c.unmarshal body)

  -- the signature that is found, for the signed part
  abbrev pub check_signature : ℕ → (Bytes → Option User) → Bytes → Option Bytes → Auth User
  check_signature now get_user part none = denied token_malformed
  check_signature now get_user part (some got) =
      if same (c.mac key part) got
      then read_body now get_user (c.decode part)
      else denied token_malformed

  abbrev pub check_parts : ℕ → (Bytes → Option User) → Option (Bytes × Bytes) → Auth User
  check_parts now get_user none = denied token_malformed
  check_parts now get_user (some (part, sig)) = check_signature now get_user part (c.decode sig)

  unfoldable pub verify_token : ℕ → (Bytes → Option User) → Bytes → Auth User
  unfolding split_at
  verify_token now get_user tok = check_parts now get_user (split_at b'.' tok)

-- what the check reads of a key of internal/state; an expiry of zero is none
pub record ApiKey : Type 0 where
  pub id : Bytes
  pub hash : Bytes
  pub prefix : Bytes
  pub expires_at : ℕ

abbrev pub prefix_of : Bytes → Bytes
prefix_of (a ∷ b ∷ c ∷ d ∷ e ∷ f ∷ g ∷ h ∷ s) = a ∷ b ∷ c ∷ d ∷ e ∷ f ∷ g ∷ h ∷ []
prefix_of s = s

-- the loop of `AuthAPIKey`, in which `secret[:8]` panics for a shorter secret; `digest` is the hex of
-- the SHA-256
unfoldable pub find_key : (Bytes → Bytes) → ℕ → Bytes → List ApiKey → Auth ApiKey
find_key digest now secret [] = denied invalid_credentials
find_key digest now secret (k ∷ ks) =
    let rest = find_key digest now secret ks in
    if ltb (length secret) 8
    then panic
    else if not (same k.prefix (prefix_of secret))
    then rest
    else if same k.hash (digest secret)
    then (if not (k.expires_at == 0) && ltb k.expires_at now
        then denied token_expired
        else granted k)
    else rest

unfoldable pub auth_api_key : (Bytes → Bytes) → ℕ → List ApiKey → Bytes → Auth ApiKey
unfolding find_key
auth_api_key digest now keys secret =
    if not (starts_with secret (codes "ctlk_"))
    then denied invalid_credentials
    else find_key digest now secret keys
