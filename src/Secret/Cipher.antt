-- ===== src/Secret/Cipher.antt =====
-- internal/secret/secrets.go. AES-GCM of the standard library is a parameter, with the law that it opens what it
-- sealed under the same nonce; the random bytes, or the failure to read them, are arguments.
use minicloud_platform.Prelude.{
  ℕ, ◌≡◌, subst, not, Option, none, some, arith, ◌==◌, if◌then◌else◌, length, Bytes,
}
use minicloud_platform.Prelude.Fallible.{Fallible, value, failed}

pub record Aead : Type 0 where
  pub nonce_size : ℕ
  pub seal : Bytes → Bytes → Bytes
  pub open_sealed : Bytes → Bytes → Option Bytes
  pub open_sealed-seal :
      (nonce plain : Bytes)
      → length nonce ≡ nonce_size
      → open_sealed nonce (seal nonce plain) ≡ some plain

pub data CipherError : Type 0 where
  bad_key_length ciphertext_too_short decrypt_failed : CipherError

-- A cipher, or an error of this package or of the standard library.
pub data Made : Type 0 where
  made : Aead → Made
  refused : CipherError → Made
  broken : Bytes → Made

abbrev pub wrapped : Fallible Aead → Made
wrapped (value gcm) = made gcm
wrapped (failed e) = broken e

-- given what AES and GCM make of a key
unfoldable pub new_cipher : (Bytes → Fallible Aead) → Bytes → Made
new_cipher gcm_of key =
    if not (length key == 32) then refused bad_key_length else wrapped (gcm_of key)

-- the random bytes are as many as are asked for
unfoldable pub encrypt : Aead → Fallible Bytes → Bytes → Fallible (Bytes × Bytes)
encrypt c (failed e) plain = failed e
encrypt c (value nonce) plain = value (c.seal nonce plain, nonce)

pub data Opened : Type 0 where
  plain : Bytes → Opened
  cipher_error : CipherError → Opened

abbrev pub opened : Option Bytes → Opened
opened none = cipher_error decrypt_failed
opened (some pt) = plain pt

unfoldable pub decrypt : Aead → Bytes → Bytes → Opened
decrypt c ct nonce =
    if not (length nonce == c.nonce_size)
    then cipher_error ciphertext_too_short
    else opened (c.open_sealed nonce ct)

-- What was encrypted with a nonce of the right length is decrypted.
pub decrypt-encrypt :
    (c : Aead) (nonce text ct n : Bytes)
    → length nonce ≡ c.nonce_size
    → encrypt c (value nonce) text ≡ value (ct, n)
    → decrypt c ct n ≡ plain text
unfolding encrypt decrypt
decrypt-encrypt c nonce text ct n len h =
    let law = c.open_sealed-seal nonce text len in
    let e : value (c.seal nonce text, nonce) ≡ value (ct, n) = h in
    let ect : c.seal nonce text ≡ ct = ground (arith, e) in
    let en : nonce ≡ n = ground (arith, e) in
    subst (λ x. decrypt c x n ≡ plain text) ect
      (subst (λ x. decrypt c (c.seal nonce text) x ≡ plain text) en (ground (arith, law, len)))
