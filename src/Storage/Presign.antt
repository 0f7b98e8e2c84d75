-- ===== src/Storage/Presign.antt =====
-- Presign and VerifyPresign of internal/storage/object/object.go. HMAC, its hex text and the decimal of a time are
-- parameters; the text of the address, which `url.Values` writes and reads, is left out.
use minicloud_platform.Prelude.{
  ℕ, ◌≡◌, refl, sym, ap, true, false, not, ◌||◌, [], ◌∷◌, ◌++◌, append_assoc, if◌then◌else◌, Bytes,
  same, same_iff,
}
use minicloud_platform.Prelude.Int64.{add_i64}

pub record Signer : Type 0 where
  pub mac_hex : Bytes → Bytes
  pub decimal : ℕ → Bytes
  pub mac_full : (s : Bytes) → same (mac_hex s) [] ≡ false
  pub decimal_full : (n : ℕ) → same (decimal n) [] ≡ false

-- the four values of the query
pub record Query : Type 0 where
  pub bucket : Bytes
  pub key : Bytes
  pub exp : Bytes
  pub sig : Bytes

-- `"%s|%s|%s"`
abbrev pub signed_text : Bytes → Bytes → Bytes → Bytes
signed_text bucket key exp = bucket ++ b'|' ∷ (key ++ b'|' ∷ exp)

-- The bar that is moved from the bucket to the key leaves the text as it is.
signed_text-moved :
    (bucket middle key exp : Bytes)
    → signed_text (bucket ++ b'|' ∷ middle) key exp ≡ signed_text bucket (middle ++ b'|' ∷ key) exp
signed_text-moved [] middle key exp =
    ap (λ t. b'|' ∷ t) (sym (append_assoc middle (b'|' ∷ key) (b'|' ∷ exp)))
signed_text-moved (c ∷ bucket) middle key exp =
    ap (λ t. c ∷ t) (signed_text-moved bucket middle key exp)

append-full : (middle key : Bytes) → same (middle ++ b'|' ∷ key) [] ≡ false
unfolding same
append-full [] key = refl
append-full (c ∷ middle) key = refl

module _ (g : Signer) where
  -- the time and the lifetime in seconds
  unfoldable pub presign : Bytes → Bytes → ℕ → ℕ → Query
  presign bucket key now ttl =
      let exp = g.decimal (add_i64 now ttl) in
      record { bucket = bucket; key = key; exp = exp; sig = g.mac_hex (signed_text bucket key exp) }

  pub data PresignError : Type 0 where
    missing_fields bad_signature : PresignError

  pub data Verified : Type 0 where
    verified : Bytes → Bytes → Verified
    rejected : PresignError → Verified

  unfoldable pub verify_presign : Query → Verified
  verify_presign v =
      if same v.bucket [] || same v.key [] || same v.exp [] || same v.sig []
      then rejected missing_fields
      else if not (same (g.mac_hex (signed_text v.bucket v.key v.exp)) v.sig)
      then rejected bad_signature
      else verified v.bucket v.key

  -- The signature of one object serves for another: what stands before a bar in the name of the first bucket is
  -- the second bucket, and the rest moves to the key. It is accepted at any time, since no time is looked at.
  pub verify_presign-presign :
      (bucket middle key : Bytes) (now ttl : ℕ)
      → same bucket [] ≡ false
      → let v = presign (bucket ++ b'|' ∷ middle) key now ttl in
        verify_presign (record v { bucket = bucket; key = middle ++ b'|' ∷ key })
        ≡ verified bucket (middle ++ b'|' ∷ key)
  unfolding presign verify_presign
  verify_presign-presign bucket middle key now ttl full =
      let exp = g.decimal (add_i64 now ttl) in
      let moved = ap g.mac_hex (signed_text-moved bucket middle key exp) in
      let right : same (g.mac_hex (signed_text bucket (middle ++ b'|' ∷ key) exp))
            (g.mac_hex (signed_text (bucket ++ b'|' ∷ middle) key exp))
          ≡ true =
        (same_iff _ _).1 (sym moved) in
      rw
        (
          full,
          append-full middle key,
          g.decimal_full (add_i64 now ttl),
          g.mac_full (signed_text (bucket ++ b'|' ∷ middle) key exp),
          right,
        )
        refl
