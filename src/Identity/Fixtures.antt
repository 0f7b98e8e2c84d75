-- ===== src/Identity/Fixtures.antt =====
-- A codec, accounts and a password hash for the examples of several modules.
use minicloud_platform.Prelude.{
  ◌+◌, ◌-◌, ◌≡◌, refl, ap, Bool, true, false, Option, none, some, List, [], ◌∷◌, arith, ◌==◌,
  if◌then◌else◌, length, All, Bytes, same, same_iff,
}
use minicloud_platform.Prelude.Fallible.{value}
use minicloud_platform.Identity.Rules.{User}
use minicloud_platform.Identity.Tokens.{Token, Codecs, ApiKey}
use minicloud_platform.Identity.Accounts.{Account, Directory, Bcrypt}

-- bytes moved past the dot
abbrev pub shift : Bytes → Bytes
shift [] = []
shift (c ∷ s) = (c + 47) ∷ shift s

abbrev pub shift_back : Bytes → Bytes
shift_back [] = []
shift_back (c ∷ s) = (c - 47) ∷ shift_back s

pub shift_back-shift : (s : Bytes) → shift_back (shift s) ≡ s
shift_back-shift [] = refl
shift_back-shift (c ∷ s) = let e : c + 47 - 47 ≡ c = omega arith in rw (e, shift_back-shift s) refl

pub shift_plain : (s : Bytes) → All (λ c. (c == b'.') ≡ false) (shift s)
shift_plain [] = tt
shift_plain (c ∷ s) = (ground arith, shift_plain s)

abbrev pub unmarshal : Bytes → Option Token
unmarshal [] = none
unmarshal (e ∷ id) = some (record { user_id = id; expires_at = e })

abbrev pub shifted : Codecs
shifted = record {
  mac = λ key part. length part ∷ key;
  encode = shift;
  decode = λ s. some (shift_back s);
  marshal = λ t. t.expires_at ∷ t.user_id;
  unmarshal = unmarshal;
  decode-encode = λ b. ap some (shift_back-shift b);
  encode_plain = shift_plain;
  unmarshal-marshal = λ t. refl;
}

-- the salt is not used, and a one stands before the password
abbrev pub compare_plain : Bytes → Bytes → Bool
compare_plain hash password = same hash (1 ∷ password)

pub compare_plain_lem :
    (salt password hash : Bytes)
    → value (1 ∷ password) ≡ value hash
    → compare_plain hash password ≡ true
compare_plain_lem salt password hash h = (same_iff hash (1 ∷ password)).1 (ground (arith, h))

pub plain_full :
    (salt password hash : Bytes) → value (1 ∷ password) ≡ value hash → same hash [] ≡ false
unfolding same
plain_full salt password [] h = ground (arith, h)
plain_full salt password (c ∷ hash) h = refl

abbrev pub plain_hash : Bcrypt
plain_hash = record {
  generate = λ salt password. value (1 ∷ password);
  compare = compare_plain;
  compare-generate = compare_plain_lem;
  generate_full = plain_full;
}

-- accounts and keys, the newest first
pub record People : Type 0 where
  pub accounts : List Account
  pub keys : List ApiKey

abbrev pub by_email : List Account → Bytes → Option Account
by_email [] email = none
by_email (u ∷ us) email =
    let rest = by_email us email in if same u.email email then some u else rest

abbrev pub by_id : List Account → Bytes → Option User
by_id [] id = none
by_id (u ∷ us) id = let rest = by_id us id in if same u.user.id id then some u.user else rest

abbrev pub people : Directory People
people = record {
  find_user_by_email = λ s email. by_email s.accounts email;
  get_user = λ s id. by_id s.accounts id;
  list_users = λ s. value s.accounts;
  create_user = λ s u. (record s { accounts = u ∷ s.accounts }, none);
  list_api_keys = λ s. s.keys;
  create_api_key = λ s k. (record s { keys = k.key ∷ s.keys }, none);
}

abbrev pub nobody : People
nobody = record { accounts = []; keys = [] }
