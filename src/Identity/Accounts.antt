-- ===== src/Identity/Accounts.antt =====
-- The accounts and the making of API keys of internal/identity/identity.go. bcrypt is a parameter, with the law
-- that a password matches its own hash, which is not empty; the random bytes are arguments; the store, whose package is not
-- in the repository, is a record of the calls that the code makes, over states that it may change.
use minicloud_platform.Prelude.{
  ℕ, ◌+◌, ◌/◌, ◌%◌, ◌≡◌, Bool, true, false, not, ◌||◌, Option, none, some, List, [], ◌∷◌, ◌++◌, ltb,
  if◌then◌else◌, Bytes, codes, same,
}
use minicloud_platform.Prelude.Fallible.{Fallible, value, failed}
use minicloud_platform.Prelude.Int64.{add_i64}
use minicloud_platform.Identity.Rules.{User}
use minicloud_platform.Identity.Tokens.{ApiKey, Codecs, sign_token, prefix_of}

-- what the code writes of a user of internal/state
pub record Account : Type 0 where
  pub user : User
  pub name : Bytes
  pub email : Bytes
  pub display_name : Bytes
  pub password_bcrypt : Bytes

-- what the code writes of an API key
pub record KeyRecord : Type 0 where
  pub key : ApiKey
  pub name : Bytes
  pub project_id : Bytes

-- The calls of the store on users and keys; a call that writes answers with the error, if there is one.
pub record Directory (S : Type 0) : Type 0 where
  pub find_user_by_email : S → Bytes → Option Account
  pub get_user : S → Bytes → Option User
  pub list_users : S → Fallible (List Account)
  pub create_user : S → Account → S × Option Bytes
  pub list_api_keys : S → List ApiKey
  pub create_api_key : S → KeyRecord → S × Option Bytes

-- bcrypt: the hash for a salt, which fails for a long password, and the comparison.
pub record Bcrypt : Type 0 where
  pub generate : Bytes → Bytes → Fallible Bytes
  pub compare : Bytes → Bytes → Bool
  pub compare-generate :
      (salt password hash : Bytes)
      → generate salt password ≡ value hash
      → compare hash password ≡ true
  pub generate_full :
      (salt password hash : Bytes) → generate salt password ≡ value hash → same hash [] ≡ false

abbrev pub hex_digit : ℕ → ℕ
hex_digit n = if ltb n 10 then 48 + n else 87 + n

-- `hex.EncodeToString`
unfoldable pub hex : Bytes → Bytes
hex [] = []
hex (c ∷ s) = hex_digit (c / 16) ∷ hex_digit (c % 16) ∷ hex s

abbrev pub rand_id : Bytes → Bytes
rand_id random = hex random

unfoldable pub rand_secret : Bytes → Bytes
unfolding hex
rand_secret random = codes "ctlk_" ++ hex random

-- `time.Now().Add(24 * time.Hour)`, as Unix seconds
abbrev pub a_day_after : ℕ → ℕ
a_day_after now = add_i64 now 86400

unfoldable pub verify_password : Bcrypt → Account → Bytes → Bool
verify_password b u password =
    if same u.password_bcrypt [] then false else b.compare u.password_bcrypt password

module _ {S : Type 0} (d : Directory S) (b : Bcrypt) where
  -- the record that is written, once there is a hash
  abbrev pub store_account : S → Account → S × Option Bytes → S × Fallible Account
  store_account s u (s', none) = (s', value u)
  store_account s u (s', some e) = (s', failed e)

  abbrev pub new_account : Bytes → Bytes → Bytes → Bool → Bytes → Account
  new_account random email display_name admin hash = record {
    user = record { id = codes "usr_" ++ rand_id random; admin = admin };
    name = display_name;
    email = email;
    display_name = display_name;
    password_bcrypt = hash;
  }

  abbrev pub with_hash : S → Bytes → Bytes → Bytes → Bool → Fallible Bytes → S × Fallible Account
  with_hash s random email display_name admin (failed e) = (s, failed e)
  with_hash s random email display_name admin (value hash) =
      let u = new_account random email display_name admin hash in
      store_account s u (d.create_user s u)

  unfoldable pub create_user :
      S → Bytes → Bytes → Bytes → Bytes → Bytes → Bool → S × Fallible Account
  unfolding hex
  create_user s random salt email password display_name admin =
      if same email [] || same password []
      then (s, failed (codes "identity: email and password required"))
      else with_hash s random email display_name admin (b.generate salt password)

  unfoldable pub bootstrap_admin : S → Bytes → Bytes → Bytes → Bytes → Bytes → S × Fallible Account
  unfolding hex
  bootstrap_admin s random salt email password display_name = elim (d.find_user_by_email s email) [
    | some u ↦ (s, value u)
    | none ↦ with_hash s random email display_name true (b.generate salt password)
  ]

  abbrev pub store_key : KeyRecord → Bytes → S × Option Bytes → S × Fallible (KeyRecord × Bytes)
  store_key k secret (s', none) = (s', value (k, secret))
  store_key k secret (s', some e) = (s', failed e)

  abbrev pub new_key : (Bytes → Bytes) → Bytes → Bytes → ℕ → Bytes → Bytes → ℕ → KeyRecord
  new_key digest id secret now project_id name ttl = record {
    key = record {
      id = codes "key_" ++ rand_id id;
      hash = digest secret;
      prefix = prefix_of secret;
      expires_at = now + ttl;
    };
    name = name;
    project_id = project_id;
  }

  -- the time and the lifetime in nanoseconds
  unfoldable pub issue_api_key :
      (Bytes → Bytes) → S → Bytes → Bytes → ℕ → Bytes → Bytes → ℕ → S × Fallible (KeyRecord × Bytes)
  unfolding rand_secret hex
  issue_api_key digest s random random_id now project_id name ttl =
      let secret = rand_secret random in
      let k = new_key digest random_id secret now project_id name ttl in
      store_key k secret (d.create_api_key s k)

  -- a user that was found by the email
  abbrev pub log_in_as :
      Codecs → Bytes → ℕ → Bytes → Option Account → Fallible (Bytes × ℕ × Account)
  log_in_as c key now password none = failed (codes "identity: invalid credentials")
  log_in_as c key now password (some u) =
      if not (verify_password b u password)
      then failed (codes "identity: invalid credentials")
      else value (sign_token c key u.user.id (a_day_after now), a_day_after now, u)

  unfoldable pub log_in : Codecs → Bytes → S → ℕ → Bytes → Bytes → Fallible (Bytes × ℕ × Account)
  unfolding verify_password
  log_in c key s now email password = log_in_as c key now password (d.find_user_by_email s email)
