-- ===== src/Identity/Logins.antt =====
-- Accounts and sessions of internal/identity/identity.go together: who is created can log in.
use minicloud_platform.Prelude.{
  ℕ, ◌+◌, ◌≤◌, ◌≡◌, refl, ap, subst, ◌∙◌, inl, inr, Bool, true, false, ◌||◌, Option, none, some, [],
  arith, Bool-cases, Bytes, same,
}
use minicloud_platform.Prelude.Fallible.{Fallible, value, failed}
use minicloud_platform.Prelude.Int64.{lt_i64, IsSmall}
use minicloud_platform.Identity.Tokens.{Codecs, granted, sign_token, verify_token}
use minicloud_platform.Identity.Signed.{verify_token-sign_token}
use minicloud_platform.Identity.Accounts.{
  Account, Directory, Bcrypt, a_day_after, verify_password, store_account, new_account, with_hash,
  create_user, log_in,
}

-- What the store is relied on for: it finds a user that was created, by the id, and by the email if no
-- user had that before.
pub record Remembers {S : Type 0} (d : Directory S) : Type 0 where
  pub find_created :
      (s s' : S) (u : Account)
      → d.create_user s u ≡ (s', none)
      → d.find_user_by_email s u.email ≡ none
      → d.find_user_by_email s' u.email ≡ some u
  pub get_created :
      (s s' : S) (u : Account)
      → d.create_user s u ≡ (s', none)
      → d.get_user s' u.user.id ≡ some u.user

module _ {S : Type 0} (d : Directory S) (b : Bcrypt) where
  store_account_value :
      (s : S) (u u' : Account) (r : S × Option Bytes) (s' : S)
      → store_account d b s u r ≡ (s', value u')
      → (r ≡ (s', none)) × (u ≡ u')
  store_account_value s u u' (t, none) s' h = (cc, cc)
  store_account_value s u u' (t, some e) s' h = cc

  -- What is known of an account that was written.
  pub record Written (s s' : S) (email password : Bytes) (admin : Bool) (u : Account) : Type 0 where
    pub stored : d.create_user s u ≡ (s', none)
    pub email_eq : u.email ≡ email
    pub admin_eq : u.user.admin ≡ admin
    pub matches : verify_password b u password ≡ true

  with_hash-Written :
      (s s' : S) (random salt email password name : Bytes) (admin : Bool) (g : Fallible Bytes)
      (u : Account)
      → b.generate salt password ≡ g
      → with_hash d b s random email name admin g ≡ (s', value u)
      → Written s s' email password admin u
  unfolding verify_password
  with_hash-Written s s' random salt email password name admin (failed e) u eg h = cc
  with_hash-Written s s' random salt email password name admin (value hash) u eg h =
      let w = new_account d b random email name admin hash in
      let r = store_account_value s w u (d.create_user s w) s' h in
      let full = b.generate_full salt password hash eg in
      let right = b.compare-generate salt password hash eg in
      subst (Written s s' email password admin) r.1
        (record { stored = r.0; email_eq = refl; admin_eq = refl; matches = rw full right })

  create_user-Written :
      (s s' : S) (random salt email password name : Bytes) (admin : Bool) (u : Account)
      → create_user d b s random salt email password name admin ≡ (s', value u)
      → Written s s' email password admin u
  unfolding create_user
  create_user-Written s s' random salt email password name admin u h =
      elim (Bool-cases (same email [] || same password [])) [
        | inl q ↦ ground (arith, h, q)
        | inr q ↦
            let e : with_hash d b s random email name admin (b.generate salt password)
                ≡ (s', value u) =
              ground (arith, h, q) in
            with_hash-Written s s' random salt email password name admin _ u refl e
      ]

  -- A day is not over before it is.
  a_day_later :
      (now later : ℕ) → IsSmall now → later ≤ now + 86400 → lt_i64 (a_day_after now) later ≡ false
  a_day_later now later n l = ground arith

  -- A user that was created with a new email can log in with the password, and the token is accepted for a day
  -- as that of the user, with the administrator flag that was asked for.
  pub log_in-create_user :
      (c : Codecs) (key : Bytes) (s s' : S) (random salt email password name : Bytes) (admin : Bool)
      (u : Account) (now later : ℕ)
      → Remembers d
      → d.find_user_by_email s email ≡ none
      → create_user d b s random salt email password name admin ≡ (s', value u)
      → IsSmall now
      → later ≤ now + 86400
      → let tok = sign_token c key u.user.id (a_day_after now) in
        (log_in d b c key s' now email password ≡ value (tok, a_day_after now, u))
        × (verify_token c key later (d.get_user s') tok ≡ granted u.user)
        × (u.user.admin ≡ admin)
  unfolding log_in
  log_in-create_user c key s s' random salt email password name admin u now later laws fresh h n l =
      let w = create_user-Written s s' random salt email password name admin u h in
      let found : d.find_user_by_email s' email ≡ some u =
        subst (λ e. d.find_user_by_email s' e ≡ some u) w.email_eq
          (laws.find_created s s' u w.stored (ap (d.find_user_by_email s) w.email_eq ∙ fresh)) in
      let got = laws.get_created s s' u w.stored in
      let time = a_day_later now later n l in
      (
        rw (found, w.matches) refl,
        verify_token-sign_token c key later (a_day_after now) (d.get_user s') u.user.id
            ∙ rw (time, got) refl,
        w.admin_eq,
      )
