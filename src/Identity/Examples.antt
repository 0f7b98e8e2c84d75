-- ===== src/Identity/Examples.antt =====
-- Checks of internal/identity at concrete inputs.
use minicloud_platform.Prelude.{
  subst, same_refl, ◌≡◌, refl, ap, true, false, Option, none, some, [], ◌∷◌, arith, if◌then◌else◌,
  Bytes, codes, same,
}
use minicloud_platform.Prelude.Fallible.{value}
use minicloud_platform.Identity.Fixtures.{
  by_email, shifted, plain_hash, People, people, nobody, by_id,
}
use minicloud_platform.Identity.Accounts.{Account, a_day_after, create_user, log_in, new_account}
use minicloud_platform.Identity.Logins.{Remembers, log_in-create_user}
use minicloud_platform.Identity.Rules.{User}
use minicloud_platform.Identity.Tokens.{granted, sign_token, verify_token}
use minicloud_platform.Identity.Signed.{IsSigned, verify_token-IsSigned}

abbrev guest : User
guest = record { id = codes "u1"; admin = false }

abbrev users : Bytes → Option User
users id = if same id (codes "u1") then some guest else none

abbrev token : Bytes
token = sign_token shifted (codes "k") (codes "u1") 50

-- before the expiry
accepted : verify_token shifted (codes "k") 40 users token ≡ granted guest
unfolding verify_token sign_token same
accepted = refl

verify_token-IsSigned_example : IsSigned shifted (codes "k") 40 users token guest
verify_token-IsSigned_example =
    verify_token-IsSigned shifted (codes "k") 40 users token guest accepted

-- the newest account is found first
remember : Remembers people
remember = record {
  find_created = λ s t u h fresh.
      subst (λ z. by_email z.accounts u.email ≡ some u) (ap (λ z. z.0) h)
        (rw (by_email, same_refl u.email) refl);
  get_created = λ s t u h.
      subst (λ z. by_id z.accounts u.user.id ≡ some u.user) (ap (λ z. z.0) h)
        (rw (by_id, same_refl u.user.id) refl);
}

abbrev root : Account
root = new_account people plain_hash (1 ∷ []) (codes "a@b") (codes "A") true (1 ∷ codes "pw")

abbrev with_root : People
with_root = record nobody { accounts = root ∷ [] }

root_created :
    create_user people plain_hash nobody (1 ∷ []) [] (codes "a@b") (codes "pw") (codes "A") true
    ≡ (with_root, value root)
unfolding create_user same
root_created = refl

log_in-create_user_example :
    let tok = sign_token shifted (codes "k") root.user.id (a_day_after 100) in
    (log_in people plain_hash shifted (codes "k") with_root 100 (codes "a@b") (codes "pw")
      ≡ value (tok, a_day_after 100, root))
    × (verify_token shifted (codes "k") 5000 (by_id with_root.accounts) tok ≡ granted root.user)
    × (root.user.admin ≡ true)
log_in-create_user_example =
    log_in-create_user people plain_hash shifted (codes "k") nobody with_root (1 ∷ []) []
      (codes "a@b") (codes "pw") (codes "A") true root 100 5000 remember refl root_created
      (omega arith) (omega arith)
