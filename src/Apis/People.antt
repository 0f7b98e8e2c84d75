-- ===== src/Apis/People.antt =====
-- The handlers of internal/apis/v1/api.go for users, sessions and API keys.
use minicloud_platform.Prelude.{ℕ, not, ◌||◌, List, [], if◌then◌else◌, Bytes, codes, same}
use minicloud_platform.Prelude.Fallible.{Fallible, value, failed}
use minicloud_platform.Identity.Accounts.{Account, KeyRecord, create_user, log_in, issue_api_key}
use minicloud_platform.Apis.Http.{
  UserReq, LoginReq, ApiKeyReq, Request, account, accounts, keys, issued, session, Response, Server,
  Draws, write_json, failure, not_allowed, method_is,
}

module _ {S : Type 0} where
  abbrev pub user_created : S × Fallible Account → S × Response
  user_created (s, value u) = (s, write_json 201 (account u))
  user_created (s, failed e) = (s, failure 400 e)

  abbrev pub key_created : S × Fallible (KeyRecord × Bytes) → S × Response
  key_created (s, value (k, secret)) = (s, write_json 201 (issued k.key.id secret))
  key_created (s, failed e) = (s, failure 400 e)

abbrev pub users_listed : Fallible (List Account) → Response
users_listed (value us) = write_json 200 (accounts us)
users_listed (failed e) = failure 500 e

abbrev pub logged_in : Fallible (Bytes × ℕ × Account) → Response
logged_in (value (tok, exp, u)) = write_json 200 (session tok)
logged_in (failed e) = failure 401 e

module _ {S : Type 0} (srv : Server S) (d : Draws) where
  abbrev pub log_in_with : S → Fallible LoginReq → Response
  log_in_with s (failed e) = failure 400 e
  log_in_with s (value q) =
      logged_in (
        log_in srv.store.directory srv.bcrypt srv.codecs srv.hmac_key s d.seconds q.email
          q.password)

  unfoldable pub handle_login : S → Request → S × Response
  handle_login s r =
      if not (method_is r (codes "POST"))
      then (s, not_allowed)
      else (s, log_in_with s (srv.json.read_login r.body))

  abbrev pub create_user_with : S → Fallible UserReq → S × Response
  create_user_with s (failed e) = (s, failure 400 e)
  create_user_with s (value q) =
      if same q.email [] || same q.password []
      then (s, failure 400 (codes "email/password required"))
      else user_created (
          create_user srv.store.directory srv.bcrypt s d.random_id d.salt q.email q.password
            q.display_name q.admin)

  unfoldable pub handle_users : S → Request → S × Response
  handle_users s r =
      if method_is r (codes "GET")
      then (s, users_listed (srv.store.directory.list_users s))
      else if method_is r (codes "POST")
      then create_user_with s (srv.json.read_user r.body)
      else (s, not_allowed)

  -- with a lifetime of zero
  abbrev pub create_key_with : S → Fallible ApiKeyReq → S × Response
  create_key_with s (failed e) = (s, failure 400 e)
  create_key_with s (value q) = key_created (
      issue_api_key srv.store.directory srv.bcrypt srv.digest s d.random d.random_id d.nanos
        q.project_id q.name 0)

  unfoldable pub handle_api_keys : S → Request → S × Response
  handle_api_keys s r =
      if method_is r (codes "GET")
      then (s, write_json 200 (keys (srv.store.directory.list_api_keys s)))
      else if method_is r (codes "POST")
      then create_key_with s (srv.json.read_key r.body)
      else (s, not_allowed)
