-- ===== src/Apis/Http.antt =====
-- Requests and responses as internal/apis/v1/api.go reads and writes them, and what it is given: the
-- store, whose package is not in the repository, and the JSON of the standard library.
use minicloud_platform.Prelude.{ℕ, Bool, Option, List, Bytes, codes, same}
use minicloud_platform.Prelude.Fallible.{Fallible}
use minicloud_platform.Identity.Tokens.{ApiKey, Codecs}
use minicloud_platform.Identity.Accounts.{Account, Directory, Bcrypt}

-- the types of internal/state that have a route of their own
pub data Kind : Type 0 where
  project workload service deployment network volume secret config_map node bucket alert model :
      Kind

-- A record of such a type: what the code reads or writes of it, and the rest.
pub record Resource : Type 0 where
  pub id : Bytes
  pub name : Bytes
  pub project_id : Bytes
  pub rest : Bytes

pub record UserReq : Type 0 where
  pub email : Bytes
  pub display_name : Bytes
  pub password : Bytes
  pub admin : Bool

pub record LoginReq : Type 0 where
  pub email : Bytes
  pub password : Bytes

pub record ApiKeyReq : Type 0 where
  pub user_id : Bytes
  pub project_id : Bytes
  pub name : Bytes

-- A header that is not there is empty; `project` is the value of project_id in the query.
pub record Request : Type 0 where
  pub method : Bytes
  pub path : Bytes
  pub project : Bytes
  pub authorization : Bytes
  pub cookie : Option Bytes
  pub body : Bytes

-- What is written as JSON, or a plain text without the end of its line.
pub data Payload : Type 0 where
  text : Bytes → Payload
  resource : Resource → Payload
  resources : List Resource → Payload
  account : Account → Payload
  accounts : List Account → Payload
  keys : List ApiKey → Payload
  issued : Bytes → Bytes → Payload
  session : Bytes → Payload
  object : Bytes → Payload
  nothing : Payload

pub record Response : Type 0 where
  pub code : ℕ
  pub payload : Payload

-- The calls of the store. A call that writes answers with the error, if there is one; a creation,
-- which is given a pointer to the record, with the record that it leaves there. A nil slice and an empty one are the
-- same list.
pub record Store (S : Type 0) : Type 0 where
  pub directory : Directory S
  pub list : S → Kind → Bytes → Fallible (List Resource)
  pub create : S → Kind → Resource → S × Fallible Resource
  pub get_object : S → Bytes → Bytes → Fallible Bytes
  pub delete_object : S → Bytes → Bytes → S × Option Bytes

-- The decoder that `readJSON` runs on a body, for each type it is asked for.
pub record Json : Type 0 where
  pub read_resource : Kind → Bytes → Fallible Resource
  pub read_user : Bytes → Fallible UserReq
  pub read_login : Bytes → Fallible LoginReq
  pub read_key : Bytes → Fallible ApiKeyReq

-- The server and what it calls.
pub record Server (S : Type 0) : Type 0 where
  pub store : Store S
  pub json : Json
  pub codecs : Codecs
  pub hmac_key : Bytes
  pub bcrypt : Bcrypt
  pub digest : Bytes → Bytes

-- The clock, in seconds and in nanoseconds, and the random bytes that one request meets.
pub record Draws : Type 0 where
  pub seconds : ℕ
  pub nanos : ℕ
  pub random : Bytes
  pub random_id : Bytes
  pub salt : Bytes

-- `writeJSON`
abbrev pub write_json : ℕ → Payload → Response
write_json code p = record { code = code; payload = p }

-- `http.Error`
abbrev pub failure : ℕ → Bytes → Response
failure code message = record { code = code; payload = text message }

abbrev pub not_allowed : Response
not_allowed = failure 405 (codes "method not allowed")

abbrev pub method_is : Request → Bytes → Bool
method_is r m = same r.method m
