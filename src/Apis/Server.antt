-- ===== src/Apis/Server.antt =====
-- The routes of internal/apis/v1/api.go and the check that stands before most of them. A panic, in the
-- check of a short API key, has no response. The paths are those that `http.ServeMux` has cleaned.
use minicloud_platform.Prelude.{
  ℕ, ◌+◌, false, not, ◌&&◌, Option, none, some, [], ◌∷◌, ltb, ◌==◌, if◌then◌else◌, Bytes, codes,
  same, starts_with, trim_prefix,
}
use minicloud_platform.Identity.Rules.{
  User, AuthError, authorize, invalid_credentials, unauthorized, token_expired, token_malformed,
}
use minicloud_platform.Identity.Tokens.{
  ApiKey, Auth, granted, denied, panic, verify_token, auth_api_key,
}
use minicloud_platform.Apis.Http.{
  Request, text, resources, Response, Server, Draws, write_json, failure, not_allowed, method_is,
}
use minicloud_platform.Apis.Resources.{
  handle_workloads, handle_services, handle_deployments, handle_networks, handle_volumes,
  handle_secrets, handle_config_maps, handle_buckets, handle_alerts, handle_projects, handle_nodes,
  handle_models, handle_objects,
}
use minicloud_platform.Apis.People.{handle_login, handle_users, handle_api_keys}

unfoldable pub verb_for : Bytes → Bytes
verb_for m =
    if same m (codes "GET")
    then codes "get"
    else if same m (codes "POST")
    then codes "create"
    else if same m (codes "PUT")
    then codes "update"
    else if same m (codes "DELETE")
    then codes "delete"
    else codes "get"

-- `strings.Trim(p, "/")`
abbrev pub trim_left : Bytes → Bytes
trim_left [] = []
trim_left (c ∷ s) = let rest = trim_left s in if c == b'/' then rest else c ∷ s

abbrev pub trim_right : Bytes → Bytes
trim_right [] = []
trim_right (c ∷ s) = let rest = trim_right s in if c == b'/' && same rest [] then [] else c ∷ rest

abbrev pub slashes : Bytes → ℕ
slashes [] = 0
slashes (c ∷ s) = (if c == b'/' then 1 else 0) + slashes s

-- A text with n slashes is split into n + 1 parts.
unfoldable pub resource_for : Bytes → Bytes
resource_for p =
    if ltb (slashes (trim_right (trim_left p)) + 1) 3 then p else trim_prefix (codes "/v1/") p

unfoldable pub bearer : Request → Bytes
bearer r =
    if starts_with r.authorization (codes "Bearer ")
    then trim_prefix (codes "Bearer ") r.authorization
    else elim r.cookie [ none ↦ [] | some c ↦ c ]

abbrev pub message : AuthError → Bytes
message invalid_credentials = codes "identity: invalid credentials"
message unauthorized = codes "identity: unauthorized"
message token_expired = codes "identity: token expired"
message token_malformed = codes "identity: token malformed"

-- the user that stands for an API key, after the token was refused for a reason
abbrev pub key_user : AuthError → Auth ApiKey → Auth User
key_user e (granted k) = granted (record { id = k.id; admin = false })
key_user e (denied _) = denied e
key_user e panic = panic

abbrev pub or_key : Auth User → Auth ApiKey → Auth User
or_key (granted u) k = granted u
or_key (denied e) k = key_user e k
or_key panic k = panic

-- the routes of the multiplexer
pub data Route : Type 0 where
  login users api_keys projects workloads services deployments : Route
  networks volumes secrets config_maps nodes buckets objects : Route
  metrics logs alerts models healthz : Route

unfoldable pub route_of : Bytes → Option Route
route_of p =
    if same p (codes "/v1/login")
    then some login
    else if same p (codes "/v1/users")
    then some users
    else if same p (codes "/v1/apikeys")
    then some api_keys
    else if same p (codes "/v1/projects")
    then some projects
    else if same p (codes "/v1/workloads")
    then some workloads
    else if same p (codes "/v1/services")
    then some services
    else if same p (codes "/v1/deployments")
    then some deployments
    else if same p (codes "/v1/networks")
    then some networks
    else if same p (codes "/v1/volumes")
    then some volumes
    else if same p (codes "/v1/secrets")
    then some secrets
    else if same p (codes "/v1/configmaps")
    then some config_maps
    else if same p (codes "/v1/nodes")
    then some nodes
    else if same p (codes "/v1/buckets")
    then some buckets
    else if starts_with p (codes "/v1/buckets/")
    then some objects
    else if same p (codes "/v1/metrics")
    then some metrics
    else if same p (codes "/v1/logs")
    then some logs
    else if same p (codes "/v1/alerts")
    then some alerts
    else if same p (codes "/v1/models")
    then some models
    else if same p (codes "/healthz")
    then some healthz
    else none

module _ {S : Type 0} (srv : Server S) (d : Draws) where
  unfoldable pub authenticate : S → Bytes → Auth User
  authenticate s tok =
      or_key (verify_token srv.codecs srv.hmac_key d.seconds (srv.store.directory.get_user s) tok)
        (auth_api_key srv.digest d.nanos (srv.store.directory.list_api_keys s) tok)

  abbrev pub if_authorized :
      S → (S → Request → S × Response) → Request → Auth User → S × Option Response
  if_authorized s h r panic = (s, none)
  if_authorized s h r (denied e) = (s, some (failure 401 (message e)))
  if_authorized s h r (granted u) =
      elim (authorize (some u) (verb_for r.method) (resource_for r.path)) [
        | some e ↦ (s, some (failure 403 (codes "forbidden")))
        | none ↦ let (s', answer) = h s r in (s', some answer)
      ]

  unfoldable pub auth_required : (S → Request → S × Response) → S → Request → S × Option Response
  unfolding bearer authenticate verb_for resource_for
  auth_required h s r =
      if same (bearer r) []
      then (s, some (failure 401 (codes "missing token")))
      else if_authorized s h r (authenticate s (bearer r))

  unfoldable pub handle_metrics : S → Request → S × Response
  handle_metrics s r =
      if not (method_is r (codes "GET"))
      then (s, not_allowed)
      else (s, write_json 200 (text (codes "# metrics are exposed by /v1/metrics/exposition")))

  unfoldable pub handle_logs : S → Request → S × Response
  handle_logs s r =
      if not (method_is r (codes "GET"))
      then (s, not_allowed)
      else (s, write_json 200 (resources []))

  -- the routes that have no check
  abbrev pub open_route : S × Response → S × Option Response
  open_route (s, answer) = (s, some answer)

  unfoldable pub serve_route : Route → S → Request → S × Option Response
  unfolding auth_required
  serve_route login s r = open_route (handle_login srv d s r)
  serve_route users s r = auth_required (handle_users srv d) s r
  serve_route api_keys s r = auth_required (handle_api_keys srv d) s r
  serve_route projects s r = auth_required (handle_projects srv) s r
  serve_route workloads s r = auth_required (handle_workloads srv) s r
  serve_route services s r = auth_required (handle_services srv) s r
  serve_route deployments s r = auth_required (handle_deployments srv) s r
  serve_route networks s r = auth_required (handle_networks srv) s r
  serve_route volumes s r = auth_required (handle_volumes srv) s r
  serve_route secrets s r = auth_required (handle_secrets srv) s r
  serve_route config_maps s r = auth_required (handle_config_maps srv) s r
  serve_route nodes s r = auth_required (handle_nodes srv) s r
  serve_route buckets s r = auth_required (handle_buckets srv) s r
  serve_route objects s r = auth_required (handle_objects srv) s r
  serve_route metrics s r = open_route (handle_metrics s r)
  serve_route logs s r = auth_required handle_logs s r
  serve_route alerts s r = auth_required (handle_alerts srv) s r
  serve_route models s r = auth_required (handle_models srv) s r
  serve_route healthz s r = (s, some (write_json 200 (text (codes "ok"))))

  unfoldable pub serve : S → Request → S × Option Response
  unfolding route_of serve_route
  serve s r = elim (route_of r.path) [
    | none ↦ (s, some (failure 404 (codes "404 page not found")))
    | some route ↦ serve_route route s r
  ]
