-- ===== src/Apis/Guard.antt =====
-- Who can change the store through internal/apis/v1/api.go.
use minicloud_platform.Prelude.{
  List, ◌≡◌, refl, ◌⊎◌, inl, inr, true, false, Option, none, some, [], arith, Bool-cases,
  Option-cases, Bytes, codes, same, same_iff,
}
use minicloud_platform.Prelude.Fallible.{Fallible}
use minicloud_platform.Identity.Rules.{User, authorize}
use minicloud_platform.Identity.Globs.{authorize_lem}
use minicloud_platform.Identity.Tokens.{ApiKey, Auth, granted, denied, panic, verify_token}
use minicloud_platform.Apis.Http.{Kind, Resource, Request, Response, Server, Draws, method_is}
use minicloud_platform.Apis.Resources.{
  scoped, global, list_or_fail, list_anyway, object_of, handle_workloads, handle_services,
  handle_deployments, handle_networks, handle_volumes, handle_secrets, handle_config_maps,
  handle_buckets, handle_alerts, handle_projects, handle_nodes, handle_models, handle_objects,
}
use minicloud_platform.Apis.People.{handle_login, handle_users, handle_api_keys}
use minicloud_platform.Apis.Server.{
  verb_for, resource_for, bearer, or_key, Route, route_of, authenticate, if_authorized,
  auth_required, handle_metrics, handle_logs, serve_route, serve,
}

-- A request whose method is neither POST nor DELETE.
abbrev pub Reads : Request → Type 0
Reads r = (method_is r (codes "POST") ≡ false) × (method_is r (codes "DELETE") ≡ false)

-- A handler that such a request makes let the store alone.
abbrev pub LeavesAlone : {S : Type 0} → (S → Request → S × Response) → Type 0
LeavesAlone {S} h = (s : S) (r : Request) → Reads r → (h s r).0 ≡ s

-- The request was made with the token of an administrator.
pub record ByAdmin {S : Type 0} (srv : Server S) (d : Draws) (s : S) (r : Request) : Type 0 where
  pub user : User
  pub verified :
      verify_token srv.codecs srv.hmac_key d.seconds (srv.store.directory.get_user s) (bearer r)
      ≡ granted user
  pub admin : user.admin ≡ true

verb_post : (m : Bytes) → same m (codes "POST") ≡ true → verb_for m ≡ codes "create"
unfolding verb_for same
verb_post m q = rw ((same_iff m (codes "POST")).0 q) refl

verb_delete : (m : Bytes) → same m (codes "DELETE") ≡ true → verb_for m ≡ codes "delete"
unfolding verb_for same
verb_delete m q = rw ((same_iff m (codes "DELETE")).0 q) refl

-- The verbs of a viewer are those of requests that read.
verb-Reads :
    (r : Request) → (verb_for r.method ≡ codes "get") ⊎ (verb_for r.method ≡ codes "list") → Reads r
verb-Reads r v = (
  elim (Bool-cases (method_is r (codes "POST"))) [
    | inl q ↦ let e = verb_post r.method q in ground (arith, v, e)
    | inr q ↦ q
  ],
  elim (Bool-cases (method_is r (codes "DELETE"))) [
    | inl q ↦ let e = verb_delete r.method q in ground (arith, v, e)
    | inr q ↦ q
  ],
)

-- An authorized request reads, or its user is an administrator.
authorized_cases :
    (r : Request) (u : User)
    → authorize (some u) (verb_for r.method) (resource_for r.path) ≡ none
    → (u.admin ≡ true) ⊎ Reads r
authorized_cases r u h = elim ((authorize_lem u (verb_for r.method) (resource_for r.path)).0 h) [
  | inl a ↦ inl a
  | inr v ↦ inr (verb-Reads r v)
]

-- A user that stands for a key is no administrator.
or_key-admin :
    (v : Auth User) (k : Auth ApiKey) (u : User)
    → or_key v k ≡ granted u
    → u.admin ≡ true
    → v ≡ granted u
or_key-admin (granted w) k u h a = h
or_key-admin (denied e) (granted k) u h a = ground (arith, h, a)
or_key-admin (denied e) (denied x) u h a = ground (arith, h)
or_key-admin (denied e) panic u h a = ground (arith, h)
or_key-admin panic k u h a = ground (arith, h)

module _ {S : Type 0} (srv : Server S) (d : Draws) where
  if_authorized-cases :
      (h : S → Request → S × Response) (s : S) (r : Request) (a : Auth User)
      → LeavesAlone h
      → ((if_authorized srv d s h r a).0 ≡ s) ⊎ ((u : User) × (a ≡ granted u) × (u.admin ≡ true))
  if_authorized-cases h s r panic alone = inl refl
  if_authorized-cases h s r (denied e) alone = inl refl
  if_authorized-cases h s r (granted u) alone =
      elim (Option-cases (authorize (some u) (verb_for r.method) (resource_for r.path))) [
        | inr (e, q) ↦ inl (rw (q, if_authorized) refl)
        | inl q ↦ elim (authorized_cases r u q) [
          | inl a ↦ inr (u, refl, a)
          | inr reads ↦ inl (rw (q, if_authorized) (alone s r reads))
        ]
      ]

  auth_required-cases :
      (h : S → Request → S × Response) (s : S) (r : Request)
      → LeavesAlone h
      → ((auth_required srv d h s r).0 ≡ s) ⊎ ByAdmin srv d s r
  unfolding auth_required authenticate
  auth_required-cases h s r alone = elim (Bool-cases (same (bearer r) [])) [
    | inl q ↦ inl (rw q refl)
    | inr q ↦ elim (if_authorized-cases h s r (authenticate srv d s (bearer r)) alone) [
      | inl e ↦ inl (rw q e)
      | inr (u, e, a) ↦ inr (record { user = u; verified = or_key-admin _ _ u e a; admin = a })
    ]
  ]

  object_of_read :
      (s : S) (r : Request) (o : Option (Bytes × Bytes)) → Reads r → (object_of srv s r o).0 ≡ s
  object_of_read s r none h = refl
  object_of_read s r (some (b, key)) h = ground (arith, h)

  handle_objects_read : LeavesAlone (handle_objects srv)
  unfolding handle_objects
  handle_objects_read s r h = object_of_read s r _ h

  scoped_read :
      (answer : Fallible (List Resource) → Response) (k : Kind) → LeavesAlone (scoped srv answer k)
  scoped_read answer k s r h = ground (arith, h)

  global_read : (k : Kind) → LeavesAlone (global srv k)
  global_read k s r h = ground (arith, h)

  projects_read : LeavesAlone (handle_projects srv)
  unfolding handle_projects
  projects_read s r h = ground (arith, h)

  users_read : LeavesAlone (handle_users srv d)
  unfolding handle_users
  users_read s r h = ground (arith, h)

  api_keys_read : LeavesAlone (handle_api_keys srv d)
  unfolding handle_api_keys
  api_keys_read s r h = ground (arith, h)

  -- A handler of a method on its own reads.
  handle_nodes_lem : (s : S) (r : Request) → (handle_nodes srv s r).0 ≡ s
  unfolding handle_nodes
  handle_nodes_lem s r = ground arith

  handle_models_lem : (s : S) (r : Request) → (handle_models srv s r).0 ≡ s
  unfolding handle_models
  handle_models_lem s r = ground arith

  handle_logs_lem : (s : S) (r : Request) → (handle_logs srv d s r).0 ≡ s
  unfolding handle_logs
  handle_logs_lem s r = ground arith

  pub serve_route-cases :
      (route : Route) (s : S) (r : Request)
      → ((serve_route srv d route s r).0 ≡ s) ⊎ ByAdmin srv d s r
  unfolding serve_route handle_login handle_metrics handle_workloads handle_services
      handle_deployments handle_networks handle_volumes handle_secrets handle_config_maps
      handle_buckets handle_alerts
  serve_route-cases Route.login s r = inl (ground arith)
  serve_route-cases Route.users s r = auth_required-cases (handle_users srv d) s r users_read
  serve_route-cases Route.api_keys s r =
      auth_required-cases (handle_api_keys srv d) s r api_keys_read
  serve_route-cases Route.projects s r = auth_required-cases (handle_projects srv) s r projects_read
  serve_route-cases Route.workloads s r =
      auth_required-cases (handle_workloads srv) s r (scoped_read list_or_fail Kind.workload)
  serve_route-cases Route.services s r =
      auth_required-cases (handle_services srv) s r (scoped_read list_anyway Kind.service)
  serve_route-cases Route.deployments s r =
      auth_required-cases (handle_deployments srv) s r (scoped_read list_anyway Kind.deployment)
  serve_route-cases Route.networks s r =
      auth_required-cases (handle_networks srv) s r (scoped_read list_anyway Kind.network)
  serve_route-cases Route.volumes s r =
      auth_required-cases (handle_volumes srv) s r (scoped_read list_anyway Kind.volume)
  serve_route-cases Route.secrets s r =
      auth_required-cases (handle_secrets srv) s r (scoped_read list_anyway Kind.secret)
  serve_route-cases Route.config_maps s r =
      auth_required-cases (handle_config_maps srv) s r (scoped_read list_anyway Kind.config_map)
  serve_route-cases Route.nodes s r =
      auth_required-cases (handle_nodes srv) s r (λ t q h. handle_nodes_lem t q)
  serve_route-cases Route.buckets s r =
      auth_required-cases (handle_buckets srv) s r (global_read Kind.bucket)
  serve_route-cases Route.objects s r =
      auth_required-cases (handle_objects srv) s r handle_objects_read
  serve_route-cases Route.metrics s r = inl (ground arith)
  serve_route-cases Route.logs s r =
      auth_required-cases (handle_logs srv d) s r (λ t q h. handle_logs_lem t q)
  serve_route-cases Route.alerts s r =
      auth_required-cases (handle_alerts srv) s r (global_read Kind.alert)
  serve_route-cases Route.models s r =
      auth_required-cases (handle_models srv) s r (λ t q h. handle_models_lem t q)
  serve_route-cases Route.healthz s r = inl refl

  -- Any request either leaves the store as it is, or was made with a token, accepted at the time, of a user who is
  -- an administrator; an API key is not enough.
  pub serve-ByAdmin : (s : S) (r : Request) → ((serve srv d s r).0 ≡ s) ⊎ ByAdmin srv d s r
  unfolding serve
  serve-ByAdmin s r = elim (Option-cases (route_of r.path)) [
    | inl q ↦ inl (rw (q, serve) refl)
    | inr (route, q) ↦ rw (q, serve) (serve_route-cases route s r)
  ]
