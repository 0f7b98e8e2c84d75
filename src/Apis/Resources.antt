-- ===== src/Apis/Resources.antt =====
-- The handlers of internal/apis/v1/api.go that list and create records of internal/state.
use minicloud_platform.Prelude.{
  not, Option, none, some, List, [], if◌then◌else◌, Bytes, codes, same, trim_prefix,
}
use minicloud_platform.Prelude.Split.{split_at}
use minicloud_platform.Prelude.Fallible.{Fallible, value, failed}
use minicloud_platform.Apis.Http.{
  Kind, project, workload, service, deployment, network, volume, secret, config_map, node, bucket,
  alert, model, Resource, Request, resource, resources, object, nothing, Response, Server,
  write_json, failure, not_allowed, method_is,
}

-- `xs, _ := s.store.List…(…)`
abbrev pub list_anyway : Fallible (List Resource) → Response
list_anyway (value xs) = write_json 200 (resources xs)
list_anyway (failed e) = write_json 200 (resources [])

-- the same, in the handler of the workloads, which looks at the error
abbrev pub list_or_fail : Fallible (List Resource) → Response
list_or_fail (value xs) = write_json 200 (resources xs)
list_or_fail (failed e) = failure 500 e

module _ {S : Type 0} where
  -- the end of a creation
  abbrev pub created : S × Fallible Resource → S × Response
  created (s, value r) = (s, write_json 201 (resource r))
  created (s, failed e) = (s, failure 409 e)

module _ {S : Type 0} (srv : Server S) where
  abbrev pub create_named : Kind → S → Resource → S × Response
  create_named k s r =
      if same r.id []
      then (s, failure 400 (codes "id required"))
      else let named = record r { name = r.id } in created (srv.store.create s k named)

  -- a POST of a record that belongs to the project of the query
  abbrev pub create_in_project : Kind → S → Bytes → Fallible Resource → S × Response
  create_in_project k s project_id (failed e) = (s, failure 400 e)
  create_in_project k s project_id (value r) =
      create_named k s (record r { project_id = project_id })

  -- a POST of a record that belongs to no project
  abbrev pub create_global : Kind → S → Fallible Resource → S × Response
  create_global k s (failed e) = (s, failure 400 e)
  create_global k s (value r) = create_named k s r

  abbrev pub scoped : (Fallible (List Resource) → Response) → Kind → S → Request → S × Response
  scoped answer k s r =
      if same r.project []
      then (s, failure 400 (codes "project_id required"))
      else if method_is r (codes "GET")
      then (s, answer (srv.store.list s k r.project))
      else if method_is r (codes "POST")
      then create_in_project k s r.project (srv.json.read_resource k r.body)
      else (s, not_allowed)

  abbrev pub global : Kind → S → Request → S × Response
  global k s r =
      if method_is r (codes "GET")
      then (s, list_anyway (srv.store.list s k []))
      else if method_is r (codes "POST")
      then create_global k s (srv.json.read_resource k r.body)
      else (s, not_allowed)

  unfoldable pub handle_workloads : S → Request → S × Response
  handle_workloads = scoped list_or_fail workload

  unfoldable pub handle_services : S → Request → S × Response
  handle_services = scoped list_anyway service

  unfoldable pub handle_deployments : S → Request → S × Response
  handle_deployments = scoped list_anyway deployment

  unfoldable pub handle_networks : S → Request → S × Response
  handle_networks = scoped list_anyway network

  unfoldable pub handle_volumes : S → Request → S × Response
  handle_volumes = scoped list_anyway volume

  unfoldable pub handle_secrets : S → Request → S × Response
  handle_secrets = scoped list_anyway secret

  unfoldable pub handle_config_maps : S → Request → S × Response
  handle_config_maps = scoped list_anyway config_map

  unfoldable pub handle_buckets : S → Request → S × Response
  handle_buckets = global bucket

  unfoldable pub handle_alerts : S → Request → S × Response
  handle_alerts = global alert

  -- a project is in no project, whatever the body says
  unfoldable pub handle_projects : S → Request → S × Response
  handle_projects s r =
      if method_is r (codes "GET")
      then (s, list_anyway (srv.store.list s project []))
      else if method_is r (codes "POST")
      then create_in_project project s [] (srv.json.read_resource project r.body)
      else (s, not_allowed)

  unfoldable pub handle_nodes : S → Request → S × Response
  handle_nodes s r =
      if method_is r (codes "GET")
      then (s, list_anyway (srv.store.list s node []))
      else (s, not_allowed)

  unfoldable pub handle_models : S → Request → S × Response
  handle_models s r =
      if not (method_is r (codes "GET"))
      then (s, not_allowed)
      else (s, list_anyway (srv.store.list s model []))

  abbrev pub found : Fallible Bytes → Response
  found (value o) = write_json 200 (object o)
  found (failed e) = failure 404 e

  abbrev pub deleted : S × Option Bytes → S × Response
  deleted (s, none) = (s, write_json 204 nothing)
  deleted (s, some e) = (s, failure 500 e)

  abbrev pub object_of : S → Request → Option (Bytes × Bytes) → S × Response
  object_of s r none = (s, failure 400 (codes "bucket/key required"))
  object_of s r (some (b, key)) =
      if method_is r (codes "GET")
      then (s, found (srv.store.get_object s b key))
      else if method_is r (codes "DELETE")
      then deleted (srv.store.delete_object s b key)
      else (s, not_allowed)

  unfoldable pub handle_objects : S → Request → S × Response
  unfolding split_at
  handle_objects s r = object_of s r (split_at b'/' (trim_prefix (codes "/v1/buckets/") r.path))
