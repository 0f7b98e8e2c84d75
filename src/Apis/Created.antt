-- ===== src/Apis/Created.antt =====
-- What the handlers of internal/apis/v1/api.go create is what they list.
use minicloud_platform.Prelude.{
  Option-cases, ◌≡◌, refl, sym, ap, subst, ◌∙◌, inl, inr, false, some, List, [], arith, Bool-cases,
  Any, Bytes, codes, same, same_iff,
}
use minicloud_platform.Prelude.Fallible.{Fallible, value, failed}
use minicloud_platform.Apis.Http.{
  Draws, Payload, Kind, Resource, Request, resource, resources, Response, Store, Server, write_json,
}
use minicloud_platform.Identity.Rules.{User, authorize}
use minicloud_platform.Identity.Globs.{authorize_lem}
use minicloud_platform.Identity.Tokens.{Auth, granted, denied, panic}
use minicloud_platform.Apis.Server.{
  verb_for, resource_for, bearer, authenticate, if_authorized, auth_required,
}
use minicloud_platform.Apis.Resources.{created, create_in_project, scoped}

-- The store leaves a record behind that has the id, the name and the project of the one that it was given, and lists it
-- under the project.
abbrev pub Lists : {S : Type 0} → Store S → Kind → Type 0
Lists {S} store k =
    (s s' : S) (r x : Resource)
    → store.create s k r ≡ (s', value x)
    → (x.id ≡ r.id)
      × (x.name ≡ r.name)
      × (x.project_id ≡ r.project_id)
      × (xs : List Resource) × (store.list s' k r.project_id ≡ value xs)
      × Any (λ y. y ≡ x) xs

-- What an answer of 201 says of the record that it shows.
pub record Created {S : Type 0} (srv : Server S) (k : Kind) (s s' : S) (project : Bytes)
    (x : Resource) : Type 0 where
  pub given : Resource
  pub stored : srv.store.create s k given ≡ (s', value x)
  pub project_eq : given.project_id ≡ project
  pub name_eq : given.name ≡ given.id
  pub id_full : same given.id [] ≡ false

module _ {S : Type 0} (srv : Server S) (k : Kind) where
  created_sound :
      (y : Resource) (p : S × Fallible Resource) (s' : S)
      → created p ≡ (s', write_json 201 (resource y))
      → p ≡ (s', value y)
  created_sound y (t, value x) s' h = ground (arith, h)
  created_sound y (t, failed e) s' h = ground (arith, h)

  create_in_project-Created :
      (s s' : S) (project : Bytes) (read : Fallible Resource) (y : Resource)
      → create_in_project srv k s project read ≡ (s', write_json 201 (resource y))
      → Created srv k s s' project y
  create_in_project-Created s s' project (failed e) y h = ground (arith, h)
  create_in_project-Created s s' project (value r) y h = elim (Bool-cases (same r.id [])) [
    | inl q ↦ ground (arith, h, q)
    | inr q ↦
        let x = record r { project_id = project; name = r.id } in
        let e : created (srv.store.create s k x) ≡ (s', write_json 201 (resource y)) =
          ground (arith, h, q) in
        record {
          given = x;
          stored = created_sound y (srv.store.create s k x) s' e;
          project_eq = refl;
          name_eq = refl;
          id_full = q;
        }
  ]

  scoped_get :
      (answer : Fallible (List Resource) → Response) (s : S) (r : Request)
      → same r.project [] ≡ false
      → r.method ≡ codes "GET"
      → scoped srv answer k s r ≡ (s, answer (srv.store.list s k r.project))
  scoped_get answer s r q m = let g = (same_iff r.method (codes "GET")).1 m in ground (arith, q, g)

  not_get : (m : Bytes) → m ≡ codes "POST" → same m (codes "GET") ≡ false
  unfolding same
  not_get m e = subst (λ x. same x (codes "GET") ≡ false) (sym e) refl

  scoped_post :
      (answer : Fallible (List Resource) → Response) (s : S) (r : Request)
      → same r.project [] ≡ false
      → r.method ≡ codes "POST"
      → scoped srv answer k s r
        ≡ create_in_project srv k s r.project (srv.json.read_resource k r.body)
  scoped_post answer s r q m =
      let g = (same_iff r.method (codes "POST")).1 m in
      let n = not_get r.method m in ground (arith, q, g, n)

  -- the two handlers, without the check that stands before them
  scoped-created :
      (answer : Fallible (List Resource) → Response) (s s' : S) (post get : Request) (y : Resource)
      → Lists srv.store k
      → ((xs : List Resource) → answer (value xs) ≡ write_json 200 (resources xs))
      → post.method ≡ codes "POST"
      → get.method ≡ codes "GET"
      → get.project ≡ post.project
      → scoped srv answer k s post ≡ (s', write_json 201 (resource y))
      → (y.project_id ≡ post.project)
        × (y.name ≡ y.id)
        × (same y.id [] ≡ false)
        × (xs : List Resource) × (scoped srv answer k s' get ≡ (s', write_json 200 (resources xs)))
        × Any (λ x. x ≡ y) xs
  scoped-created answer s s' post get y laws shows mp mg same_project h =
      elim (Bool-cases (same post.project [])) [
        | inl q ↦ ground (arith, h, q)
        | inr q ↦
            let c =
              create_in_project-Created s s' post.project _ y
                (sym (scoped_post answer s post q mp) ∙ h) in
            let (i, n, p, xs, e, any) = laws s s' c.given y c.stored in
            let here = ap (srv.store.list s' k) (same_project ∙ sym c.project_eq) ∙ e in
            let got = scoped_get answer s' get (ap (λ p. same p []) same_project ∙ q) mg in
            (
              p ∙ c.project_eq,
              n ∙ c.name_eq ∙ sym i,
              ap (λ x. same x []) i ∙ c.id_full,
              xs,
              got ∙ ap (λ a. (s', answer a)) here ∙ ap (λ a. (s', a)) (shows xs),
              any,
            )
      ]

verb_get : verb_for (codes "GET") ≡ codes "get"
unfolding verb_for same
verb_get = refl

module _ {S : Type 0} (srv : Server S) (d : Draws) where
  -- A request that is answered by 201 has passed the check.
  let_through :
      (h : S → Request → S × Response) (s s' : S) (r : Request) (a : Auth User) (x : Payload)
      → if_authorized srv d s h r a ≡ (s', some (write_json 201 x))
      → h s r ≡ (s', write_json 201 x)
  let_through h s s' r panic x e = ground (arith, e)
  let_through h s s' r (denied y) x e = ground (arith, e)
  let_through h s s' r (granted u) x e =
      elim (Option-cases (authorize (some u) (verb_for r.method) (resource_for r.path))) [
        | inl q ↦ ground (arith, e, q)
        | inr (y, q) ↦ ground (arith, e, q)
      ]

  auth_required_passed :
      (h : S → Request → S × Response) (s s' : S) (r : Request) (x : Payload)
      → auth_required srv d h s r ≡ (s', some (write_json 201 x))
      → h s r ≡ (s', write_json 201 x)
  unfolding auth_required
  auth_required_passed h s s' r x e = elim (Bool-cases (same (bearer r) [])) [
    | inl q ↦ ground (arith, e, q)
    | inr q ↦ let_through h s s' r (authenticate srv d s (bearer r)) x (ground (arith, e, q))
  ]

  -- Any user may read.
  auth_required-get :
      (h : S → Request → S × Response) (s : S) (r : Request) (u : User)
      → same (bearer r) [] ≡ false
      → authenticate srv d s (bearer r) ≡ granted u
      → r.method ≡ codes "GET"
      → auth_required srv d h s r ≡ ((h s r).0, some (h s r).1)
  unfolding auth_required
  auth_required-get h s r u b a m =
      let verb : verb_for r.method ≡ codes "get" =
        subst (λ z. verb_for z ≡ codes "get") (sym m) verb_get in
      let ok = (authorize_lem u (verb_for r.method) (resource_for r.path)).1 (inr (inl verb)) in
      rw (auth_required, b, a, if_authorized, ok) refl

-- If a POST to a route of records of a project is answered by 201 and a record, that record is in the project of
-- the query, its name is its id and not empty, and a GET for the same project, with the token of any user or a
-- key, is answered by 200 and a list that has it.
pub auth_required-created :
    {S : Type 0} (srv : Server S) (k : Kind) (d d' : Draws)
    (answer : Fallible (List Resource) → Response) (s s' : S) (post get : Request) (y : Resource)
    (u : User)
    → Lists srv.store k
    → ((xs : List Resource) → answer (value xs) ≡ write_json 200 (resources xs))
    → post.method ≡ codes "POST"
    → get.method ≡ codes "GET"
    → get.project ≡ post.project
    → same (bearer get) [] ≡ false
    → authenticate srv d' s' (bearer get) ≡ granted u
    → auth_required srv d (scoped srv answer k) s post ≡ (s', some (write_json 201 (resource y)))
    → (y.project_id ≡ post.project)
      × (y.name ≡ y.id)
      × (same y.id [] ≡ false)
      × (xs : List Resource) × (auth_required srv d' (scoped srv answer k) s' get
          ≡ (s', some (write_json 200 (resources xs))))
      × Any (λ x. x ≡ y) xs
auth_required-created srv k d d' answer s s' post get y u laws shows mp mg same_project b a h =
    let done = auth_required_passed srv d (scoped srv answer k) s s' post (resource y) h in
    let (p, n, i, xs, got, any) =
      scoped-created srv k answer s s' post get y laws shows mp mg same_project done in
    (
      p,
      n,
      i,
      xs,
      auth_required-get srv d' (scoped srv answer k) s' get u b a mg
          ∙ ap (λ z. (z.0, some z.1)) got,
      any,
    )
