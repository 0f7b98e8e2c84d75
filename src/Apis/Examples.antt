-- ===== src/Apis/Examples.antt =====
-- Requests to internal/apis/v1/api.go at concrete inputs.
use minicloud_platform.Prelude.{
  ◌≡◌, refl, sym, ap, ◌≢◌, ◌⊎◌, true, false, none, some, List, [], ◌∷◌, ◌++◌, arith, length, Any,
  Bytes, codes, same, starts_with,
}
use minicloud_platform.Prelude.Fallible.{Fallible, value, failed}
use minicloud_platform.Identity.Tokens.{granted, auth_api_key, verify_token, sign_token}
use minicloud_platform.Identity.Accounts.{issue_api_key, Account, KeyRecord}
use minicloud_platform.Identity.Fixtures.{shifted, plain_hash, People, people, nobody}
use minicloud_platform.Identity.Rules.{authorize}
use minicloud_platform.Apis.Resources.{handle_secrets}
use minicloud_platform.Apis.Http.{
  Kind, Resource, Request, Store, Json, Server, Draws, resource, resources, issued, write_json,
}
use minicloud_platform.Apis.Resources.{scoped, list_anyway}
use minicloud_platform.Apis.People.{handle_api_keys}
use minicloud_platform.Apis.Server.{serve}
use minicloud_platform.Apis.Guard.{ByAdmin, serve-ByAdmin}
use minicloud_platform.Apis.Server.{auth_required, authenticate, bearer}
use minicloud_platform.Apis.Created.{Lists, auth_required-created}
use minicloud_platform.Apis.Issued.{Issued, handle_api_keys-Issued}

-- people, and the records that were created
pub record World : Type 0 where
  pub who : People
  pub records : List Resource

abbrev lifted : {A : Type 0} → World → People × A → World × A
lifted s (p, a) = (record s { who = p }, a)

abbrev world_store : Store World
world_store = record {
  directory = record {
    find_user_by_email = λ s. people.find_user_by_email s.who;
    get_user = λ s. people.get_user s.who;
    list_users = λ s. people.list_users s.who;
    create_user = λ s u. lifted s (people.create_user s.who u);
    list_api_keys = λ s. people.list_api_keys s.who;
    create_api_key = λ s k. lifted s (people.create_api_key s.who k);
  };
  list = λ s k project. value s.records;
  create = λ s k r. (record s { records = r ∷ s.records }, value r);
  get_object = λ s b k. failed [];
  delete_object = λ s b k. (s, none);
}

abbrev plain_json : Json
plain_json = record {
  read_resource =
      λ k b. value (record { id = b; name = []; project_id = codes "other"; rest = [] });
  read_user = λ b. value (record { email = b; display_name = b; password = b; admin = true });
  read_login = λ b. value (record { email = b; password = b });
  read_key = λ b. value (record { user_id = b; project_id = b; name = b });
}

abbrev server : Server World
server = record {
  store = world_store;
  json = plain_json;
  codecs = shifted;
  hmac_key = codes "k";
  bcrypt = plain_hash;
  digest = λ s. length s ∷ [];
}

abbrev draws : Draws
draws = record { seconds = 40; nanos = 40000; random = 1 ∷ 2 ∷ []; random_id = 3 ∷ []; salt = [] }

abbrev boss : Account
boss = record {
  user = record { id = codes "u1"; admin = true };
  name = codes "Boss";
  email = codes "a@b";
  display_name = codes "Boss";
  password_bcrypt = 1 ∷ codes "pw";
}

abbrev world : World
world = record { who = record nobody { accounts = boss ∷ [] }; records = [] }

abbrev asked : Bytes → Bytes → Bytes → Request
asked method path body = record {
  method = method;
  path = path;
  project = codes "p1";
  authorization = codes "Bearer " ++ sign_token shifted (codes "k") (codes "u1") 50;
  cookie = none;
  body = body;
}

abbrev post_secret : Request
post_secret = asked (codes "POST") (codes "/v1/secrets") (codes "s1")

abbrev made : Resource
made = record { id = codes "s1"; name = codes "s1"; project_id = codes "p1"; rest = [] }

-- the administrator creates a secret
secret_served :
    serve server draws world post_secret
    ≡ (record world { records = made ∷ [] }, some (write_json 201 (resource made)))
unfolding serve sign_token verify_token same starts_with authorize handle_secrets
secret_served = refl

serve-ByAdmin_example :
    ((serve server draws world post_secret).0 ≡ world) ⊎ ByAdmin server draws world post_secret
serve-ByAdmin_example = serve-ByAdmin server draws world post_secret

world-Lists : Lists world_store Kind.secret
world-Lists s t r x h = (
  ap (λ (z : Resource). z.id) (left_record h),
  ap (λ (z : Resource). z.name) (left_record h),
  ap (λ (z : Resource). z.project_id) (left_record h),
  r ∷ s.records,
  ap (λ z. value (z.0).records) (sym h),
  Any.here (sym (left_record h)),
)
  where
    left_record :
        Path
          (World × Fallible Resource)
          (record s { records = r ∷ s.records }, value r)
          (t, value x)
        → x ≡ r
    left_record e = ground (arith, e)

abbrev get_secrets : Request
get_secrets = asked (codes "GET") (codes "/v1/secrets") []

abbrev with_secret : World
with_secret = record world { records = made ∷ [] }

posted :
    auth_required server draws (scoped server list_anyway Kind.secret) world post_secret
    ≡ (with_secret, some (write_json 201 (resource made)))
unfolding auth_required sign_token verify_token same starts_with authorize
posted = refl

reader :
    authenticate server draws with_secret (bearer get_secrets)
    ≡ granted (record { id = codes "u1"; admin = true })
unfolding authenticate bearer sign_token verify_token same starts_with
reader = refl

has_token : same (bearer get_secrets) [] ≡ false
unfolding bearer sign_token same starts_with
has_token = refl

auth_required-created_example :
    (made.project_id ≡ codes "p1")
    × (made.name ≡ made.id)
    × (same made.id [] ≡ false)
    × (xs : List Resource) × (auth_required server draws
          (scoped server list_anyway Kind.secret)
          with_secret
          get_secrets
        ≡ (with_secret, some (write_json 200 (resources xs))))
    × Any (λ x. x ≡ made) xs
auth_required-created_example =
    auth_required-created server Kind.secret draws draws list_anyway world with_secret post_secret
      get_secrets made (record { id = codes "u1"; admin = true }) world-Lists (λ xs. refl) refl refl
      refl has_token reader posted

abbrev post_key : Request
post_key = asked (codes "POST") (codes "/v1/apikeys") (codes "x")

abbrev new_secret : Bytes
new_secret = codes "ctlk_0102"

abbrev with_key : World
with_key = record world {
  who = record (world.who) {
    keys =
        record { id = codes "key_03"; hash = 9 ∷ []; prefix = codes "ctlk_010"; expires_at = 40000 }
        ∷ [];
  };
}

key_made :
    handle_api_keys server draws world post_key
    ≡ (with_key, write_json 201 (issued (codes "key_03") new_secret))
unfolding handle_api_keys same issue_api_key
key_made = refl

handle_api_keys-Issued_example :
    (k : KeyRecord) × Issued server draws world with_key (codes "key_03") k
    × (auth_api_key server.digest 40001 with_key.who.keys new_secret ≢ granted k.key)
handle_api_keys-Issued_example =
    handle_api_keys-Issued server draws world with_key post_key (codes "key_03") new_secret
      new_secret 40001 with_key.who.keys (omega arith) (omega arith) key_made
