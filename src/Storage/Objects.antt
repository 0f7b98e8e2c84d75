-- ===== src/Storage/Objects.antt =====
-- The store of internal/storage/object/object.go. The metadata store, whose package is not in the repository, and the
-- files of the machine are parameters: a call of them changes their state and gives a value or the text of an
-- error. A reader is what can be read from it.
use minicloud_platform.Prelude.{
  ℕ, ◌≡◌, ◌≢◌, false, ◌||◌, List, [], ◌∷◌, if◌then◌else◌, length, keep, Bytes, codes, same,
  starts_with, before,
}
use minicloud_platform.Prelude.Fallible.{Fallible, value, failed}
use minicloud_platform.Storage.Calls.{Action, ◌>>=◌, ◌>>◌, answer, fail_if, on_meta, on_files}
use minicloud_platform.Storage.Paths.{join_path, dir}

pub record Object : Type 0 where
  pub id : Bytes
  pub project_id : Bytes
  pub name : Bytes
  pub bucket : Bytes
  pub key : Bytes
  pub size : ℕ
  pub sha256 : Bytes

-- `root` is not empty, as New sees to it.
pub record Host (Meta Files : Type 0) : Type 0 where
  pub root : Bytes
  pub root_full : same root [] ≡ false
  pub sha256_hex : Bytes → Bytes
  pub mkdir_all : Bytes → Action Files (Unit {0})
  pub write_file : Bytes → Bytes → Action Files (Unit {0})
  pub open_file : Bytes → Files → Fallible Bytes
  pub remove : Bytes → Action Files (Unit {0})
  pub remove_all : Bytes → Action Files (Unit {0})
  pub create_bucket : Bytes → Action Meta (Unit {0})
  pub delete_bucket : Bytes → Action Meta (Unit {0})
  pub put_object : Object → Action Meta (Unit {0})
  pub get_object : Bytes → Bytes → Meta → Fallible Object
  pub delete_object : Bytes → Bytes → Action Meta (Unit {0})
  pub list_objects : Bytes → Meta → Fallible (List Object)

-- What is written is read, in the files and in the metadata, and the metadata of another bucket stays.
pub record Keeps {Meta Files : Type 0} (h : Host Meta Files) : Type 0 where
  pub open_file-write_file :
      (path bytes : Bytes) (f g : Files)
      → h.write_file path bytes f ≡ (value tt, g)
      → h.open_file path g ≡ value bytes
  pub get_object-put_object_self :
      (o : Object) (m n : Meta)
      → h.put_object o m ≡ (value tt, n)
      → h.get_object o.bucket o.key n ≡ value o
  pub get_object-put_object_ne :
      (o : Object) (bucket key : Bytes) (m n : Meta)
      → o.bucket ≢ bucket
      → h.put_object o m ≡ (value tt, n)
      → h.get_object bucket key n ≡ h.get_object bucket key m

-- the objects in the order of `sort.Slice` by key
unfoldable pub place : Object → List Object → List Object
place o [] = o ∷ []
place o (x ∷ xs) = let rest = place o xs in if before x.key o.key then x ∷ rest else o ∷ x ∷ xs

unfoldable pub by_key : List Object → List Object
unfolding place
by_key [] = []
by_key (o ∷ os) = place o (by_key os)

abbrev pub list_answer : Bytes → Fallible (List Object) → Fallible (List Object)
list_answer prefix (failed e) = failed e
list_answer prefix (value os) =
    value (by_key (if same prefix [] then os else keep (λ o. starts_with o.key prefix) os))

abbrev pub fetched : Fallible Object → Fallible Bytes → Fallible (Bytes × Object)
fetched (failed e) r = failed e
fetched (value o) (failed e) = failed e
fetched (value o) (value bytes) = value (bytes, o)

module _ {Meta Files : Type 0} (h : Host Meta Files) where
  unfoldable pub object_path : Bytes → Bytes → Bytes
  object_path bucket key = join_path (h.root ∷ bucket ∷ key ∷ [])

  abbrev pub metadata_of : Bytes → Bytes → Bytes → Object
  metadata_of bucket key bytes = record {
    id = key;
    project_id = bucket;
    name = key;
    bucket = bucket;
    key = key;
    size = length bytes;
    sha256 = h.sha256_hex bytes;
  }

  unfoldable pub create_bucket : Bytes → Action (Meta × Files) (Unit {0})
  create_bucket name = do
    fail_if (same name []) (codes "object: bucket name required")
    on_meta (h.create_bucket name)
    on_files (h.mkdir_all (join_path (h.root ∷ name ∷ [])))

  unfoldable pub delete_bucket : Bytes → Action (Meta × Files) (Unit {0})
  delete_bucket name = do
    on_meta (h.delete_bucket name)
    on_files (h.remove_all (join_path (h.root ∷ name ∷ [])))

  unfoldable pub put_object : Bytes → Bytes → Fallible Bytes → Action (Meta × Files) Bytes
  put_object bucket key reader = do
    fail_if (same bucket [] || same key []) (codes "object: bucket and key required")
    bytes ← answer reader
    on_files (h.mkdir_all (dir (object_path bucket key)))
    on_files (h.write_file (object_path bucket key) bytes)
    on_meta (h.put_object (metadata_of bucket key bytes))
    answer (value (h.sha256_hex bytes))

  unfoldable pub get_object : Bytes → Bytes → Meta × Files → Fallible (Bytes × Object)
  get_object bucket key s =
      fetched (h.get_object bucket key s.0) (h.open_file (object_path bucket key) s.1)

  unfoldable pub delete_object : Bytes → Bytes → Action (Meta × Files) (Unit {0})
  delete_object bucket key = do
    on_meta (h.delete_object bucket key)
    on_files (h.remove (object_path bucket key))

  unfoldable pub list_objects : Bytes → Bytes → Meta × Files → Fallible (List Object)
  list_objects bucket prefix s = list_answer prefix (h.list_objects bucket s.0)
