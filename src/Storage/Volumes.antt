-- ===== src/Storage/Volumes.antt =====
-- The manager of internal/storage/volume/volume.go. The store of records, whose package is not in the repository,
-- and the files of the machine are parameters, as for the objects.
use minicloud_platform.Prelude.{ℕ, ◌||◌, [], ◌∷◌, ◌++◌, ◌==◌, Bytes, codes}
use minicloud_platform.Prelude.Int64.{is_negative}
use minicloud_platform.Prelude.Fallible.{Fallible, value, failed}
use minicloud_platform.Storage.Calls.{Action, ◌>>=◌, ◌>>◌, fail_if, on_meta, on_files}
use minicloud_platform.Storage.Paths.{join_path, dir}

pub data VolumeStatus : Type 0 where
  available in_use : VolumeStatus

pub record Volume : Type 0 where
  pub id : Bytes
  pub project_id : Bytes
  pub name : Bytes
  pub size_bytes : ℕ
  pub node_id : Bytes
  pub status : VolumeStatus

-- `create_file` opens for reading and writing and makes the file if there is none; a file that is there keeps its
-- bytes. `copy_over` writes from the start of a file.
pub record Disk (Meta Files : Type 0) : Type 0 where
  pub root : Bytes
  pub mkdir_all : Bytes → Action Files (Unit {0})
  pub create_file : Bytes → Action Files (Unit {0})
  pub truncate : Bytes → ℕ → Action Files (Unit {0})
  pub copy_over : Bytes → Bytes → Action Files (Unit {0})
  pub remove : Bytes → Action Files (Unit {0})
  pub stat : Bytes → Files → Fallible (Unit {0})
  pub open_file : Bytes → Files → Fallible Bytes
  pub create_volume : Volume → Action Meta (Unit {0})
  pub get_volume : Bytes → Bytes → Meta → Fallible Volume
  pub update_volume : Volume → Action Meta (Unit {0})
  pub delete_volume : Bytes → Bytes → Action Meta (Unit {0})

abbrev pub read : {S A : Type 0} → (S → Fallible A) → Action S A
read f s = (f s, s)

-- `fmt.Errorf("volume: source missing: %w", err)`
abbrev pub source_missing : Fallible (Unit {0}) → Fallible (Unit {0})
source_missing (value u) = value u
source_missing (failed e) = failed (codes "volume: source missing: " ++ e)

module _ {Meta Files : Type 0} (d : Disk Meta Files) where
  unfoldable pub volume_path : Bytes → Bytes → Bytes
  volume_path project_id id = join_path (d.root ∷ project_id ∷ (id ++ codes ".vol") ∷ [])

  abbrev pub new_volume : Bytes → Bytes → ℕ → Bytes → Volume
  new_volume project_id id size node_id = record {
    id = id;
    project_id = project_id;
    name = id;
    size_bytes = size;
    node_id = node_id;
    status = available;
  }

  -- `sizeBytes <= 0` of an int64
  unfoldable pub create_volume : Bytes → Bytes → ℕ → Bytes → Action (Meta × Files) (Unit {0})
  create_volume project_id id size node_id = do
    fail_if (size == 0 || is_negative size) (codes "volume: size must be positive")
    on_meta (d.create_volume (new_volume project_id id size node_id))
    on_files (d.mkdir_all (dir (volume_path project_id id)))
    on_files (d.create_file (volume_path project_id id))
    on_files (d.truncate (volume_path project_id id) size)

  unfoldable pub attach_volume : Bytes → Bytes → Bytes → Action (Meta × Files) (Unit {0})
  attach_volume project_id id node_id = do
    v ← on_meta (read (d.get_volume project_id id))
    on_meta (d.update_volume (record v { node_id = node_id; status = in_use }))

  unfoldable pub detach_volume : Bytes → Bytes → Action (Meta × Files) (Unit {0})
  detach_volume project_id id = do
    v ← on_meta (read (d.get_volume project_id id))
    on_meta (d.update_volume (record v { status = available }))

  unfoldable pub delete_volume : Bytes → Bytes → Action (Meta × Files) (Unit {0})
  delete_volume project_id id = do
    on_meta (d.delete_volume project_id id)
    on_files (d.remove (volume_path project_id id))

  unfoldable pub read_volume : Bytes → Bytes → Action (Meta × Files) Bytes
  read_volume project_id id = do
    on_meta (read (d.get_volume project_id id))
    on_files (read (d.open_file (volume_path project_id id)))

  unfoldable pub snapshot_volume : Bytes → Bytes → Bytes → Action (Meta × Files) (Unit {0})
  snapshot_volume project_id vol_id snap_id = do
    on_files (read (λ f. source_missing (d.stat (volume_path project_id vol_id) f)))
    on_files (d.mkdir_all (dir (volume_path project_id snap_id)))
    bytes ← on_files (read (d.open_file (volume_path project_id vol_id)))
    on_files (d.create_file (volume_path project_id snap_id))
    on_files (d.copy_over (volume_path project_id snap_id) bytes)
