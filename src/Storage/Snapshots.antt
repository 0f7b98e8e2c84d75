-- ===== src/Storage/Snapshots.antt =====
-- What Snapshot of internal/storage/volume/volume.go leaves: the file is not cut, and no record is made.
use minicloud_platform.Prelude.{◌≡◌, sym, ap, ◌∙◌, [], ◌++◌, length, Bytes, drop}
use minicloud_platform.Prelude.Fallible.{Fallible, value, failed}
use minicloud_platform.Storage.Calls.{◌>>=◌, ◌>>◌, on_files, files_passed}
use minicloud_platform.Storage.Paths.{dir}
use minicloud_platform.Storage.Volumes.{Disk, read, source_missing, volume_path, snapshot_volume}

-- the bytes of a file, none if it cannot be opened
abbrev pub held : Fallible Bytes → Bytes
held (value bytes) = bytes
held (failed e) = []

-- A directory that is made changes no file, a file that is opened for writing keeps its bytes, and what is written
-- from the start of a file replaces as many bytes as it has.
pub record KeepsFiles {Meta Files : Type 0} (d : Disk Meta Files) : Type 0 where
  pub open_file-mkdir_all :
      (q p : Bytes) (f g : Files)
      → d.mkdir_all q f ≡ (value tt, g)
      → d.open_file p g ≡ d.open_file p f
  pub open_file-create_file :
      (p : Bytes) (f g : Files)
      → d.create_file p f ≡ (value tt, g)
      → d.open_file p g ≡ value (held (d.open_file p f))
  pub open_file-copy_over :
      (p new old : Bytes) (f g : Files)
      → d.open_file p f ≡ value old
      → d.copy_over p new f ≡ (value tt, g)
      → d.open_file p g ≡ value (new ++ drop (length new) old)

-- If Snapshot returns without an error, the file of the snapshot has the bytes of the volume and, behind them, those
-- bytes that it held before beyond their number; the records are as they were, so that none is of the snapshot.
pub snapshot_volume_lem :
    {Meta Files : Type 0} (d : Disk Meta Files) (keeps : KeepsFiles d)
    (project_id vol_id snap_id bytes : Bytes) (s t : Meta × Files)
    → d.open_file (volume_path d project_id vol_id) s.1 ≡ value bytes
    → snapshot_volume d project_id vol_id snap_id s ≡ (value tt, t)
    → let snap = volume_path d project_id snap_id in
      (t.0 ≡ s.0)
      × (d.open_file snap t.1 ≡ value (bytes ++ drop (length bytes) (held (d.open_file snap s.1))))
unfolding snapshot_volume
snapshot_volume_lem d keeps project_id vol_id snap_id bytes s t source e =
    let vol = volume_path d project_id vol_id in
    let snap = volume_path d project_id snap_id in
    let copy = λ (b : Bytes). on_files (d.copy_over snap b) in
    let create = λ (b : Bytes). on_files (d.create_file snap) >> copy b in
    let opening = on_files (read (d.open_file vol)) >>= create in
    let (_, f, stated, e1) =
      files_passed s.0 (source_missing (d.stat vol s.1), s.1)
        (λ _. on_files (d.mkdir_all (dir snap)) >> opening) t tt e in
    let (_, g, made, e2) = files_passed s.0 (d.mkdir_all (dir snap) f) (λ _. opening) t tt e1 in
    let (b, g', opened, e3) = files_passed s.0 (d.open_file vol g, g) create t tt e2 in
    let (_, i, created, e4) = files_passed s.0 (d.create_file snap g') (λ _. copy b) t tt e3 in
    let old = held (d.open_file snap g') in
    let unchanged : (p : Bytes) → d.open_file p g' ≡ d.open_file p s.1 = λ p.
      ap (d.open_file p) (sym (ap (λ z. z.1) opened))
      ∙ (keeps.open_file-mkdir_all (dir snap) p f g made
          ∙ ap (d.open_file p) (sym (ap (λ z. z.1) stated))) in
    let copied =
      keeps.open_file-copy_over snap b old i t.1 (keeps.open_file-create_file snap g' i created)
        (ap (λ z. (z.0, z.1.1)) e4) in
    let same_bytes = ap held (
      sym (ap (λ z. z.0) opened)
      ∙ (ap (d.open_file vol) (ap (λ z. z.1) opened) ∙ (unchanged vol ∙ source))) in
    (
      sym (ap (λ z. z.1.0) e4),
      copied
          ∙ (ap (λ z. value (z ++ drop (length z) old)) same_bytes
              ∙ ap (λ z. value (bytes ++ drop (length bytes) (held z))) (unchanged snap)),
    )
