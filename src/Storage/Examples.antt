-- ===== src/Storage/Examples.antt =====
-- The stores of internal/storage over lists, at concrete inputs.
use minicloud_platform.Prelude.{
  ◌∙◌, drop, sym, ◌++◌, same_refl, delete, lookup-insert_self, lookup, starts_with, ◌&&◌, ap,
  length, insert, ◌≢◌, subst, some, if◌then◌else◌, List, Dict, arith, Option, ◌≡◌, refl, false, [],
  ◌∷◌, Bytes, codes, same, same_iff, none,
}
use minicloud_platform.Prelude.Fallible.{Fallible, value, failed}
use minicloud_platform.Storage.Paths.{segments, IsPlain, join_path, clean, joined, walk, step}
use minicloud_platform.Storage.Objects.{Object, Host, Keeps, metadata_of, put_object, get_object}
use minicloud_platform.Storage.Reads.{get_object-put_object, get_object-put_object_dots}
use minicloud_platform.Storage.Volumes.{Volume, Disk, volume_path, snapshot_volume}
use minicloud_platform.Storage.Snapshots.{held, KeepsFiles, snapshot_volume_lem}

find : Bytes → Bytes → List Object → Fallible Object
find bucket key [] = failed (codes "not found")
find bucket key (o ∷ os) =
    if same o.bucket bucket && same o.key key then value o else find bucket key os

no_such : Option Bytes → Fallible Bytes
no_such none = failed (codes "no such file")
no_such (some s) = value s

full_root : same (codes "/data") [] ≡ false
unfolding same
full_root = refl

abbrev host : Host (List Object) (Dict Bytes)
host = record {
  root = codes "/data";
  root_full = full_root;
  sha256_hex = λ s. length s ∷ [];
  mkdir_all = λ p f. (value tt, f);
  write_file = λ p s f. (value tt, insert p s f);
  open_file = λ p f. no_such (lookup p f);
  remove = λ p f. (value tt, delete p f);
  remove_all = λ p f. (value tt, f);
  create_bucket = λ b m. (value tt, m);
  delete_bucket = λ b m. (value tt, m);
  put_object = λ o m. (value tt, o ∷ m);
  get_object = find;
  delete_object = λ b k m. (value tt, m);
  list_objects = λ b m. value m;
}

open_insert :
    (path s : Bytes) (f g : Dict Bytes)
    → Path (Fallible (Unit {0}) × Dict Bytes) (value tt, insert path s f) (value tt, g)
    → no_such (lookup path g) ≡ value s
unfolding no_such
open_insert path s f g e =
    subst (λ z. no_such (lookup path z) ≡ value s) (ap (λ z. z.1) e)
      (ap no_such (lookup-insert_self path s f))

find_self :
    (o : Object) (m n : List Object)
    → Path (Fallible (Unit {0}) × List Object) (value tt, o ∷ m) (value tt, n)
    → find o.bucket o.key n ≡ value o
unfolding find
find_self o m n e =
    subst (λ z. find (o.bucket) (o.key) z ≡ value o) (ap (λ z. z.1) e)
      (rw (same_refl o.bucket, same_refl o.key) refl)

find_ne :
    (o : Object) (bucket key : Bytes) (m n : List Object)
    → o.bucket ≢ bucket
    → Path (Fallible (Unit {0}) × List Object) (value tt, o ∷ m) (value tt, n)
    → find bucket key n ≡ find bucket key m
unfolding find
find_ne o bucket key m n ne e =
    subst (λ z. find bucket key z ≡ find bucket key m) (ap (λ z. z.1) e)
      (ground (arith, ne, same_iff o.bucket bucket))

keeps : Keeps host
keeps = record {
  open_file-write_file = open_insert;
  get_object-put_object_self = find_self;
  get_object-put_object_ne = find_ne;
}

abbrev kept : Object
kept = metadata_of host (codes "b") (codes "k") (1 ∷ [])

abbrev after_put : List Object × Dict Bytes
after_put = (put_object host (codes "b") (codes "k") (value (1 ∷ 2 ∷ [])) (kept ∷ [], [])).1

get_object-put_object_example :
    (2 ∷ [] ≡ host.sha256_hex (1 ∷ 2 ∷ []))
    × ((o : Object) × (get_object host (codes "b") (codes "k") after_put ≡ value (1 ∷ 2 ∷ [], o))
        × (o.bucket ≡ codes "b")
        × (o.key ≡ codes "k")
        × (o.size ≡ 2)
        × (o.sha256 ≡ 2 ∷ []))
unfolding put_object same
get_object-put_object_example =
    get_object-put_object host keeps (codes "b") (codes "k") (1 ∷ 2 ∷ []) (2 ∷ []) (kept ∷ [], [])
      after_put refl

abbrev after_dots : List Object × Dict Bytes
after_dots = (put_object host (codes "a") (codes "../b/k") (value (1 ∷ 2 ∷ [])) (kept ∷ [], [])).1

a_plain : IsPlain (codes "a")
unfolding segments same
a_plain = (refl, refl, refl, refl)

get_object-put_object_dots_example :
    get_object host (codes "b") (codes "k") after_dots ≡ value (1 ∷ 2 ∷ [], kept)
unfolding put_object same find
get_object-put_object_dots_example =
    get_object-put_object_dots host keeps (codes "a") (codes "b") (codes "k") (1 ∷ 2 ∷ []) (2 ∷ [])
      kept (kept ∷ [], []) after_dots a_plain (λ e. ground (arith, e)) refl refl

abbrev held_at : Bytes → Dict Bytes → Bytes
held_at p f = held (no_such (lookup p f))

abbrev disk : Disk (List Volume) (Dict Bytes)
disk = record {
  root = codes "/v";
  mkdir_all = λ p f. (value tt, f);
  create_file = λ p f. (value tt, insert p (held_at p f) f);
  truncate = λ p n f. (value tt, f);
  copy_over = λ p new f. (value tt, insert p (new ++ drop (length new) (held_at p f)) f);
  remove = λ p f. (value tt, delete p f);
  stat = λ p f. value tt;
  open_file = λ p f. no_such (lookup p f);
  create_volume = λ v m. (value tt, v ∷ m);
  get_volume = λ project_id id m. failed [];
  update_volume = λ v m. (value tt, v ∷ m);
  delete_volume = λ project_id id m. (value tt, m);
}

open_same :
    (q p : Bytes) (f g : Dict Bytes)
    → Path (Fallible (Unit {0}) × Dict Bytes) (value tt, f) (value tt, g)
    → no_such (lookup p g) ≡ no_such (lookup p f)
open_same q p f g e = ap (λ z. no_such (lookup p (z.1))) (sym e)

open_create :
    (p : Bytes) (f g : Dict Bytes)
    → Path (Fallible (Unit {0}) × Dict Bytes) (value tt, insert p (held_at p f) f) (value tt, g)
    → no_such (lookup p g) ≡ value (held_at p f)
open_create p f g e = open_insert p (held_at p f) f g e

open_copy :
    (p new old : Bytes) (f g : Dict Bytes)
    → no_such (lookup p f) ≡ value old
    → Path
        (Fallible (Unit {0}) × Dict Bytes)
        (value tt, insert p (new ++ drop (length new) (held_at p f)) f)
        (value tt, g)
    → no_such (lookup p g) ≡ value (new ++ drop (length new) old)
open_copy p new old f g h e =
    open_insert p (new ++ drop (length new) (held_at p f)) f g e
    ∙ ap (λ z. value (new ++ drop (length new) (held z))) h

keeps_files : KeepsFiles disk
keeps_files = record {
  open_file-mkdir_all = open_same;
  open_file-create_file = open_create;
  open_file-copy_over = open_copy;
}

abbrev files : Dict Bytes
files = (codes "/v/p/a.vol", 1 ∷ []) ∷ (codes "/v/p/s.vol", 7 ∷ 8 ∷ []) ∷ []

abbrev after_snapshot : List Volume × Dict Bytes
after_snapshot = (snapshot_volume disk (codes "p") (codes "a") (codes "s") ([], files)).1

snapshot_volume_lem_example :
    (after_snapshot.0 ≡ [])
    × (disk.open_file (volume_path disk (codes "p") (codes "s")) after_snapshot.1
        ≡ value (1 ∷ 8 ∷ []))
unfolding snapshot_volume volume_path lookup same no_such join_path clean starts_with joined walk
    segments step
snapshot_volume_lem_example =
    snapshot_volume_lem disk keeps_files (codes "p") (codes "a") (codes "s") (1 ∷ []) ([], files)
      after_snapshot refl refl
