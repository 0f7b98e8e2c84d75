-- ===== src/Storage/Reads.antt =====
-- What an object reads as after PutObject of internal/storage/object/object.go: the object itself, and one of another
-- bucket whose path the key leads to.
use minicloud_platform.Prelude.{
  length, ◌∙◌, arith, ◌≡◌, ◌≢◌, refl, sym, ap, ◌||◌, [], ◌∷◌, ◌++◌, Bytes, codes, same,
}
use minicloud_platform.Prelude.Fallible.{value}
use minicloud_platform.Storage.Paths.{dir, IsPlain, join_path-dots}
use minicloud_platform.Storage.Calls.{
  ◌>>◌, answer, on_meta, on_files, after_test, files_passed, meta_passed,
}
use minicloud_platform.Storage.Objects.{
  Object, Host, Keeps, object_path, metadata_of, put_object, get_object,
}

-- What a PutObject that returns a digest has done: the bytes are the last that were written, at the object's path,
-- and its metadata the last that was put.
Written :
    {Meta Files : Type 0} (h : Host Meta Files) (bucket key bytes : Bytes) (s t : Meta × Files)
    → Type 0
Written {Meta} {Files} h bucket key bytes s t =
    (f : Files) × (h.write_file (object_path h bucket key) bytes f ≡ (value tt, t.1))
    × (h.put_object (metadata_of h bucket key bytes) s.0 ≡ (value tt, t.0))

put_object-Written :
    {Meta Files : Type 0} (h : Host Meta Files) (bucket key bytes digest : Bytes)
    (s t : Meta × Files)
    → put_object h bucket key (value bytes) s ≡ (value digest, t)
    → (digest ≡ h.sha256_hex bytes) × Written h bucket key bytes s t
unfolding put_object Written
put_object-Written h bucket key bytes digest s t e =
    let path = object_path h bucket key in
    let o = metadata_of h bucket key bytes in
    let done = answer (value (h.sha256_hex bytes)) in
    let put = on_meta (h.put_object o) >> done in
    let write = on_files (h.write_file path bytes) >> put in
    let tested =
      after_test (same bucket [] || same key []) _ (on_files (h.mkdir_all (dir path)) >> write) s t
        digest e in
    let (_, f, _, made) =
      files_passed s.0 (h.mkdir_all (dir path) s.1) (λ _. write) t digest tested in
    let (_, g, wrote, written) =
      files_passed s.0 (h.write_file path bytes f) (λ _. put) t digest made in
    let (_, m, kept, finished) = meta_passed g (h.put_object o s.0) (λ _. done) t digest written in
    (
      ground (arith, ap (λ z. z.0) finished),
      (
        f,
        wrote ∙ ap (λ z. (value tt, z.1.1)) finished,
        kept ∙ ap (λ z. (value tt, z.1.0)) finished,
      ),
    )

-- If PutObject returns a digest, it is that of the bytes, and GetObject then returns the bytes and metadata with the
-- bucket, the key, the number of the bytes and the digest.
pub get_object-put_object :
    {Meta Files : Type 0} (h : Host Meta Files) (keeps : Keeps h) (bucket key bytes digest : Bytes)
    (s t : Meta × Files)
    → put_object h bucket key (value bytes) s ≡ (value digest, t)
    → (digest ≡ h.sha256_hex bytes)
      × ((o : Object) × (get_object h bucket key t ≡ value (bytes, o))
          × (o.bucket ≡ bucket)
          × (o.key ≡ key)
          × (o.size ≡ length bytes)
          × (o.sha256 ≡ digest))
unfolding get_object Written
get_object-put_object h keeps bucket key bytes digest s t e =
    let (is_digest, (f, wrote, kept)) = put_object-Written h bucket key bytes digest s t e in
    let o = metadata_of h bucket key bytes in
    let meta = keeps.get_object-put_object_self o s.0 t.0 kept in
    let file = keeps.open_file-write_file (object_path h bucket key) bytes f t.1 wrote in
    (is_digest, (o, rw (meta, file) refl, refl, refl, refl, sym is_digest))

-- In a bucket whose name is one plain part of a path, an object is put whose key is two dots, the name of another
-- bucket and the key of an object there. If PutObject returns, GetObject of that object of the other bucket returns
-- the bytes that were put, and with them the metadata that the object had before.
pub get_object-put_object_dots :
    {Meta Files : Type 0} (h : Host Meta Files) (keeps : Keeps h)
    (bucket other key bytes digest : Bytes) (o : Object) (s t : Meta × Files)
    → IsPlain bucket
    → bucket ≢ other
    → h.get_object other key s.0 ≡ value o
    → put_object h bucket (codes "../" ++ (other ++ b'/' ∷ key)) (value bytes) s ≡ (value digest, t)
    → get_object h other key t ≡ value (bytes, o)
unfolding get_object Written object_path
get_object-put_object_dots h keeps bucket other key bytes digest o s t plain ne before e =
    let dots = codes "../" ++ (other ++ b'/' ∷ key) in
    let (_, (f, wrote, kept)) = put_object-Written h bucket dots bytes digest s t e in
    let meta =
      keeps.get_object-put_object_ne (metadata_of h bucket dots bytes) other key s.0 t.0 ne kept in
    let file = keeps.open_file-write_file (object_path h bucket dots) bytes f t.1 wrote in
    let path = join_path-dots h.root bucket other key h.root_full plain in
    rw (meta, before, sym path, file) refl
