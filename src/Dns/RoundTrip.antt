-- ===== src/Dns/RoundTrip.antt =====
-- Names that internal/dns/dns.go writes are read back.
use minicloud_platform.Prelude.{
  ℕ, zero, suc, ◌+◌, ◌%◌, ◌≤◌, ◌<◌, ◌≡◌, refl, sym, ap, subst, ◌∙◌, inl, inr, false, List, [], ◌∷◌,
  ◌++◌, append-nil, append_assoc, arith, ltb, ◌==◌, leb-false, Bool-cases, length, length-append,
  All, Bytes,
}
use minicloud_platform.Dns.Names.{
  name_at, slice, byte_at, join, read_labels, read_name, split, write_labels, write_name,
}

-- A label: it is not empty, has no dot, and its length is no pointer's first byte.
pub record IsLabel (a : Bytes) : Type 0 where
  pub some_byte : 0 < length a
  pub short : length a < 192
  pub no_dot : All (λ c. (c == b'.') ≡ false) a

-- There is always a first part.
split-cons : (s : Bytes) → (x : Bytes) × (xs : List Bytes) × (split s ≡ x ∷ xs)
unfolding split
split-cons [] = ([], [], refl)
split-cons (c ∷ s) =
    let (x, xs, e) = split-cons s in
    elim (Bool-cases (c == b'.')) [
      | inl q ↦ ([], x ∷ xs, rw (e, q) refl)
      | inr q ↦ (c ∷ x, xs, rw (e, q) refl)
    ]

split_dot : (a s : Bytes) → All (λ c. (c == b'.') ≡ false) a → split (a ++ b'.' ∷ s) ≡ a ∷ split s
unfolding split
split_dot [] s h = let (x, xs, e) = split-cons s in rw (e) refl
split_dot (c ∷ a) s h = rw (split_dot a s h.1, h.0) refl

split_plain : (a : Bytes) → All (λ c. (c == b'.') ≡ false) a → split a ≡ a ∷ []
unfolding split
split_plain [] h = refl
split_plain (c ∷ a) h = rw (split_plain a h.1, h.0) refl

split-join :
    (a : Bytes) (rest : List Bytes) → All IsLabel (a ∷ rest) → split (join (a ∷ rest)) ≡ a ∷ rest
unfolding join
split-join a [] h = split_plain a h.0.no_dot
split-join a (b ∷ rest) h =
    split_dot a (join (b ∷ rest)) h.0.no_dot ∙ ap (λ l. a ∷ l) (split-join b rest h.1)

pub byte_at-append : (pre s : Bytes) (b : ℕ) → byte_at (length pre) (pre ++ b ∷ s) ≡ b
byte_at-append [] s b = refl
byte_at-append (x ∷ pre) s b = byte_at-append pre s b

pub byte_at_next :
    (pre post : Bytes) (hi lo : ℕ) → byte_at (length pre + 1) (pre ++ hi ∷ lo ∷ post) ≡ lo
byte_at_next pre post hi lo =
    let n : length (pre ++ hi ∷ []) ≡ length pre + 1 = length-append pre (hi ∷ []) in
    subst (λ k. byte_at k (pre ++ hi ∷ lo ∷ post) ≡ lo) n
      (subst (λ x. byte_at (length (pre ++ hi ∷ [])) x ≡ lo)
        (append_assoc pre (hi ∷ []) (lo ∷ post)) (byte_at-append (pre ++ hi ∷ []) post lo))

slice_front : (a s : Bytes) → slice 0 (length a) (a ++ s) ≡ a
slice_front [] s = refl
slice_front (x ∷ a) s = ap (λ l. x ∷ l) (slice_front a s)

pub slice_behind : (pre a s : Bytes) → slice (length pre) (length a) (pre ++ (a ++ s)) ≡ a
slice_behind [] a s = slice_front a s
slice_behind (x ∷ pre) [] s = refl
slice_behind (x ∷ pre) (y ∷ a) s = slice_behind pre (y ∷ a) s

-- A round of the loop that reads a label.
label_round :
    (fuel off l : ℕ) (buf : Bytes) (labels : List Bytes)
    → byte_at off buf ≡ l
    → 0 < l
    → l < 192
    → off + 1 + l ≤ length buf
    → read_labels (suc fuel) buf off labels
      ≡ read_labels fuel buf (off + 1 + l) (labels ++ slice (off + 1) l buf ∷ [])
unfolding read_labels
label_round fuel off l buf labels e pos small le =
    let a = leb-false (length buf) off (omega (arith, le)) in
    let b : (l == 0) ≡ false = ground (arith, pos) in
    let c = leb-false 192 l small in
    let d : ltb (length buf) (off + 1 + l) ≡ false = ground (arith, le) in
    rw (read_labels, a, e, b, c, d) refl

-- The round that meets the end.
last_round :
    (fuel off : ℕ) (buf : Bytes) (labels : List Bytes)
    → byte_at off buf ≡ 0
    → off < length buf
    → read_labels (suc fuel) buf off labels ≡ name_at (join labels) (off + 1)
unfolding read_labels
last_round fuel off buf labels e lt = rw (read_labels, leb-false (length buf) off lt, e) refl

slice_label :
    (pre a rest : Bytes) (l : ℕ) → slice (length pre + 1) (length a) (pre ++ l ∷ (a ++ rest)) ≡ a
slice_label pre a rest l =
    let n : length (pre ++ l ∷ []) ≡ length pre + 1 = length-append pre (l ∷ []) ∙ omega arith in
    let s = slice_behind (pre ++ l ∷ []) a rest in
    let b = append_assoc pre (l ∷ []) (a ++ rest) in
    subst (λ k. slice k (length a) (pre ++ l ∷ (a ++ rest)) ≡ a) n
      (subst (λ x. slice (length (pre ++ l ∷ [])) (length a) x ≡ a) b s)

label_step :
    (pre a rest : Bytes) (fuel : ℕ) (acc : List Bytes)
    → IsLabel a
    → read_labels (suc fuel) (pre ++ length a ∷ (a ++ rest)) (length pre) acc
      ≡ read_labels fuel
          ((pre ++ length a ∷ a) ++ rest)
          (length (pre ++ length a ∷ a))
          (acc ++ a ∷ [])
label_step pre a rest fuel acc h =
    let l = length a in
    let buf = pre ++ l ∷ (a ++ rest) in
    let n : length (pre ++ l ∷ a) ≡ length pre + 1 + l = length-append pre (l ∷ a) ∙ omega arith in
    let size : length buf ≡ length pre + 1 + l + length rest =
      length-append pre (l ∷ (a ++ rest)) ∙ omega (arith, length-append a rest) in
    label_round fuel (length pre) l buf acc (byte_at-append pre (a ++ rest) l) h.some_byte h.short
      (omega (arith, size))
    ∙ rw (slice_label pre a rest l, n, append_assoc pre (l ∷ a) rest) refl

reads :
    (labels acc : List Bytes) (pre post : Bytes) (fuel : ℕ)
    → All IsLabel labels
    → length labels < fuel
    → read_labels fuel (pre ++ (write_labels labels ++ post)) (length pre) acc
      ≡ name_at (join (acc ++ labels)) (length pre + length (write_labels labels))
unfolding write_labels
reads labels acc pre post zero hs lt = ground (arith, lt)
reads [] acc pre post (suc fuel) hs lt =
    let size : length (pre ++ 0 ∷ post) ≡ length pre + suc (length post) =
      length-append pre (0 ∷ post) in
    rw (append-nil acc) (
      last_round fuel (length pre) (pre ++ 0 ∷ post) acc (byte_at-append pre post 0)
        (omega (arith, size)))
reads ([] ∷ labels) acc pre post (suc fuel) hs lt = ground (arith, hs.0.some_byte)
reads ((c ∷ a) ∷ labels) acc pre post (suc fuel) hs lt =
    let b = c ∷ a in
    let w = write_labels labels in
    let small : length b % 256 ≡ length b = omega (arith, hs.0.short) in
    let n : length pre + length (length b ∷ (b ++ w)) ≡ length (pre ++ length b ∷ b) + length w =
      omega (arith, length-append pre (length b ∷ b), length-append b w) in
    rw (small, n, append_assoc b w post, sym (append_assoc acc (b ∷ []) labels))
      (label_step pre b (w ++ post) fuel acc hs.0
        ∙ reads labels (acc ++ b ∷ []) (pre ++ length b ∷ b) post fuel hs.1 (omega (arith, lt)))

-- A name made of labels that are not empty, have no dot and are shorter than 192 bytes is read back
-- from wherever it is written, and the reading stops behind it, on fuel of one unit more than there are labels.
pub read_name-write_name :
    (a : Bytes) (labels : List Bytes) (pre post : Bytes) (fuel : ℕ)
    → All IsLabel (a ∷ labels)
    → length labels + 1 < fuel
    → let name = join (a ∷ labels) in
      read_name fuel (pre ++ (write_name name ++ post)) (length pre)
      ≡ name_at name (length pre + length (write_name name))
unfolding write_name
read_name-write_name a labels pre post fuel hs lt =
    rw (split-join a labels hs) (reads (a ∷ labels) [] pre post fuel hs (omega (arith, lt)))
