-- ===== src/Dns/Names.antt =====
-- Names in DNS messages: `readName` and `writeName` of internal/dns/dns.go.
use minicloud_platform.Prelude.{
  ℕ, zero, suc, ◌+◌, ◌*◌, ◌%◌, none, some, List, [], ◌∷◌, ◌++◌, ltb, leb, ◌==◌, if◌then◌else◌,
  length, get_elem?, Bytes,
}

-- the errors of `readName`, and the recursion that is out of fuel
pub data NameError : Type 0 where
  name_out_of_bounds pointer_truncated label_out_of_bounds out_of_fuel : NameError

pub data Reading : Type 0 where
  name_at : Bytes → ℕ → Reading
  failed : NameError → Reading

-- `buf[off:off+n]`
abbrev pub slice : ℕ → ℕ → Bytes → Bytes
slice off zero buf = []
slice zero (suc n) [] = []
slice zero (suc n) (b ∷ buf) = b ∷ slice zero n buf
slice (suc off) (suc n) [] = []
slice (suc off) (suc n) (b ∷ buf) = slice off (suc n) buf

abbrev pub byte_at : ℕ → Bytes → ℕ
byte_at i buf = elim (get_elem? buf i) [ none ↦ 0 | some b ↦ b ]

-- `strings.Join(labels, ".")`
unfoldable pub join : List Bytes → Bytes
join [] = []
join (a ∷ []) = a
join (a ∷ b ∷ rest) = a ++ b'.' ∷ join (b ∷ rest)

-- A 14-bit offset.
abbrev pub pointer : ℕ → ℕ → ℕ
pointer hi lo = (hi * 256 + lo) % 16384

-- what `readName` makes of the name that a pointer leads to
abbrev pub with_rest : List Bytes → ℕ → Reading → Reading
with_rest labels off (name_at sub _) = name_at (join (labels ++ sub ∷ [])) off
with_rest labels off (failed e) = failed e

-- A round of the loop of `readName` with the labels that are read, and the call for a pointer, each
-- for one unit of fuel.
unfoldable pub read_labels : ℕ → Bytes → ℕ → List Bytes → Reading
unfolding join
read_labels zero buf off labels = failed out_of_fuel
read_labels (suc fuel) buf off labels =
    let l = byte_at off buf in
    let sub = read_labels fuel buf (pointer l (byte_at (off + 1) buf)) [] in
    let more = read_labels fuel buf (off + 1 + l) (labels ++ slice (off + 1) l buf ∷ []) in
    if leb (length buf) off
    then failed name_out_of_bounds
    else if l == 0
    then name_at (join labels) (off + 1)
    else if leb 192 l
    then if leb (length buf) (off + 1)
      then failed pointer_truncated
      else with_rest labels (off + 2) sub
    else if ltb (length buf) (off + 1 + l)
    then failed label_out_of_bounds
    else more

abbrev pub read_name : ℕ → Bytes → ℕ → Reading
read_name fuel buf off = read_labels fuel buf off []

-- `strings.Split(s, ".")`
-- a byte in front of the first part; a dot starts a part
abbrev pub into : ℕ → List Bytes → List Bytes
into c [] = []
into c (a ∷ rest) = if c == b'.' then [] ∷ a ∷ rest else (c ∷ a) ∷ rest

unfoldable pub split : Bytes → List Bytes
split [] = [] ∷ []
split (c ∷ s) = into c (split s)

-- The length of a label is cut to a byte.
unfoldable pub write_labels : List Bytes → Bytes
write_labels [] = 0 ∷ []
write_labels ([] ∷ labels) = write_labels labels
write_labels ((c ∷ a) ∷ labels) = length (c ∷ a) % 256 ∷ c ∷ a ++ write_labels labels

unfoldable pub write_name : Bytes → Bytes
unfolding split write_labels
write_name name = write_labels (split name)
