-- ===== src/Storage/Paths.antt =====
-- `filepath.Join`, `Clean` and `Dir` of Go on Unix, for the paths of internal/storage/object/object.go, and the path
-- that a key with two dots gives.
use minicloud_platform.Prelude.{
  ◌&&◌, arith, inr, inl, Bool-cases, ℕ, ◌≡◌, refl, ap, Bool, true, false, not, ◌||◌, List, [], ◌∷◌,
  ◌++◌, ◌==◌, if◌then◌else◌, Bytes, codes, same, starts_with,
}

abbrev pub on_first : ℕ → List Bytes → List Bytes
on_first c [] = (c ∷ []) ∷ []
on_first c (p ∷ ps) = (c ∷ p) ∷ ps

-- the parts between the slashes
unfoldable pub segments : Bytes → List Bytes
segments [] = [] ∷ []
segments (c ∷ s) = let rest = segments s in if c == b'/' then [] ∷ rest else on_first c rest

-- The parts that stay are on a stack, the last one first.
abbrev pub dot_dot : Bool → List Bytes → List Bytes
dot_dot rooted [] = if rooted then [] else codes ".." ∷ []
dot_dot rooted (p ∷ ps) = if same p (codes "..") then codes ".." ∷ p ∷ ps else ps

unfoldable pub step : Bool → List Bytes → Bytes → List Bytes
step rooted st p =
    if same p [] || same p (codes ".")
    then st
    else if same p (codes "..")
    then dot_dot rooted st
    else p ∷ st

unfoldable pub walk : Bool → List Bytes → List Bytes → List Bytes
walk rooted st [] = st
walk rooted st (p ∷ ps) = walk rooted (step rooted st p) ps

-- `strings.Join(parts, "/")`
unfoldable pub joined : List Bytes → Bytes
joined [] = []
joined (p ∷ []) = p
joined (p ∷ q ∷ ps) = p ++ b'/' ∷ joined (q ∷ ps)

abbrev pub in_order : List Bytes → List Bytes → List Bytes
in_order acc [] = acc
in_order acc (p ∷ st) = in_order (p ∷ acc) st

abbrev pub written : Bool → List Bytes → Bytes
written true st = b'/' ∷ joined (in_order [] st)
written false [] = codes "."
written false (p ∷ ps) = joined (in_order [] (p ∷ ps))

unfoldable pub clean : Bytes → Bytes
clean s = let rooted = starts_with s (codes "/") in written rooted (walk rooted [] (segments s))

-- `filepath.Join`: the empty elements at the front are dropped.
unfoldable pub join_path : List Bytes → Bytes
join_path [] = []
join_path (e ∷ es) = let rest = join_path es in if same e [] then rest else clean (joined (e ∷ es))

abbrev pub to_last_slash : Bytes → Bytes
to_last_slash [] = []
to_last_slash (c ∷ s) =
    let rest = to_last_slash s in if c == b'/' || not (same rest []) then c ∷ rest else []

-- `filepath.Dir`
unfoldable pub dir : Bytes → Bytes
dir s = clean (to_last_slash s)

-- a name that is one part of a path and is not read as a step
abbrev pub IsPlain : Bytes → Type 0
IsPlain b =
    (segments b ≡ b ∷ [])
    × (same b [] ≡ false)
    × (same b (codes ".") ≡ false)
    × (same b (codes "..") ≡ false)

abbrev HasFirst : List Bytes → Type 0
HasFirst ps = (p : Bytes) × (rest : List Bytes) × (ps ≡ p ∷ rest)

on_first-HasFirst : (c : ℕ) (ps : List Bytes) → HasFirst (on_first c ps)
on_first-HasFirst c [] = (c ∷ [], [], refl)
on_first-HasFirst c (p ∷ ps) = (c ∷ p, ps, refl)

segments-HasFirst : (s : Bytes) → HasFirst (segments s)
unfolding segments
segments-HasFirst [] = ([], [], refl)
segments-HasFirst (c ∷ s) = elim (Bool-cases (c == b'/')) [
  | inl q ↦ rw (q) ([], segments s, refl)
  | inr q ↦ rw (q) (on_first-HasFirst c (segments s))
]

on_first-append :
    (c : ℕ) (ps ys : List Bytes) → HasFirst ps → on_first c (ps ++ ys) ≡ on_first c ps ++ ys
on_first-append c [] ys h = ground (arith, h.2)
on_first-append c (p ∷ ps) ys h = refl

segments-append : (x y : Bytes) → segments (x ++ b'/' ∷ y) ≡ segments x ++ segments y
unfolding segments
segments-append [] y = refl
segments-append (c ∷ x) y = elim (Bool-cases (c == b'/')) [
  | inl q ↦ rw (q, segments-append x y) refl
  | inr q ↦
      rw (q, segments-append x y)
        (on_first-append c (segments x) (segments y) (segments-HasFirst x))
]

walk-append :
    (rooted : Bool) (st xs ys : List Bytes)
    → walk rooted st (xs ++ ys) ≡ walk rooted (walk rooted st xs) ys
unfolding walk
walk-append rooted st [] ys = refl
walk-append rooted st (x ∷ xs) ys = walk-append rooted (step rooted st x) xs ys

-- A plain part and two dots behind it change nothing.
walk-plain :
    (rooted : Bool) (st : List Bytes) (b : Bytes) (ps : List Bytes)
    → IsPlain b
    → walk rooted st (b ∷ codes ".." ∷ ps) ≡ walk rooted st ps
unfolding walk step same
walk-plain rooted st b ps h = rw (h.1, h.2, h.3, h.3) refl

segments-two : segments (codes "..") ≡ codes ".." ∷ []
unfolding segments
segments-two = refl

segments-dots :
    (x b r : Bytes)
    → segments b ≡ b ∷ []
    → segments (x ++ b'/' ∷ (b ++ b'/' ∷ (codes "../" ++ r)))
      ≡ segments x ++ b ∷ codes ".." ∷ segments r
segments-dots x b r h =
    rw
      (
        segments-append x (b ++ b'/' ∷ (codes "../" ++ r)),
        segments-append b (codes "../" ++ r),
        h,
        segments-append (codes "..") r,
      )
      (rw (segments-two) refl)

walk-dots :
    (rooted : Bool) (x b r : Bytes)
    → IsPlain b
    → walk rooted [] (segments (x ++ b'/' ∷ (b ++ b'/' ∷ (codes "../" ++ r))))
      ≡ walk rooted [] (segments (x ++ b'/' ∷ r))
walk-dots rooted x b r h =
    rw
      (
        segments-dots x b r h.0,
        segments-append x r,
        walk-append rooted [] (segments x) (b ∷ codes ".." ∷ segments r),
        walk-append rooted [] (segments x) (segments r),
      )
      (walk-plain rooted (walk rooted [] (segments x)) b (segments r) h)

-- In a key that starts with two dots, the bucket is left out of the path.
pub join_path-dots :
    (root b o k : Bytes)
    → same root [] ≡ false
    → IsPlain b
    → join_path (root ∷ b ∷ (codes "../" ++ (o ++ b'/' ∷ k)) ∷ []) ≡ join_path (root ∷ o ∷ k ∷ [])
unfolding join_path joined clean same starts_with
join_path-dots [] b o k full h = ground arith
join_path-dots (c ∷ root) b o k full h =
    ap (written (c == b'/' && true)) (walk-dots (c == b'/' && true) (c ∷ root) b (o ++ b'/' ∷ k) h)
