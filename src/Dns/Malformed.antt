-- ===== src/Dns/Malformed.antt =====
-- Names and headers on which internal/dns/dns.go does not do what RFC 1035 says.
use minicloud_platform.Prelude.{
  ℕ, zero, suc, ◌+◌, ◌*◌, ◌≤◌, ◌≡◌, refl, sym, ap, subst, ◌∙◌, inl, inr, false, Option, none, some,
  List, [], ◌∷◌, ◌++◌, arith, ltb, ◌==◌, if◌then◌else◌, leb-true, leb-false, Bool-cases, either,
  length, length-append, Bytes, Dict, lookup,
}
use minicloud_platform.Dns.Names.{
  Reading, name_at, failed, out_of_fuel, byte_at, slice, pointer, read_labels, read_name, join,
}
use minicloud_platform.Dns.RoundTrip.{byte_at-append, byte_at_next}
use minicloud_platform.Dns.Query.{
  short_query, Answer, answered, refused, handle_query, answer_name, reply,
}

-- A name that is a pointer to itself is read for ever: no fuel is enough, whatever the message holds.
pub pointer_loop :
    (pre post : Bytes) (hi lo fuel : ℕ)
    → 192 ≤ hi
    → pointer hi lo ≡ length pre
    → read_name fuel (pre ++ hi ∷ lo ∷ post) (length pre) ≡ failed out_of_fuel
unfolding read_labels
pointer_loop pre post hi lo zero h e = refl
pointer_loop pre post hi lo (suc fuel) h e =
    let buf = pre ++ hi ∷ lo ∷ post in
    let l = byte_at-append pre (lo ∷ post) hi in
    let l2 : byte_at (length pre + 1) buf ≡ lo = byte_at_next pre post hi lo in
    let ih = pointer_loop pre post hi lo fuel h e in
    let size = length-append pre (hi ∷ lo ∷ post) in
    let a = leb-false (length buf) (length pre) (omega (arith, size)) in
    let b = leb-false (length buf) (length pre + 1) (omega (arith, size)) in
    let c = leb-true 192 hi h in
    let d : (hi == 0) ≡ false = ground (arith, h) in rw (read_labels, a, l, d, c, b, l2, e, ih) refl

-- A response whose flags report no error, and in which the name of the question, read behind the
-- header of 12 bytes, is empty.
abbrev pub Garbled : Bytes → Type 0
Garbled resp = (byte_at 3 resp ≡ 128) × (read_name 1 resp 12 ≡ name_at [] 13)

-- of a response, if there is one
abbrev IsGarbled : Answer → Type 0
IsGarbled (answered resp query) = Garbled resp
IsGarbled (refused e) = Unit

garbled :
    (a b c d e f g h i j k : ℕ) (rest : Bytes)
    → Garbled (a ∷ b ∷ c ∷ 128 ∷ d ∷ e ∷ f ∷ g ∷ h ∷ i ∷ j ∷ k ∷ 0 ∷ rest)
unfolding read_labels join
garbled a b c d e f g h i j k rest = (refl, ground arith)

module _ (to_lower : Bytes → Bytes) (parse_ip4 : Bytes → Option Bytes)
    (zone : Dict (List Bytes)) where
  reply-IsGarbled :
      (buf qname tc : Bytes) (qtype : ℕ) (o : Option (List Bytes))
      → 12 ≤ length buf
      → IsGarbled (reply to_lower parse_ip4 zone buf qname tc qtype o)
  reply-IsGarbled (a ∷ b ∷ c ∷ d ∷ e ∷ f ∷ g ∷ h ∷ i ∷ j ∷ k ∷ l ∷ buf) qname tc qtype none le =
      garbled a b 129 e f 0 0 i j k l _
  reply-IsGarbled (a ∷ b ∷ c ∷ d ∷ e ∷ f ∷ g ∷ h ∷ i ∷ j ∷ k ∷ l ∷ buf) qname tc qtype (some rs)
        le =
      either IsGarbled (qtype == 1) (garbled a b 129 e f _ _ i j k l _)
        (garbled a b 129 e f 0 0 i j k l _)
  reply-IsGarbled _ qname tc qtype o le = let f : ⊥ = omega (arith, le) in absurd f

  answer_name-IsGarbled :
      (buf : Bytes) (r : Reading)
      → 12 ≤ length buf
      → IsGarbled (answer_name to_lower parse_ip4 zone buf r)
  answer_name-IsGarbled buf (failed e) le = tt
  answer_name-IsGarbled buf (name_at qname off) le =
      either IsGarbled (ltb (length buf) (off + 4)) tt (
        reply-IsGarbled buf qname (slice off 4 buf) (byte_at off buf * 256 + byte_at (off + 1) buf)
          (lookup (to_lower qname) zone) le)

  -- No response to any query reports an error, not even for a name that the zone does not have, and
  -- in each response the question's name, as `readName` reads it behind the header, is empty.
  pub handle_query-Garbled :
      (fuel : ℕ) (buf resp query : Bytes)
      → handle_query to_lower parse_ip4 zone fuel buf ≡ answered resp query
      → Garbled resp
  unfolding handle_query
  handle_query-Garbled fuel buf resp query eq = elim (Bool-cases (ltb (length buf) 12)) [
    | inl q ↦ ground (arith, q, eq)
    | inr q ↦
        let g = answer_name-IsGarbled buf (read_name fuel buf 12) (ground (arith, q)) in
        subst IsGarbled
          (sym (
              ap
                (λ b.
                  if b
                  then refused short_query
                  else answer_name to_lower parse_ip4 zone buf (read_name fuel buf 12))
                q)
            ∙ eq)
          g
  ]
