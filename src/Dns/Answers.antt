-- ===== src/Dns/Answers.antt =====
-- The answer of internal/dns/dns.go to a query that is well formed.
use minicloud_platform.Prelude.{
  Bool, Bool-cases, inl, inr, true, ℕ, ◌+◌, ◌*◌, ◌/◌, ◌%◌, ◌<◌, ◌==◌, if◌then◌else◌, set, map, none,
  some, sym, ◌≡◌, refl, ap, subst, ◌∙◌, false, Option, List, [], ◌∷◌, ◌++◌, append-nil,
  append_assoc, arith, ltb, length, length-append, All, Bytes, Dict, lookup,
}
use minicloud_platform.Dns.Names.{name_at, byte_at, slice, join, read_name, write_name}
use minicloud_platform.Dns.Query.{
  Answer, handle_query, reply, answered, counts, header_of, question, with_count, drop, address_of,
  write_answers,
}
use minicloud_platform.Dns.RoundTrip.{
  IsLabel, read_name-write_name, slice_behind, byte_at-append, byte_at_next,
}

-- `header` bytes, a name, a type and a class
abbrev pub query_of : Bytes → Bytes → ℕ → ℕ → Bytes → Bytes
query_of header name t1 t2 class = header ++ (write_name name ++ t1 ∷ t2 ∷ class)

-- The header of a response with `n` answers: that of the query, but for the flags (a response, recursion
-- desired and available, no error) and the number of answers.
abbrev pub response_header : Bytes → ℕ → Bytes
response_header header n = set (set (set (set header 2 129) 3 128) 6 (n / 256 % 256)) 7 (n % 256)

-- a record of type A and class IN that lives for 60 seconds
abbrev pub record_bytes : Bytes → Bytes → Bytes
record_bytes name addr = write_name name ++ 0 ∷ 1 ∷ 0 ∷ 1 ∷ 0 ∷ 0 ∷ 0 ∷ 60 ∷ 0 ∷ 4 ∷ addr

abbrev pub all_bytes : List Bytes → Bytes
all_bytes [] = []
all_bytes (b ∷ bs) = b ++ all_bytes bs

write_answers_eq :
    (parse_ip4 : Bytes → Option Bytes) (name : Bytes) (ips : List Bytes)
    → write_answers parse_ip4 name ips
      ≡ all_bytes (map (λ ip. record_bytes name (address_of (parse_ip4 ip))) ips)
unfolding write_answers
write_answers_eq parse_ip4 name [] = refl
write_answers_eq parse_ip4 name (ip ∷ ips) =
    ap
      (λ t.
        write_name name
        ++ (0 ∷ 1 ∷ 0 ∷ 1 ∷ 0 ∷ 0 ∷ 0 ∷ 60 ∷ 0 ∷ 4 ∷ (address_of (parse_ip4 ip) ++ t)))
      (write_answers_eq parse_ip4 name ips)
    ∙ sym (
        append_assoc (write_name name)
          (0 ∷ 1 ∷ 0 ∷ 1 ∷ 0 ∷ 0 ∷ 0 ∷ 60 ∷ 0 ∷ 4 ∷ address_of (parse_ip4 ip))
          (all_bytes (map (λ ip. record_bytes name (address_of (parse_ip4 ip))) ips)))

headed :
    (n m : ℕ) (h ys : Bytes)
    → length h ≡ 12
    → set (set (set (set (set (set h 2 129) 3 128) 6 0) 7 0 ++ ys) 6 n) 7 m
      ≡ set (set (set (set h 2 129) 3 128) 6 n) 7 m ++ ys
headed n m (a ∷ b ∷ c ∷ d ∷ e ∷ f ∷ g ∷ i ∷ h) ys l = refl
headed n m [] ys l = ground (arith, l)
headed n m (a ∷ []) ys l = ground (arith, l)
headed n m (a ∷ b ∷ []) ys l = ground (arith, l)
headed n m (a ∷ b ∷ c ∷ []) ys l = ground (arith, l)
headed n m (a ∷ b ∷ c ∷ d ∷ []) ys l = ground (arith, l)
headed n m (a ∷ b ∷ c ∷ d ∷ e ∷ []) ys l = ground (arith, l)
headed n m (a ∷ b ∷ c ∷ d ∷ e ∷ f ∷ []) ys l = ground (arith, l)
headed n m (a ∷ b ∷ c ∷ d ∷ e ∷ f ∷ g ∷ []) ys l = ground (arith, l)

-- The response to a question: the header, with the number of the addresses modulo 2^16, eight bytes of counts, the
-- question, and a record for each address.
abbrev pub response : (Bytes → Option Bytes) → Bytes → Bytes → ℕ → ℕ → Bytes → List Bytes → Bytes
response parse_ip4 header name t1 t2 class ips =
    (response_header header (length ips % 65536)
      ++ 0 ∷ 1 ∷ 0 ∷ 0 ∷ 0 ∷ 0 ∷ 0 ∷ 0 ∷ (write_name name ++ t1 ∷ t2 ∷ class))
    ++ all_bytes (map (λ ip. record_bytes name (address_of (parse_ip4 ip))) ips)

then_eq : (b : Bool) → b ≡ true → (x y z : Answer) → x ≡ z → (if b then x else y) ≡ z
then_eq b q x y z e = rw (q) e

else_eq : (b : Bool) → b ≡ false → (x y z : Answer) → y ≡ z → (if b then x else y) ≡ z
else_eq b q x y z e = rw (q) e

slice_front : (h ys : Bytes) → length h ≡ 12 → slice 0 12 (h ++ ys) ≡ h
slice_front h ys l = subst (λ n. slice 0 n (h ++ ys) ≡ h) l (slice_behind [] h ys)

module _ (to_lower : Bytes → Bytes) (parse_ip4 : Bytes → Option Bytes)
    (zone : Dict (List Bytes)) where
  -- The name, the type and the class are read from where they stand.
  handle_query-reply :
      (header : Bytes) (a : Bytes) (labels : List Bytes) (t1 t2 c1 c2 fuel : ℕ)
      → length header ≡ 12
      → All IsLabel (a ∷ labels)
      → length labels + 1 < fuel
      → let name = join (a ∷ labels) in
        let buf = query_of header name t1 t2 (c1 ∷ c2 ∷ []) in
        handle_query to_lower parse_ip4 zone fuel buf
        ≡ reply to_lower parse_ip4 zone buf name
            (t1 ∷ t2 ∷ c1 ∷ c2 ∷ [])
            (t1 * 256 + t2)
            (lookup (to_lower name) zone)
  unfolding handle_query
  handle_query-reply header a labels t1 t2 c1 c2 fuel h12 hs lt =
      let name = join (a ∷ labels) in
      let w = write_name name in
      let tc = t1 ∷ t2 ∷ c1 ∷ c2 ∷ [] in
      let buf = header ++ (w ++ tc) in
      let pre = header ++ w in
      let off = 12 + length w in
      let size : length buf ≡ 12 + (length w + 4) =
        length-append header (w ++ tc) ∙ omega (arith, h12, length-append w tc) in
      let n : length pre ≡ off = length-append header w ∙ omega (arith, h12) in
      let e = append_assoc header w tc in
      let r : read_name fuel buf 12 ≡ name_at name off =
        subst (λ k. read_name fuel buf k ≡ name_at name (k + length w)) h12
          (read_name-write_name a labels header tc fuel hs lt) in
      let s : slice off 4 buf ≡ tc =
        subst (λ k. slice k 4 buf ≡ tc) n
          (subst (λ x. slice (length pre) 4 x ≡ tc) (ap (λ x. pre ++ x) (append-nil tc) ∙ e)
            (slice_behind pre tc [])) in
      let b1 : byte_at off buf ≡ t1 =
        subst (λ k. byte_at k buf ≡ t1) n
          (subst (λ x. byte_at (length pre) x ≡ t1) e
            (byte_at-append pre (t2 ∷ c1 ∷ c2 ∷ []) t1)) in
      let b2 : byte_at (off + 1) buf ≡ t2 =
        subst (λ k. byte_at (k + 1) buf ≡ t2) n
          (subst (λ x. byte_at (length pre + 1) x ≡ t2) e
            (byte_at_next pre (c1 ∷ c2 ∷ []) t1 t2)) in
      let l1 : ltb (length buf) 12 ≡ false = ground (arith, size) in
      let l2 : ltb (length buf) (off + 4) ≡ false = ground (arith, size) in
      rw (handle_query, l1, r, l2, s, b1, b2) refl

  -- the addresses that the zone has under a name in lower case, if the question is for type A
  abbrev pub addresses : Bytes → ℕ → List Bytes
  addresses name qtype =
      if qtype == 1 then elim (lookup (to_lower name) zone) [ none ↦ [] | some ips ↦ ips ] else []

  question_eq :
      (header name : Bytes) (t1 t2 : ℕ) (class : Bytes)
      → length header ≡ 12
      → question (query_of header name t1 t2 class) name (t1 ∷ t2 ∷ class)
        ≡ response parse_ip4 header name t1 t2 class []
  question_eq header name t1 t2 class h12 =
      let asked = counts ++ (write_name name ++ t1 ∷ t2 ∷ class) in
      ap (λ h. set (set (set (set h 2 129) 3 128) 6 0) 7 0 ++ asked)
        (slice_front header (write_name name ++ t1 ∷ t2 ∷ class) h12)
      ∙ sym (append-nil (response_header header 0 ++ asked))

  answers_eq :
      (header name : Bytes) (t1 t2 : ℕ) (class : Bytes) (ips : List Bytes)
      → length header ≡ 12
      → with_count
            (length ips % 65536)
            (question (query_of header name t1 t2 class) name (t1 ∷ t2 ∷ class))
          ++ write_answers parse_ip4 name ips
        ≡ response parse_ip4 header name t1 t2 class ips
  answers_eq header name t1 t2 class ips h12 =
      let asked = counts ++ (write_name name ++ t1 ∷ t2 ∷ class) in
      let n = length ips % 65536 in
      ap
        (λ h.
          with_count n (set (set (set (set h 2 129) 3 128) 6 0) 7 0 ++ asked)
          ++ write_answers parse_ip4 name ips)
        (slice_front header (write_name name ++ t1 ∷ t2 ∷ class) h12)
      ∙ (ap (λ h. h ++ write_answers parse_ip4 name ips)
            (headed (n / 256 % 256) (n % 256) header asked h12)
          ∙ ap (λ t. (response_header header n ++ asked) ++ t)
              (write_answers_eq parse_ip4 name ips))

  -- `reply` with the addresses of the zone
  reply-response :
      (header name : Bytes) (t1 t2 : ℕ) (class : Bytes) (o : Option (List Bytes))
      → length header ≡ 12
      → lookup (to_lower name) zone ≡ o
      → (left : Bytes) × (reply to_lower parse_ip4 zone
            (query_of header name t1 t2 class)
            name
            (t1 ∷ t2 ∷ class)
            (t1 * 256 + t2)
            o
          ≡ answered
              (response parse_ip4 header name t1 t2 class (addresses name (t1 * 256 + t2)))
              left)
  reply-response header name t1 t2 class none h12 e =
      let left =
        set (header_of (query_of header name t1 t2 class)) 3 131
        ++ drop 12 (query_of header name t1 t2 class) in
      let no_ips : addresses name (t1 * 256 + t2) ≡ [] = elim (Bool-cases (t1 * 256 + t2 == 1)) [
        | inl q ↦ rw (q, e) refl
        | inr q ↦ rw (q) refl
      ] in
      (
        left,
        ap (λ r. answered r left)
            (question_eq header name t1 t2 class h12
              ∙ ap (response parse_ip4 header name t1 t2 class) (sym no_ips)),
      )
  reply-response header name t1 t2 class (some ips) h12 e = elim (Bool-cases (t1 * 256 + t2 == 1)) [
    | inl q ↦
        let left =
          header_of (query_of header name t1 t2 class)
          ++ drop 12 (query_of header name t1 t2 class) in
        let found : addresses name (t1 * 256 + t2) ≡ ips = rw (q, e) refl in
        (
          left,
          then_eq (t1 * 256 + t2 == 1) q _ _ _ (
              ap (λ r. answered r left)
                (answers_eq header name t1 t2 class ips h12
                  ∙ ap (response parse_ip4 header name t1 t2 class) (sym found))),
        )
    | inr q ↦
        let left =
          set (header_of (query_of header name t1 t2 class)) 3 131
          ++ drop 12 (query_of header name t1 t2 class) in
        let no_ips : addresses name (t1 * 256 + t2) ≡ [] = rw (q) refl in
        (
          left,
          else_eq (t1 * 256 + t2 == 1) q _ _ _ (
              ap (λ r. answered r left)
                (question_eq header name t1 t2 class h12
                  ∙ ap (response parse_ip4 header name t1 t2 class) (sym no_ips))),
        )
  ]

  -- A query with a header of 12 bytes, a name made of labels that are not empty, have no dot and are shorter than 192
  -- bytes, a type and a class is answered, where the fuel is more than the number of labels: with the question and,
  -- for type A, one record for each address that the zone has under the name in lower case, in order; for a name that
  -- the zone does not have, and for other types, with no record. The flags report no error in each case.
  pub handle_query-response :
      (header : Bytes) (a : Bytes) (labels : List Bytes) (t1 t2 c1 c2 fuel : ℕ)
      → length header ≡ 12
      → All IsLabel (a ∷ labels)
      → length labels + 1 < fuel
      → let name = join (a ∷ labels) in
        (left : Bytes) × (handle_query to_lower parse_ip4 zone fuel
            (query_of header name t1 t2 (c1 ∷ c2 ∷ []))
          ≡ answered
              (response parse_ip4 header name t1 t2 (c1 ∷ c2 ∷ []) (addresses name (t1 * 256 + t2)))
              left)
  handle_query-response header a labels t1 t2 c1 c2 fuel h12 hs lt =
      let name = join (a ∷ labels) in
      let (left, e) =
        reply-response header name t1 t2 (c1 ∷ c2 ∷ []) (lookup (to_lower name) zone) h12 refl in
      (left, handle_query-reply header a labels t1 t2 c1 c2 fuel h12 hs lt ∙ e)
