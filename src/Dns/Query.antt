-- ===== src/Dns/Query.antt =====
-- Queries and answers: `handleQuery` of internal/dns/dns.go. The zone is a map from names to the
-- addresses of their records; `strings.ToLower` and `net.ParseIP(_).To4()` are parameters.
use minicloud_platform.Prelude.{
  ℕ, zero, suc, ◌+◌, ◌*◌, ◌/◌, ◌%◌, Option, none, some, List, [], ◌∷◌, ◌++◌, ltb, ◌==◌,
  if◌then◌else◌, length, set, Bytes, Dict, lookup,
}
use minicloud_platform.Dns.Names.{
  NameError, Reading, name_at, failed, slice, byte_at, read_name, write_name,
}

pub data QueryError : Type 0 where
  short_query : QueryError
  bad_name : NameError → QueryError

-- The response, and the query's buffer, whose header is written to.
pub data Answer : Type 0 where
  refused : QueryError → Answer
  answered : Bytes → Bytes → Answer

-- a big-endian `uint16`
abbrev pub be_u16 : ℕ → Bytes
be_u16 n = n / 256 % 256 ∷ n % 256 ∷ []

abbrev pub drop : ℕ → Bytes → Bytes
drop zero buf = buf
drop (suc n) [] = []
drop (suc n) (b ∷ buf) = drop n buf

-- `hdr`, once its flags and its answer count are written
abbrev pub header_of : Bytes → Bytes
header_of buf = set (set (set (set (slice 0 12 buf) 2 129) 3 128) 6 0) 7 0

-- The counts that follow the header.
abbrev pub counts : Bytes
counts = 0 ∷ 1 ∷ 0 ∷ 0 ∷ 0 ∷ 0 ∷ 0 ∷ 0 ∷ []

-- the response up to the answers
abbrev pub question : Bytes → Bytes → Bytes → Bytes
question buf qname type_class = header_of buf ++ (counts ++ (write_name qname ++ type_class))

-- `PutUint16(out[6:8], n)`, which writes to the response
abbrev pub with_count : ℕ → Bytes → Bytes
with_count n resp = set (set resp 6 (n / 256 % 256)) 7 (n % 256)

abbrev pub address_of : Option Bytes → Bytes
address_of none = []
address_of (some b) = b

-- The answers: type A, class IN, 60 seconds, 4 bytes. A record without an IPv4 address is cut short.
unfoldable pub write_answers : (Bytes → Option Bytes) → Bytes → List Bytes → Bytes
write_answers parse_ip4 qname [] = []
write_answers parse_ip4 qname (ip ∷ rest) =
    write_name qname
    ++ ((0 ∷ 1 ∷ 0 ∷ 1 ∷ 0 ∷ 0 ∷ 0 ∷ 60 ∷ 0 ∷ 4 ∷ [])
        ++ (address_of (parse_ip4 ip) ++ write_answers parse_ip4 qname rest))

module _ (to_lower : Bytes → Bytes) (parse_ip4 : Bytes → Option Bytes)
    (zone : Dict (List Bytes)) where
  -- the answer to a question of the name, by its record and its type
  abbrev pub reply : Bytes → Bytes → Bytes → ℕ → Option (List Bytes) → Answer
  reply buf qname tc qtype none =
      answered (question buf qname tc) (set (header_of buf) 3 131 ++ drop 12 buf)
  reply buf qname tc qtype (some records) =
      if qtype == 1
      then answered
          (with_count (length records % 65536) (question buf qname tc)
            ++ write_answers parse_ip4 qname records)
          (header_of buf ++ drop 12 buf)
      else answered (question buf qname tc) (set (header_of buf) 3 131 ++ drop 12 buf)

  -- the rest of `handleQuery`, once the name is read
  abbrev pub answer_name : Bytes → Reading → Answer
  answer_name buf (failed e) = refused (bad_name e)
  answer_name buf (name_at qname off) =
      if ltb (length buf) (off + 4)
      then refused short_query
      else reply buf qname (slice off 4 buf) (byte_at off buf * 256 + byte_at (off + 1) buf)
          (lookup (to_lower qname) zone)

  unfoldable pub handle_query : ℕ → Bytes → Answer
  handle_query fuel buf =
      if ltb (length buf) 12 then refused short_query else answer_name buf (read_name fuel buf 12)
