-- ===== src/Dns/Examples.antt =====
-- Messages of internal/dns at concrete inputs.
use minicloud_platform.Prelude.{
  ℕ, ◌+◌, ◌≡◌, refl, false, Option, some, List, [], ◌∷◌, ◌++◌, arith, ◌==◌, length, All, Bytes,
  codes, same, Dict, lookup,
}
use minicloud_platform.Dns.Names.{name_at, read_name, join, write_name, read_labels}
use minicloud_platform.Dns.Query.{answered, handle_query}
use minicloud_platform.Dns.RoundTrip.{IsLabel, read_name-write_name}
use minicloud_platform.Dns.Malformed.{Garbled, handle_query-Garbled}
use minicloud_platform.Dns.Answers.{query_of, response, handle_query-response}
use minicloud_platform.Dns.Zone.{
  DnsRecord, records_of, refresh_zone, named_in, records_of-refresh_zone,
}

abbrev lower : Bytes → Bytes
lower s = s

abbrev four : Bytes → Option Bytes
four ip = some (10 ∷ 0 ∷ 0 ∷ 7 ∷ [])

abbrev zone : Dict (List Bytes)
zone = (codes "a.b", codes "10.0.0.7" ∷ []) ∷ []

abbrev header : Bytes
header = 1 ∷ 2 ∷ 1 ∷ 0 ∷ 0 ∷ 1 ∷ 0 ∷ 0 ∷ 0 ∷ 0 ∷ 0 ∷ 0 ∷ []

one_letter : (c : ℕ) → (c == b'.') ≡ false → IsLabel (c ∷ [])
one_letter c h = record { some_byte = omega arith; short = omega arith; no_dot = (h, tt) }

labels : All IsLabel (codes "a" ∷ codes "b" ∷ [])
labels = (one_letter b'a' refl, (one_letter b'b' refl, tt))

read_name-write_name_example :
    read_name 5 (header ++ (write_name (codes "a.b") ++ [])) 12
    ≡ name_at (codes "a.b") (12 + length (write_name (codes "a.b")))
unfolding join
read_name-write_name_example =
    read_name-write_name (codes "a") (codes "b" ∷ []) header [] 5 labels (omega arith)

handle_query-response_example :
    (left : Bytes) × (handle_query lower four zone 5
        (query_of header (codes "a.b") 0 1 (0 ∷ 1 ∷ []))
      ≡ answered (response four header (codes "a.b") 0 1 (0 ∷ 1 ∷ []) (codes "10.0.0.7" ∷ [])) left)
unfolding join same lookup
handle_query-response_example =
    handle_query-response lower four zone header (codes "a") (codes "b" ∷ []) 0 1 0 1 5 refl labels
      (omega arith)

-- a query for a name that the zone does not have
abbrev missing : Bytes
missing = header ++ 1 ∷ b'x' ∷ 0 ∷ 0 ∷ 1 ∷ 0 ∷ 1 ∷ []

abbrev missing_answer : Bytes
missing_answer =
    (1 ∷ 2 ∷ 129 ∷ 128 ∷ 0 ∷ 1 ∷ 0 ∷ 0 ∷ 0 ∷ 0 ∷ 0 ∷ 0 ∷ [])
    ++ (0 ∷ 1 ∷ 0 ∷ 0 ∷ 0 ∷ 0 ∷ 0 ∷ 0 ∷ 1 ∷ b'x' ∷ 0 ∷ 0 ∷ 1 ∷ 0 ∷ 1 ∷ [])

abbrev missing_query : Bytes
missing_query =
    (1 ∷ 2 ∷ 129 ∷ 131 ∷ 0 ∷ 1 ∷ 0 ∷ 0 ∷ 0 ∷ 0 ∷ 0 ∷ 0 ∷ []) ++ 1 ∷ b'x' ∷ 0 ∷ 0 ∷ 1 ∷ 0 ∷ 1 ∷ []

missing_run : handle_query lower four zone 3 missing ≡ answered missing_answer missing_query
unfolding handle_query lookup write_name read_labels same
missing_run = refl

handle_query-Garbled_example : Garbled missing_answer
handle_query-Garbled_example =
    handle_query-Garbled lower four zone 3 missing missing_answer missing_query missing_run

abbrev web : DnsRecord
web = record { name = codes "web"; ip = codes "10.0.0.1" }

abbrev web_again : DnsRecord
web_again = record { name = codes "web"; ip = codes "10.0.0.2" }

records_of-refresh_zone_example :
    records_of (codes "web") (refresh_zone lower (some ((web ∷ []) ∷ (web_again ∷ []) ∷ [])) zone)
    ≡ named_in lower (codes "web") ((web ∷ []) ∷ (web_again ∷ []) ∷ [])
records_of-refresh_zone_example =
    records_of-refresh_zone lower (codes "web") ((web ∷ []) ∷ (web_again ∷ []) ∷ []) zone
