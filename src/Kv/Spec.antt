-- ===== src/Kv/Spec.antt =====
-- What the KV interface of internal/primitives/db/kv.go promises, with no log and no disk: a map
-- from keys to entries, and one function that answers a command.
use minicloud_platform.Prelude.{
  ℕ, ◌+◌, ◌==◌, u64, false, Option, none, some, List, [], ◌∷◌, if◌then◌else◌, Bytes, same, lookup,
}
use minicloud_platform.Kv.State.{not_found, cas_mismatch, Error, Entry, Raft, Outcome, ok, err}
use minicloud_platform.Kv.Journal.{synced}
use minicloud_platform.Kv.Ops.{Env, get, put, remove, compare_and_swap}

pub data Command : Type 0 where
  get_key delete_key : Bytes → Command
  put_key : Bytes → Bytes → Command
  cas_key : Bytes → Bytes → ℕ → Command

pub data Reply : Type 0 where
  entry : Option Entry → Reply
  deleted : Reply
  failed : Error → Reply

-- a call on the node, at the time `now`, with a disk that works and no other node
abbrev pub calm : ℕ → Env
calm now = record { now = now; io = synced; acks = λ _. false }

abbrev pub entry_reply : Outcome (Option Entry) → Reply
entry_reply (ok e) = entry e
entry_reply (err x) = failed x

abbrev pub get_reply : Outcome Entry → Reply
get_reply (ok e) = entry (some e)
get_reply (err x) = failed x

abbrev pub delete_reply : Outcome (Unit {0}) → Reply
delete_reply (ok _) = deleted
delete_reply (err x) = failed x

unfoldable pub serve : ℕ → Command → Raft → Reply × Raft
unfolding get put remove compare_and_swap
serve now (get_key k) r = (get_reply (get k r), r)
serve now (delete_key k) r = let (o, r') = remove (calm now) k r in (delete_reply o, r')
serve now (put_key k v) r = let (o, r') = put (calm now) k v r in (entry_reply o, r')
serve now (cas_key k v n) r =
    let (o, r') = compare_and_swap (calm now) k v n r in (entry_reply o, r')

unfoldable pub serve_all : List (ℕ × Command) → Raft → List Reply × Raft
serve_all [] r = ([], r)
serve_all ((now, c) ∷ cs) r =
    let (a, r') = serve now c r in let (rest, r'') = serve_all cs r' in (a ∷ rest, r'')

-- The specification.
abbrev pub Contents : Type 0
Contents = Bytes → Option Entry

abbrev pub contents : Raft → Contents
contents r k = lookup k r.st.entries

abbrev pub assign : Bytes → Option Entry → Contents → Contents
assign k o m j = if same k j then o else m j

abbrev pub new_entry : ℕ → Bytes → Bytes → ℕ → Entry
new_entry now k v n = record { key = k; value = v; version = n; deleted = false; created_at = now }

-- what the specification answers to a write of the version `n`
abbrev pub written : ℕ → Bytes → Bytes → ℕ → Contents → Reply × Contents
written now k v n m = let e = new_entry now k v n in (entry (some e), assign k (some e) m)

-- A key that the map does not have counts as one of version 0.
abbrev pub version_in : Contents → Bytes → ℕ
version_in m k = elim (m k) [ none ↦ 0 | some e ↦ e.version ]

unfoldable pub answer : ℕ → Command → Contents → Reply × Contents
answer now (get_key k) m = (elim (m k) [ none ↦ failed not_found | some e ↦ entry (some e) ], m)
answer now (delete_key k) m = (deleted, assign k none m)
answer now (put_key k v) m = written now k v (u64 (version_in m k + 1)) m
answer now (cas_key k v n) m =
    if version_in m k == n then written now k v (u64 (n + 1)) m else (failed cas_mismatch, m)

unfoldable pub answer_all : List (ℕ × Command) → Contents → List Reply × Contents
answer_all [] m = ([], m)
answer_all ((now, c) ∷ cs) m =
    let (a, m') = answer now c m in let (rest, m'') = answer_all cs m' in (a ∷ rest, m'')
