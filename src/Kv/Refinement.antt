-- ===== src/Kv/Refinement.antt =====
-- internal/primitives/db/raft.go implements the specification of Kv/Spec on a node that is alone.
use minicloud_platform.Prelude.{ℕ, ◌≡◌, none, Bytes}
use minicloud_platform.Kv.State.{Raft, Outcome, ok, err}
use minicloud_platform.Kv.Apply.{bumped}
use minicloud_platform.Kv.Ops.{cas_version, found_or}
use minicloud_platform.Kv.Writes.{IsAlone}
use minicloud_platform.Kv.Spec.{
  Command, get_key, delete_key, put_key, cas_key, serve, Contents, contents, assign, Reply, failed,
  deleted, get_reply, written,
}

-- The answer by the code's own tests.
abbrev write_if : ℕ → Bytes → Bytes → Outcome ℕ → Contents → Reply × Contents
write_if now k v (err x) m = (failed x, m)
write_if now k v (ok n) m = written now k v n m

unfoldable tested_answer : ℕ → Command → Contents → Reply × Contents
unfolding bumped cas_version
tested_answer now (get_key k) m = (get_reply (found_or (m k)), m)
tested_answer now (delete_key k) m = (deleted, assign k none m)
tested_answer now (put_key k v) m = write_if now k v (ok (bumped (m k))) m
tested_answer now (cas_key k v n) m = write_if now k v (cas_version (m k) n) m

abbrev Serves : ℕ → Command → Raft → Type 0
Serves now c r =
    ((serve now c r).0 ≡ (tested_answer now c (contents r)).0)
    × (contents (serve now c r).1 ≡ (tested_answer now c (contents r)).1)
    × IsAlone (serve now c r).1
