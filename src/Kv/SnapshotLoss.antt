-- ===== src/Kv/SnapshotLoss.antt =====
-- Restarts of internal/primitives/db/raft.go behind a snapshot. `recover` takes the revision of the
-- snapshot for the index of the last applied log entry, while the log starts anew at index 1.
use minicloud_platform.Prelude.{
  Bytes, Bool-cases, inl, inr, ap, Option, none, some, u64, ℕ, suc, ◌+◌, ◌≤◌, ◌≡◌, refl, sym, ◌∙◌,
  true, false, List, [], ◌∷◌, arith, ◌==◌, if◌then◌else◌, length, length-append, lookup,
}
use minicloud_platform.Kv.State.{
  Store, Entry, not_found, cas_mismatch, Op, LogEntry, Config, Raft, Outcome, ok, err,
}
use minicloud_platform.Kv.Apply.{bumped, store_get}
use minicloud_platform.Kv.Journal.{
  fresh, recover, bootstrapped, load_snapshot, replay, open_raft, snapshot, done,
}
use minicloud_platform.Kv.Ops.{get, found_or, commit, entry_of, cas_version}
use minicloud_platform.Kv.Spec.{
  Reply, get_reply, entry, deleted, failed, Contents, contents, version_in, Command, get_key,
  delete_key, put_key, cas_key, calm, serve, serve_all,
}
use minicloud_platform.Kv.Texts.{IsMap, HasTextKeys, read_state-HasTextKeys}
use minicloud_platform.Kv.Restart.{IsSingle, open_raft_ok}

-- A node that will skip its next `n` log entries.
record IsBehind (n : ℕ) (r : Raft) : Type 0 where
  alone : length r.peers ≡ 1
  open_journal : r.journal_open ≡ true
  skips : length r.log + n ≤ r.last_applied

abbrev pub found_reply : Option Entry → Reply
found_reply none = failed not_found
found_reply (some e) = entry (some e)

-- The reply of a node that takes a write, does not apply it and reports success: to a delete that the key is
-- deleted, and to a put the entry that the map has, if any; a compare-and-swap is tested against the map.
abbrev pub unapplied : Command → Contents → Reply
unapplied (get_key k) m = found_reply (m k)
unapplied (delete_key k) m = deleted
unapplied (put_key k v) m = entry (m k)
unapplied (cas_key k v n) m = if version_in m k == n then entry (m k) else failed cas_mismatch

-- The node answers so and leaves the map alone.
record Skipped (n : ℕ) (r r' : Raft) : Type 0 where
  st_eq : r'.st ≡ r.st
  behind : IsBehind n r'

Skipped-commit :
    (now n : ℕ) (e : LogEntry) (r : Raft)
    → IsBehind (suc n) r
    → ((commit (calm now) e r).0 ≡ ok tt) × Skipped n r (commit (calm now) e r).1
unfolding commit
Skipped-commit now n e r h = ground (
  arith,
  h.alone,
  h.open_journal,
  h.skips,
  length-append r.log (
      record e {
        index = length r.log + 1;
        term = if r.current_term == 0 then 1 else r.current_term;
      }
      ∷ []),
)

Skipped-serve :
    (now n : ℕ) (c : Command) (r : Raft) → IsBehind (suc n) r → Skipped n r (serve now c r).1
unfolding serve
Skipped-serve now n (get_key k) r h = ground (arith, h.alone, h.open_journal, h.skips)
Skipped-serve now n (delete_key k) r h =
    ground (arith, Skipped-commit now n (entry_of Op.del k [] 0) r h)
Skipped-serve now n (put_key k v) r h =
    ground (arith, Skipped-commit now n (entry_of Op.put k v (bumped (lookup k r.st.entries))) r h)
Skipped-serve now n (cas_key k v x) r h = tested (cas_version (lookup k r.st.entries) x) refl
  where
    tested :
        (o : Outcome ℕ)
        → cas_version (lookup k r.st.entries) x ≡ o
        → Skipped n r (serve now (cas_key k v x) r).1
    tested (ok w) e =
        unfold serve in ground (arith, e, Skipped-commit now n (entry_of Op.put k v w) r h)
    tested (err y) e = unfold serve in ground (arith, e, h.alone, h.open_journal, h.skips)

cas_version_lem :
    (o : Option Entry) (n : ℕ)
    → cas_version o n ≡ (
        if (elim o [ none ↦ 0 | some e ↦ e.version ]) == n
        then ok (u64 (n + 1))
        else err cas_mismatch)
unfolding cas_version
cas_version_lem none n = ground arith
cas_version_lem (some e) n = refl

expected :
    (k v : Bytes) (n : ℕ) (m : Contents)
    → (version_in m k == n) ≡ true
    → unapplied (cas_key k v n) m ≡ entry (m k)
expected k v n m q = rw (q) refl

unexpected :
    (k v : Bytes) (n : ℕ) (m : Contents)
    → (version_in m k == n) ≡ false
    → unapplied (cas_key k v n) m ≡ failed cas_mismatch
unexpected k v n m q = rw (q) refl

found_lem : (o : Option Entry) → get_reply (found_or o) ≡ found_reply o
found_lem none = refl
found_lem (some e) = refl

reply-serve :
    (now n : ℕ) (c : Command) (r : Raft)
    → IsBehind (suc n) r
    → (serve now c r).0 ≡ unapplied c (contents r)
unfolding serve store_get get
reply-serve now n (get_key k) r h = found_lem (lookup k r.st.entries)
reply-serve now n (delete_key k) r h =
    ground (arith, Skipped-commit now n (entry_of Op.del k [] 0) r h)
reply-serve now n (put_key k v) r h =
    ground (arith, Skipped-commit now n (entry_of Op.put k v (bumped (lookup k r.st.entries))) r h)
reply-serve now n (cas_key k v x) r h = elim (Bool-cases (version_in (contents r) k == x)) [
  | inl q ↦
      let e : cas_version (lookup k r.st.entries) x ≡ ok (u64 (x + 1)) =
        ground (arith, cas_version_lem (lookup k r.st.entries) x, q) in
      let a : (serve now (cas_key k v x) r).0 ≡ entry (contents r k) =
        ground (arith, e, Skipped-commit now n (entry_of Op.put k v (u64 (x + 1))) r h) in
      a ∙ sym (expected k v x (contents r) q)
  | inr q ↦
      let e : cas_version (lookup k r.st.entries) x ≡ err cas_mismatch =
        ground (arith, cas_version_lem (lookup k r.st.entries) x, q) in
      let a : (serve now (cas_key k v x) r).0 ≡ failed cas_mismatch = ground (arith, e) in
      a ∙ sym (unexpected k v x (contents r) q)
]

abbrev pub unapplied_all : List (ℕ × Command) → Contents → List Reply
unapplied_all [] m = []
unapplied_all ((now, c) ∷ cs) m = unapplied c m ∷ unapplied_all cs m

serve_all_behind :
    (cs : List (ℕ × Command)) (r : Raft)
    → IsBehind (length cs) r
    → ((serve_all cs r).0 ≡ unapplied_all cs (contents r)) × ((serve_all cs r).1.st ≡ r.st)
unfolding serve_all
serve_all_behind [] r h = (refl, refl)
serve_all_behind ((now, c) ∷ cs) r h =
    let one = Skipped-serve now (length cs) c r h in
    let (replies, st_eq) = serve_all_behind cs (serve now c r).1 one.behind in
    let same_contents : unapplied_all cs (contents (serve now c r).1)
        ≡ unapplied_all cs (contents r) =
      ap (λ (st : Store). unapplied_all cs (λ k. lookup k st.entries)) one.st_eq in
    (
      ap (λ a. a ∷ (serve_all cs (serve now c r).1).0) (reply-serve now (length cs) c r h)
          ∙ ap (λ rest. unapplied c (contents r) ∷ rest) (replies ∙ same_contents),
      st_eq ∙ one.st_eq,
    )

abbrev restarted : (Bytes → Bytes) → (LogEntry → ℕ) → Config → Raft → Raft
restarted text clock cfg r = bootstrapped cfg (recover text clock (fresh cfg (snapshot done r)))

module _ (text : Bytes → Bytes) (clock : LogEntry → ℕ) (cfg : Config) (r : Raft)
    (single : IsSingle cfg) (o : r.journal_open ≡ true) (t : HasTextKeys text r.st.entries)
    (once : IsMap [] r.st.entries) where
  restarted_st : (restarted text clock cfg r).st ≡ r.st
  unfolding bootstrapped recover replay load_snapshot fresh snapshot
  restarted_st = ground (arith, o, read_state-HasTextKeys text r.st.entries t once)

  restarted-IsBehind : IsBehind r.st.version (restarted text clock cfg r)
  unfolding bootstrapped recover replay load_snapshot fresh snapshot
  restarted-IsBehind = ground (arith, o, single.no_peers)

IsBehind-le : (m n : ℕ) (r : Raft) → m ≤ n → IsBehind n r → IsBehind m r
IsBehind-le m n r le h = ground (arith, h.alone, h.open_journal, h.skips)

-- On a node whose journal is open, that has no peers and whose map has each key once and such keys as JSON keeps, a snapshot that succeeds and then a restart give back the map as
-- it was. But after the restart the node skips as many log entries as the map had revisions: of up to that many
-- commands, on a disk that works, each delete and put is acknowledged, and so is each compare-and-swap that expects
-- the version of the snapshot, while the map stays as the snapshot had it.
pub serve_all-open_raft-snapshot :
    (text : Bytes → Bytes) (clock : LogEntry → ℕ) (cfg : Config) (cs : List (ℕ × Command))
    (r : Raft)
    → IsSingle cfg
    → r.journal_open ≡ true
    → HasTextKeys text r.st.entries
    → IsMap [] r.st.entries
    → length cs ≤ r.st.version
    → (r' : Raft) × (open_raft text clock cfg (snapshot done r) ≡ ok r')
      × (r'.st ≡ r.st)
      × ((serve_all cs r').0 ≡ unapplied_all cs (contents r))
      × ((serve_all cs r').1.st ≡ r.st)
serve_all-open_raft-snapshot text clock cfg cs r single o t once le =
    let r' = restarted text clock cfg r in
    let st_eq = restarted_st text clock cfg r single o t once in
    let behind = restarted-IsBehind text clock cfg r single o t once in
    let (replies, kept) =
      serve_all_behind cs r' (IsBehind-le (length cs) r.st.version r' le behind) in
    (
      r',
      open_raft_ok text clock cfg (snapshot done r) single,
      st_eq,
      replies ∙ ap (λ (st : Store). unapplied_all cs (λ k. lookup k st.entries)) st_eq,
      kept ∙ st_eq,
    )
