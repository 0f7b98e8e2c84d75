-- ===== src/Kv/Durable.antt =====
-- The durable states of internal/primitives/db/raft.go: the journal holds the log, and the map is
-- what the log computes. Every command keeps a node in such a state.
use minicloud_platform.Prelude.{
  ℕ, ◌+◌, ◌≡◌, refl, sym, ap, subst, ◌∙◌, true, none, List, [], ◌∷◌, ◌++◌, arith, length,
  length-append, lookup,
}
use minicloud_platform.Kv.State.{Op, LogEntry, Disk, Raft, Outcome, ok, err}
use minicloud_platform.Kv.Apply.{bumped, apply_op}
use minicloud_platform.Kv.Ops.{commit, entry_of, cas_version}
use minicloud_platform.Kv.Writes.{IsAlone, Committed, completed, commit_ok, commit-Committed}
use minicloud_platform.Kv.Spec.{
  Command, get_key, delete_key, put_key, cas_key, calm, serve, serve_all,
}
use minicloud_platform.Kv.Replay.{
  empty_store, SameStore, SameStore-apply_op, apply_ops, apply_ops-append, Numbered,
  Numbered-append,
}

-- the clock of the reference state
abbrev pub epoch : LogEntry → ℕ
epoch _ = 0

-- The journal holds the whole log, and the map is what the log computes.
pub record IsDurable (r : Raft) : Type 0 where
  pub alone : length r.peers ≡ 1
  pub open_journal : r.journal_open ≡ true
  pub applied_all : r.last_applied ≡ length r.log
  pub no_snapshot : r.disk.snap ≡ none
  pub journaled : r.disk.journal ≡ r.log
  pub numbered : Numbered 0 r.log
  pub same_store : SameStore r.st (apply_ops epoch r.log empty_store)

pub IsDurable-IsAlone : {r : Raft} → IsDurable r → IsAlone r
IsDurable-IsAlone h = record {
  alone = h.alone;
  open_journal = h.open_journal;
  applied_le = omega (arith, h.applied_all);
}

pub Committed-IsDurable :
    (now : ℕ) (e : LogEntry) {r r' : Raft}
    → Committed now e r r'
    → e.index ≡ length r.log + 1
    → IsDurable r
    → IsDurable r'
Committed-IsDurable now e {r} {r'} c i h = record {
  alone = ap length c.peers_eq ∙ h.alone;
  open_journal = c.open_eq;
  applied_all = omega (arith, c.applied_eq, ap length c.log_eq, length-append r.log (e ∷ []));
  no_snapshot = c.snap_eq ∙ h.no_snapshot;
  journaled = c.journal_eq ∙ ap (λ l. l ++ e ∷ []) h.journaled ∙ sym c.log_eq;
  numbered = subst (Numbered 0) (sym c.log_eq) (Numbered-append 0 r.log e h.numbered (omega arith));
  same_store =
      subst (λ s. SameStore s (apply_ops epoch r'.log empty_store)) (sym c.st_eq)
        (subst (λ l. SameStore (apply_op now e r.st) (apply_ops epoch l empty_store)) (sym c.log_eq)
          (rw apply_ops-append (SameStore-apply_op now 0 e h.same_store)));
}

-- What a restart reads of a node, besides the map.
abbrev pub SameCore : Raft → Raft → Type 0
SameCore r r' =
    (r'.peers ≡ r.peers)
    × (r'.journal_open ≡ r.journal_open)
    × (r'.last_applied ≡ r.last_applied)
    × (r'.log ≡ r.log)
    × (r'.disk ≡ r.disk)
    × (r'.st ≡ r.st)

pub SameCore-IsDurable : (r r' : Raft) → SameCore r r' → IsDurable r → IsDurable r'
SameCore-IsDurable r r' s h = record {
  alone = ap length s.0 ∙ h.alone;
  open_journal = s.1 ∙ h.open_journal;
  applied_all = omega (arith, s.2, ap length s.3, h.applied_all);
  no_snapshot = ap (λ (d : Disk). d.snap) s.4 ∙ h.no_snapshot;
  journaled = ap (λ (d : Disk). d.journal) s.4 ∙ h.journaled ∙ sym s.3;
  numbered = subst (Numbered 0) (sym s.3) h.numbered;
  same_store =
      subst (λ l. SameStore r'.st (apply_ops epoch l empty_store)) (sym s.3)
        (subst (λ t. SameStore t (apply_ops epoch r.log empty_store)) (sym s.5) h.same_store);
}

commit-IsDurable :
    (now : ℕ) (e : LogEntry) (r : Raft) → IsDurable r → IsDurable (commit (calm now) e r).1
commit-IsDurable now e r h =
    Committed-IsDurable now (completed e r)
      (commit-Committed (calm now) e r (IsDurable-IsAlone h) refl) refl h

-- A command either leaves the node as it was or commits one entry and counts it.
pub serve-IsDurable : (now : ℕ) (c : Command) (r : Raft) → IsDurable r → IsDurable (serve now c r).1
unfolding serve
serve-IsDurable now (get_key k) r h = h
serve-IsDurable now (delete_key k) r h =
    let e = entry_of Op.del k [] 0 in
    let committed = commit_ok (calm now) e r (IsDurable-IsAlone h) refl in
    SameCore-IsDurable (commit (calm now) e r).1 _ (ground (arith, committed))
      (commit-IsDurable now e r h)
serve-IsDurable now (put_key k v) r h =
    let e = entry_of Op.put k v (bumped (lookup k r.st.entries)) in
    let committed = commit_ok (calm now) e r (IsDurable-IsAlone h) refl in
    SameCore-IsDurable (commit (calm now) e r).1 _ (ground (arith, committed))
      (commit-IsDurable now e r h)
serve-IsDurable now (cas_key k v n) r h = tested (cas_version (lookup k r.st.entries) n) refl
  where
    tested :
        (o : Outcome ℕ)
        → cas_version (lookup k r.st.entries) n ≡ o
        → IsDurable (serve now (cas_key k v n) r).1
    tested (ok w) e =
        let le = entry_of Op.put k v w in
        let committed = commit_ok (calm now) le r (IsDurable-IsAlone h) refl in
        SameCore-IsDurable (commit (calm now) le r).1 _
          (unfold serve in ground (arith, e, committed)) (commit-IsDurable now le r h)
    tested (err x) e = SameCore-IsDurable r _ (unfold serve in ground (arith, e)) h

pub serve_all-IsDurable :
    (cs : List (ℕ × Command)) (r : Raft) → IsDurable r → IsDurable (serve_all cs r).1
unfolding serve_all
serve_all-IsDurable [] r h = h
serve_all-IsDurable ((now, c) ∷ cs) r h =
    serve_all-IsDurable cs (serve now c r).1 (serve-IsDurable now c r h)
