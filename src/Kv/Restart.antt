-- ===== src/Kv/Restart.antt =====
-- A stop and a restart of internal/primitives/db/raft.go, with no snapshot on the disk and behind one.
use minicloud_platform.Prelude.{
  ℕ, ◌≡◌, sym, ap, subst, ◌∙◌, ◌≢◌, true, false, All, List, [], arith, length, Bytes, same,
  same_iff,
}
use minicloud_platform.Kv.State.{LogEntry, Config, Raft, ok}
use minicloud_platform.Kv.Journal.{replay, load_snapshot, fresh, recover, bootstrapped, open_raft}
use minicloud_platform.Kv.Spec.{Command, serve_all}
use minicloud_platform.Kv.Replay.{
  empty_store, SameStore, SameStore-refl, SameStore-symm, SameStore-trans, SameStore-apply_ops,
  apply_ops, Numbered, Replayed, replay-Replayed,
}
use minicloud_platform.Kv.Texts.{
  IsText, HasTexts, command_key, read_back-HasTexts, serve_all-HasTexts,
}
use minicloud_platform.Kv.Durable.{SameCore-IsDurable, epoch, IsDurable, serve_all-IsDurable}

-- A configuration of a node on its own that `openRaft` accepts.
pub record IsSingle (cfg : Config) : Type 0 where
  pub named : cfg.node_id ≢ []
  pub placed : cfg.data_dir ≢ []
  pub no_peers : cfg.peers ≡ []

same_ne : (s t : Bytes) → s ≢ t → same s t ≡ false
same_ne s t h = ground (arith, same_iff s t)

pub fresh_alone : (cfg : Config) (r : Raft) → IsSingle cfg → length (fresh cfg r).peers ≡ 1
unfolding fresh
fresh_alone cfg r h = ground (arith, h.no_peers)

pub open_raft_ok :
    (text : Bytes → Bytes) (clock : LogEntry → ℕ) (cfg : Config) (r : Raft)
    → IsSingle cfg
    → open_raft text clock cfg r ≡ ok (bootstrapped cfg (recover text clock (fresh cfg r)))
unfolding open_raft
open_raft_ok text clock cfg r h =
    ground (arith, same_ne cfg.node_id [] h.named, same_ne cfg.data_dir [] h.placed)

-- the state that the restart of a durable node reaches
abbrev reopened : (Bytes → Bytes) → (LogEntry → ℕ) → Config → Raft → Raft
reopened text clock cfg r = bootstrapped cfg (recover text clock (fresh cfg r))

abbrev journal_open_fresh : Config → Raft → Raft
journal_open_fresh cfg r = record (fresh cfg r) { journal_open = true }

module _ (clock : LogEntry → ℕ) (cfg : Config) (r : Raft) (h : IsDurable r) where
  fresh-Replayed :
      Replayed clock r.disk.journal
        (journal_open_fresh cfg r)
        (replay clock r.disk.journal (journal_open_fresh cfg r))
  unfolding fresh
  fresh-Replayed =
      replay-Replayed clock r.disk.journal (journal_open_fresh cfg r)
        (subst (Numbered 0) (sym h.journaled) h.numbered)

  Replayed-SameStore :
      (R : Raft)
      → Replayed clock r.disk.journal (journal_open_fresh cfg r) R
      → SameStore R.st (apply_ops epoch R.log empty_store)
  unfolding fresh
  Replayed-SameStore R rep =
      subst (λ s. SameStore s (apply_ops epoch R.log empty_store)) (sym rep.st_eq)
        (subst
          (λ l.
            SameStore (apply_ops clock r.disk.journal empty_store) (apply_ops epoch l empty_store))
          (sym rep.log_eq)
          (SameStore-apply_ops clock epoch r.disk.journal (SameStore-refl empty_store)))

  Replayed-IsDurable :
      (R : Raft)
      → IsSingle cfg
      → Replayed clock r.disk.journal (journal_open_fresh cfg r) R
      → IsDurable R
  unfolding fresh
  Replayed-IsDurable R single rep = record {
    alone = ap length rep.peers_eq ∙ fresh_alone cfg r single;
    open_journal = rep.open_eq;
    applied_all = omega (arith, rep.applied_eq, ap length rep.log_eq);
    no_snapshot = ap (λ d. d.snap) rep.disk_eq ∙ h.no_snapshot;
    journaled = ap (λ d. d.journal) rep.disk_eq ∙ sym rep.log_eq;
    numbered = subst (Numbered 0) (sym h.journaled ∙ sym rep.log_eq) h.numbered;
    same_store = Replayed-SameStore R rep;
  }

module _ (text : Bytes → Bytes) (clock : LogEntry → ℕ) (cfg : Config) (r : Raft) (h : IsDurable r)
    (t : HasTexts text r.disk.journal) where
  recover_eq :
      recover text clock (fresh cfg r) ≡ replay clock r.disk.journal (journal_open_fresh cfg r)
  unfolding recover load_snapshot fresh
  recover_eq = rw (h.no_snapshot, load_snapshot, read_back-HasTexts text r.disk.journal t)

  reopened-IsDurable : IsSingle cfg → IsDurable (reopened text clock cfg r)
  unfolding bootstrapped
  reopened-IsDurable single =
      SameCore-IsDurable (recover text clock (fresh cfg r)) (reopened text clock cfg r)
        (ground arith)
        (subst IsDurable (sym recover_eq)
          (Replayed-IsDurable clock cfg r h _ single (fresh-Replayed clock cfg r h)))

  reopened_st : (reopened text clock cfg r).st ≡ apply_ops clock r.log empty_store
  unfolding bootstrapped fresh
  reopened_st =
      ground (
        arith,
        ap (λ (x : Raft). x.st) recover_eq,
        (fresh-Replayed clock cfg r h).st_eq,
        h.journaled,
      )

  reopened-SameStore : SameStore (reopened text clock cfg r).st r.st
  reopened-SameStore =
      subst (λ s. SameStore s r.st) (sym reopened_st)
        (SameStore-trans (SameStore-apply_ops clock epoch r.log (SameStore-refl empty_store))
          (SameStore-symm h.same_store))

-- For a node on its own whose journal is open and holds its whole log, all of it applied, with no snapshot on the disk:
-- after any commands on a disk that works, whose keys JSON keeps, as those of the journal, and with no snapshot taken in
-- between, a restart from its data directory, with a configuration that has an id, a directory and no peers, succeeds.
-- The new node is in such a state again, and its map has the keys, the values, the versions and the revision that the
-- old node had. Only the times at which the entries were applied may differ.
pub open_raft-serve_all :
    (text : Bytes → Bytes) (clock : LogEntry → ℕ) (cfg : Config) (cs : List (ℕ × Command))
    (r : Raft)
    → IsSingle cfg
    → IsDurable r
    → HasTexts text r.disk.journal
    → All (λ x. IsText text (command_key x.1)) cs
    → let stopped = (serve_all cs r).1 in
      (r' : Raft) × (open_raft text clock cfg stopped ≡ ok r')
      × IsDurable r'
      × SameStore r'.st stopped.st
open_raft-serve_all text clock cfg cs r single h t ts =
    let stopped = (serve_all cs r).1 in
    let durable = serve_all-IsDurable cs r h in
    let texts = serve_all-HasTexts text cs r h ts t in
    (
      reopened text clock cfg stopped,
      open_raft_ok text clock cfg stopped single,
      reopened-IsDurable text clock cfg stopped durable texts single,
      reopened-SameStore text clock cfg stopped durable texts,
    )
