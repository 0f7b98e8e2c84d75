-- ===== src/Kv/Replay.antt =====
-- The journal of internal/primitives/db/raft.go against the map: stores that agree but for times,
-- and what `recover` computes from a journal with consecutive indices.
use minicloud_platform.Prelude.{
  ℕ, ◌+◌, ◌≡◌, refl, sym, ap, subst, ◌∙◌, false, Option, none, some, List, [], ◌∷◌, ◌++◌,
  append-nil, append_assoc, arith, length, Bytes, lookup, lookup-insert, lookup-delete,
}
use minicloud_platform.Kv.State.{Entry, LogEntry, Store, Raft}
use minicloud_platform.Kv.Apply.{apply_op, apply_locked}
use minicloud_platform.Kv.Journal.{replay_one, replay}

abbrev pub empty_store : Store
empty_store = record { entries = []; version = 0 }

-- the entry without its time of application, which `recover` reads anew from the clock
abbrev pub timeless : Option Entry → Option Entry
timeless none = none
timeless (some e) = some (record e { created_at = 0 })

pub record SameStore (s t : Store) : Type 0 where
  pub version_eq : s.version ≡ t.version
  pub entry_eq : (k : Bytes) → timeless (lookup k s.entries) ≡ timeless (lookup k t.entries)

pub SameStore-refl : (s : Store) → SameStore s s
SameStore-refl s = record { version_eq = refl; entry_eq = λ k. refl }

pub SameStore-symm : {s t : Store} → SameStore s t → SameStore t s
SameStore-symm h = record { version_eq = sym h.version_eq; entry_eq = λ k. sym (h.entry_eq k) }

pub SameStore-trans : {s t u : Store} → SameStore s t → SameStore t u → SameStore s u
SameStore-trans h g = record {
  version_eq = h.version_eq ∙ g.version_eq;
  entry_eq = λ k. h.entry_eq k ∙ g.entry_eq k;
}

pub SameStore-apply_op :
    (now now' : ℕ) (e : LogEntry) {s t : Store}
    → SameStore s t
    → SameStore (apply_op now e s) (apply_op now' e t)
unfolding apply_op
SameStore-apply_op now now' e {s} {t} h = record {
  version_eq = ground (arith, h.version_eq);
  entry_eq = λ k. ground (
    arith,
    h.entry_eq k,
    lookup-insert e.key k
        (record {
          key = e.key;
          value = e.value;
          version = e.version;
          deleted = false;
          created_at = now;
        })
        s.entries,
    lookup-insert e.key k
        (record {
          key = e.key;
          value = e.value;
          version = e.version;
          deleted = false;
          created_at = now';
        })
        t.entries,
    lookup-delete e.key k s.entries,
    lookup-delete e.key k t.entries,
  );
}

-- the operations of a log in order, each at its own time
unfoldable pub apply_ops : (LogEntry → ℕ) → List LogEntry → Store → Store
apply_ops clock [] st = st
apply_ops clock (e ∷ es) st = apply_ops clock es (apply_op (clock e) e st)

pub apply_ops-append :
    (clock : LogEntry → ℕ) (es : List LogEntry) (e : LogEntry) (st : Store)
    → apply_ops clock (es ++ e ∷ []) st ≡ apply_op (clock e) e (apply_ops clock es st)
unfolding apply_ops
apply_ops-append clock [] e st = refl
apply_ops-append clock (x ∷ es) e st = apply_ops-append clock es e (apply_op (clock x) x st)

pub SameStore-apply_ops :
    (clock clock' : LogEntry → ℕ) (es : List LogEntry) {s t : Store}
    → SameStore s t
    → SameStore (apply_ops clock es s) (apply_ops clock' es t)
unfolding apply_ops
SameStore-apply_ops clock clock' [] h = h
SameStore-apply_ops clock clock' (e ∷ es) h =
    SameStore-apply_ops clock clock' es (SameStore-apply_op (clock e) (clock' e) e h)

-- the indices n + 1, n + 2, …
abbrev pub Numbered : ℕ → List LogEntry → Type 0
Numbered n [] = Unit
Numbered n (e ∷ es) = (e.index ≡ n + 1) × Numbered (n + 1) es

pub Numbered-append :
    (n : ℕ) (es : List LogEntry) (e : LogEntry)
    → Numbered n es
    → e.index ≡ n + length es + 1
    → Numbered n (es ++ e ∷ [])
Numbered-append n [] e h q = (omega arith, tt)
Numbered-append n (x ∷ es) e h q = (h.0, Numbered-append (n + 1) es e h.1 (omega arith))

pub record Replayed (clock : LogEntry → ℕ) (es : List LogEntry) (r r' : Raft) : Type 0 where
  pub st_eq : r'.st ≡ apply_ops clock es r.st
  pub log_eq : r'.log ≡ r.log ++ es
  pub applied_eq : r'.last_applied ≡ r.last_applied + length es
  pub disk_eq : r'.disk ≡ r.disk
  pub peers_eq : r'.peers ≡ r.peers
  pub open_eq : r'.journal_open ≡ r.journal_open

replay_one-Replayed :
    (clock : LogEntry → ℕ) (e : LogEntry) (r : Raft)
    → e.index ≡ r.last_applied + 1
    → Replayed clock (e ∷ []) r (replay_one clock e r)
unfolding replay_one apply_locked apply_ops apply_op
replay_one-Replayed clock e r h = ground arith

-- `recover` applies every record of a journal whose indices go on from `last_applied`.
pub replay-Replayed :
    (clock : LogEntry → ℕ) (es : List LogEntry) (r : Raft)
    → Numbered r.last_applied es
    → Replayed clock es r (replay clock es r)
unfolding replay apply_ops
replay-Replayed clock [] r h = record {
  st_eq = refl;
  log_eq = sym (append-nil r.log);
  applied_eq = omega arith;
  disk_eq = refl;
  peers_eq = refl;
  open_eq = refl;
}
replay-Replayed clock (e ∷ es) r h =
    let one = replay_one-Replayed clock e r h.0 in
    let r' = replay_one clock e r in
    let rest =
      replay-Replayed clock es r' (subst (λ n. Numbered n es) (sym (one.applied_eq)) h.1) in
    record {
      st_eq = rest.st_eq ∙ ap (apply_ops clock es) one.st_eq;
      log_eq = rest.log_eq ∙ ap (λ l. l ++ es) one.log_eq ∙ append_assoc r.log (e ∷ []) es;
      applied_eq = omega (arith, rest.applied_eq, one.applied_eq);
      disk_eq = rest.disk_eq ∙ one.disk_eq;
      peers_eq = rest.peers_eq ∙ one.peers_eq;
      open_eq = rest.open_eq ∙ one.open_eq;
    }
