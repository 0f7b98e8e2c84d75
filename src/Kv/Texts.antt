-- ===== src/Kv/Texts.antt =====
-- The keys of the journal of internal/primitives/db/raft.go: they are those of the commands, so that JSON keeps them if
-- it keeps those.
use minicloud_platform.Prelude.{
  ◌++◌, none, insert, Bool-cases, same, inl, inr, append-nil, append_assoc, ℕ, ◌≡◌, refl, sym, ap,
  subst, ◌∙◌, List, [], ◌∷◌, map, arith, All, All-append, Bytes, lookup, Dict,
}
use minicloud_platform.Kv.State.{Entry, Op, LogEntry, Disk, Raft, Outcome, ok, err}
use minicloud_platform.Kv.Apply.{bumped}
use minicloud_platform.Kv.Journal.{read_back, read_state}
use minicloud_platform.Kv.Ops.{commit, entry_of, cas_version}
use minicloud_platform.Kv.Writes.{completed, commit_ok, commit-Committed}
use minicloud_platform.Kv.Spec.{
  Command, get_key, delete_key, put_key, cas_key, calm, serve, serve_all,
}
use minicloud_platform.Kv.Durable.{IsDurable, IsDurable-IsAlone, serve-IsDurable}

abbrev pub command_key : Command → Bytes
command_key (get_key k) = k
command_key (delete_key k) = k
command_key (put_key k v) = k
command_key (cas_key k v n) = k

-- No key of `es` stands before it in `es`, or in `m`: a Go map has each key once.
abbrev pub IsMap : Dict Entry → Dict Entry → Type 0
IsMap m [] = Unit
IsMap m ((k, e) ∷ es) = (lookup k m ≡ none) × IsMap (m ++ (k, e) ∷ []) es

insert_new :
    (k : Bytes) (e : Entry) (m : Dict Entry) → lookup k m ≡ none → insert k e m ≡ m ++ (k, e) ∷ []
unfolding lookup insert
insert_new k e [] h = refl
insert_new k e ((j, x) ∷ m) h = elim (Bool-cases (same j k)) [
  | inl q ↦ ground (arith, h, q)
  | inr q ↦ rw (q) (ap (λ t. (j, x) ∷ t) (insert_new k e m (ground (arith, h, q))))
]

module _ (text : Bytes → Bytes) where
  -- JSON keeps the string.
  abbrev pub IsText : Bytes → Type 0
  IsText k = text k ≡ k

  abbrev pub HasTexts : List LogEntry → Type 0
  HasTexts es = All (λ e. IsText e.key) es

  pub read_back-HasTexts : (es : List LogEntry) → HasTexts es → map (read_back text) es ≡ es
  read_back-HasTexts [] h = refl
  read_back-HasTexts (e ∷ es) h =
      ap (λ k. record e { key = k } ∷ map (read_back text) es) h.0
      ∙ ap (λ rest. e ∷ rest) (read_back-HasTexts es h.1)

  -- the keys of a map and of its entries
  abbrev pub HasTextKeys : Dict Entry → Type 0
  HasTextKeys m = All (λ x. IsText x.0 × IsText x.1.key) m

  read_state_lem :
      (es m : Dict Entry) → HasTextKeys es → IsMap m es → read_state text m es ≡ m ++ es
  unfolding read_state
  read_state_lem [] m h d = sym (append-nil m)
  read_state_lem ((k, e) ∷ es) m h d =
      let same_entry =
        ap (λ j. insert j (record e { key = text e.key }) m) h.0.0
        ∙ (ap (λ j. insert k (record e { key = j }) m) h.0.1 ∙ insert_new k e m d.0) in
      ap (λ n. read_state text n es) same_entry
      ∙ (read_state_lem es (m ++ (k, e) ∷ []) h.1 d.1 ∙ append_assoc m ((k, e) ∷ []) es)

  pub read_state-HasTextKeys :
      (m : Dict Entry) → HasTextKeys m → IsMap [] m → read_state text [] m ≡ m
  read_state-HasTextKeys m h d = read_state_lem m [] h d

  commit-HasTexts :
      (now : ℕ) (e : LogEntry) (r : Raft)
      → IsDurable r
      → IsText e.key
      → HasTexts r.disk.journal
      → HasTexts (commit (calm now) e r).1.disk.journal
  commit-HasTexts now e r d k h =
      let c = commit-Committed (calm now) e r (IsDurable-IsAlone d) refl in
      subst HasTexts (sym c.journal_eq)
        (All-append (λ x. IsText x.key) r.disk.journal (completed e r ∷ []) h (k, tt))

  -- a node with the disk of another
  same_disk : (r r' : Raft) → r'.disk ≡ r.disk → HasTexts r.disk.journal → HasTexts r'.disk.journal
  same_disk r r' e h = subst (λ (d : Disk). HasTexts d.journal) (sym e) h

  serve-HasTexts :
      (now : ℕ) (c : Command) (r : Raft)
      → IsDurable r
      → IsText (command_key c)
      → HasTexts r.disk.journal
      → HasTexts (serve now c r).1.disk.journal
  unfolding serve
  serve-HasTexts now (get_key k) r d t h = h
  serve-HasTexts now (delete_key k) r d t h =
      let e = entry_of Op.del k [] 0 in
      let committed = commit_ok (calm now) e r (IsDurable-IsAlone d) refl in
      same_disk (commit (calm now) e r).1 (serve now (delete_key k) r).1 (ground (arith, committed))
        (commit-HasTexts now e r d t h)
  serve-HasTexts now (put_key k v) r d t h =
      let e = entry_of Op.put k v (bumped (lookup k r.st.entries)) in
      let committed = commit_ok (calm now) e r (IsDurable-IsAlone d) refl in
      same_disk (commit (calm now) e r).1 (serve now (put_key k v) r).1 (ground (arith, committed))
        (commit-HasTexts now e r d t h)
  serve-HasTexts now (cas_key k v n) r d t h = tested (cas_version (lookup k r.st.entries) n) refl
    where
      tested :
          (o : Outcome ℕ)
          → cas_version (lookup k r.st.entries) n ≡ o
          → HasTexts (serve now (cas_key k v n) r).1.disk.journal
      tested (ok w) e =
          let le = entry_of Op.put k v w in
          let committed = commit_ok (calm now) le r (IsDurable-IsAlone d) refl in
          same_disk (commit (calm now) le r).1 (serve now (cas_key k v n) r).1
            (unfold serve in ground (arith, e, committed)) (commit-HasTexts now le r d t h)
      tested (err x) e =
          same_disk r (serve now (cas_key k v n) r).1 (unfold serve in ground (arith, e)) h

  pub serve_all-HasTexts :
      (cs : List (ℕ × Command)) (r : Raft)
      → IsDurable r
      → All (λ x. IsText (command_key x.1)) cs
      → HasTexts r.disk.journal
      → HasTexts (serve_all cs r).1.disk.journal
  unfolding serve_all
  serve_all-HasTexts [] r d t h = h
  serve_all-HasTexts ((now, c) ∷ cs) r d t h =
      serve_all-HasTexts cs (serve now c r).1 (serve-IsDurable now c r d) t.1
        (serve-HasTexts now c r d t.0 h)
