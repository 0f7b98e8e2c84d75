-- ===== src/Kv/Results.antt =====
-- The two writes of internal/primitives/db/raft.go with a result, as their callers see them on a node
-- that is alone.
use minicloud_platform.Prelude.{ℕ, ◌≡◌, refl, some, arith, Bytes, lookup, lookup-insert_self}
use minicloud_platform.Kv.State.{Op, Raft, ok}
use minicloud_platform.Kv.Apply.{bumped, apply_op}
use minicloud_platform.Kv.Ops.{commit, entry_of, put, cas_version, compare_and_swap}
use minicloud_platform.Kv.Writes.{IsAlone, commit_ok, commit-Committed, commit-IsAlone}
use minicloud_platform.Kv.Spec.{calm, new_entry}

module _ (now : ℕ) (k v : Bytes) (n : ℕ) (r : Raft) (h : IsAlone r) where
  lookup-commit :
      lookup k (commit (calm now) (entry_of Op.put k v n) r).1.st.entries
      ≡ some (new_entry now k v n)
  unfolding apply_op
  lookup-commit = ground (
    arith,
    (commit-Committed (calm now) (entry_of Op.put k v n) r h refl).st_eq,
    lookup-insert_self k (new_entry now k v n) r.st.entries,
  )

  pub cas_lem :
      (expect : ℕ)
      → cas_version (lookup k r.st.entries) expect ≡ ok n
      → ((compare_and_swap (calm now) k v expect r).0 ≡ ok (some (new_entry now k v n)))
        × (lookup k (compare_and_swap (calm now) k v expect r).1.st.entries
            ≡ some (new_entry now k v n))
        × IsAlone (compare_and_swap (calm now) k v expect r).1
  unfolding compare_and_swap
  cas_lem expect passed =
      let e = entry_of Op.put k v n in
      ground (
        arith,
        passed,
        commit_ok (calm now) e r h refl,
        lookup-commit,
        commit-IsAlone (calm now) e r h refl,
      )

pub put_lem :
    (now : ℕ) (k v : Bytes) (r : Raft)
    → IsAlone r
    → let e = new_entry now k v (bumped (lookup k r.st.entries)) in
      ((put (calm now) k v r).0 ≡ ok (some e))
      × (lookup k (put (calm now) k v r).1.st.entries ≡ some e)
      × IsAlone (put (calm now) k v r).1
unfolding put
put_lem now k v r h =
    let n = bumped (lookup k r.st.entries) in
    let e = entry_of Op.put k v n in
    ground (
      arith,
      commit_ok (calm now) e r h refl,
      lookup-commit now k v n r h,
      commit-IsAlone (calm now) e r h refl,
    )
