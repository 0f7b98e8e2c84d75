-- ===== src/Kv/Races.antt =====
-- Two clients of `CompareAndSwap` in internal/primitives/db/raft.go. The tests are made under the
-- read lock, which is given up before the entry is appended: between the two, others may write.
use minicloud_platform.Prelude.{
  ℕ, ◌+◌, ◌≡◌, refl, ap, ◌∙◌, ◌≢◌, Option, some, arith, Bytes, lookup, lookup-insert_self,
}
use minicloud_platform.Kv.State.{cas_mismatch, Entry, Op, Raft, Outcome, ok, err, continue}
use minicloud_platform.Kv.Apply.{apply_op}
use minicloud_platform.Kv.Ops.{entry_of, cas_version, cas_write, compare_and_swap}
use minicloud_platform.Kv.Writes.{IsAlone, commit_ok, commit-Committed, commit-IsAlone}
use minicloud_platform.Kv.Spec.{calm, new_entry}

pub record Call : Type 0 where
  pub key : Bytes
  pub value : Bytes
  pub expect : ℕ

-- where a client stands in its call
pub data Phase : Type 0 where
  called : Phase
  tested : ℕ → Phase
  returned : Outcome (Option Entry) → Phase

pub record World : Type 0 where
  pub node : Raft
  pub first : Phase
  pub second : Phase

abbrev pub after_test : Outcome ℕ → Phase
after_test (ok n) = tested n
after_test (err x) = returned (err x)

-- one uninterrupted piece of a call, at the time `now`
abbrev pub advance : ℕ → Call → Phase → Raft → Phase × Raft
advance now c called r = (after_test (cas_version (lookup c.key r.st.entries) c.expect), r)
advance now c (tested n) r =
    let (o, r') = cas_write (calm now) c.key c.value n r in (returned o, r')
advance now c (returned o) r = (returned o, r)

abbrev pub advance_first : ℕ → Call → World → World
advance_first now c w =
    let (p, r) = advance now c w.first w.node in record w { node = r; first = p }

abbrev pub advance_second : ℕ → Call → World → World
advance_second now c w =
    let (p, r) = advance now c w.second w.node in record w { node = r; second = p }

-- Either client goes on, as the environment chooses.
pub data Step (c d : Call) : World → World → Type 0 where
  first_step : (now : ℕ) (w : World) → Step c d w (advance_first now c w)
  second_step : (now : ℕ) (w : World) → Step c d w (advance_second now d w)

pub data Reach (c d : Call) (w : World) : World → Type 0 where
  here : Reach c d w w
  next : {u v : World} → Reach c d w u → Step c d u v → Reach c d w v

abbrev pub start : Raft → World
start r = record { node = r; first = called; second = called }

-- both test, then both write
abbrev pub interleaved : ℕ → Call → Call → Raft → World
interleaved now c d r =
    advance_second now d
      (advance_first now c (advance_second now d (advance_first now c (start r))))

Reach-interleaved : (now : ℕ) (c d : Call) (r : Raft) → Reach c d (start r) (interleaved now c d r)
Reach-interleaved now c d r =
    next (next (next (next here (first_step now _)) (second_step now _)) (first_step now _))
      (second_step now _)

cas_write_ok :
    (now : ℕ) (c : Call) (n : ℕ) (r : Raft)
    → IsAlone r
    → ((cas_write (calm now) c.key c.value n r).0 ≡ ok (some (new_entry now c.key c.value n)))
      × IsAlone (cas_write (calm now) c.key c.value n r).1
unfolding cas_write apply_op
cas_write_ok now c n r h =
    let w = entry_of Op.put c.key c.value n in
    let committed = commit_ok (calm now) w r h refl in
    let state = commit-Committed (calm now) w r h refl in
    (
      ground (
        arith,
        committed,
        state.st_eq,
        lookup-insert_self c.key (new_entry now c.key c.value n) r.st.entries,
      ),
      ground (arith, committed, commit-IsAlone (calm now) w r h refl),
    )

-- Two calls of CompareAndSwap on one key, which both expect the version that the key has, can both
-- return success with the same new version: the tests of both come before the writes.
pub both_swap :
    (now : ℕ) (c d : Call) (n : ℕ) (r : Raft)
    → IsAlone r
    → d.key ≡ c.key
    → d.expect ≡ c.expect
    → cas_version (lookup c.key r.st.entries) c.expect ≡ ok n
    → (w : World) × Reach c d (start r) w
      × (w.first ≡ returned (ok (some (new_entry now c.key c.value n))))
      × (w.second ≡ returned (ok (some (new_entry now d.key d.value n))))
both_swap now c d n r h k e passed =
    let one = cas_write_ok now c n r h in
    let two = cas_write_ok now d n (cas_write (calm now) c.key c.value n r).1 one.1 in
    let passed' : cas_version (lookup d.key r.st.entries) d.expect ≡ ok n = rw (k, e) passed in
    (
      interleaved now c d r,
      Reach-interleaved now c d r,
      rw passed (ap returned one.0),
      rw (passed, passed') (ap returned two.0),
    )

version_after :
    (now : ℕ) (k v : Bytes) (expect : ℕ) (r : Raft)
    → IsAlone r
    → cas_version (lookup k r.st.entries) expect ≡ ok (expect + 1)
    → lookup k (compare_and_swap (calm now) k v expect r).1.st.entries
      ≡ some (new_entry now k v (expect + 1))
unfolding compare_and_swap cas_write apply_op
version_after now k v expect r h passed =
    let w = entry_of Op.put k v (expect + 1) in
    ground (
      arith,
      passed,
      commit_ok (calm now) w r h refl,
      (commit-Committed (calm now) w r h refl).st_eq,
      lookup-insert_self k (new_entry now k v (expect + 1)) r.st.entries,
    )

refused :
    (expect : ℕ) (e : Entry) → e.version ≢ expect → cas_version (some e) expect ≡ err cas_mismatch
unfolding cas_version
refused expect e h = ground arith

-- Without interleaving, the second of two calls that expect the same version is refused and changes
-- nothing, if the first one has passed its tests and its version did not wrap.
pub compare_and_swap_once :
    (now later : ℕ) (k v v' : Bytes) (expect : ℕ) (r : Raft)
    → IsAlone r
    → cas_version (lookup k r.st.entries) expect ≡ ok (expect + 1)
    → let r' = (compare_and_swap (calm now) k v expect r).1 in
      compare_and_swap (calm later) k v' expect r' ≡ (err cas_mismatch, r')
unfolding compare_and_swap
compare_and_swap_once now later k v v' expect r h passed =
    let r' = (compare_and_swap (calm now) k v expect r).1 in
    ap (λ o. continue (cas_version o expect) (cas_write (calm later) k v') r')
      (version_after now k v expect r h passed)
    ∙ ap (λ o. continue o (cas_write (calm later) k v') r')
        (refused expect (new_entry now k v (expect + 1)) (omega arith))
