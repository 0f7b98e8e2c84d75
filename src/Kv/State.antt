-- ===== src/Kv/State.antt =====
-- The types of internal/primitives/db: kv.go, and the structs of raft.go. Times are numbers of
-- nanoseconds. A lock is held for the whole of each function that is modelled as one step.
use minicloud_platform.Prelude.{ℕ, Bool, Option, List, Bytes, Dict}

-- `ErrNotFound`, `ErrCASMismatch`, and the other errors that the operations return.
pub data Error : Type 0 where
  not_found cas_mismatch : Error
  journal_closed journal_write journal_sync : Error
  replication_timeout : Error
  node_id_required data_dir_required : Error

pub record Entry : Type 0 where
  pub key : Bytes
  pub value : Bytes
  pub version : ℕ  -- uint64
  pub deleted : Bool
  pub created_at : ℕ

pub record Peer : Type 0 where
  pub id : Bytes
  pub address : Bytes

pub record Config : Type 0 where
  pub node_id : Bytes
  pub data_dir : Bytes
  pub listen : Bytes
  pub bootstrap : Bool
  pub peers : List Peer

-- `Snapshot` of kv.go
pub record View : Type 0 where
  pub revision : ℕ
  pub entries : List Entry

pub data Role : Type 0 where
  follower candidate leader : Role

-- the values of the string `Op` that the code writes
pub data Op : Type 0 where
  put del : Op

pub record LogEntry : Type 0 where
  pub index : ℕ
  pub term : ℕ
  pub op : Op
  pub key : Bytes
  pub value : Bytes
  pub version : ℕ

pub record RaftSnapshot : Type 0 where
  pub term : ℕ
  pub index : ℕ
  pub state : Dict Entry

pub record Store : Type 0 where
  pub entries : Dict Entry
  pub version : ℕ

-- `ch` is what the channel buffers: 256 entries at most.
pub record Watcher : Type 0 where
  pub prefix : Bytes
  pub ch : List Entry

pub record Metrics : Type 0 where
  pub puts : ℕ
  pub dels : ℕ
  pub applied : ℕ

-- The data directory: the records of journal.jsonl, and snap.json if there is one.
pub record Disk : Type 0 where
  pub journal : List LogEntry
  pub snap : Option RaftSnapshot

pub record Raft : Type 0 where
  pub cfg : Config
  pub role : Role
  pub current_term : ℕ
  pub voted_for : Bytes
  pub log : List LogEntry
  pub commit_index : ℕ
  pub last_applied : ℕ
  pub peers : List Peer
  pub next_index : Dict ℕ
  pub match_index : Dict ℕ
  pub st : Store
  pub disk : Disk
  pub journal_open : Bool  -- whether the handle `journal` can be written
  pub apply_signal : Bool  -- whether `applyCh`, of capacity 1, is full
  pub apply_queue : List (Option Entry)
  pub watchers : Dict (List Watcher)
  pub mets : Metrics

pub data Outcome (A : Type 0) : Type 0 where
  ok : A → Outcome A
  err : Error → Outcome A

-- A call that may fail. What was written before a failure stays written.
abbrev pub Action : Type 0 → Type 0
Action A = Raft → Outcome A × Raft

module _ {A B : Type 0} where
  abbrev pub continue : Outcome A → (A → Action B) → Action B
  continue (ok a) f r = f a r
  continue (err e) f r = (err e, r)

  infixl 5 ◌>>=◌
  abbrev pub ◌>>=◌ : Action A → (A → Action B) → Action B
  ◌>>=◌ m f r = continue (m r).0 f (m r).1

infixl 5 ◌>>◌
abbrev pub ◌>>◌ : {B : Type 0} → Action (Unit {0}) → Action B → Action B
m >> k = m >>= λ _. k

abbrev pub gets : {A : Type 0} → (Raft → A) → Action A
gets f r = (ok (f r), r)

abbrev pub modify : (Raft → Raft) → Action (Unit {0})
modify f r = (ok tt, f r)
