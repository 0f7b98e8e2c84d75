-- ===== src/Mq/Broker.antt =====
-- The broker of internal/primitives/mq/mq.go. A `*Message` is a position in its topic's `heap`, since
-- the queue, the dead letters and the retries share messages and a retry changes the headers of the
-- one that they share. What a handler answers is an argument; a wait between two rounds is no step.
use minicloud_platform.Prelude.{
  ℕ, ◌+◌, Bool, false, Option, none, some, List, [], ◌∷◌, ◌++◌, ltb, ◌==◌, if◌then◌else◌, u64,
  length, get_elem?, set, Bytes, codes, Dict, lookup, insert,
}
use minicloud_platform.Prelude.Int64.{i64, le_i64}
use minicloud_platform.Mq.Number.{read_digits, itoa}

pub record Message : Type 0 where
  pub topic : Bytes
  pub partition : ℕ
  pub offset : ℕ  -- uint64
  pub key : Bytes
  pub value : Bytes
  pub headers : Dict Bytes
  pub timestamp : ℕ

pub record Config : Type 0 where
  pub max_retries : ℕ
  pub base_backoff : ℕ
  pub max_backoff : ℕ

-- uint64 counters
pub record Stats : Type 0 where
  pub published : ℕ
  pub delivered : ℕ
  pub acked : ℕ
  pub nacked : ℕ
  pub retried : ℕ
  pub dead : ℕ

-- `groups` holds each group's cursor.
pub record Topic : Type 0 where
  pub name : Bytes
  pub next_off : ℕ
  pub heap : List Message
  pub queue : List ℕ
  pub groups : Dict ℕ
  pub dlq : List ℕ

-- A channel is a position in `chans`, which lists what each of them buffers.
pub record Mem : Type 0 where
  pub cfg : Config
  pub topics : Dict Topic
  pub dlq : Dict ℕ
  pub chans : List (List ℕ)
  pub stopped : Bool
  pub st : Stats

-- the defaults of `Open`, and `newMem`
unfoldable pub open_broker : Config → Mem
open_broker cfg = record {
  cfg = record {
    max_retries = if cfg.max_retries == 0 then 5 else cfg.max_retries;
    base_backoff = if cfg.base_backoff == 0 then 100000000 else cfg.base_backoff;
    max_backoff = if cfg.max_backoff == 0 then 30000000000 else cfg.max_backoff;
  };
  topics = [];
  dlq = [];
  chans = [];
  stopped = false;
  st = record { published = 0; delivered = 0; acked = 0; nacked = 0; retried = 0; dead = 0 };
}

abbrev pub new_topic : Bytes → Topic
new_topic name = record { name = name; next_off = 0; heap = []; queue = []; groups = []; dlq = [] }

-- `make(chan *Message, 1024)`, registered for a topic
unfoldable pub make_dlq : Bytes → Mem → Mem
make_dlq name m = record m { dlq = insert name (length m.chans) m.dlq; chans = m.chans ++ [] ∷ [] }

unfoldable pub get_or_create_topic : Bytes → Mem → Topic × Mem
unfolding make_dlq
get_or_create_topic name m = elim (lookup name m.topics) [
  | some t ↦ (t, m)
  | none ↦
      (new_topic name, make_dlq name (record m { topics = insert name (new_topic name) m.topics }))
]

-- `t.nextOff++`, and the append of a new message
unfoldable pub enqueue : Bytes → Bytes → Dict Bytes → ℕ → Topic → Topic
enqueue key value headers now t = record t {
  next_off = u64 (t.next_off + 1);
  heap =
      t.heap
      ++ record {
        topic = t.name;
        partition = 0;
        offset = u64 (t.next_off + 1);
        key = key;
        value = value;
        headers = headers;
        timestamp = now;
      }
        ∷ [];
  queue = t.queue ++ length t.heap ∷ [];
}

unfoldable pub publish : Bytes → Bytes → Bytes → Dict Bytes → ℕ → Mem → Mem
unfolding get_or_create_topic enqueue
publish name key value headers now m =
    let (t, m') = get_or_create_topic name m in
    record m' {
      topics = insert name (enqueue key value headers now t) m'.topics;
      st = record m'.st { published = u64 (m'.st.published + 1) };
    }

-- `DLQ`: the channel of the topic, made if there is none
unfoldable pub dead_letters : Bytes → Mem → ℕ × Mem
unfolding make_dlq
dead_letters name m = elim (lookup name m.dlq) [
  | some c ↦ (c, m)
  | none ↦ (length m.chans, make_dlq name m)
]

-- the part of `Subscribe` before its goroutine
unfoldable pub subscribe : Bytes → Bytes → Mem → Mem
unfolding get_or_create_topic
subscribe name group m =
    let (t, m') = get_or_create_topic name m in
    elim (lookup group t.groups) [
      | some _ ↦ m'
      | none ↦ record m' {
        topics = insert name (record t { groups = insert group 0 t.groups }) m'.topics;
      }
    ]

-- How one call of `deliverOnce` ends. `crashed` is a panic of `itoa`.
pub data Fate : Type 0 where
  idle acked retried crashed : Fate
  dead : ℕ → Fate

abbrev pub retries_key : Bytes
retries_key = codes "retries"

-- the count that the headers hold, 0 if they hold none
unfoldable pub retries_of : Message → ℕ
unfolding read_digits
retries_of m = elim (lookup retries_key m.headers) [ none ↦ 0 | some v ↦ read_digits 0 v ]

-- The new headers are made first and then copied into themselves: only the counter is left.
unfoldable pub with_retries : Bytes → Message → Message
with_retries count m = record m { headers = insert retries_key count [] }

-- the retry: the shared message is changed, and its pointer goes to the end of the queue
unfoldable pub requeue : ℕ → Message → Option Bytes → Topic → Fate × Topic
unfolding with_retries
requeue p mv none t = (crashed, t)
requeue p mv (some count) t =
    (retried, record t { heap = set t.heap p (with_retries count mv); queue = t.queue ++ p ∷ [] })

unfoldable pub on_error : Config → ℕ → Message → Topic → Fate × Topic
unfolding requeue
on_error cfg p mv t =
    if le_i64 cfg.max_retries (retries_of mv)
    then (dead p, record t { dlq = t.dlq ++ p ∷ [] })
    else requeue p mv (itoa (i64 (retries_of mv + 1))) t

-- A delivery of the message at `p`: `ok` says whether the handler returned nil.
unfoldable pub hand_over : Config → Bool → ℕ → Option Message → Topic → Fate × Topic
unfolding on_error
hand_over cfg ok p none t = (idle, t)
hand_over cfg ok p (some mv) t = if ok then (acked, t) else on_error cfg p mv t

-- `deliverOnce` on the topic, for a group with this cursor
unfoldable pub deliver_at : Config → Bool → Bytes → ℕ → Topic → Fate × Topic
unfolding hand_over
deliver_at cfg ok group cursor t = elim (get_elem? t.queue cursor) [
  | none ↦ (idle, t)
  | some p ↦
      hand_over cfg ok p (get_elem? t.heap p)
        (record t { groups = insert group (cursor + 1) t.groups })
]

-- the group that `Subscribe` made
unfoldable pub deliver : Config → Bool → Bytes → Topic → Fate × Topic
unfolding deliver_at
deliver cfg ok group t = elim (lookup group t.groups) [
  | none ↦ (idle, t)
  | some cursor ↦ deliver_at cfg ok group cursor t
]

-- the counters that a delivery bumps
unfoldable pub tally : Fate → Stats → Stats
tally idle s = s
tally crashed s = record s { delivered = u64 (s.delivered + 1) }
tally acked s = record s { delivered = u64 (s.delivered + 1); acked = u64 (s.acked + 1) }
tally retried s = record s { delivered = u64 (s.delivered + 1); retried = u64 (s.retried + 1) }
tally (dead p) s = record s { delivered = u64 (s.delivered + 1); dead = u64 (s.dead + 1) }

-- a send that is dropped when the channel is full
unfoldable pub send : ℕ → ℕ → List (List ℕ) → List (List ℕ)
send c p chans = elim (get_elem? chans c) [
  | none ↦ chans
  | some buffered ↦ if ltb (length buffered) 1024 then set chans c (buffered ++ p ∷ []) else chans
]

-- the send of `toDLQ`
unfoldable pub notify : Fate → Bytes → Mem → Mem
unfolding send
notify (dead p) name m = elim (lookup name m.dlq) [
  | none ↦ m
  | some c ↦ record m { chans = send c p m.chans }
]
notify _ name m = m

unfoldable pub deliver_once : Bool → Bytes → Bytes → Mem → Fate × Mem
unfolding deliver tally notify
deliver_once ok name group m = elim (lookup name m.topics) [
  | none ↦ (idle, m)
  | some t ↦
      let (fate, t') = deliver m.cfg ok group t in
      (fate, notify fate name (record m { topics = insert name t' m.topics; st = tally fate m.st }))
]
