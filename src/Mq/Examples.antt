-- ===== src/Mq/Examples.antt =====
-- Runs of the broker of internal/primitives/mq at concrete inputs.
use minicloud_platform.Prelude.{
  ◌≡◌, refl, ◌≢◌, false, [], ◌∷◌, arith, All, codes, same, lookup, insert,
}
use minicloud_platform.Mq.Number.{itoa, fill}
use minicloud_platform.Mq.Broker.{
  Message, Config, Topic, Mem, idle, retried, crashed, dead, retries_key, retries_of, open_broker,
  deliver,
}
use minicloud_platform.Mq.Budget.{IsPlain, Kept, deliver-Kept}
use minicloud_platform.Mq.Drain.{deliver_all, deliver_all_ends}

abbrev two_retries : Config
two_retries = record { max_retries = 2; base_backoff = 1; max_backoff = 1 }

abbrev traced : Message
traced = record {
  topic = codes "jobs";
  partition = 0;
  offset = 1;
  key = codes "k";
  value = codes "v";
  headers = (codes "trace", codes "t1") ∷ [];
  timestamp = 3;
}

-- one message, and a group that has seen none
abbrev jobs : Topic
jobs = record {
  name = codes "jobs";
  next_off = 1;
  heap = traced ∷ [];
  queue = 0 ∷ [];
  groups = (codes "g", 0) ∷ [];
  dlq = [];
}

abbrev retried_once : Message
retried_once = record traced { headers = (retries_key, codes "1") ∷ [] }

-- a failing handler: the message is put back with its counter
first_failure : deliver two_retries false (codes "g") jobs ≡ (
  retried,
  record jobs { heap = retried_once ∷ []; queue = 0 ∷ 0 ∷ []; groups = (codes "g", 1) ∷ [] },
)
unfolding deliver itoa fill retries_of lookup insert same
first_failure = refl

-- after the third failure it is dead
third_failure :
    (deliver two_retries false
      (codes "g")
      (deliver_all two_retries (false ∷ false ∷ []) (codes "g") jobs)).0
    ≡ dead 0
unfolding deliver deliver_all itoa fill retries_of lookup insert same
third_failure = refl

jobs_plain : All IsPlain jobs.heap
unfolding retries_of lookup same
jobs_plain = omega arith

deliver-Kept_example :
    Kept 2 jobs (deliver two_retries false (codes "g") jobs).1
    × ((deliver two_retries false (codes "g") jobs).0 ≢ crashed)
deliver-Kept_example = deliver-Kept two_retries (omega arith) false (codes "g") jobs jobs_plain

deliver_all_ends_example :
    let end = deliver_all two_retries (false ∷ false ∷ false ∷ []) (codes "g") jobs in
    deliver two_retries false (codes "g") end ≡ (idle, end)
unfolding retries_of lookup same
deliver_all_ends_example =
    deliver_all_ends two_retries (omega arith) (false ∷ false ∷ false ∷ []) false (codes "g") 0 jobs
      jobs_plain refl (omega arith)

abbrev broker : Mem
broker = record (open_broker two_retries) { topics = (codes "jobs", jobs) ∷ [] }

-- the header `trace` does not survive the first failure
