-- ===== src/Lib.antt =====
-- The mini cloud platform: a model of its Go code and the theorems that its parts keep.
--
-- The platform is a control plane in Go. Desired state is kept in a replicated key-value store
-- (internal/primitives/db). One controller is elected leader through a key of that store
-- (internal/util/leader) and asks the scheduler (internal/scheduler) where to place the replicas
-- of a workload. Services are found by a DNS server (internal/dns) that renders its zone from the
-- records of the store. The parts pass messages through a broker (internal/primitives/mq) and
-- report to an observability package (internal/primitives/obs). The agent of a node
-- (internal/nodeagent) reports to the store and brings its container runtime
-- (internal/primitives/runtime) to the placements that the controller (internal/controller) stores.
-- Users reach the records through a REST interface (internal/apis/v1), which asks the identity service
-- (internal/identity) who they are and what they may do.
--
-- Which file models what:
--   * Prelude: lists, maps and tests on the native numbers, strings as lists of bytes (Text, Split), maps
--     as association lists with one entry for each key (Maps), and signed 64-bit integers as bit
--     patterns (Int64). An unsigned 64-bit sum wraps, as `u64` says. A call that returns a value or an
--     error is of the type of Fallible.
--   * Kv: internal/primitives/db/kv.go and raft.go. State has the structs; Apply the map and
--     applyLocked, applyFromQueue and fanout; Journal has append, recover, snapshot and openRaft;
--     Ops has Get, Put, Delete, CompareAndSwap, List, Watch, replicate, the peers, elect and run.
--     A function that takes the lock is one function on the state. CompareAndSwap gives the read lock
--     up between its tests and its write, and Races has both halves as steps of two clients. Spec
--     is the abstract map, and Refinement relates the two. Replay, Durable and Restart are about
--     stops and restarts, Texts about the keys that JSON keeps, SnapshotLoss about restarts behind a snapshot, Quorum about nodes
--     with peers, Listing about the order of List. What the disk, the clock and the peers answer is an
--     argument of each call; a failed write leaves no partial record in the journal. In a key, JSON
--     replaces what is not UTF-8, which is a parameter.
--   * Mq: internal/primitives/mq/mq.go. Broker has Publish, Subscribe, deliverOnce and the dead-letter
--     channels, with messages as positions in a heap, since a retry changes the message that the
--     queue and the dead letters share. Number is itoa and the reader of the retry header.
--     What the handler answers is an argument. deliver_all makes as many rounds as it is given;
--     Drain has the number of rounds that is enough.
--   * Leader: internal/util/leader/leader.go and codec.go over the store of Kv. A tick is one function;
--     the codec is a parameter whose law is that a record is read back as it was written.
--   * Scheduler: internal/scheduler/scheduler.go. Match has the filters, Place the scores, the
--     placement loop, Plan and ValidateWorkload. float64 is a parameter. The rounds of the
--     loop are counted down from Replicas.
--   * Obs: the log buffer of internal/primitives/obs/metrics.go and the alerts of alerts.go beside it.
--     Logs has NewLogs, Append and Tail; Alerts has the expressions and one rule of Evaluate, and Rules
--     its passes over all rules.
--     An access out of bounds, on which Go panics, has no result.
--   * Dns: internal/dns/dns.go. Names has readName and writeName, Query has handleQuery, Zone has
--     refreshZone. readName is recursion on fuel, one unit for each label and each pointer;
--     RoundTrip has the fuel that is enough, and Malformed the names for which none is.
--   * Identity: internal/identity/identity.go. Rules has matchPart, matchRule, HasPermission, RulesFor
--     and Authorize; Tokens has signToken, VerifyToken and AuthAPIKey; Accounts has CreateUser,
--     BootstrapAdmin, VerifyPassword, Login and IssueAPIKey. HMAC, SHA-256, bcrypt, base64 and JSON
--     are parameters with the round trips that the code relies on; the random bytes are arguments.
--   * Autoscale: internal/autoscale/autoscale.go. Policies has SetPolicy, RemovePolicy and evaluateOne.
--   * Lb: internal/lb/lb.go. Balancer has pick, the counts of handle, refresh and healthCheck. A pointer
--     to a backend is a position, since refresh reuses the array.
--   * Retry: internal/util/retry/retry.go. Backoff has Do, by recursion on the attempts that are left;
--     its parameter Job has the operation, the context and the delays by attempt.
--   * Apis: internal/apis/v1/api.go. Http has requests, responses and what a server is given; Resources and
--     People have the handlers; Server has the routes and authRequired. Guard is about who can
--     change the store, Created about what is listed, Issued about API keys.
--   * Controller: internal/controller/controller.go, and Reconcile of scheduler.go beside it. A call of the
--     notifier is answered by whether it returned no error.
--   * Runtime: internal/primitives/runtime. Fake has the in-memory runtime, with pointers to containers as
--     positions in a heap. The goroutines of Start are steps of a relation, in Steps, between two of
--     their waits; a panic ends the process, so a run has none. Sound and Keys have the
--     invariant, Leaks the faults of the goroutines.
--   * Nodeagent: internal/nodeagent/agent.go over that runtime and the store of the controller. Apply changes
--     the runtime and nothing else. Drain puts it together with the plans of the scheduler.
--   * Obs also has the metrics: Registry and Exposition are the rest of internal/primitives/obs/metrics.go,
--     and Histogram is about Observe.
--   * Secret: internal/secret/secrets.go (Cipher) and internal/config/config.go (Env).
--   * Storage: internal/storage. Paths has what the code uses of path/filepath; Objects and Presign are
--     object/object.go, Volumes is volume/volume.go. Calls has the chains of calls of the metadata store and
--     of the files, both of which are parameters with the laws that Keeps and KeepsFiles name. Reads and
--     Snapshots say what is read afterwards.
--   * Llm: internal/primitives/llm and the front-end of internal/inference/inference.go.
--
-- Not modelled: the package internal/state, which is not in the repository (records of the model have
-- the fields that the code reads, and its calls are parameters); goroutines, timers and sockets, but
-- for the orders of steps named above; the bytes of JSON and the headers of HTTP; the commands; the
-- commands of the host that make networks.
mod Prelude
pub mod Kv
pub mod Mq
pub mod Leader
pub mod Scheduler
pub mod Obs
pub mod Dns
pub mod Identity
pub mod Autoscale
pub mod Lb
pub mod Retry
pub mod Apis
pub mod Controller
pub mod Runtime
pub mod Nodeagent
pub mod Secret
pub mod Storage
pub mod Llm
